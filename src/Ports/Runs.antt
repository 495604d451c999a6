-- ===== src/Ports/Runs.antt =====
-- Sequences of calls of the allocator's entry points.
use hm_platform.Base.{
  ℕ, ◌≡◌, inl, inr, List, [], ◌∷◌, Option, some, arith, ◌>>=◌, >>=-eq-some, some_unique, subst,
  subst₃, dec_lt, ◌+◌, ◌-◌,
}
use hm_platform.Ports.{
  PortsCtl, set_range, set_reserved, get_one, put_one, get_pair, put_pair, PairResult,
}
use hm_platform.Ports.Inv.{IsValid, set_range_lem}
use hm_platform.Ports.Moves.{Same, Took-put_one, Took-Took-put_one}
use hm_platform.Ports.One.{get_one_lem}
use hm_platform.Ports.Pair.{GotPair, Pairs, get_pair_lem}
use hm_platform.Ports.Reserve.{set_reserved_lem, put_one-Gave}

-- The entry points jpf_media_ports_*, with what each is given.
pub data Call : Type 0 where
  sets_range : ℕ → ℕ → Call
  reserves : ℕ → Call
  gets_one : Call
  puts_one : ℕ → Call
  gets_pair : Call
  puts_pair : ℕ → ℕ → Call

-- The state after a call; `none` where the call aborts the process.
unfoldable pub step : PortsCtl → Call → Option PortsCtl
step pc (sets_range low hi) = set_range pc low hi
step pc (reserves port) = set_reserved pc port
step pc gets_one = do r ← get_one pc; some r.1
step pc (puts_one port) = put_one pc port
step pc gets_pair = do r ← get_pair pc; some r.1
step pc (puts_pair low hi) = put_pair pc low hi

unfoldable pub run : PortsCtl → List Call → Option PortsCtl
run pc [] = some pc
run pc (c ∷ cs) = do pc' ← step pc c; run pc' cs

set_range-IsValid :
    (pc : PortsCtl) (low hi : ℕ) {pc' : PortsCtl}
    → IsValid pc
    → set_range pc low hi ≡ some pc'
    → IsValid pc'
set_range-IsValid pc low hi v e = elim (dec_lt low hi) [
  | yes h ↦ elim (dec_lt 0 low) [
    | yes k ↦
        let (pc1, p, r) = (set_range_lem pc low hi v).0 k h in
        subst IsValid (some_unique p e) r.valid
    | no k ↦ absurd (ground (arith, e, (set_range_lem pc low hi v).1 (inl (omega arith))))
  ]
  | no h ↦ absurd (ground (arith, e, (set_range_lem pc low hi v).1 (inr (omega arith))))
]

set_reserved-IsValid :
    (pc : PortsCtl) (port : ℕ) {pc' : PortsCtl}
    → IsValid pc
    → set_reserved pc port ≡ some pc'
    → IsValid pc'
set_reserved-IsValid pc port v e = elim (dec_lt port pc.min) [
  | yes h ↦ subst IsValid (some_unique ((set_reserved_lem pc port v).1 (inl h)) e) v
  | no h ↦ elim (dec_lt port pc.max) [
    | yes k ↦
        let (pc1, p, r) = (set_reserved_lem pc port v).0 (omega arith) k in
        subst IsValid (some_unique p e) r.valid
    | no k ↦ subst IsValid (some_unique ((set_reserved_lem pc port v).1 (inr (omega arith))) e) v
  ]
]

get_one-IsValid :
    (pc : PortsCtl) {r : Option ℕ × PortsCtl} → IsValid pc → get_one pc ≡ some r → IsValid r.1
get_one-IsValid pc v e = elim (dec_lt (pc.used + pc.reserved) (pc.max - pc.min)) [
  | yes h ↦ let (port, pc', q, t) = (get_one_lem pc v).0 h in ground (arith, e, q, t.valid)
  | no h ↦ ground (arith, e, (get_one_lem pc v).1 (omega arith))
]

Pairs-IsValid :
    {pc pc' : PortsCtl} {r : PairResult} (got : Option (ℕ × ℕ))
    → Pairs pc r
    → r ≡ some (got, pc')
    → IsValid pc'
Pairs-IsValid got (Pairs.pair low hi pc1 p g) e =
    subst IsValid (ground (arith, p, e)) g.took_high.valid
Pairs-IsValid got (Pairs.nothing pc1 p s) e = subst IsValid (ground (arith, p, e)) s.valid

step-IsValid :
    (pc : PortsCtl) (c : Call) {pc' : PortsCtl} → IsValid pc → step pc c ≡ some pc' → IsValid pc'
unfolding step put_pair
step-IsValid pc (sets_range low hi) v e = set_range-IsValid pc low hi v e
step-IsValid pc (reserves port) v e = set_reserved-IsValid pc port v e
step-IsValid pc gets_one v e =
    let (r, p, q) = >>=-eq-some (get_one pc) _ e in ground (arith, q, get_one-IsValid pc v p)
step-IsValid pc (puts_one port) v e = (put_one-Gave pc port v e).valid
step-IsValid pc gets_pair v e =
    let (r, p, q) = >>=-eq-some (get_pair pc) _ e in
    subst IsValid (ground (arith, q)) (Pairs-IsValid r.0 (get_pair_lem pc v) p)
step-IsValid pc (puts_pair low hi) v e =
    let (pc1, p, q) = >>=-eq-some (put_one pc low) _ e in
    (put_one-Gave pc1 hi (put_one-Gave pc low v p).valid q).valid

-- Every state that a sequence of calls reaches, whatever it gives back and reserves, is valid: the
-- map has a bit for each port of the range, `next` lies in the range, and as many bits are set as
-- `used` and `reserved` count.
pub run-IsValid :
    (pc : PortsCtl) (cs : List Call) {pc' : PortsCtl}
    → IsValid pc
    → run pc cs ≡ some pc'
    → IsValid pc'
unfolding run
run-IsValid pc [] v e = subst IsValid (ground (arith, e)) v
run-IsValid pc (c ∷ cs) v e =
    let (pc1, p, q) = >>=-eq-some (step pc c) _ e in run-IsValid pc1 cs (step-IsValid pc c v p) q

Pairs-GotPair :
    {pc pc' : PortsCtl} {r : PairResult} (low hi : ℕ)
    → Pairs pc r
    → r ≡ some (some (low, hi), pc')
    → GotPair pc low hi pc'
Pairs-GotPair {pc} low hi (Pairs.pair low' hi' pc1 p g) e =
    subst₃ (GotPair pc) (ground (arith, p, e)) (ground (arith, p, e)) (ground (arith, p, e)) g
Pairs-GotPair low hi (Pairs.nothing pc1 p s) e = absurd (ground (arith, p, e))

-- The pair that `get_pair` gives can be given back, and then the map and the counters are those
-- from before.
pub put_pair-get_pair :
    (pc : PortsCtl) (low hi : ℕ) {pc1 : PortsCtl}
    → IsValid pc
    → get_pair pc ≡ some (some (low, hi), pc1)
    → (pc2 : PortsCtl) × (put_pair pc1 low hi ≡ some pc2) × Same pc pc2
unfolding put_pair
put_pair-get_pair pc low hi v e =
    let g = Pairs-GotPair low hi (get_pair_lem pc v) e in
    let (pc2, p, t) = Took-Took-put_one low hi g.took_low g.took_high in
    let (pc3, q, s) = Took-put_one hi t in (pc3, ground (arith, p, q), s)
