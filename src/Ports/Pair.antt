-- ===== src/Ports/Pair.antt =====
-- The allocation of an even port with the one above it.
use hm_platform.Base.{
  ℕ, zero, suc, ◌+◌, ◌-◌, ◌%◌, ◌≡◌, refl, inl, inr, none, some, arith, Bool-cases, ◌==◌, dec_lt,
  ltb,
}
use hm_platform.Ports.{
  PortsCtl, PairResult, get_one, low_round, high_round, pair_loops, get_pair, is_odd, fail_putting,
}
use hm_platform.Ports.Inv.{IsValid}
use hm_platform.Ports.Moves.{
  Same, Took, Same-refl, Same-trans, Same-Took, Took-put_one, Took-Took-put_one,
}
use hm_platform.Ports.One.{get_one_lem}

-- What a search for a pair gives from a state: two adjacent ports, the lower one even, that were
-- free and are now in use; or none, and then at most `next` has moved.
pub record GotPair (pc : PortsCtl) (low hi : ℕ) (pc' : PortsCtl) : Type 0 where
  pub between : PortsCtl
  pub took_low : Took pc low between
  pub took_high : Took between hi pc'
  pub even : low % 2 ≡ 0
  pub adjacent : hi ≡ low + 1

pub data Pairs (pc : PortsCtl) (r : PairResult) : Type 0 where
  pair :
      (low hi : ℕ) (pc' : PortsCtl)
      → r ≡ some (some (low, hi), pc')
      → GotPair pc low hi pc'
      → Pairs pc r
  nothing : (pc' : PortsCtl) → r ≡ some (none, pc') → Same pc pc' → Pairs pc r

Pairs-Same : {a b : PortsCtl} {r : PairResult} → Same a b → Pairs b r → Pairs a r
Pairs-Same s (pair low hi pc' e g) = pair low hi pc' e (record {
  between = g.between;
  took_low = Same-Took low s g.took_low;
  took_high = g.took_high;
  even = g.even;
  adjacent = g.adjacent;
})
Pairs-Same s (nothing pc' e t) = nothing pc' e (Same-trans s t)

-- What the two inner loops promise.
abbrev LowSpec : (PortsCtl → PairResult) → Type 0
LowSpec lower = (pc : PortsCtl) → IsValid pc → Pairs pc (lower pc)

abbrev HighSpec : (ℕ → PortsCtl → PairResult) → Type 0
HighSpec higher =
    (pc pc1 : PortsCtl) (low : ℕ) → Took pc low pc1 → low % 2 ≡ 0 → Pairs pc (higher low pc1)

fail_putting_lem : HighSpec (λ low pc. fail_putting pc low)
fail_putting_lem pc pc1 low t even =
    let (pc2, e, s) = Took-put_one low t in nothing pc2 (ground (arith, e)) s

module _ (lower : PortsCtl → PairResult) (higher : ℕ → PortsCtl → PairResult)
    (low_ok : LowSpec lower) (high_ok : HighSpec higher) where
  low_found :
      (pc pc1 : PortsCtl) (low : ℕ)
      → get_one pc ≡ some (some low, pc1)
      → Took pc low pc1
      → Pairs pc (low_round lower higher pc)
  unfolding low_round
  low_found pc pc1 low e t = elim (Bool-cases (is_odd low)) [
    | inl odd ↦
        let (pc2, p, s) = Took-put_one low t in rw (e, odd, p) (Pairs-Same s (low_ok pc2 s.valid))
    | inr ev ↦ rw (e, ev) (high_ok pc pc1 low t (ground arith))
  ]

  low_round_lem : LowSpec (low_round lower higher)
  unfolding low_round
  low_round_lem pc v = elim (dec_lt (pc.used + pc.reserved) (pc.max - pc.min)) [
    | yes h ↦ let (low, pc1, e, t) = (get_one_lem pc v).0 h in low_found pc pc1 low e t
    | no h ↦ nothing pc (rw ((get_one_lem pc v).1 (omega arith))) (Same-refl v)
  ]

  high_found :
      (pc pc1 pc2 : PortsCtl) (low hi : ℕ)
      → Took pc low pc1
      → low % 2 ≡ 0
      → get_one pc1 ≡ some (some hi, pc2)
      → Took pc1 hi pc2
      → Pairs pc (high_round lower higher low pc1)
  unfolding high_round
  high_found pc pc1 pc2 low hi t even e u = elim (Bool-cases (hi == low + 1)) [
    | inl adj ↦ pair low hi pc2 (rw (e, adj)) (record {
      between = pc1;
      took_low = t;
      took_high = u;
      even = even;
      adjacent = ground arith;
    })
    | inr far ↦
        let (pc3, p, w) = Took-Took-put_one low hi t u in
        elim (Bool-cases (is_odd hi)) [
          | inl odd ↦
              let (pc4, q, s) = Took-put_one hi w in
              rw (e, far, p, odd, q) (Pairs-Same s (low_ok pc4 s.valid))
          | inr ev ↦ rw (e, far, p, ev) (high_ok pc pc3 hi w (ground arith))
        ]
  ]

  high_round_lem : HighSpec (high_round lower higher)
  unfolding high_round
  high_round_lem pc pc1 low t even = elim (dec_lt (pc1.used + pc1.reserved) (pc1.max - pc1.min)) [
    | yes h ↦
        let (hi, pc2, e, u) = (get_one_lem pc1 t.valid).0 h in
        high_found pc pc1 pc2 low hi t even e u
    | no h ↦
        let (pc2, e, s) = Took-put_one low t in
        nothing pc2 (rw ((get_one_lem pc1 t.valid).1 (omega arith), e)) s
  ]

pair_loops_lem : (total : ℕ) → LowSpec (pair_loops total).low × HighSpec (pair_loops total).high
unfolding pair_loops
pair_loops_lem zero =
    let low : LowSpec (pair_loops zero).low = λ pc v. nothing pc refl (Same-refl v) in
    (low, high_round_lem _ _ low fail_putting_lem)
pair_loops_lem (suc total) =
    let (low, high) = pair_loops_lem total in
    let low' = low_round_lem _ _ low high in (low', high_round_lem _ _ low' high)

-- From a valid state `get_pair` never aborts. It gives two adjacent ports of the range, the lower
-- one even, that were free and are now in use, with no other bit changed; or it fails, and then
-- the map and the counters are as before.
pub get_pair_lem : (pc : PortsCtl) → IsValid pc → Pairs pc (get_pair pc)
unfolding get_pair
get_pair_lem pc v = elim (Bool-cases (ltb (pc.max - pc.min) (pc.used + pc.reserved + 2))) [
  | inl few ↦ nothing pc (rw few) (Same-refl v)
  | inr enough ↦ rw enough ((pair_loops_lem (pc.max - pc.min)).0 pc v)
]
