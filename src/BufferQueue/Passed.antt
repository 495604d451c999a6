-- ===== src/BufferQueue/Passed.antt =====
-- The consumers that have passed an element: hmrtspsvr/src/utils/bufferqueue.c.
use hm_platform.Base.{
  ℕ, zero, suc, ◌+◌, ◌<◌, ◌≤◌, ◌≡◌, ap, List, [], ◌∷◌, ◌++◌, Option, none, some, ltb, ◌==◌,
  if◌then◌else◌, false, ◌&&◌, not, arith, ◌⊎◌, inl, inr, set,
}
use hm_platform.BufferQueue.{Consumer}

-- Whether a consumer counts, and whether its current element in the queue of a serial is behind the
-- element `t`.
abbrev pub live : Consumer → ℕ
live c = if c.killed then 0 else 1

abbrev pub behind : Option ℕ → ℕ → ℕ
behind none t = 0
behind (some s) t = if ltb t s then 1 else 0

abbrev pub past : ℕ → ℕ → Consumer → ℕ
past qs t c =
    if not c.killed && (c.queue_serial == qs) then behind c.current_element_pointer t else 0

unfoldable pub alive : List Consumer → ℕ
alive [] = 0
alive (c ∷ cs) = live c + alive cs

unfoldable pub passed : ℕ → List Consumer → ℕ → ℕ
passed qs [] t = 0
passed qs (c ∷ cs) t = past qs t c + passed qs cs t

-- The consumer at an index.
abbrev pub consumer_at : List Consumer → ℕ → Option Consumer
consumer_at [] i = none
consumer_at (c ∷ cs) zero = some c
consumer_at (c ∷ cs) (suc i) = consumer_at cs i

pub behind_one : (o : Option ℕ) (t : ℕ) → behind o t ≤ 1
behind_one none t = omega arith
behind_one (some s) t = ground arith

pub past-le-live : (qs t : ℕ) (c : Consumer) → past qs t c ≤ live c
past-le-live qs t c = ground (arith, behind_one c.current_element_pointer t)

pub passed-le-alive : (qs t : ℕ) (cs : List Consumer) → passed qs cs t ≤ alive cs
unfolding passed alive
passed-le-alive qs t [] = omega arith
passed-le-alive qs t (c ∷ cs) = omega (arith, past-le-live qs t c, passed-le-alive qs t cs)

-- One consumer changes.
pub alive-set :
    (cs : List Consumer) (i : ℕ) (c c' : Consumer)
    → consumer_at cs i ≡ some c
    → alive (set cs i c') + live c ≡ alive cs + live c'
unfolding alive
alive-set [] i c c' h = absurd (ground (arith, h))
alive-set (d ∷ cs) zero c c' h = ground (arith, h)
alive-set (d ∷ cs) (suc i) c c' h = omega (arith, alive-set cs i c c' h)

pub passed-set :
    (qs t : ℕ) (cs : List Consumer) (i : ℕ) (c c' : Consumer)
    → consumer_at cs i ≡ some c
    → passed qs (set cs i c') t + past qs t c ≡ passed qs cs t + past qs t c'
unfolding passed
passed-set qs t [] i c c' h = absurd (ground (arith, h))
passed-set qs t (d ∷ cs) zero c c' h =
    let same : d ≡ c = ground (arith, h) in omega (arith, ap (past qs t) same)
passed-set qs t (d ∷ cs) (suc i) c c' h = omega (arith, passed-set qs t cs i c c' h)

-- A consumer that counts and has not passed an element is not among those that have.
pub passed-lt-alive :
    (qs t : ℕ) (cs : List Consumer) (i : ℕ) (c : Consumer)
    → consumer_at cs i ≡ some c
    → past qs t c < live c
    → passed qs cs t < alive cs
unfolding passed alive
passed-lt-alive qs t [] i c h less = absurd (ground (arith, h))
passed-lt-alive qs t (d ∷ cs) zero c h less =
    let same : d ≡ c = ground (arith, h) in
    omega (arith, ap (past qs t) same, ap live same, less, passed-le-alive qs t cs)
passed-lt-alive qs t (d ∷ cs) (suc i) c h less =
    omega (arith, past-le-live qs t d, passed-lt-alive qs t cs i c h less)

-- Whoever has passed an element has passed those before it.
behind-antitone : (o : Option ℕ) (t u : ℕ) → t ≤ u → behind o u ≤ behind o t
behind-antitone none t u le = omega arith
behind-antitone (some s) t u le = ground (arith, le)

pub passed-antitone :
    (qs : ℕ) (cs : List Consumer) (t u : ℕ) → t ≤ u → passed qs cs u ≤ passed qs cs t
unfolding passed
passed-antitone qs [] t u le = omega arith
passed-antitone qs (c ∷ cs) t u le =
    ground (arith, behind-antitone c.current_element_pointer t u le, passed-antitone qs cs t u le)

pub alive_pos :
    (cs : List Consumer) (i : ℕ) (c : Consumer)
    → consumer_at cs i ≡ some c
    → c.killed ≡ false
    → 0 < alive cs
alive_pos cs i c here alive_still =
    omega (arith, passed-lt-alive (suc c.queue_serial) 0 cs i c here (ground (arith, alive_still)))

-- A consumer comes.
pub alive-append : (cs : List Consumer) (c : Consumer) → alive (cs ++ (c ∷ [])) ≡ alive cs + live c
unfolding alive
alive-append [] c = omega arith
alive-append (d ∷ cs) c = omega (arith, alive-append cs c)

pub passed-append :
    (qs t : ℕ) (cs : List Consumer) (c : Consumer)
    → passed qs (cs ++ (c ∷ [])) t ≡ passed qs cs t + past qs t c
unfolding passed
passed-append qs t [] c = omega arith
passed-append qs t (d ∷ cs) c = omega (arith, passed-append qs t cs c)

pub consumer_at-append :
    (cs : List Consumer) (c d : Consumer) (i : ℕ)
    → consumer_at (cs ++ (c ∷ [])) i ≡ some d
    → (consumer_at cs i ≡ some d) ⊎ (d ≡ c)
consumer_at-append [] c d zero h = inr (ground (arith, h))
consumer_at-append [] c d (suc i) h = absurd (ground (arith, h))
consumer_at-append (x ∷ cs) c d zero h = inl h
consumer_at-append (x ∷ cs) c d (suc i) h = consumer_at-append cs c d i h
