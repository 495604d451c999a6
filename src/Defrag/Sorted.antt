-- ===== src/Defrag/Sorted.antt =====
-- The fragments of a packet, held by number: hmshare/src/hm_fragments.c.
use hm_platform.Base.{
  ℕ, suc, ◌+◌, ◌^◌, ◌<◌, ◌≤◌, ◌≡◌, ◌≢◌, refl, sym, subst, List, [], ◌∷◌, ◌++◌, ltb, if◌then◌else◌,
  Bool-cases, inl, inr, true, arith, length,
}
use hm_platform.Defrag.{NetPackInfo, insert_packet, sane_from, add32, add64}

-- The payloads one after the other, and their size.
abbrev pub payload : List NetPackInfo → List ℕ
payload [] = []
payload (p ∷ ps) = p.start ++ payload ps

abbrev pub sizes : List NetPackInfo → ℕ
sizes [] = 0
sizes (p ∷ ps) = length p.start + sizes ps

-- The numbers rise above `low` and stop at `high`.
abbrev pub Rising : ℕ → ℕ → List NetPackInfo → Type 0
Rising low high [] = low ≤ high
Rising low high (p ∷ ps) = (low < p.packet_no) × Rising p.packet_no high ps

-- The numbers are those from `n` on.
abbrev pub Numbered : ℕ → List NetPackInfo → Type 0
Numbered n [] = Unit
Numbered n (p ∷ ps) = (p.packet_no ≡ n) × Numbered (suc n) ps

abbrev pub Lacks : ℕ → List NetPackInfo → Type 0
Lacks n [] = Unit
Lacks n (p ∷ ps) = (p.packet_no ≢ n) × Lacks n ps

-- What `insert_packet` does to sizes and lengths.
pub length-insert_packet :
    (ps : List NetPackInfo) (np : NetPackInfo) → length (insert_packet ps np) ≡ suc (length ps)
unfolding insert_packet
length-insert_packet [] np = refl
length-insert_packet (p ∷ ps) np = ground (arith, length-insert_packet ps np)

pub sizes-insert_packet :
    (ps : List NetPackInfo) (np : NetPackInfo)
    → sizes (insert_packet ps np) ≡ sizes ps + length np.start
unfolding insert_packet
sizes-insert_packet [] np = omega arith
sizes-insert_packet (p ∷ ps) np = ground (arith, sizes-insert_packet ps np)

-- A predicate of both outcomes of the comparison holds of the list.
pub by_place :
    (P : List NetPackInfo → Type 0) (p np : NetPackInfo) (ps : List NetPackInfo)
    → ((np.packet_no < p.packet_no) → P (np ∷ p ∷ ps))
    → ((p.packet_no ≤ np.packet_no) → P (p ∷ insert_packet ps np))
    → P (insert_packet (p ∷ ps) np)
unfolding insert_packet
by_place P p np ps before after = elim (Bool-cases (ltb np.packet_no p.packet_no)) [
  | inl below ↦
      subst (λ b. P (if b then np ∷ p ∷ ps else p ∷ insert_packet ps np)) (sym below)
        (before (ground (arith, below)))
  | inr above ↦
      subst (λ b. P (if b then np ∷ p ∷ ps else p ∷ insert_packet ps np)) (sym above)
        (after (ground (arith, above)))
]

pub Lacks-insert_packet :
    (n : ℕ) (ps : List NetPackInfo) (np : NetPackInfo)
    → np.packet_no ≢ n
    → Lacks n ps
    → Lacks n (insert_packet ps np)
unfolding insert_packet
Lacks-insert_packet n [] np ne lacks = (ne, tt)
Lacks-insert_packet n (p ∷ ps) np ne lacks =
    by_place (Lacks n) p np ps (λ h. (ne, lacks))
      (λ h. (lacks.0, Lacks-insert_packet n ps np ne lacks.1))

pub Rising-insert_packet :
    (low high : ℕ) (ps : List NetPackInfo) (np : NetPackInfo)
    → Rising low high ps
    → Lacks np.packet_no ps
    → low < np.packet_no
    → np.packet_no ≤ high
    → Rising low high (insert_packet ps np)
unfolding insert_packet
Rising-insert_packet low high [] np rises lacks above fits = (above, fits)
Rising-insert_packet low high (p ∷ ps) np rises lacks above fits =
    by_place (Rising low high) p np ps (λ h. (above, (h, rises.1)))
      (λ h. (
        rises.0,
        Rising-insert_packet p.packet_no high ps np rises.1 lacks.1 (omega (arith, h, lacks.0))
            fits,
      ))

Rising-length : (low high : ℕ) (ps : List NetPackInfo) → Rising low high ps → low + length ps ≤ high
Rising-length low high [] rises = omega (arith, rises)
Rising-length low high (p ∷ ps) rises =
    omega (arith, rises.0, Rising-length p.packet_no high ps rises.1)

-- As many rising numbers as fit are consecutive.
pub Rising-Numbered :
    (low high : ℕ) (ps : List NetPackInfo)
    → Rising low high ps
    → low + length ps ≡ high
    → Numbered (suc low) ps
Rising-Numbered low high [] rises full = tt
Rising-Numbered low high (p ∷ ps) rises full =
    let at : p.packet_no ≡ suc low =
      omega (arith, full, rises.0, Rising-length p.packet_no high ps rises.1) in
    (
      at,
      subst (λ n. Numbered (suc n) ps) at
          (Rising-Numbered p.packet_no high ps rises.1 (omega (arith, full, at))),
    )

-- Consecutive fragments of the given size pass the test.
pub sane_from_full :
    (ps : List NetPackInfo) (n size total_size : ℕ)
    → Numbered n ps
    → n + length ps < 2 ^ 32
    → size + sizes ps < 2 ^ 64
    → total_size ≡ size + sizes ps
    → sane_from ps n size total_size ≡ true
unfolding sane_from
sane_from_full [] n size total_size numbered few small same = ground (arith, same)
sane_from_full (p ∷ ps) n size total_size numbered few small same =
    let next : add32 n 1 ≡ suc n = omega (arith, few) in
    let grown : add64 size (length p.start) ≡ size + length p.start = omega (arith, small) in
    let rest =
      sane_from_full ps (add32 n 1) (add64 size (length p.start)) total_size
        (subst (λ m. Numbered m ps) (sym next) numbered.1) (omega (arith, few, next))
        (omega (arith, small, grown)) (omega (arith, same, grown)) in
    ground (arith, numbered.0, rest)

-- Fragments that pass the test are consecutive.
pub sane_from-Numbered :
    (ps : List NetPackInfo) (n size total_size : ℕ)
    → n + length ps < 2 ^ 32
    → sane_from ps n size total_size ≡ true
    → Numbered n ps
unfolding sane_from
sane_from-Numbered [] n size total_size few h = tt
sane_from-Numbered (p ∷ ps) n size total_size few h =
    let next : add32 n 1 ≡ suc n = omega (arith, few) in
    let rest : sane_from ps (add32 n 1) (add64 size (length p.start)) total_size ≡ true =
      ground (arith, h) in
    (
      ground (arith, h),
      subst (λ m. Numbered m ps) next
          (sane_from-Numbered ps (add32 n 1) (add64 size (length p.start)) total_size
            (omega (arith, few, next)) rest),
    )
