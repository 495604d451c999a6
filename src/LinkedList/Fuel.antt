-- ===== src/LinkedList/Fuel.antt =====
-- A list has no more links than addresses were given out, so the walks of hmlib/src/hm_list.c have
-- enough fuel.
use hm_platform.Base.{
  ℕ, zero, suc, ◌<◌, ◌≤◌, ◌≡◌, sym, subst, [], ◌∷◌, arith, length, ◌==◌, true, false, if◌then◌else◌,
  Bool-cases, inl, inr,
}
use hm_platform.LinkedList.{Heap}
use hm_platform.LinkedList.Chain.{Items, Lacks, Distinct, Chain, IsList}

abbrev pub Bounded : ℕ → Items → Type 0
Bounded n [] = Unit
Bounded n (x ∷ xs) = (x.0 < n) × Bounded n xs

-- The list without the link at an address.
abbrev dropping : ℕ → Items → Items
dropping p [] = []
dropping p (x ∷ xs) = if x.0 == p then xs else x ∷ dropping p xs

length-dropping : (p : ℕ) (xs : Items) → length xs ≤ suc (length (dropping p xs))
length-dropping p [] = omega arith
length-dropping p (x ∷ xs) = ground (arith, length-dropping p xs)

Lacks-dropping : (a p : ℕ) (xs : Items) → Lacks a xs → Lacks a (dropping p xs)
Lacks-dropping a p [] lacks = tt
Lacks-dropping a p (x ∷ xs) lacks =
    elim (x.0 == p) as (λ b. Lacks a (if b then xs else x ∷ dropping p xs)) [
      | true ↦ lacks.1
      | false ↦ (lacks.0, Lacks-dropping a p xs lacks.1)
    ]

Distinct-dropping : (p : ℕ) (xs : Items) → Distinct xs → Distinct (dropping p xs)
Distinct-dropping p [] distinct = tt
Distinct-dropping p (x ∷ xs) distinct =
    elim (x.0 == p) as (λ b. Distinct (if b then xs else x ∷ dropping p xs)) [
      | true ↦ distinct.1
      | false ↦ (Lacks-dropping x.0 p xs distinct.0, Distinct-dropping p xs distinct.1)
    ]

Bounded-Lacks : (n : ℕ) (xs : Items) → Bounded (suc n) xs → Lacks n xs → Bounded n xs
Bounded-Lacks n [] bounded lacks = tt
Bounded-Lacks n (x ∷ xs) bounded lacks =
    (ground (arith, bounded.0, lacks.0), Bounded-Lacks n xs bounded.1 lacks.1)

Bounded-dropping :
    (n : ℕ) (xs : Items) → Bounded (suc n) xs → Distinct xs → Bounded n (dropping n xs)
Bounded-dropping n [] bounded distinct = tt
Bounded-dropping n (x ∷ xs) bounded distinct = elim (Bool-cases (x.0 == n)) [
  | inl here ↦
      let same : x.0 ≡ n = ground (arith, here) in
      subst (λ b. Bounded n (if b then xs else x ∷ dropping n xs)) (sym here)
        (Bounded-Lacks n xs bounded.1 (subst (λ p. Lacks p xs) same distinct.0))
  | inr there ↦
      subst (λ b. Bounded n (if b then xs else x ∷ dropping n xs)) (sym there)
        (ground (arith, bounded.0, there), Bounded-dropping n xs bounded.1 distinct.1)
]

length-Bounded : (n : ℕ) (xs : Items) → Bounded n xs → Distinct xs → length xs ≤ n
length-Bounded zero [] bounded distinct = omega arith
length-Bounded zero (x ∷ xs) bounded distinct = absurd (omega (arith, bounded.0))
length-Bounded (suc n) xs bounded distinct = omega (
  arith,
  length-dropping n xs,
  length-Bounded n (dropping n xs) (Bounded-dropping n xs bounded distinct)
      (Distinct-dropping n xs distinct),
)

Chain-Bounded :
    (h : Heap) (before stop : ℕ) (xs : Items) → Chain h before xs stop → Bounded h.fresh xs
Chain-Bounded h before stop [] chain = tt
Chain-Bounded h before stop (x ∷ xs) chain = (chain.0.below, Chain-Bounded h x.0 stop xs chain.1)

pub length-IsList : (h : Heap) (xs : Items) → IsList h xs → length xs ≤ h.fresh
length-IsList h xs list =
    length-Bounded h.fresh xs (Chain-Bounded h 0 0 xs list.chain) list.distinct
