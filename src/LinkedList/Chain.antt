-- ===== src/LinkedList/Chain.antt =====
-- The links a list is made of, and what a write elsewhere leaves of them: hmlib/src/hm_list.c.
use hm_platform.Base.{ℕ, ◌<◌, ◌≤◌, ◌≡◌, ◌≢◌, sym, ◌∙◌, List, [], ◌∷◌, ◌++◌, some, arith}
use hm_platform.LinkedList.{Heap}

-- Address and item of each link, in order.
abbrev pub Items : Type 0
Items = List (ℕ × ℕ)

abbrev pub first_of : Items → ℕ → ℕ
first_of [] stop = stop
first_of (x ∷ xs) stop = x.0

abbrev pub last_of : ℕ → Items → ℕ
last_of before [] = before
last_of before (x ∷ xs) = last_of x.0 xs

abbrev pub Lacks : ℕ → Items → Type 0
Lacks p [] = Unit
Lacks p (x ∷ xs) = (p ≢ x.0) × Lacks p xs

abbrev pub Distinct : Items → Type 0
Distinct [] = Unit
Distinct (x ∷ xs) = Lacks x.0 xs × Distinct xs

-- No address of the second list is one of the first.
abbrev pub Apart : Items → Items → Type 0
Apart xs [] = Unit
Apart xs (y ∷ ys) = Lacks y.0 xs × Apart xs ys

-- What is at the address, between the neighbours, in both directions.
pub record Placed (h : Heap) (before after : ℕ) (x : ℕ × ℕ) : Type 0 where
  pub positive : 0 < x.0
  pub below : x.0 < h.fresh
  pub here : h.cell x.0 ≡ some (record { item = x.1; next = after; prev = before })

abbrev pub Chain : Heap → ℕ → Items → ℕ → Type 0
Chain h before [] stop = Unit
Chain h before (x ∷ xs) stop = Placed h before (first_of xs stop) x × Chain h x.0 xs stop

pub record IsList (h : Heap) (xs : Items) : Type 0 where
  pub chain : Chain h 0 xs 0
  pub distinct : Distinct xs
  pub started : 0 < h.fresh

-- A change of nothing but the links of `xs`.
pub record Outside (xs : Items) (h g : Heap) : Type 0 where
  pub fresh : h.fresh ≤ g.fresh
  pub same : (a : ℕ) → Lacks a xs → a < h.fresh → g.cell a ≡ h.cell a

pub Placed-Outside :
    (xs : Items) (h g : Heap) (before after : ℕ) (x : ℕ × ℕ)
    → Outside xs h g
    → Lacks x.0 xs
    → Placed h before after x
    → Placed g before after x
Placed-Outside xs h g before after x out lacks placed = record {
  positive = placed.positive;
  below = omega (arith, placed.below, out.fresh);
  here = out.same x.0 lacks placed.below ∙ placed.here;
}

pub Chain-Outside :
    (xs : Items) (h g : Heap) (before stop : ℕ) (ys : Items)
    → Outside xs h g
    → Apart xs ys
    → Chain h before ys stop
    → Chain g before ys stop
Chain-Outside xs h g before stop [] out apart chain = tt
Chain-Outside xs h g before stop (y ∷ ys) out apart chain = (
  Placed-Outside xs h g before (first_of ys stop) y out apart.0 chain.0,
  Chain-Outside xs h g y.0 stop ys out apart.1 chain.1,
)

pub Outside-trans : (xs : Items) (h g k : Heap) → Outside xs h g → Outside xs g k → Outside xs h k
Outside-trans xs h g k one two = record {
  fresh = omega (arith, one.fresh, two.fresh);
  same =
      λ a lacks below. two.same a lacks (omega (arith, below, one.fresh)) ∙ one.same a lacks below;
}

pub Lacks-fresh :
    (h : Heap) (before stop : ℕ) (xs : Items) → Chain h before xs stop → Lacks h.fresh xs
Lacks-fresh h before stop [] chain = tt
Lacks-fresh h before stop (x ∷ xs) chain =
    (λ e. omega (arith, chain.0.below, e), Lacks-fresh h x.0 stop xs chain.1)

pub Lacks-null : (h : Heap) (before stop : ℕ) (xs : Items) → Chain h before xs stop → Lacks 0 xs
Lacks-null h before stop [] chain = tt
Lacks-null h before stop (x ∷ xs) chain =
    (λ e. omega (arith, chain.0.positive, e), Lacks-null h x.0 stop xs chain.1)

pub Lacks-append : (p : ℕ) (xs ys : Items) → Lacks p (xs ++ ys) → Lacks p xs × Lacks p ys
Lacks-append p [] ys lacks = (tt, lacks)
Lacks-append p (x ∷ xs) ys lacks =
    let rest = Lacks-append p xs ys lacks.1 in ((lacks.0, rest.0), rest.1)

pub append-Lacks : (p : ℕ) (xs ys : Items) → Lacks p xs → Lacks p ys → Lacks p (xs ++ ys)
append-Lacks p [] ys lacks more = more
append-Lacks p (x ∷ xs) ys lacks more = (lacks.0, append-Lacks p xs ys lacks.1 more)

pub Apart-cons : (x : ℕ × ℕ) (xs ys : Items) → Lacks x.0 ys → Apart xs ys → Apart (x ∷ xs) ys
Apart-cons x xs [] lacks apart = tt
Apart-cons x xs (y ∷ ys) lacks apart =
    ((λ e. lacks.0 (sym e), apart.0), Apart-cons x xs ys lacks.1 apart.1)

pub Apart-none : (ys : Items) → Apart [] ys
Apart-none [] = tt
Apart-none (y ∷ ys) = (tt, Apart-none ys)

pub Apart-sym : (xs ys : Items) → Apart xs ys → Apart ys xs
Apart-sym xs [] apart = Apart-none xs
Apart-sym xs (y ∷ ys) apart = Apart-cons y ys xs apart.0 (Apart-sym xs ys apart.1)

pub record Separate (xs ys : Items) : Type 0 where
  pub left : Distinct xs
  pub right : Distinct ys
  pub apart : Apart xs ys

pub Distinct-append : (xs ys : Items) → Distinct (xs ++ ys) → Separate xs ys
Distinct-append [] ys distinct = record { left = tt; right = distinct; apart = Apart-none ys }
Distinct-append (x ∷ xs) ys distinct =
    let rest = Distinct-append xs ys distinct.1 in
    let lacks = Lacks-append x.0 xs ys distinct.0 in
    record {
      left = (lacks.0, rest.left);
      right = rest.right;
      apart = Apart-cons x xs ys lacks.1 rest.apart;
    }

pub append-Distinct : (xs ys : Items) → Separate xs ys → Distinct (xs ++ ys)
append-Distinct [] ys sep = sep.right
append-Distinct (x ∷ xs) ys sep =
    let swapped = Apart-sym (x ∷ xs) ys sep.apart in
    (
      append-Lacks x.0 xs ys sep.left.0 swapped.0,
      append-Distinct xs ys
          (record { left = sep.left.1; right = sep.right; apart = Apart-sym ys xs swapped.1 }),
    )
