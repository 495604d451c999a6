-- ===== src/BufferQueue/Links.antt =====
-- The links of a queue whose serial numbers follow one another: hmrtspsvr/src/utils/bufferqueue.c.
use hm_platform.Base.{
  ℕ, suc, ◌+◌, ◌-◌, ◌%◌, ◌^◌, ◌<◌, ◌≤◌, ◌≡◌, refl, sym, ap, subst, ◌∙◌, List, [], ◌∷◌, ◌++◌, none,
  some, ◌==◌, if◌then◌else◌, arith, inl, inr, Bool-cases, length,
}
use hm_platform.BufferQueue.{Element, head_of, next_of, find_elem, bump, tail_of, lower, payloads}

-- The serials of the elements are those from `first` to below `next`.
abbrev pub Consec : ℕ → List Element → ℕ → Type 0
Consec first [] next = first ≡ next
Consec first (e ∷ q) next = (e.serial ≡ first) × Consec (suc first) q next

-- Each element's seen count is what `f` says.
abbrev pub Counted : (ℕ → ℕ) → List Element → Type 0
Counted f [] = Unit
Counted f (e ∷ q) = (e.seen ≡ f e.serial) × Counted f q

pub Consec-le : (first next : ℕ) (q : List Element) → Consec first q next → first ≤ next
Consec-le first next [] run = omega (arith, run)
Consec-le first next (e ∷ q) run = omega (arith, Consec-le (suc first) next q run.1)

pub Consec-length :
    (first next : ℕ) (q : List Element) → Consec first q next → first + length q ≡ next
Consec-length first next [] run = omega (arith, run)
Consec-length first next (e ∷ q) run = omega (arith, Consec-length (suc first) next q run.1)

pub Counted-same :
    (f g : ℕ → ℕ) (first next : ℕ) (q : List Element)
    → Consec first q next
    → ((t : ℕ) → first ≤ t → f t ≡ g t)
    → Counted f q
    → Counted g q
Counted-same f g first next [] run same counted = tt
Counted-same f g first next (e ∷ q) run same counted = (
  counted.0 ∙ same e.serial (omega (arith, run.0)),
  Counted-same f g (suc first) next q run.1 (λ t le. same t (omega (arith, le))) counted.1,
)

pub next_of_lem :
    (s first next : ℕ) (q : List Element)
    → Consec first q next
    → first ≤ s
    → s < next
    → next_of s q ≡ some (if suc s == next then none else some (suc s))
unfolding next_of
next_of_lem s first next [] run from to = absurd (omega (arith, run, from, to))
next_of_lem s first next (e ∷ []) run from to = ground (arith, run.0, run.1, from, to)
next_of_lem s first next (e ∷ d ∷ q) run from to = elim (Bool-cases (e.serial == s)) [
  | inl here ↦ ground (arith, here, run.0, run.1.0, Consec-le (suc (suc first)) next q run.1.1)
  | inr later ↦
      let rest =
        next_of_lem s (suc first) next (d ∷ q) run.1 (ground (arith, later, run.0, from)) to in
      ground (arith, later, rest)
]

pub find_elem_lem :
    (s first next : ℕ) (f : ℕ → ℕ) (q : List Element)
    → Consec first q next
    → Counted f q
    → first ≤ s
    → s < next
    → (e : Element) × find_elem s q ≡ some e × e.serial ≡ s × e.seen ≡ f s
unfolding find_elem
find_elem_lem s first next f [] run counted from to = absurd (omega (arith, run, from, to))
find_elem_lem s first next f (e ∷ q) run counted from to = elim (Bool-cases (e.serial == s)) [
  | inl here ↦
      let same : e.serial ≡ s = ground (arith, here) in
      (e, ground (arith, here), same, counted.0 ∙ ap f same)
  | inr later ↦
      let (d, found, at, seen) =
        find_elem_lem s (suc first) next f q run.1 counted.1 (ground (arith, later, run.0, from))
          to in
      (d, ground (arith, later, found), at, seen)
]

pub bump-Consec :
    (s first next : ℕ) (q : List Element) → Consec first q next → Consec first (bump s q) next
unfolding bump
bump-Consec s first next [] run = run
bump-Consec s first next (e ∷ q) run = elim (Bool-cases (e.serial == s)) [
  | inl here ↦ ground (arith, here, run)
  | inr later ↦ ground (arith, later, run.0, bump-Consec s (suc first) next q run.1)
]

pub Counted-bump :
    (s first next : ℕ) (f g : ℕ → ℕ) (q : List Element)
    → Consec first q next
    → Counted f q
    → ((t : ℕ) → g t ≡ f t + (if t == s then 1 else 0))
    → f s + 1 < 2 ^ 64
    → Counted g (bump s q)
unfolding bump
Counted-bump s first next f g [] run counted more small = tt
Counted-bump s first next f g (e ∷ q) run counted more small = elim (Bool-cases (e.serial == s)) [
  | inl here ↦
      let same : e.serial ≡ s = ground (arith, here) in
      let rest =
        Counted-same f g (suc first) next q run.1 (λ t le. ground (arith, more t, le, run.0, same))
          counted.1 in
      subst
        (λ b. Counted g (if b then record e { seen = (e.seen + 1) % 2 ^ 64 } ∷ q else e ∷ bump s q))
        (sym here) (ground (arith, counted.0, ap f same, more e.serial, same, small), rest)
  | inr later ↦
      subst
        (λ b. Counted g (if b then record e { seen = (e.seen + 1) % 2 ^ 64 } ∷ q else e ∷ bump s q))
        (sym later)
        (
          ground (arith, counted.0, more e.serial, later),
          Counted-bump s (suc first) next f g q run.1 counted.1 more small,
        )
]

pub payloads-bump : (s : ℕ) (q : List Element) → payloads (bump s q) ≡ payloads q
unfolding bump
payloads-bump s [] = refl
payloads-bump s (e ∷ q) = ground (arith, payloads-bump s q)

pub Consec-append :
    (first next : ℕ) (q : List Element) (e : Element)
    → Consec first q next
    → e.serial ≡ next
    → Consec first (q ++ (e ∷ [])) (suc next)
Consec-append first next [] e run at = (at ∙ sym run, ap suc run)
Consec-append first next (d ∷ q) e run at = (run.0, Consec-append (suc first) next q e run.1 at)

pub Counted-append :
    (f : ℕ → ℕ) (q : List Element) (e : Element)
    → Counted f q
    → e.seen ≡ f e.serial
    → Counted f (q ++ (e ∷ []))
Counted-append f [] e counted here = (here, tt)
Counted-append f (d ∷ q) e counted here = (counted.0, Counted-append f q e counted.1 here)

pub head_of_lem :
    (first next : ℕ) (q : List Element)
    → Consec first q next
    → first < next
    → head_of q ≡ some first
head_of_lem first next [] run less = absurd (omega (arith, run, less))
head_of_lem first next (e ∷ q) run less = ap some run.0

pub head_of_empty : (next : ℕ) (q : List Element) → Consec next q next → head_of q ≡ none
head_of_empty next [] run = refl
head_of_empty next (e ∷ q) run = absurd (omega (arith, Consec-le (suc next) next q run.1))

pub tail_of-Consec :
    (first next : ℕ) (q : List Element)
    → Consec first q next
    → first < next
    → Consec (suc first) (tail_of q) next
tail_of-Consec first next [] run less = absurd (omega (arith, run, less))
tail_of-Consec first next (e ∷ q) run less = run.1

pub tail_of-Counted : (f : ℕ → ℕ) (q : List Element) → Counted f q → Counted f (tail_of q)
tail_of-Counted f [] counted = tt
tail_of-Counted f (e ∷ q) counted = counted.1

-- The counts up to a link, lowered by one.
pub record Lowered (n s first next : ℕ) (g : ℕ → ℕ) (q : List Element) : Type 0 where
  pub after : List Element
  pub eq : lower n s q ≡ some after
  pub run : Consec first after next
  pub counted : Counted g after
  pub same_payloads : payloads after ≡ payloads q

pub lower_lem :
    (n s first next : ℕ) (f g : ℕ → ℕ) (q : List Element)
    → Consec first q next
    → Counted f q
    → first ≤ s
    → s < next
    → ((t : ℕ) → t ≤ s → f t ≡ g t + 1)
    → ((t : ℕ) → s < t → f t ≡ g t)
    → ((t : ℕ) → first ≤ t → f t ≤ n)
    → n < 2 ^ 64
    → Lowered n s first next g q
unfolding lower
lower_lem n s first next f g [] run counted from to below above most small =
    absurd (omega (arith, run, from, to))
lower_lem n s first next f g (e ∷ q) run counted from to below above most small =
    elim (Bool-cases (e.serial == s)) [
      | inl here ↦
          let same : e.serial ≡ s = ground (arith, here) in
          record {
            after = record e { seen = (e.seen + 2 ^ 64 - 1) % 2 ^ 64 } ∷ q;
            eq = ground (arith, here, counted.0, most e.serial (omega (arith, run.0)));
            run = run;
            counted = (
              omega (
                arith,
                counted.0,
                below e.serial (omega (arith, same)),
                most e.serial (omega (arith, run.0)),
                small,
              ),
              Counted-same f g (suc first) next q run.1
                  (λ t le. above t (omega (arith, le, run.0, same))) counted.1,
            );
            same_payloads = refl;
          }
      | inr later ↦
          let r =
            lower_lem n s (suc first) next f g q run.1 counted.1
              (ground (arith, later, run.0, from)) to below above
              (λ t le. most t (omega (arith, le))) small in
          record {
            after = record e { seen = (e.seen + 2 ^ 64 - 1) % 2 ^ 64 } ∷ r.after;
            eq = ground (arith, later, counted.0, most e.serial (omega (arith, run.0)), r.eq);
            run = (run.0, r.run);
            counted = (
              omega (
                arith,
                counted.0,
                below e.serial (omega (arith, run.0, from)),
                most e.serial (omega (arith, run.0)),
                small,
              ),
              r.counted,
            );
            same_payloads = ap (◌∷◌ e.payload) r.same_payloads;
          }
    ]
