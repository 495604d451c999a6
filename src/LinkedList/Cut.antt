-- ===== src/LinkedList/Cut.antt =====
-- A list taken apart and put together: hmlib/src/hm_list.c.
use hm_platform.Base.{ℕ, ◌≡◌, refl, sym, subst, [], ◌∷◌, ◌++◌}
use hm_platform.LinkedList.{Heap}
use hm_platform.LinkedList.Chain.{Items, first_of, last_of, Chain, Placed}

pub first_of-append :
    (xs ys : Items) (stop : ℕ) → first_of (xs ++ ys) stop ≡ first_of xs (first_of ys stop)
first_of-append [] ys stop = refl
first_of-append (x ∷ xs) ys stop = refl

pub last_of-append :
    (before : ℕ) (xs ys : Items) → last_of before (xs ++ ys) ≡ last_of (last_of before xs) ys
last_of-append before [] ys = refl
last_of-append before (x ∷ xs) ys = last_of-append x.0 xs ys

pub Chain-split :
    (h : Heap) (before stop : ℕ) (xs ys : Items)
    → Chain h before (xs ++ ys) stop
    → Chain h before xs (first_of ys stop) × Chain h (last_of before xs) ys stop
Chain-split h before stop [] ys chain = (tt, chain)
Chain-split h before stop (x ∷ xs) ys chain =
    let rest = Chain-split h x.0 stop xs ys chain.1 in
    ((subst (λ q. Placed h before q x) (first_of-append xs ys stop) chain.0, rest.0), rest.1)

pub Chain-join :
    (h : Heap) (before stop : ℕ) (xs ys : Items)
    → Chain h before xs (first_of ys stop)
    → Chain h (last_of before xs) ys stop
    → Chain h before (xs ++ ys) stop
Chain-join h before stop [] ys left right = right
Chain-join h before stop (x ∷ xs) ys left right = (
  subst (λ q. Placed h before q x) (sym (first_of-append xs ys stop)) left.0,
  Chain-join h x.0 stop xs ys left.1 right,
)
