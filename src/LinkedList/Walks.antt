-- ===== src/LinkedList/Walks.antt =====
-- The walks `hm_list_first`, `hm_list_find_custom` and `hm_list_free` of hmlib/src/hm_list.c.
use hm_platform.Base.{
  ℕ, zero, suc, ◌+◌, ◌-◌, ◌<◌, ◌≡◌, refl, ap, ◌∙◌, [], ◌∷◌, Option, some, none, arith, length, ◌==◌,
  if◌then◌else◌, Bool,
}
use hm_platform.LinkedList.{
  Heap, Link, first_from, list_first, find_from, list_find_custom, free_from, list_free,
}
use hm_platform.LinkedList.Chain.{
  Items, first_of, last_of, Distinct, Chain, IsList, Outside, Chain-Outside,
}
use hm_platform.LinkedList.Ends.{load_lem, Apart-single, last_of-positive}
use hm_platform.LinkedList.Fuel.{length-IsList}
use hm_platform.LinkedList.Removes.{clear, list_free_1_lem}

-- The address of the first link whose item is looked for.
abbrev pub address_where : (ℕ → Bool) → Items → ℕ
address_where found [] = 0
address_where found (x ∷ xs) = if found x.1 then x.0 else address_where found xs

pub find_from_lem :
    (fuel : ℕ) (found : ℕ → Bool) (h : Heap) (before : ℕ) (xs : Items)
    → Chain h before xs 0
    → length xs < fuel
    → find_from fuel found h (first_of xs 0) ≡ some (address_where found xs)
unfolding find_from
find_from_lem zero found h before xs chain enough = absurd (omega (arith, enough))
find_from_lem (suc fuel) found h before [] chain enough = refl
find_from_lem (suc fuel) found h before (x ∷ xs) chain enough = ground (
  arith,
  chain.0.positive,
  load_lem h x.0 (record { item = x.1; next = first_of xs 0; prev = before }) chain.0.positive
      chain.0.here,
  find_from_lem fuel found h x.0 xs chain.1 (omega (arith, enough)),
)

-- `hm_list_find_custom` gives the first link for whose item `func` returns 0, and NULL when there
-- is none.
pub list_find_custom_lem :
    (h : Heap) (xs : Items) (func : ℕ → ℕ)
    → IsList h xs
    → list_find_custom h (first_of xs 0) func ≡ some (address_where (λ y. func y == 0) xs)
unfolding list_find_custom
list_find_custom_lem h xs func list =
    find_from_lem (suc h.fresh) (λ y. func y == 0) h 0 xs list.chain
      (omega (arith, length-IsList h xs list))

-- Back along `prev`, a step for each link.
first_from_back :
    (fuel : ℕ) (h : Heap) (before stop : ℕ) (x : ℕ × ℕ) (xs : Items)
    → Chain h before (x ∷ xs) stop
    → first_from (length xs + fuel) h (last_of x.0 xs) ≡ first_from fuel h x.0
unfolding first_from
first_from_back fuel h before stop x [] chain = ap (λ k. first_from k h x.0) (omega arith)
first_from_back fuel h before stop x (y ∷ ys) chain =
    ap (λ k. first_from k h (last_of y.0 ys)) {x = suc (length ys) + fuel} (omega arith)
    ∙ first_from_back (suc fuel) h x.0 stop y ys chain.1
    ∙ ground (
      arith,
      chain.0.positive,
      load_lem h y.0 (record { item = y.1; next = first_of ys stop; prev = x.0 }) chain.1.0.positive
          chain.1.0.here,
    )

-- From the last link of a list, `hm_list_first` finds its first one.
pub list_first_lem :
    (h : Heap) (xs : Items) → IsList h xs → list_first h (last_of 0 xs) ≡ some (first_of xs 0)
unfolding list_first first_from
list_first_lem h [] list = refl
list_first_lem h (x ∷ xs) list =
    let back =
      ap (λ k. first_from k h (last_of x.0 xs)) {x = suc h.fresh}
        {y = length xs + suc (h.fresh - length xs)} (omega (arith, length-IsList h (x ∷ xs) list))
      ∙ first_from_back (suc (h.fresh - length xs)) h 0 0 x xs list.chain in
    ground (
      arith,
      last_of-positive h 0 0 x xs list.chain,
      back,
      load_lem h x.0 (record { item = x.1; next = first_of xs 0; prev = 0 }) list.chain.0.positive
          list.chain.0.here,
    )

abbrev pub Gone : Heap → Items → Type 0
Gone h [] = Unit
Gone h (x ∷ xs) = (h.cell x.0 ≡ none) × Gone h xs

-- All links of the list are freed, and nothing else.
pub record Freed (h : Heap) (xs : Items) (run : Option Heap) : Type 0 where
  pub heap : Heap
  pub eq : run ≡ some heap
  pub outside : Outside xs h heap
  pub freed : Gone heap xs

free_from_lem :
    (fuel : ℕ) (h : Heap) (before : ℕ) (xs : Items)
    → Chain h before xs 0
    → Distinct xs
    → length xs < fuel
    → Freed h xs (free_from fuel h (first_of xs 0))
unfolding free_from clear
free_from_lem zero h before xs chain distinct enough = absurd (omega (arith, enough))
free_from_lem (suc fuel) h before [] chain distinct enough = record {
  heap = h;
  eq = refl;
  outside = record { fresh = omega arith; same = λ a lacks below. refl };
  freed = tt;
}
free_from_lem (suc fuel) h before (x ∷ xs) chain distinct enough =
    let l : Link = record { item = x.1; next = first_of xs 0; prev = before } in
    let g = clear h x.0 in
    let kept =
      Chain-Outside (x ∷ []) h g x.0 0 xs
        (record { fresh = omega arith; same = λ a lacks below. ground (arith, lacks.0) })
        (Apart-single x xs distinct.0) chain.1 in
    let rest = free_from_lem fuel g x.0 xs kept distinct.1 (omega (arith, enough)) in
    record {
      heap = rest.heap;
      eq = ground (
        arith,
        chain.0.positive,
        load_lem h x.0 l chain.0.positive chain.0.here,
        list_free_1_lem h x.0 l chain.0.positive chain.0.here,
        rest.eq,
      );
      outside = record {
        fresh = rest.outside.fresh;
        same = λ a lacks below. rest.outside.same a lacks.1 below ∙ ground (arith, lacks.0);
      };
      freed = (rest.outside.same x.0 distinct.0 chain.0.below ∙ ground arith, rest.freed);
    }

-- `hm_list_free` of a list of any length ends, frees every link of it and changes no other memory.
pub list_free_lem : (h : Heap) (xs : Items) → IsList h xs → Freed h xs (list_free h (first_of xs 0))
unfolding list_free
list_free_lem h xs list =
    free_from_lem (suc h.fresh) h 0 xs list.chain list.distinct
      (omega (arith, length-IsList h xs list))
