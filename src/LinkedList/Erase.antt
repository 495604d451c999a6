-- ===== src/LinkedList/Erase.antt =====
-- `hm_list_remove` and `hm_list_remove_all` of hmlib/src/hm_list.c.
use hm_platform.Base.{
  ℕ, zero, suc, ◌<◌, ◌≡◌, ◌⊎◌, refl, sym, ap, subst, ◌∙◌, [], ◌∷◌, ◌++◌, Option, some, arith,
  length, ◌==◌, if◌then◌else◌, Bool-cases, inl, inr, append_assoc,
}
use hm_platform.LinkedList.{
  Heap, list_find, list_remove, remove_found, remove_all_from, list_remove_all,
}
use hm_platform.LinkedList.Chain.{Items, first_of, last_of, Chain, IsList}
use hm_platform.LinkedList.Adds.{Made}
use hm_platform.LinkedList.Cut.{Chain-split}
use hm_platform.LinkedList.Ends.{last_of-positive}
use hm_platform.LinkedList.Fuel.{length-IsList}
use hm_platform.LinkedList.Walks.{address_where, find_from_lem}
use hm_platform.LinkedList.Removes.{remove_found_lem, Unlinked-join_left, loaded}

-- The list without the first link of the item.
abbrev pub erase : ℕ → Items → Items
erase item [] = []
erase item (x ∷ xs) = if x.1 == item then xs else x ∷ erase item xs

-- The list without the links of the item.
abbrev pub without_item : ℕ → Items → Items
without_item item [] = []
without_item item (x ∷ xs) = if x.1 == item then without_item item xs else x ∷ without_item item xs

-- Where the link of an item is.
record Located (item : ℕ) (xs : Items) : Type 0 where
  before : Items
  after : Items
  x : ℕ × ℕ
  positive : 0 < x.0
  cut : xs ≡ before ++ (x ∷ after)
  at : address_where (λ y. y == item) xs ≡ x.0
  erased : erase item xs ≡ before ++ after

locate :
    (h : Heap) (before : ℕ) (item : ℕ) (xs : Items)
    → Chain h before xs 0
    → ((address_where (λ y. y == item) xs ≡ 0) × (erase item xs ≡ xs)) ⊎ Located item xs
locate h before item [] chain = inl (refl, refl)
locate h before item (y ∷ ys) chain = elim (Bool-cases (y.1 == item)) [
  | inl here ↦ inr (record {
    before = [];
    after = ys;
    x = y;
    positive = chain.0.positive;
    cut = refl;
    at = rw here;
    erased = rw here;
  })
  | inr there ↦ elim (locate h y.0 item ys chain.1) [
    | inl absent ↦ inl (rw (there, absent.0), rw (there, absent.1))
    | inr found ↦ inr (record {
      before = y ∷ found.before;
      after = found.after;
      x = found.x;
      positive = found.positive;
      cut = ap (◌∷◌ y) found.cut;
      at = rw (there, found.at);
      erased = rw (there, found.erased);
    })
  ]
]

found_lem :
    (h : Heap) (xs : Items) (item : ℕ)
    → IsList h xs
    → list_find h (first_of xs 0) item ≡ some (address_where (λ y. y == item) xs)
unfolding list_find
found_lem h xs item list =
    find_from_lem (suc h.fresh) (λ y. y == item) h 0 xs list.chain
      (omega (arith, length-IsList h xs list))

-- `hm_list_remove` takes the first link of the item out of the list, frees it and leaves the rest
-- a list.
pub list_remove_lem :
    (h : Heap) (xs : Items) (item : ℕ)
    → IsList h xs
    → Made h (erase item xs) (list_remove h (first_of xs 0) item)
unfolding list_remove
list_remove_lem h xs item list = elim (locate h 0 item xs list.chain) [
  | inl absent ↦ record {
    heap = h;
    eq = rw (found_lem h xs item list, absent.0, absent.1);
    list = subst (IsList h) (sym absent.1) list;
  }
  | inr found ↦
      let whole = subst (IsList h) found.cut list in
      let out = remove_found_lem h found.before found.after found.x whole in
      let run : remove_found h (first_of xs 0) found.x.0
          ≡ some (first_of (found.before ++ found.after) 0, out.heap) =
        ap (λ l. remove_found h (first_of l 0) found.x.0) found.cut ∙ out.eq in
      record {
        heap = out.heap;
        eq = ground (
          arith,
          found_lem h xs item list,
          found.at,
          found.positive,
          run,
          ap (λ l. first_of l 0) found.erased,
        );
        list = subst (IsList out.heap) (sym found.erased) out.list;
      }
]

-- The head after a link behind `pre` is gone.
head_after :
    (h : Heap) (pre xs : Items) (x : ℕ × ℕ)
    → Chain h 0 pre x.0
    → (if last_of 0 pre == 0 then first_of xs 0 else first_of (pre ++ (x ∷ xs)) 0)
      ≡ first_of (pre ++ xs) 0
head_after h [] xs x chain = refl
head_after h (y ∷ ys) xs x chain = ground (arith, last_of-positive h 0 x.0 y ys chain)

Made-same :
    (h g : Heap) (xs ys : Items) (run run' : Option (ℕ × Heap))
    → ys ≡ xs
    → run' ≡ run
    → Made h xs run
    → Made g ys run'
Made-same h g xs ys run run' same eq made = record {
  heap = made.heap;
  eq = eq ∙ made.eq ∙ ap (λ l. some (first_of l 0, made.heap)) (sym same);
  list = subst (IsList made.heap) (sym same) made.list;
}

remove_all_from_lem :
    (fuel : ℕ) (h : Heap) (pre xs : Items) (item : ℕ)
    → IsList h (pre ++ xs)
    → length xs < fuel
    → Made h
        (pre ++ without_item item xs)
        (remove_all_from fuel h (first_of (pre ++ xs) 0) (first_of xs 0) item)
unfolding remove_all_from
remove_all_from_lem zero h pre xs item list enough = absurd (omega (arith, enough))
remove_all_from_lem (suc fuel) h pre [] item list enough = record {
  heap = h;
  eq = refl;
  list = list;
}
remove_all_from_lem (suc fuel) h pre (x ∷ xs) item list enough =
    let halves = Chain-split h 0 0 pre (x ∷ xs) list.chain in
    elim (Bool-cases (x.1 == item)) [
      | inl here ↦
          let out = Unlinked-join_left h pre xs x list in
          let rest =
            remove_all_from_lem fuel out.heap pre xs item out.list (omega (arith, enough)) in
          let head = head_after h pre xs x halves.0 in
          Made-same out.heap h (pre ++ without_item item xs) (pre ++ without_item item (x ∷ xs))
            (remove_all_from fuel out.heap (first_of (pre ++ xs) 0) (first_of xs 0) item)
            (remove_all_from (suc fuel) h (first_of (pre ++ (x ∷ xs)) 0) x.0 item) (rw here)
            (ground (
              arith,
              halves.1.0.positive,
              loaded h pre xs x list,
              here,
              out.linked,
              out.cleared,
              head,
            ))
            rest
      | inr there ↦
          let moved = append_assoc pre (x ∷ []) xs in
          let rest =
            remove_all_from_lem fuel h (pre ++ (x ∷ [])) xs item (subst (IsList h) (sym moved) list)
              (omega (arith, enough)) in
          Made-same h h ((pre ++ (x ∷ [])) ++ without_item item xs)
            (pre ++ without_item item (x ∷ xs))
            (remove_all_from fuel h (first_of ((pre ++ (x ∷ [])) ++ xs) 0) (first_of xs 0) item)
            (remove_all_from (suc fuel) h (first_of (pre ++ (x ∷ xs)) 0) x.0 item)
            (rw there (sym (append_assoc pre (x ∷ []) (without_item item xs))))
            (ground (
              arith,
              halves.1.0.positive,
              loaded h pre xs x list,
              there,
              ap (λ l. first_of l 0) moved,
            ))
            rest
    ]

-- `hm_list_remove_all` takes every link of the item out of a list of any length, and returns the head
-- of a list of the others, in order.
pub list_remove_all_lem :
    (h : Heap) (xs : Items) (item : ℕ)
    → IsList h xs
    → Made h (without_item item xs) (list_remove_all h (first_of xs 0) item)
unfolding list_remove_all
list_remove_all_lem h xs item list =
    remove_all_from_lem (suc h.fresh) h [] xs item list (omega (arith, length-IsList h xs list))
