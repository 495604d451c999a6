-- ===== src/LinkedList/Adds.antt =====
-- `hm_list_add`, `hm_list_last` and `hm_list_add_tail` of hmlib/src/hm_list.c.
use hm_platform.Base.{ℕ, zero, suc, ◌<◌, ◌≡◌, refl, ◌∙◌, [], ◌∷◌, ◌++◌, Option, some, arith, length}
use hm_platform.LinkedList.{
  Heap, Link, alloc_link, last_from, list_last, load, list_add, list_add_tail, add_behind,
}
use hm_platform.LinkedList.Chain.{
  Items, first_of, last_of, Lacks, Distinct, Chain, Placed, IsList, Outside, Chain-Outside,
  Apart-none, Lacks-fresh, append-Distinct, Separate,
}
use hm_platform.LinkedList.Cut.{Chain-join}
use hm_platform.LinkedList.Ends.{join_first, join_behind, last_of-positive, load_lem}
use hm_platform.LinkedList.Fuel.{length-IsList}

last_from_lem :
    (fuel : ℕ) (h : Heap) (before : ℕ) (x : ℕ × ℕ) (xs : Items)
    → Chain h before (x ∷ xs) 0
    → length xs < fuel
    → last_from fuel h x.0 ≡ some (last_of x.0 xs)
unfolding last_from
last_from_lem zero h before x xs chain enough = absurd (omega (arith, enough))
last_from_lem (suc fuel) h before x [] chain enough =
    rw (
      load_lem h x.0 (record { item = x.1; next = 0; prev = before }) chain.0.positive chain.0.here)
last_from_lem (suc fuel) h before x (y ∷ ys) chain enough = ground (
  arith,
  load_lem h x.0 (record { item = x.1; next = y.0; prev = before }) chain.0.positive chain.0.here,
  chain.1.0.positive,
  last_from_lem fuel h x.0 y ys chain.1 (omega (arith, enough)),
)

-- In a list of any length, the walk along `next` has enough fuel and ends at the last link.
pub list_last_lem :
    (h : Heap) (xs : Items) → IsList h xs → list_last h (first_of xs 0) ≡ some (last_of 0 xs)
unfolding list_last
list_last_lem h [] list = refl
list_last_lem h (x ∷ xs) list = ground (
  arith,
  list.chain.0.positive,
  last_from_lem (suc h.fresh) h 0 x xs list.chain (omega (arith, length-IsList h (x ∷ xs) list)),
)

-- The fresh address lies apart from every list.
alloc_link-Outside : (h : Heap) (l : Link) → Outside [] h (alloc_link h l).1
unfolding alloc_link
alloc_link-Outside h l = record {
  fresh = omega arith;
  same = λ a lacks below. ground (arith, below);
}

pub alloc_link-IsList :
    (h : Heap) (l : Link) (xs : Items) → IsList h xs → IsList (alloc_link h l).1 xs
unfolding alloc_link
alloc_link-IsList h l xs list = record {
  chain =
      Chain-Outside [] h (alloc_link h l).1 0 0 xs (alloc_link-Outside h l) (Apart-none xs)
        list.chain;
  distinct = list.distinct;
  started = omega (arith, list.started);
}

-- What an operation that gives back a list and a heap has made.
pub record Made (h : Heap) (xs : Items) (run : Option (ℕ × Heap)) : Type 0 where
  pub heap : Heap
  pub eq : run ≡ some (first_of xs 0, heap)
  pub list : IsList heap xs

pub list_add_lem :
    (h : Heap) (xs : Items) (item : ℕ)
    → IsList h xs
    → Made h ((h.fresh, item) ∷ xs) (list_add h (first_of xs 0) item)
unfolding list_add alloc_link
list_add_lem h xs item list =
    let l : Link = record { item = item; next = first_of xs 0; prev = 0 } in
    let g = (alloc_link h l).1 in
    let kept = alloc_link-IsList h l xs list in
    let joined = join_first g 0 h.fresh xs kept.chain list.distinct in
    let lacks = Lacks-fresh h 0 0 xs list.chain in
    record {
      heap = joined.heap;
      eq = rw (joined.eq);
      list = record {
        chain = (
          record {
            positive = list.started;
            below = omega (arith, joined.fresh);
            here = joined.outside.same h.fresh lacks (omega arith) ∙ ground arith;
          },
          joined.chain,
        );
        distinct = (lacks, list.distinct);
        started = omega (arith, joined.fresh);
      };
    }

Separate-end : (p item : ℕ) (xs : Items) → Lacks p xs → Distinct xs → Separate xs ((p, item) ∷ [])
Separate-end p item xs lacks distinct = record {
  left = distinct;
  right = (tt, tt);
  apart = (lacks, tt);
}

-- What gives back the pointer `p` and a heap has made.
pub record MadeAt (p : ℕ) (xs : Items) (run : Option (ℕ × Heap)) : Type 0 where
  pub heap : Heap
  pub eq : run ≡ some (p, heap)
  pub list : IsList heap xs

add_behind_lem :
    (h : Heap) (p : ℕ) (x : ℕ × ℕ) (xs : Items) (item : ℕ)
    → IsList h (x ∷ xs)
    → list_last h p ≡ some (last_of x.0 xs)
    → MadeAt p (x ∷ xs ++ ((h.fresh, item) ∷ [])) (add_behind h p item)
unfolding add_behind alloc_link
add_behind_lem h p x xs item list found =
    let l : Link = record { item = item; next = 0; prev = last_of x.0 xs } in
    let g = (alloc_link h l).1 in
    let kept = alloc_link-IsList h l (x ∷ xs) list in
    let joined = join_behind g 0 0 h.fresh x xs kept.chain list.distinct in
    let lacks = Lacks-fresh h 0 0 (x ∷ xs) list.chain in
    record {
      heap = joined.heap;
      eq = rw (found, joined.eq);
      list = record {
        chain = Chain-join joined.heap 0 0 (x ∷ xs) ((h.fresh, item) ∷ []) joined.chain (
          record {
            positive = list.started;
            below = omega (arith, joined.fresh);
            here = joined.outside.same h.fresh lacks (omega arith) ∙ ground arith;
          },
          tt,
        );
        distinct =
            append-Distinct (x ∷ xs) ((h.fresh, item) ∷ [])
              (Separate-end h.fresh item (x ∷ xs) lacks list.distinct);
        started = omega (arith, joined.fresh);
      };
    }

-- `hm_list_add_tail` finds the end of a list of any length and returns the list with one link more,
-- which holds the item, behind it.
pub list_add_tail_lem :
    (h : Heap) (xs : Items) (item : ℕ)
    → IsList h xs
    → Made h (xs ++ ((h.fresh, item) ∷ [])) (list_add_tail h (first_of xs 0) item)
unfolding list_add_tail alloc_link
list_add_tail_lem h [] item list = record {
  heap = (alloc_link h (record { item = item; next = 0; prev = 0 })).1;
  eq = refl;
  list = record {
    chain = (record { positive = list.started; below = omega arith; here = ground arith }, tt);
    distinct = (tt, tt);
    started = omega arith;
  };
}
list_add_tail_lem h (x ∷ xs) item list =
    let made = add_behind_lem h x.0 x xs item list (list_last_lem h (x ∷ xs) list) in
    record {
      heap = made.heap;
      eq = ground (arith, list.chain.0.positive, made.eq);
      list = made.list;
    }

-- The last link.
pub record Last (h : Heap) (stop p : ℕ) : Type 0 where
  pub before : ℕ
  pub item : ℕ
  pub placed : Placed h before stop (p, item)

pub Last-end :
    (h : Heap) (before stop : ℕ) (x : ℕ × ℕ) (xs : Items)
    → Chain h before (x ∷ xs) stop
    → Last h stop (last_of x.0 xs)
Last-end h before stop x [] chain = record { before = before; item = x.1; placed = chain.0 }
Last-end h before stop x (y ∷ ys) chain = Last-end h x.0 stop y ys chain.1

pub load-Last :
    (h : Heap) (stop p : ℕ) (last : Last h stop p)
    → load h p ≡ some (record { item = last.item; next = stop; prev = last.before })
load-Last h stop p last =
    load_lem h p (record { item = last.item; next = stop; prev = last.before }) last.placed.positive
      last.placed.here

list_last-Last : (h : Heap) (p : ℕ) → Last h 0 p → list_last h p ≡ some p
unfolding list_last last_from
list_last-Last h p last = ground (arith, last.placed.positive, load-Last h 0 p last)

-- `hm_list_add_tail` on the last link, which it gives back.
pub list_add_tail_last :
    (h : Heap) (x : ℕ × ℕ) (xs : Items) (item : ℕ)
    → IsList h (x ∷ xs)
    → MadeAt
        (last_of x.0 xs)
        (x ∷ xs ++ ((h.fresh, item) ∷ []))
        (list_add_tail h (last_of x.0 xs) item)
unfolding list_add_tail
list_add_tail_last h x xs item list =
    let p = last_of x.0 xs in
    let made =
      add_behind_lem h p x xs item list (list_last-Last h p (Last-end h 0 0 x xs list.chain)) in
    record {
      heap = made.heap;
      eq = ground (arith, last_of-positive h 0 0 x xs list.chain, made.eq);
      list = made.list;
    }
