-- ===== src/LinkedList/Ends.antt =====
-- The pointers at the two ends of a list, set anew: hmlib/src/hm_list.c.
use hm_platform.Base.{ℕ, ◌<◌, ◌≡◌, refl, sym, [], ◌∷◌, Option, some, arith}
use hm_platform.LinkedList.{Heap, Link, load, store, set_next, set_prev, unless_null, update}
use hm_platform.LinkedList.Chain.{
  Items, first_of, last_of, Lacks, Distinct, Chain, Outside, Chain-Outside, Apart, Placed-Outside,
}

-- A heap with the link at an address replaced.
abbrev pub rewrite : Heap → ℕ → Link → Heap
rewrite h p l = record h { cell = update h.cell p (some l) }

pub load_lem : (h : Heap) (p : ℕ) (l : Link) → 0 < p → h.cell p ≡ some l → load h p ≡ some l
unfolding load
load_lem h p l positive here = ground (arith, positive, here)

pub set_next_lem :
    (h : Heap) (p q : ℕ) (l : Link)
    → 0 < p
    → h.cell p ≡ some l
    → set_next h p q ≡ some (rewrite h p (record l { next = q }))
unfolding set_next store
set_next_lem h p q l positive here = rw (load_lem h p l positive here)

pub set_prev_lem :
    (h : Heap) (p q : ℕ) (l : Link)
    → 0 < p
    → h.cell p ≡ some l
    → set_prev h p q ≡ some (rewrite h p (record l { prev = q }))
unfolding set_prev store
set_prev_lem h p q l positive here = rw (load_lem h p l positive here)

pub Outside-rewrite :
    (h : Heap) (x : ℕ × ℕ) (xs : Items) (l : Link) → Outside (x ∷ xs) h (rewrite h x.0 l)
Outside-rewrite h x xs l = record {
  fresh = omega arith;
  same = λ a lacks below. ground (arith, lacks.0);
}

-- A list whose end was joined to something else.
pub record Joined (h : Heap) (xs : Items) (before stop : ℕ) (run : Option Heap) : Type 0 where
  pub heap : Heap
  pub eq : run ≡ some heap
  pub chain : Chain heap before xs stop
  pub outside : Outside xs h heap
  pub fresh : heap.fresh ≡ h.fresh

pub Joined-same :
    (h : Heap) (before stop : ℕ) (m : Option Heap) → Joined h [] before stop (unless_null 0 h m)
Joined-same h before stop m = record {
  heap = h;
  eq = refl;
  chain = tt;
  outside = record { fresh = omega arith; same = λ a lacks below. refl };
  fresh = refl;
}

Joined-some :
    (p before stop : ℕ) (xs : Items) (h : Heap) (m : Option Heap)
    → 0 < p
    → Joined h xs before stop m
    → Joined h xs before stop (unless_null p h m)
Joined-some p before stop xs h m positive joined = record {
  heap = joined.heap;
  eq = ground (arith, positive, joined.eq);
  chain = joined.chain;
  outside = joined.outside;
  fresh = joined.fresh;
}

pub Apart-single : (x : ℕ × ℕ) (xs : Items) → Lacks x.0 xs → Apart (x ∷ []) xs
Apart-single x [] lacks = tt
Apart-single x (y ∷ ys) lacks = ((λ e. lacks.0 (sym e), tt), Apart-single x ys lacks.1)

-- `p->prev = q` at the first link.
pub join_first :
    (h : Heap) (before q : ℕ) (xs : Items)
    → Chain h before xs 0
    → Distinct xs
    → Joined h xs q 0 (unless_null (first_of xs 0) h (set_prev h (first_of xs 0) q))
join_first h before q [] chain distinct = Joined-same h q 0 (set_prev h 0 q)
join_first h before q (x ∷ xs) chain distinct =
    let l : Link = record { item = x.1; next = first_of xs 0; prev = q } in
    Joined-some x.0 q 0 (x ∷ xs) h (set_prev h x.0 q) chain.0.positive (record {
      heap = rewrite h x.0 l;
      eq =
          set_prev_lem h x.0 q (record { item = x.1; next = first_of xs 0; prev = before })
            chain.0.positive chain.0.here;
      chain = (
        record { positive = chain.0.positive; below = chain.0.below; here = ground arith },
        Chain-Outside (x ∷ []) h (rewrite h x.0 l) x.0 0 xs (Outside-rewrite h x [] l)
            (Apart-single x xs distinct.0) chain.1,
      );
      outside = Outside-rewrite h x xs l;
      fresh = refl;
    })

-- `p->next = q` at the last link.
pub join_behind :
    (h : Heap) (before stop q : ℕ) (x : ℕ × ℕ) (xs : Items)
    → Chain h before (x ∷ xs) stop
    → Distinct (x ∷ xs)
    → Joined h (x ∷ xs) before q (set_next h (last_of x.0 xs) q)
join_behind h before stop q x [] chain distinct =
    let l : Link = record { item = x.1; next = q; prev = before } in
    record {
      heap = rewrite h x.0 l;
      eq =
          set_next_lem h x.0 q (record { item = x.1; next = stop; prev = before }) chain.0.positive
            chain.0.here;
      chain =
          (record { positive = chain.0.positive; below = chain.0.below; here = ground arith }, tt);
      outside = Outside-rewrite h x [] l;
      fresh = refl;
    }
join_behind h before stop q x (y ∷ ys) chain distinct =
    let rest = join_behind h x.0 stop q y ys chain.1 distinct.1 in
    record {
      heap = rest.heap;
      eq = rest.eq;
      chain = (
        Placed-Outside (y ∷ ys) h rest.heap before y.0 x rest.outside distinct.0 chain.0,
        rest.chain,
      );
      outside = record {
        fresh = rest.outside.fresh;
        same = λ a lacks below. rest.outside.same a lacks.1 below;
      };
      fresh = rest.fresh;
    }

pub last_of-positive :
    (h : Heap) (before stop : ℕ) (x : ℕ × ℕ) (xs : Items)
    → Chain h before (x ∷ xs) stop
    → 0 < last_of x.0 xs
last_of-positive h before stop x [] chain = chain.0.positive
last_of-positive h before stop x (y ∷ ys) chain = last_of-positive h x.0 stop y ys chain.1

pub join_last :
    (h : Heap) (stop q : ℕ) (xs : Items)
    → Chain h 0 xs stop
    → Distinct xs
    → Joined h xs 0 q (unless_null (last_of 0 xs) h (set_next h (last_of 0 xs) q))
join_last h stop q [] chain distinct = Joined-same h 0 q (set_next h 0 q)
join_last h stop q (x ∷ xs) chain distinct =
    Joined-some (last_of x.0 xs) 0 q (x ∷ xs) h (set_next h (last_of x.0 xs) q)
      (last_of-positive h 0 stop x xs chain) (join_behind h 0 stop q x xs chain distinct)
