-- ===== src/LinkedList/Removes.antt =====
-- `hm_list_remove_link`, `hm_list_delete_link` and the link that `hm_list_remove` takes out:
-- hmlib/src/hm_list.c.
use hm_platform.Base.{
  ℕ, ◌<◌, ◌≡◌, ◌≢◌, ap, ◌∙◌, [], ◌∷◌, ◌++◌, Option, some, none, arith, ◌==◌, if◌then◌else◌,
}
use hm_platform.LinkedList.{
  Heap, Link, load, store, bypass, join_left, list_free_1, list_remove_link, list_delete_link,
  remove_found, update,
}
use hm_platform.LinkedList.Chain.{
  Items, first_of, last_of, Lacks, Chain, IsList, Chain-Outside, Apart-sym, append-Distinct,
  Separate, Distinct-append, append-Lacks,
}
use hm_platform.LinkedList.Cut.{Chain-split, Chain-join}
use hm_platform.LinkedList.Ends.{join_first, join_last, load_lem, rewrite}

-- The neighbours of a link point past it, and the link itself is as it was.
record Passed (h : Heap) (xs ys : Items) (x : ℕ × ℕ) (run : Option Heap) : Type 0 where
  heap : Heap
  eq : run ≡ some heap
  chain : Chain heap 0 (xs ++ ys) 0
  here : heap.cell x.0 ≡ some (record { item = x.1; next = first_of ys 0; prev = last_of 0 xs })
  fresh : heap.fresh ≡ h.fresh

module _ (h : Heap) (xs ys : Items) (x : ℕ × ℕ) (list : IsList h (xs ++ (x ∷ ys))) where
  parts : Chain h 0 xs x.0 × Chain h (last_of 0 xs) (x ∷ ys) 0
  parts = Chain-split h 0 0 xs (x ∷ ys) list.chain

  separate : Separate xs (x ∷ ys)
  separate = Distinct-append xs (x ∷ ys) list.distinct

  link : Link
  link = record { item = x.1; next = first_of ys 0; prev = last_of 0 xs }

  bypass_lem : Passed h xs ys x (bypass h link)
  unfolding bypass link
  bypass_lem =
      let one = join_first h x.0 (last_of 0 xs) ys parts.1.1 separate.right.1 in
      let left =
        Chain-Outside ys h one.heap 0 x.0 xs one.outside (Apart-sym xs ys separate.apart.1)
          parts.0 in
      let two = join_last one.heap x.0 (first_of ys 0) xs left separate.left in
      record {
        heap = two.heap;
        eq = rw (one.eq, two.eq);
        chain = Chain-join two.heap 0 0 xs ys two.chain (
            Chain-Outside xs one.heap two.heap (last_of 0 xs) 0 ys two.outside separate.apart.1
              one.chain);
        here =
            two.outside.same x.0 separate.apart.0 (omega (arith, one.fresh, parts.1.0.below))
            ∙ one.outside.same x.0 separate.right.0 parts.1.0.below
            ∙ parts.1.0.here;
        fresh = two.fresh ∙ one.fresh;
      }

  join_left_lem : Passed h xs ys x (join_left h link)
  unfolding join_left link
  join_left_lem =
      let one = join_last h x.0 (first_of ys 0) xs parts.0 separate.left in
      let right = Chain-Outside xs h one.heap x.0 0 ys one.outside separate.apart.1 parts.1.1 in
      let two = join_first one.heap x.0 (last_of 0 xs) ys right separate.right.1 in
      record {
        heap = two.heap;
        eq = rw (one.eq, two.eq);
        chain =
            Chain-join two.heap 0 0 xs ys
              (Chain-Outside ys one.heap two.heap 0 (first_of ys 0) xs two.outside
                (Apart-sym xs ys separate.apart.1) one.chain)
              two.chain;
        here =
            two.outside.same x.0 separate.right.0 (omega (arith, one.fresh, parts.1.0.below))
            ∙ one.outside.same x.0 separate.apart.0 parts.1.0.below
            ∙ parts.1.0.here;
        fresh = two.fresh ∙ one.fresh;
      }

  -- The list without the link is a list, whatever becomes of the link.
  IsList-around :
      (g k : Heap)
      → Chain g 0 (xs ++ ys) 0
      → g.fresh ≡ h.fresh
      → k.fresh ≡ h.fresh
      → ((a : ℕ) → a ≢ x.0 → k.cell a ≡ g.cell a)
      → IsList k (xs ++ ys)
  IsList-around g k chain fresh fresh' same = record {
    chain =
        Chain-Outside (x ∷ []) g k 0 0 (xs ++ ys)
          (record { fresh = omega (arith, fresh, fresh'); same = λ a lacks below. same a lacks.0 })
          (Apart-sym (xs ++ ys) (x ∷ [])
            (append-Lacks x.0 xs ys separate.apart.0 separate.right.0, tt))
          chain;
    distinct =
        append-Distinct xs ys
          (record { left = separate.left; right = separate.right.1; apart = separate.apart.1 });
    started = omega (arith, list.started, fresh');
  }

-- The head after the link at `p` is gone.
head_lem :
    (xs ys : Items) (x : ℕ × ℕ)
    → Lacks x.0 xs
    → (if x.0 == first_of (xs ++ (x ∷ ys)) 0 then first_of ys 0 else first_of (xs ++ (x ∷ ys)) 0)
      ≡ first_of (xs ++ ys) 0
head_lem [] ys x lacks = ground arith
head_lem (z ∷ zs) ys x lacks = ground (arith, lacks.0)

==_comm : (a b : ℕ) → (a == b) ≡ (b == a)
==_comm a b = ground arith

-- A list and a heap from which a link was taken out and freed.
pub record Deleted (h : Heap) (xs : Items) (p : ℕ) (run : Option (ℕ × Heap)) : Type 0 where
  pub heap : Heap
  pub eq : run ≡ some (first_of xs 0, heap)
  pub list : IsList heap xs
  pub freed : heap.cell p ≡ none

unfoldable pub clear : Heap → ℕ → Heap
clear h p = record h { cell = update h.cell p none }

pub list_free_1_lem :
    (h : Heap) (p : ℕ) (l : Link) → 0 < p → h.cell p ≡ some l → list_free_1 h p ≡ some (clear h p)
unfolding list_free_1 clear
list_free_1_lem h p l positive here = ground (arith, positive, load_lem h p l positive here)

-- A link in any place of a list, given to `hm_list_delete_link`, leaves the links before and behind
-- it a list, of which the head is returned, and is freed.
pub list_delete_link_lem :
    (h : Heap) (xs ys : Items) (x : ℕ × ℕ)
    → IsList h (xs ++ (x ∷ ys))
    → Deleted h (xs ++ ys) x.0 (list_delete_link h (first_of (xs ++ (x ∷ ys)) 0) x.0)
unfolding list_delete_link list_remove_link store clear link
list_delete_link_lem h xs ys x list =
    let l = link h xs ys x list in
    let positive = (parts h xs ys x list).1.0.positive in
    let passed = bypass_lem h xs ys x list in
    let g = rewrite passed.heap x.0 (record l { next = 0; prev = 0 }) in
    let at_first = load_lem h x.0 l positive (parts h xs ys x list).1.0.here in
    let again = load_lem passed.heap x.0 l positive passed.here in
    let gone = list_free_1_lem g x.0 (record l { next = 0; prev = 0 }) positive (ground arith) in
    record {
      heap = clear g x.0;
      eq = ground (
        arith,
        positive,
        at_first,
        passed.eq,
        again,
        gone,
        head_lem xs ys x (separate h xs ys x list).apart.0,
      );
      list =
          IsList-around h xs ys x list passed.heap (clear g x.0) passed.chain passed.fresh
            passed.fresh (λ a other. ground (arith, other));
      freed = ground arith;
    }

-- A link whose neighbours were joined and which was then freed.
pub record Unlinked (h : Heap) (xs ys : Items) (x : ℕ × ℕ) (l : Link) : Type 0 where
  pub between : Heap
  pub heap : Heap
  pub linked : join_left h l ≡ some between
  pub here : load between x.0 ≡ some l
  pub cleared : list_free_1 between x.0 ≡ some heap
  pub list : IsList heap (xs ++ ys)
  pub freed : heap.cell x.0 ≡ none
  pub fresh : heap.fresh ≡ h.fresh

abbrev pub link_between : Items → Items → ℕ × ℕ → Link
link_between xs ys x = record { item = x.1; next = first_of ys 0; prev = last_of 0 xs }

pub loaded :
    (h : Heap) (xs ys : Items) (x : ℕ × ℕ)
    → IsList h (xs ++ (x ∷ ys))
    → load h x.0 ≡ some (link_between xs ys x)
loaded h xs ys x list =
    let placed = (parts h xs ys x list).1.0 in
    load_lem h x.0 (link_between xs ys x) placed.positive placed.here

pub Unlinked-join_left :
    (h : Heap) (xs ys : Items) (x : ℕ × ℕ)
    → IsList h (xs ++ (x ∷ ys))
    → Unlinked h xs ys x (link_between xs ys x)
unfolding clear link
Unlinked-join_left h xs ys x list =
    let l = link_between xs ys x in
    let positive = (parts h xs ys x list).1.0.positive in
    let passed = join_left_lem h xs ys x list in
    record {
      between = passed.heap;
      heap = clear passed.heap x.0;
      linked = passed.eq;
      here = load_lem passed.heap x.0 l positive passed.here;
      cleared = list_free_1_lem passed.heap x.0 l positive passed.here;
      list =
          IsList-around h xs ys x list passed.heap (clear passed.heap x.0) passed.chain passed.fresh
            passed.fresh (λ a other. ground (arith, other));
      freed = ground arith;
      fresh = passed.fresh;
    }

pub remove_found_lem :
    (h : Heap) (xs ys : Items) (x : ℕ × ℕ)
    → IsList h (xs ++ (x ∷ ys))
    → Deleted h (xs ++ ys) x.0 (remove_found h (first_of (xs ++ (x ∷ ys)) 0) x.0)
unfolding remove_found
remove_found_lem h xs ys x list =
    let out = Unlinked-join_left h xs ys x list in
    record {
      heap = out.heap;
      eq =
          rw (loaded h xs ys x list, out.linked, out.here, out.cleared)
            (ap (λ p. some (p, out.heap))
              (ap (λ b. if b then first_of ys 0 else first_of (xs ++ (x ∷ ys)) 0)
                  (==_comm (first_of (xs ++ (x ∷ ys)) 0) x.0)
                ∙ head_lem xs ys x (separate h xs ys x list).apart.0));
      list = out.list;
      freed = out.freed;
    }
