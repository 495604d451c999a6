-- ===== src/Queue/Pop.antt =====
-- `hm_queue_pop_head`, `hm_queue_pop_tail` and `hm_queue_clear` of hmlib/src/hm_queue.c.
use hm_platform.Base.{
  ℕ, ◌+◌, ◌-◌, ◌<◌, ◌%◌, ◌^◌, ◌≡◌, refl, ◌∙◌, [], ◌∷◌, ◌++◌, Option, some, none, arith, length,
  length-append, ◌==◌, if◌then◌else◌,
}
use hm_platform.LinkedList.{Heap, Link}
use hm_platform.LinkedList.Chain.{
  Items, first_of, last_of, Chain, Outside, Chain-Outside, Apart-sym, Distinct-append,
}
use hm_platform.LinkedList.Cut.{Chain-split, last_of-append}
use hm_platform.LinkedList.Ends.{join_first, load_lem, Apart-single}
use hm_platform.LinkedList.Removes.{clear, list_free_1_lem}
use hm_platform.LinkedList.Walks.{list_free_lem}
use hm_platform.Queue.{Queue, head_taken, queue_pop_head, queue_pop_tail, queue_clear, queue_init}
use hm_platform.Queue.Push.{IsQueue, Queued}

-- What an operation that gives back an item, a queue and a heap has made.
pub record Popped (item : ℕ) (xs : Items) (run : Option (ℕ × (Queue × Heap))) : Type 0 where
  pub queue : Queue
  pub heap : Heap
  pub eq : run ≡ some (item, (queue, heap))
  pub holds : IsQueue heap queue xs

clear-Outside : (h : Heap) (x : ℕ × ℕ) → Outside (x ∷ []) h (clear h x.0)
unfolding clear
clear-Outside h x = record { fresh = omega arith; same = λ a lacks below. ground (arith, lacks.0) }

positive_tail : (p b : ℕ) → 0 < p → (if p == 0 then 0 else b) ≡ b
positive_tail p b positive = ground (arith, positive)

clear-none : (h : Heap) (p : ℕ) → (clear h p).cell p ≡ none
unfolding clear
clear-none h p = ground arith

head_taken_tail :
    (h : Heap) (queue : Queue) (x : ℕ × ℕ) (xs : Items)
    → IsQueue h queue (x ∷ xs)
    → (head_taken queue (first_of xs 0)).tail ≡ last_of 0 xs
head_taken_tail h queue x [] holds = refl
head_taken_tail h queue x (y ∷ ys) holds =
    positive_tail y.0 queue.tail holds.list.chain.1.0.positive ∙ holds.tail

-- The oldest item leaves a queue that is not empty, and its link is freed.
pub queue_pop_head_lem :
    (h : Heap) (queue : Queue) (x : ℕ × ℕ) (xs : Items)
    → IsQueue h queue (x ∷ xs)
    → Popped x.1 xs (queue_pop_head h queue)
unfolding queue_pop_head clear
queue_pop_head_lem h queue x xs holds =
    let list = holds.list in
    let positive = list.chain.0.positive in
    let l : Link = record { item = x.1; next = first_of xs 0; prev = 0 } in
    let joined = join_first h x.0 0 xs list.chain.1 list.distinct.1 in
    let here = joined.outside.same x.0 list.distinct.0 list.chain.0.below ∙ list.chain.0.here in
    let gone = list_free_1_lem joined.heap x.0 l positive here in
    record {
      queue = head_taken queue (first_of xs 0);
      heap = clear joined.heap x.0;
      eq = ground (
        arith,
        holds.head,
        positive,
        load_lem h x.0 l positive list.chain.0.here,
        joined.eq,
        gone,
      );
      holds = record {
        list = record {
          chain =
              Chain-Outside (x ∷ []) joined.heap (clear joined.heap x.0) 0 0 xs
                (clear-Outside joined.heap x) (Apart-single x xs list.distinct.0) joined.chain;
          distinct = list.distinct.1;
          started = omega (arith, list.started, joined.fresh);
        };
        head = refl;
        tail = head_taken_tail h queue x xs holds;
        count = omega (arith, holds.count);
      };
    }

pub queue_pop_head_empty :
    (h : Heap) (queue : Queue) → IsQueue h queue [] → queue_pop_head h queue ≡ some (0, (queue, h))
unfolding queue_pop_head
queue_pop_head_empty h queue holds = rw (holds.head)

-- What is left of the items `xs` when the link at `p` behind them went with `hm_queue_pop_tail`.
pub record Dropped (p item : ℕ) (xs : Items) (run : Option (ℕ × (Queue × Heap))) : Type 0 where
  pub queue : Queue
  pub heap : Heap
  pub eq : run ≡ some (item, (queue, heap))
  pub count : queue.count ≡ length xs % 2 ^ 32
  pub empty : queue_pop_head heap queue ≡ some (0, (queue, heap))
  pub no_head : queue.head ≡ 0
  pub no_tail : queue.tail ≡ 0
  pub freed : heap.cell p ≡ none
  pub lost : Chain heap 0 xs p

-- `hm_queue_pop_tail` gives the newest item, frees its link and counts down, but a queue of any length
-- is left with head and tail NULL: the next `hm_queue_pop_head` gives NULL, while the links of the other
-- items still lie in memory, the last of them pointing to the freed one.
pub queue_pop_tail_lem :
    (h : Heap) (queue : Queue) (xs : Items) (x : ℕ × ℕ)
    → IsQueue h queue (xs ++ (x ∷ []))
    → Dropped x.0 x.1 xs (queue_pop_tail h queue)
unfolding queue_pop_tail queue_pop_head
queue_pop_tail_lem h queue xs x holds =
    let parts = Chain-split h 0 0 xs (x ∷ []) holds.list.chain in
    let sep = Distinct-append xs (x ∷ []) holds.list.distinct in
    let l : Link = record { item = x.1; next = 0; prev = last_of 0 xs } in
    let positive = parts.1.0.positive in
    let at_tail : queue.tail ≡ x.0 = holds.tail ∙ last_of-append 0 xs (x ∷ []) in
    let gone = list_free_1_lem h x.0 l positive parts.1.0.here in
    record {
      queue = record { head = 0; tail = 0; count = (queue.count + (2 ^ 32 - 1)) % 2 ^ 32 };
      heap = clear h x.0;
      eq = ground (arith, at_tail, positive, load_lem h x.0 l positive parts.1.0.here, gone);
      count = omega (arith, holds.count, length-append xs (x ∷ []));
      empty = refl;
      no_head = refl;
      no_tail = refl;
      freed = clear-none h x.0;
      lost =
          Chain-Outside (x ∷ []) h (clear h x.0) 0 x.0 xs (clear-Outside h x)
            (Apart-sym xs (x ∷ []) sep.apart) parts.0;
    }

pub queue_clear_lem :
    (h : Heap) (queue : Queue) (xs : Items) → IsQueue h queue xs → Queued [] (queue_clear h queue)
unfolding queue_clear queue_init
queue_clear_lem h queue xs holds =
    let freed = list_free_lem h xs holds.list in
    record {
      queue = queue_init;
      heap = freed.heap;
      eq = rw (holds.head, freed.eq);
      holds = record {
        list = record {
          chain = tt;
          distinct = tt;
          started = omega (arith, holds.list.started, freed.outside.fresh);
        };
        head = refl;
        tail = refl;
        count = refl;
      };
    }
