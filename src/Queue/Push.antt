-- ===== src/Queue/Push.antt =====
-- `hm_queue_push_tail` and `hm_queue_push_head` of hmlib/src/hm_queue.c.
use hm_platform.Base.{
  ℕ, ◌+◌, ◌<◌, ◌%◌, ◌^◌, ◌≡◌, refl, sym, ap, ◌∙◌, [], ◌∷◌, ◌++◌, Option, some, arith, length,
  length-append, ◌==◌, if◌then◌else◌, ◌>>=◌,
}
use hm_platform.LinkedList.{Heap, Link, list_add}
use hm_platform.LinkedList.Chain.{Items, first_of, last_of, IsList}
use hm_platform.LinkedList.Cut.{Chain-split, last_of-append}
use hm_platform.LinkedList.Ends.{load_lem}
use hm_platform.LinkedList.Adds.{
  Last-end, load-Last, list_add_lem, list_add_tail_lem, list_add_tail_last,
}
use hm_platform.Queue.{Queue, tail_added, queue_push_tail, queue_push_head}

-- The queue's pointers are the ends of a list, and its count is the list's length.
pub record IsQueue (h : Heap) (queue : Queue) (xs : Items) : Type 0 where
  pub list : IsList h xs
  pub head : queue.head ≡ first_of xs 0
  pub tail : queue.tail ≡ last_of 0 xs
  pub count : queue.count ≡ length xs % 2 ^ 32

-- What an operation that gives back a queue and a heap has made.
pub record Queued (xs : Items) (run : Option (Queue × Heap)) : Type 0 where
  pub queue : Queue
  pub heap : Heap
  pub eq : run ≡ some (queue, heap)
  pub holds : IsQueue heap queue xs

-- The link that `hm_list_add_tail` gave back tells whether the queue was empty.
push_first :
    (h : Heap) (queue : Queue) (item : ℕ)
    → IsQueue h queue []
    → Queued ((h.fresh, item) ∷ []) (queue_push_tail h queue item)
unfolding queue_push_tail
push_first h queue item holds =
    let made = list_add_tail_lem h [] item holds.list in
    let l : Link = record { item = item; next = 0; prev = 0 } in
    let at_last = load_lem made.heap h.fresh l holds.list.started made.list.chain.0.here in
    record {
      queue = record { head = h.fresh; tail = h.fresh; count = 1 };
      heap = made.heap;
      eq = rw (holds.tail, made.eq, at_last, holds.count);
      holds = record { list = made.list; head = refl; tail = refl; count = refl };
    }

behind :
    (queue : Queue) (p count : ℕ) (l : Link)
    → 0 < l.next
    → queue.count ≡ count % 2 ^ 32
    → tail_added queue p l
      ≡ record { head = queue.head; tail = l.next; count = (count + 1) % 2 ^ 32 }
behind queue p count l other counted = ground (arith, other, counted)

push_behind :
    (h : Heap) (queue : Queue) (x : ℕ × ℕ) (xs : Items) (item : ℕ)
    → IsQueue h queue (x ∷ xs)
    → Queued (x ∷ xs ++ ((h.fresh, item) ∷ [])) (queue_push_tail h queue item)
unfolding queue_push_tail
push_behind h queue x xs item holds =
    let made = list_add_tail_last h x xs item holds.list in
    let parts = Chain-split made.heap 0 0 (x ∷ xs) ((h.fresh, item) ∷ []) made.list.chain in
    let last = Last-end made.heap 0 h.fresh x xs parts.0 in
    record {
      queue = record { head = queue.head; tail = h.fresh; count = (length (x ∷ xs) + 1) % 2 ^ 32 };
      heap = made.heap;
      eq = rw (
        holds.tail,
        made.eq,
        load-Last made.heap h.fresh (last_of x.0 xs) last,
        behind queue (last_of x.0 xs) (length (x ∷ xs))
            (record { item = last.item; next = h.fresh; prev = last.before }) holds.list.started
            holds.count,
      );
      holds = record {
        list = made.list;
        head = holds.head;
        tail = sym (last_of-append x.0 xs ((h.fresh, item) ∷ []));
        count = omega (arith, length-append xs ((h.fresh, item) ∷ []));
      };
    }

-- What was pushed is behind all the queue held.
pub queue_push_tail_lem :
    (h : Heap) (queue : Queue) (xs : Items) (item : ℕ)
    → IsQueue h queue xs
    → Queued (xs ++ ((h.fresh, item) ∷ [])) (queue_push_tail h queue item)
queue_push_tail_lem h queue [] item holds = push_first h queue item holds
queue_push_tail_lem h queue (x ∷ xs) item holds = push_behind h queue x xs item holds

kept_tail : (p a b : ℕ) → 0 < p → (if p == 0 then a else b) ≡ b
kept_tail p a b positive = ground (arith, positive)

tail_pushed :
    (h : Heap) (queue : Queue) (xs : Items) (item : ℕ)
    → IsQueue h queue xs
    → (if queue.head == 0 then h.fresh else queue.tail) ≡ last_of h.fresh xs
tail_pushed h queue [] item holds = rw (holds.head)
tail_pushed h queue (x ∷ xs) item holds =
    ap (λ p. if p == 0 then h.fresh else queue.tail) holds.head
    ∙ (kept_tail x.0 h.fresh queue.tail holds.list.chain.0.positive ∙ holds.tail)

-- What was pushed is before all the queue held.
pub queue_push_head_lem :
    (h : Heap) (queue : Queue) (xs : Items) (item : ℕ)
    → IsQueue h queue xs
    → Queued ((h.fresh, item) ∷ xs) (queue_push_head h queue item)
unfolding queue_push_head
queue_push_head_lem h queue xs item holds =
    let made = list_add_lem h xs item holds.list in
    record {
      queue = record {
        head = h.fresh;
        tail = if queue.head == 0 then h.fresh else queue.tail;
        count = (queue.count + 1) % 2 ^ 32;
      };
      heap = made.heap;
      eq =
          ap
            (λ p. list_add h p item >>= (λ r. some (
              record {
                head = r.0;
                tail = if queue.head == 0 then r.0 else queue.tail;
                count = (queue.count + 1) % 2 ^ 32;
              },
              r.1,
            )))
            holds.head
          ∙ rw (made.eq);
      holds = record {
        list = made.list;
        head = refl;
        tail = tail_pushed h queue xs item holds;
        count = omega (arith, holds.count);
      };
    }
