-- ===== src/Queue/Runs.antt =====
-- Any sequence of calls of hmlib/src/hm_queue.c, but those of `hm_queue_pop_tail`, against a plain
-- list of items.
use hm_platform.Base.{
  ℕ, ◌%◌, ◌^◌, ◌≡◌, refl, ap, subst, ◌∙◌, List, [], ◌∷◌, ◌++◌, Option, some, length, ◌>>=◌, arith,
}
use hm_platform.LinkedList.{Heap}
use hm_platform.LinkedList.Chain.{Items}
use hm_platform.Queue.{
  Queue, queue_push_tail, queue_push_head, queue_pop_head, queue_clear, queue_length,
}
use hm_platform.Queue.Push.{IsQueue, queue_push_tail_lem, queue_push_head_lem}
use hm_platform.Queue.Pop.{queue_pop_head_lem, queue_pop_head_empty, queue_clear_lem}

pub data QueueCall : Type 0 where
  push_tail : ℕ → QueueCall
  push_head : ℕ → QueueCall
  pop_head : QueueCall
  clear_all : QueueCall

-- The answers of the calls that pop, and the state at the end.
pub run_queue : List QueueCall → Heap → Queue → Option (List ℕ × (Queue × Heap))
run_queue [] h queue = some ([], (queue, h))
run_queue (push_tail item ∷ calls) h queue = do
  r ← queue_push_tail h queue item
  run_queue calls r.1 r.0
run_queue (push_head item ∷ calls) h queue = do
  r ← queue_push_head h queue item
  run_queue calls r.1 r.0
run_queue (pop_head ∷ calls) h queue = do
  r ← queue_pop_head h queue
  s ← run_queue calls r.1.1 r.1.0
  some (r.0 ∷ s.0, s.1)
run_queue (clear_all ∷ calls) h queue = do r ← queue_clear h queue; run_queue calls r.1 r.0

-- The same calls on a list; a pop of an empty one answers 0.
unfoldable pub run_items : List QueueCall → List ℕ → List ℕ × List ℕ
run_items [] items = ([], items)
run_items (push_tail item ∷ calls) items = run_items calls (items ++ (item ∷ []))
run_items (push_head item ∷ calls) items = run_items calls (item ∷ items)
run_items (pop_head ∷ calls) [] = let rest = run_items calls [] in (0 ∷ rest.0, rest.1)
run_items (pop_head ∷ calls) (item ∷ items) =
    let rest = run_items calls items in (item ∷ rest.0, rest.1)
run_items (clear_all ∷ calls) items = run_items calls []

abbrev pub items_of : Items → List ℕ
items_of [] = []
items_of (x ∷ xs) = x.1 ∷ items_of xs

items_of-append : (xs ys : Items) → items_of (xs ++ ys) ≡ items_of xs ++ items_of ys
items_of-append [] ys = refl
items_of-append (x ∷ xs) ys = ap (◌∷◌ x.1) (items_of-append xs ys)

length-items_of : (xs : Items) → length (items_of xs) ≡ length xs
length-items_of [] = refl
length-items_of (x ∷ xs) = omega (arith, length-items_of xs)

-- The run returns, its answers are the list's, and so is what the queue holds at the end.
pub record Agreed (answer : List ℕ × List ℕ) (run : Option (List ℕ × (Queue × Heap))) : Type 0 where
  pub queue : Queue
  pub heap : Heap
  pub held : Items
  pub eq : run ≡ some (answer.0, (queue, heap))
  pub holds : IsQueue heap queue held
  pub items : items_of held ≡ answer.1
  pub count : queue_length queue ≡ length answer.1 % 2 ^ 32

-- A first call and the rest of the run.
Agreed-behind :
    (answer : List ℕ × List ℕ) (run run' : Option (List ℕ × (Queue × Heap)))
    → run' ≡ run
    → Agreed answer run
    → Agreed answer run'
Agreed-behind answer run run' eq agreed = record {
  queue = agreed.queue;
  heap = agreed.heap;
  held = agreed.held;
  eq = eq ∙ agreed.eq;
  holds = agreed.holds;
  items = agreed.items;
  count = agreed.count;
}

abbrev answered : ℕ → Option (List ℕ × (Queue × Heap)) → Option (List ℕ × (Queue × Heap))
answered item m = do s ← m; some (item ∷ s.0, s.1)

Agreed-answered :
    (item : ℕ) (answer : List ℕ × List ℕ) (run : Option (List ℕ × (Queue × Heap)))
    → Agreed answer run
    → Agreed (item ∷ answer.0, answer.1) (answered item run)
Agreed-answered item answer run agreed = record {
  queue = agreed.queue;
  heap = agreed.heap;
  held = agreed.held;
  eq = ap (answered item) agreed.eq;
  holds = agreed.holds;
  items = agreed.items;
  count = agreed.count;
}

-- Whatever is pushed at either end, popped at the head and cleared, no call reads or writes memory
-- that is not there, every walk ends, the answers are those of a plain list of items, the queue
-- holds that list's items in order, and its count is their number modulo 2^32.
pub run_queue-run_items :
    (calls : List QueueCall) (h : Heap) (queue : Queue) (xs : Items)
    → IsQueue h queue xs
    → Agreed (run_items calls (items_of xs)) (run_queue calls h queue)
unfolding run_queue run_items queue_length
run_queue-run_items [] h queue xs holds = record {
  queue = queue;
  heap = h;
  held = xs;
  eq = refl;
  holds = holds;
  items = refl;
  count = rw (length-items_of xs) holds.count;
}
run_queue-run_items (push_tail item ∷ calls) h queue xs holds =
    let out = queue_push_tail_lem h queue xs item holds in
    let rest =
      run_queue-run_items calls out.heap out.queue (xs ++ ((h.fresh, item) ∷ [])) out.holds in
    subst (λ items. Agreed (run_items calls items) (run_queue (push_tail item ∷ calls) h queue))
      (items_of-append xs ((h.fresh, item) ∷ []))
      (Agreed-behind (run_items calls (items_of (xs ++ ((h.fresh, item) ∷ []))))
        (run_queue calls out.heap out.queue) (run_queue (push_tail item ∷ calls) h queue)
        (rw (out.eq)) rest)
run_queue-run_items (push_head item ∷ calls) h queue xs holds =
    let out = queue_push_head_lem h queue xs item holds in
    Agreed-behind (run_items calls (item ∷ items_of xs)) (run_queue calls out.heap out.queue)
      (run_queue (push_head item ∷ calls) h queue) (rw (out.eq))
      (run_queue-run_items calls out.heap out.queue ((h.fresh, item) ∷ xs) out.holds)
run_queue-run_items (pop_head ∷ calls) h queue [] holds =
    Agreed-behind (run_items (pop_head ∷ calls) []) (answered 0 (run_queue calls h queue))
      (run_queue (pop_head ∷ calls) h queue) (rw (queue_pop_head_empty h queue holds))
      (Agreed-answered 0 (run_items calls []) (run_queue calls h queue)
        (run_queue-run_items calls h queue [] holds))
run_queue-run_items (pop_head ∷ calls) h queue (x ∷ xs) holds =
    let out = queue_pop_head_lem h queue x xs holds in
    Agreed-behind (run_items (pop_head ∷ calls) (items_of (x ∷ xs)))
      (answered x.1 (run_queue calls out.heap out.queue)) (run_queue (pop_head ∷ calls) h queue)
      (rw (out.eq))
      (Agreed-answered x.1 (run_items calls (items_of xs)) (run_queue calls out.heap out.queue)
        (run_queue-run_items calls out.heap out.queue xs out.holds))
run_queue-run_items (clear_all ∷ calls) h queue xs holds =
    let out = queue_clear_lem h queue xs holds in
    Agreed-behind (run_items calls []) (run_queue calls out.heap out.queue)
      (run_queue (clear_all ∷ calls) h queue) (rw (out.eq))
      (run_queue-run_items calls out.heap out.queue [] out.holds)
