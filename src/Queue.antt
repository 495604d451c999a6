-- ===== src/Queue.antt =====
-- Queues on doubly linked lists: hmlib/src/hm_queue.c.
pub mod Push
pub mod Pop
pub mod Runs
mod Tests
use hm_platform.Base.{
  ℕ, zero, suc, ◌+◌, ◌-◌, ◌%◌, ◌^◌, List, [], ◌∷◌, ◌++◌, Option, none, some, ◌==◌, if◌then◌else◌,
  ◌>>=◌,
}
use hm_platform.LinkedList.{
  Heap, Link, null, load, set_prev, unless_null, list_add, list_add_tail, list_free, list_free_1,
}

-- `struct _JQueue`; `count` is an `unsigned`.
pub record Queue : Type 0 where
  pub head : ℕ
  pub tail : ℕ
  pub count : ℕ

pub queue_init : Queue
queue_init = record { head = null; tail = null; count = 0 }

pub queue_length : Queue → ℕ
queue_length queue = queue.count

pub queue_clear : Heap → Queue → Option (Queue × Heap)
queue_clear h queue = do h1 ← list_free h queue.head; some (queue_init, h1)

-- The memory of the queue's own record is the caller's.
pub queue_free : Heap → Queue → Option Heap
queue_free h queue = list_free h queue.head

abbrev pub one_more : ℕ → ℕ
one_more count = (count + 1) % 2 ^ 32

abbrev pub one_less : ℕ → ℕ
one_less count = (count + (2 ^ 32 - 1)) % 2 ^ 32

-- The end is the link behind `tail`, and the only link when there is none.
abbrev pub tail_added : Queue → ℕ → Link → Queue
tail_added queue tail link =
    if link.next == null
    then record { head = tail; tail = tail; count = one_more queue.count }
    else record { head = queue.head; tail = link.next; count = one_more queue.count }

pub queue_push_tail : Heap → Queue → ℕ → Option (Queue × Heap)
queue_push_tail h queue item = do
  r ← list_add_tail h queue.tail item
  link ← load r.1 r.0
  some (tail_added queue r.0 link, r.1)

pub queue_push_head : Heap → Queue → ℕ → Option (Queue × Heap)
queue_push_head h queue item = do
  r ← list_add h queue.head item
  some (
    record {
      head = r.0;
      tail = if queue.head == null then r.0 else queue.tail;
      count = one_more queue.count;
    },
    r.1,
  )

abbrev pub head_taken : Queue → ℕ → Queue
head_taken queue next = record {
  head = next;
  tail = if next == null then null else queue.tail;
  count = one_less queue.count;
}

-- NULL from an empty queue.
pub queue_pop_head : Heap → Queue → Option (ℕ × (Queue × Heap))
queue_pop_head h queue = if queue.head == null then some (null, (queue, h)) else (do
  node ← load h queue.head
  h1 ← unless_null node.next h (set_prev h node.next null)
  h2 ← list_free_1 h1 queue.head
  some (node.item, (head_taken queue node.next, h2)))

-- The test compares `queue->tail` with itself.
abbrev pub tail_taken : Queue → Link → Queue
tail_taken queue node =
    if queue.tail == queue.tail
    then record { head = null; tail = null; count = one_less queue.count }
    else record { head = queue.head; tail = node.prev; count = one_less queue.count }

pub queue_pop_tail : Heap → Queue → Option (ℕ × (Queue × Heap))
queue_pop_tail h queue = if queue.tail == null then some (null, (queue, h)) else (do
  node ← load h queue.tail
  h1 ← list_free_1 h queue.tail
  some (node.item, (tail_taken queue node, h1)))
