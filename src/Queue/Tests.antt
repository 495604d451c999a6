-- ===== src/Queue/Tests.antt =====
-- Queues of two items: hmlib/src/hm_queue.c.
use hm_platform.Base.{refl, List, [], ◌∷◌, none, some, arith}
use hm_platform.LinkedList.{Heap, update}
use hm_platform.LinkedList.Chain.{Items}
use hm_platform.Queue.{Queue, queue_pop_tail}
use hm_platform.Queue.Push.{IsQueue}
use hm_platform.Queue.Pop.{Dropped, queue_pop_tail_lem}
use hm_platform.Queue.Runs.{
  QueueCall, push_tail, push_head, pop_head, run_queue, run_items, Agreed, run_queue-run_items,
}

abbrev links : Heap
links = record {
  cell =
      update (update (λ a. none) 1 (some (record { item = 7; next = 2; prev = 0 }))) 2
        (some (record { item = 8; next = 0; prev = 1 }));
  fresh = 3;
}

abbrev two_items : Items
two_items = (1, 7) ∷ (2, 8) ∷ []

abbrev pair_queue : Queue
pair_queue = record { head = 1; tail = 2; count = 2 }

pair_queue-IsQueue : IsQueue links pair_queue two_items
pair_queue-IsQueue = record {
  list = record {
    chain = (
      record { positive = omega arith; below = omega arith; here = refl },
      (record { positive = omega arith; below = omega arith; here = refl }, tt),
    );
    distinct = (((λ e. absurd (omega (arith, e))), tt), (tt, tt));
    started = omega arith;
  };
  head = refl;
  tail = refl;
  count = refl;
}

-- Two pops of the head between pushes at both ends.
abbrev calls : List QueueCall
calls = pop_head ∷ push_tail 9 ∷ push_head 6 ∷ pop_head ∷ pop_head ∷ []

run_queue_example : Agreed (7 ∷ 6 ∷ 8 ∷ [], 9 ∷ []) (run_queue calls links pair_queue)
unfolding run_items
run_queue_example = run_queue-run_items calls links pair_queue two_items pair_queue-IsQueue

pop_tail_example : Dropped 2 8 ((1, 7) ∷ []) (queue_pop_tail links pair_queue)
pop_tail_example = queue_pop_tail_lem links pair_queue ((1, 7) ∷ []) (2, 8) pair_queue-IsQueue
