-- ===== src/BufferQueue/Tests.antt =====
-- A producer with one consumer: hmrtspsvr/src/utils/bufferqueue.c.
use hm_platform.Base.{
  ℕ, zero, suc, ◌+◌, ◌≡◌, inr, subst, refl, [], ◌∷◌, some, none, arith, true, false, length,
}
use hm_platform.BufferQueue.{Producer, Consumer, producer_put, consumer_move, get_backlog}
use hm_platform.BufferQueue.Passed.{alive, passed, consumer_at}
use hm_platform.BufferQueue.Sound.{IsSound, Placed, Put, producer_put_lem}
use hm_platform.BufferQueue.Steps.{Moved}
use hm_platform.BufferQueue.Moves.{consumer_move_lem}
use hm_platform.BufferQueue.Kill.{Killed, consumer_kill_lem}
use hm_platform.BufferQueue.Backlog.{get_backlog-consumer_move}
use hm_platform.BufferQueue.Runs.{System, Steps}

-- Two elements, and a consumer at the first.
abbrev busy : Producer
busy = record {
  ref_count = 2;
  queue =
      record { payload = 11; seen = 0; serial = 0 }
      ∷ record { payload = 12; seen = 0; serial = 1 }
      ∷ [];
  next_serial = 2;
  queue_serial = 1;
  consumers = 1;
  stopped = false;
  total_packets = 2;
  min_serial = 0;
  max_backlog = 2048;
  freed = [];
}

abbrev reader : Consumer
reader = record {
  queue_serial = 1;
  current_element_pointer = some 0;
  current_element_object = some 0;
  killed = false;
}

reader_here : Placed 0 2 1 reader
reader_here = record { same = refl; older = omega arith; inside = λ s _ _ at. ground (arith, at) }

reader-Placed : (i : ℕ) (c : Consumer) → consumer_at (reader ∷ []) i ≡ some c → Placed 0 2 1 c
reader-Placed zero c h = subst (Placed 0 2 1) (ground (arith, h)) reader_here
reader-Placed (suc i) c h = absurd (ground (arith, h))

busy-IsSound : IsSound 1 busy (reader ∷ [])
unfolding alive passed
busy-IsSound = record {
  first = 0;
  run = (refl, (refl, refl));
  counted = (refl, (refl, tt));
  open_still = λ t _. inr (ground arith);
  live_count = refl;
  refs = refl;
  owned = omega arith;
  running = refl;
  next_small = omega arith;
  serial_small = omega arith;
  few = omega arith;
  lag = omega arith;
  placed = reader-Placed;
}

put_example : Put 1 busy (reader ∷ []) 13 (producer_put busy 13)
put_example =
    producer_put_lem 1 busy (reader ∷ []) 13 busy-IsSound (omega arith) (omega arith) (omega arith)

move_example : Moved 1 busy (reader ∷ []) 0 reader
move_example = consumer_move_lem 1 busy (reader ∷ []) 0 reader busy-IsSound refl refl

kill_example : Killed 1 busy (reader ∷ []) 0 reader
kill_example = consumer_kill_lem 1 busy (reader ∷ []) 0 reader busy-IsSound refl refl

only_reader : alive (reader ∷ []) ≡ 1
unfolding alive
only_reader = refl

backlog_example :
    (after : Producer) × (c : Consumer) × consumer_move busy reader ≡ some (true, after, c)
    × (get_backlog after ≡ length after.queue + 1)
backlog_example =
    get_backlog-consumer_move 1 busy (reader ∷ []) 0 0 reader busy-IsSound refl refl refl refl
      (omega arith) only_reader

-- Two payloads were taken, and neither is freed.
abbrev busy_system : System
busy_system = record { producer = busy; consumers = reader ∷ []; owners = 1; taken = 12 ∷ 11 ∷ [] }

-- A producer that is new.
abbrev fresh : Producer
fresh = record {
  ref_count = 1;
  queue = [];
  next_serial = 0;
  queue_serial = 1;
  consumers = 0;
  stopped = false;
  total_packets = 0;
  min_serial = 0;
  max_backlog = 2048;
  freed = [];
}

-- A consumer comes, two buffers are put, and the consumer moves to the first and on to the second.
abbrev begun : System
begun = record { producer = fresh; consumers = []; owners = 1; taken = [] }

abbrev joined_one : System
joined_one = record {
  producer = record fresh {
    ref_count = 2;
    queue = [];
    next_serial = 0;
    consumers = 1;
    total_packets = 0;
    freed = [];
  };
  consumers =
      record {
        queue_serial = 0;
        current_element_pointer = none;
        current_element_object = none;
        killed = false;
      }
      ∷ [];
  owners = 1;
  taken = [];
}

abbrev put_one_more : System
put_one_more = record {
  producer = record fresh {
    ref_count = 2;
    queue = record { payload = 11; seen = 0; serial = 0 } ∷ [];
    next_serial = 1;
    consumers = 1;
    total_packets = 1;
    freed = [];
  };
  consumers =
      record {
        queue_serial = 0;
        current_element_pointer = none;
        current_element_object = none;
        killed = false;
      }
      ∷ [];
  owners = 1;
  taken = 11 ∷ [];
}

abbrev put_two_more : System
put_two_more = record {
  producer = record fresh {
    ref_count = 2;
    queue =
        record { payload = 11; seen = 0; serial = 0 }
        ∷ record { payload = 12; seen = 0; serial = 1 }
        ∷ [];
    next_serial = 2;
    consumers = 1;
    total_packets = 2;
    freed = [];
  };
  consumers =
      record {
        queue_serial = 0;
        current_element_pointer = none;
        current_element_object = none;
        killed = false;
      }
      ∷ [];
  owners = 1;
  taken = 12 ∷ 11 ∷ [];
}

abbrev at_first : System
at_first = record {
  producer = record fresh {
    ref_count = 2;
    queue =
        record { payload = 11; seen = 0; serial = 0 }
        ∷ record { payload = 12; seen = 0; serial = 1 }
        ∷ [];
    next_serial = 2;
    consumers = 1;
    total_packets = 2;
    freed = [];
  };
  consumers =
      record {
        queue_serial = 1;
        current_element_pointer = some 0;
        current_element_object = some 0;
        killed = false;
      }
      ∷ [];
  owners = 1;
  taken = 12 ∷ 11 ∷ [];
}

abbrev at_second : System
at_second = record {
  producer = record fresh {
    ref_count = 2;
    queue = record { payload = 12; seen = 0; serial = 1 } ∷ [];
    next_serial = 2;
    consumers = 1;
    total_packets = 2;
    freed = 11 ∷ [];
  };
  consumers =
      record {
        queue_serial = 1;
        current_element_pointer = some 1;
        current_element_object = some 1;
        killed = false;
      }
      ∷ [];
  owners = 1;
  taken = 12 ∷ 11 ∷ [];
}
