-- ===== src/BufferQueue/Joins.antt =====
-- A producer and a consumer begin: hmrtspsvr/src/utils/bufferqueue.c.
use hm_platform.Base.{
  ℕ, ◌+◌, ◌^◌, ◌<◌, ◌≡◌, refl, sym, subst, List, [], ◌∷◌, ◌++◌, none, some, false, arith, inl, inr,
}
use hm_platform.BufferQueue.{
  Producer, Consumer, payloads, consumer_new, producer_new, producer_reset_queue, producer_ref,
}
use hm_platform.BufferQueue.Passed.{
  alive, passed, passed-le-alive, alive-append, passed-append, consumer_at-append,
}
use hm_platform.BufferQueue.Links.{Counted-same}
use hm_platform.BufferQueue.Removal.{count}
use hm_platform.BufferQueue.Sound.{Placed, IsSound}

-- The consumer that is new.
abbrev pub newcomer : Consumer
newcomer = record {
  queue_serial = 0;
  current_element_pointer = none;
  current_element_object = none;
  killed = false;
}

pub consumer_new_lem :
    (owners : ℕ) (p : Producer) (cs : List Consumer)
    → IsSound owners p cs
    → alive cs + 1 < 2 ^ 64
    → (after : Producer) × consumer_new p ≡ some (newcomer, after)
      × IsSound owners after (cs ++ (newcomer ∷ []))
      × ((x : ℕ)
          → count x (payloads after.queue) + count x after.freed
            ≡ count x (payloads p.queue) + count x p.freed)
unfolding consumer_new producer_ref
consumer_new_lem owners p cs good room =
    let one_more : alive (cs ++ (newcomer ∷ [])) ≡ alive cs + 1 =
      omega (arith, alive-append cs newcomer) in
    let same_passed : ((t : ℕ)
        → passed p.queue_serial cs t ≡ passed p.queue_serial (cs ++ (newcomer ∷ [])) t) =
      λ t. ground (arith, passed-append p.queue_serial t cs newcomer) in
    (
      record p { ref_count = p.ref_count + 1; consumers = p.consumers + 1 },
      ground (arith, good.running, good.refs, good.owned, good.live_count, room),
      record {
        first = good.first;
        run = good.run;
        counted =
            Counted-same (passed p.queue_serial cs) (passed p.queue_serial (cs ++ (newcomer ∷ [])))
              good.first p.next_serial p.queue good.run (λ t le. same_passed t) good.counted;
        open_still = λ t le.
            inr (omega (arith, passed-le-alive p.queue_serial t cs, same_passed t, one_more));
        live_count = omega (arith, good.live_count, one_more);
        refs = omega (arith, good.refs, one_more);
        owned = good.owned;
        running = good.running;
        next_small = good.next_small;
        serial_small = good.serial_small;
        few = omega (arith, one_more, room);
        lag = good.lag;
        placed = λ i d h. elim (consumer_at-append cs newcomer d i h) [
          | inl old ↦ good.placed i d old
          | inr same ↦ subst (Placed good.first p.next_serial p.queue_serial) (sym same) (record {
            same = refl;
            older = omega arith;
            inside = λ s _ _ at. absurd (ground (arith, at));
          })
        ];
      },
      λ x. refl,
    )

-- A new producer, which its maker holds, is sound.
pub producer_new_lem :
    (after : Producer) × producer_new ≡ some after
    × IsSound 1 after []
    × after.queue ≡ []
    × after.freed ≡ []
unfolding producer_new producer_reset_queue alive passed
producer_new_lem = (
  record {
    ref_count = 1;
    queue = [];
    next_serial = 0;
    queue_serial = 1;
    consumers = 0;
    stopped = false;
    total_packets = 0;
    min_serial = 0;
    max_backlog = 2048;
    freed = [];
  },
  refl,
  record {
    first = 0;
    run = refl;
    counted = tt;
    open_still = λ t le. inl refl;
    live_count = refl;
    refs = omega arith;
    owned = omega arith;
    running = refl;
    next_small = omega arith;
    serial_small = omega arith;
    few = omega arith;
    lag = omega arith;
    placed = λ i d h. absurd (ground (arith, h));
  },
  refl,
  refl,
)
