-- ===== src/BufferQueue/Backlog.antt =====
-- The backlog that a producer tells: hmrtspsvr/src/utils/bufferqueue.c.
use hm_platform.Base.{ℕ, suc, ◌+◌, ◌<◌, ◌≡◌, List, ◌∷◌, some, true, false, arith, inl, inr, length}
use hm_platform.BufferQueue.{
  Producer, Consumer, tail_of, at_start, expected_next, go_to, move_internal, consumer_move,
  get_backlog,
}
use hm_platform.BufferQueue.Passed.{alive, consumer_at}
use hm_platform.BufferQueue.Links.{Consec-length, next_of_lem, tail_of-Consec}
use hm_platform.BufferQueue.Sound.{IsSound}
use hm_platform.BufferQueue.Steps.{unreffed, next_one, inside}

-- When the only consumer of a sound producer moves on from an element, which is freed then, the
-- backlog that is told is one more than the number of elements in the queue.
pub get_backlog-consumer_move :
    (owners : ℕ) (p : Producer) (cs : List Consumer) (i s : ℕ) (c : Consumer)
    → IsSound owners p cs
    → consumer_at cs i ≡ some c
    → c.killed ≡ false
    → at_start p c ≡ false
    → c.current_element_pointer ≡ some s
    → suc s < p.next_serial
    → alive cs ≡ 1
    → (after : Producer) × (c' : Consumer) × consumer_move p c ≡ some (true, after, c')
      × (get_backlog after ≡ length after.queue + 1)
unfolding consumer_move move_internal expected_next go_to get_backlog
get_backlog-consumer_move owners p cs i s c good here alive_still goes at more only =
    let r = unreffed owners p cs i c good here alive_still s goes at in
    let next : Consumer = next_one owners p cs i c good here alive_still s goes at in
    let within = inside owners p cs i c good here alive_still s goes at in
    let link = next_of_lem s good.first p.next_serial p.queue good.run within.0 within.1 in
    elim r.outcome [
      | inl (others, eq) ↦ absurd (omega (arith, others, good.live_count, only))
      | inr (last, at_head, eq) ↦
          let run =
            tail_of-Consec good.first p.next_serial p.queue good.run
              (omega (arith, within.0, within.1)) in
          (
            record p { min_serial = s; freed = r.elem.payload ∷ p.freed; queue = tail_of p.queue },
            next,
            ground (arith, alive_still, good.running, goes, at, link, more, eq),
            omega (
              arith,
              good.next_small,
              more,
              at_head,
              Consec-length (suc good.first) p.next_serial (tail_of p.queue) run,
            ),
          )
    ]
