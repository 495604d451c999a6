-- ===== src/BufferQueue/Moves.antt =====
-- Consumers come, move and read: hmrtspsvr/src/utils/bufferqueue.c.
use hm_platform.Base.{
  ℕ, suc, ◌+◌, ◌<◌, ◌≡◌, ap, subst, List, ◌∷◌, some, true, false, arith, inl, inr, Bool-cases,
  dec_lt, ℕ_discrete,
}
use hm_platform.BufferQueue.{
  Producer, Consumer, bump, tail_of, at_start, expected_next, go_to, move_internal, consumer_move,
}
use hm_platform.BufferQueue.Passed.{consumer_at}
use hm_platform.BufferQueue.Links.{Consec, Consec-le, next_of_lem, payloads-bump, head_of_empty}
use hm_platform.BufferQueue.Removal.{count}
use hm_platform.BufferQueue.Sound.{pointer_cases, IsSound}
use hm_platform.BufferQueue.Steps.{
  Moved, move_nowhere, move_to_head, unreffed, next_one, move_stays, move_says, kept_elem-IsSound,
  freed_elem-IsSound, count-tail_of, inside,
}

module _ (owners : ℕ) (p : Producer) (cs : List Consumer) (i : ℕ) (c : Consumer)
    (good : IsSound owners p cs) (here : consumer_at cs i ≡ some c)
    (alive_still : c.killed ≡ false) where
  move_on :
      (s : ℕ)
      → at_start p c ≡ false
      → c.current_element_pointer ≡ some s
      → suc s < p.next_serial
      → Moved owners p cs i c
  unfolding consumer_move move_internal expected_next go_to
  move_on s goes at more =
      let r = unreffed owners p cs i c good here alive_still s goes at in
      let next : Consumer = next_one owners p cs i c good here alive_still s goes at in
      let within = inside owners p cs i c good here alive_still s goes at in
      let link = next_of_lem s good.first p.next_serial p.queue good.run within.0 within.1 in
      elim r.outcome [
        | inl (others, eq) ↦ record {
          done = true;
          after = record p { queue = bump s p.queue };
          consumer = next;
          eq = ground (arith, alive_still, good.running, goes, at, link, more, eq);
          sound = kept_elem-IsSound owners p cs i c good here alive_still s goes at more others;
          copies = λ x. ap (λ l. count x l + count x p.freed) (payloads-bump s p.queue);
          from_start = λ starts. absurd (ground (arith, starts, goes));
          goes_on =
              λ u _ at_u. move_says owners p cs i c good here alive_still s goes at more u at_u;
        }
        | inr (last, at_head, eq) ↦ record {
          done = true;
          after = record p {
            min_serial = s;
            freed = r.elem.payload ∷ p.freed;
            queue = tail_of p.queue;
          };
          consumer = next;
          eq = ground (arith, alive_still, good.running, goes, at, link, more, eq);
          sound =
              freed_elem-IsSound owners p cs i c good here alive_still s goes at
                (r.elem.payload ∷ p.freed) more last at_head;
          copies = λ x.
              count-tail_of owners p cs i c good here alive_still s goes at r.elem x r.found
                at_head;
          from_start = λ starts. absurd (ground (arith, starts, goes));
          goes_on =
              λ u _ at_u. move_says owners p cs i c good here alive_still s goes at more u at_u;
        }
      ]

  move_forward :
      (s : ℕ) → at_start p c ≡ false → c.current_element_pointer ≡ some s → Moved owners p cs i c
  move_forward s goes at = elim (dec_lt (suc s) p.next_serial) [
    | yes more ↦ move_on s goes at more
    | no last ↦
        move_stays owners p cs i c good here alive_still s goes at
          (omega (arith, last, (inside owners p cs i c good here alive_still s goes at).1))
  ]

  move_start : at_start p c ≡ true → Moved owners p cs i c
  move_start starts = elim (ℕ_discrete good.first p.next_serial) [
    | yes none_left ↦ move_nowhere owners p cs i c good here alive_still starts (
        head_of_empty p.next_serial p.queue
          (subst (λ f. Consec f p.queue p.next_serial) none_left good.run))
    | no some_left ↦
        move_to_head owners p cs i c good here alive_still starts
          (omega (arith, some_left, Consec-le good.first p.next_serial p.queue good.run))
  ]

  -- A live consumer of a sound producer moves with no use of freed memory and no failed assertion, to
  -- the head of the queue if it has no place in it, else to the element behind its own if there is
  -- one, and stays otherwise. The state stays sound, and no payload is lost or freed twice.
  pub consumer_move_lem : Moved owners p cs i c
  consumer_move_lem = elim (Bool-cases (at_start p c)) [
    | inl starts ↦ move_start starts
    | inr goes ↦ elim (pointer_cases c.current_element_pointer) [
      | inl nowhere ↦ absurd (ground (arith, goes, nowhere))
      | inr (s, at) ↦ move_forward s goes at
    ]
  ]
