-- ===== src/BufferQueue/Reads.antt =====
-- Reads of the next payload, and references to the producer: hmrtspsvr/src/utils/bufferqueue.c.
use hm_platform.Base.{
  ℕ, suc, ◌+◌, ◌-◌, ◌<◌, ◌≡◌, refl, List, some, true, false, arith, inl, inr, Bool-cases, set,
  dec_lt, subst, ℕ_discrete,
}
use hm_platform.BufferQueue.{
  Producer, Consumer, at_start, reset_current, expected_next, consumer_get, producer_ref,
  producer_unref,
}
use hm_platform.BufferQueue.Passed.{alive, passed, consumer_at}
use hm_platform.BufferQueue.Links.{
  Consec, Consec-le, next_of_lem, find_elem_lem, head_of_lem, head_of_empty,
}
use hm_platform.BufferQueue.Sound.{pointer_cases, IsSound}
use hm_platform.BufferQueue.Steps.{replace-IsSound, start_past, inside}

-- The state after a read, and what was read: the payload of an element, or NULL.
pub record Got (owners : ℕ) (p : Producer) (cs : List Consumer) (i : ℕ) (c : Consumer)
    : Type 0 where
  pub payload : ℕ
  pub consumer : Consumer
  pub eq : consumer_get p c ≡ some (payload, consumer)
  pub sound : IsSound owners p (set cs i consumer)

module _ (owners : ℕ) (p : Producer) (cs : List Consumer) (i : ℕ) (c : Consumer)
    (good : IsSound owners p cs) (here : consumer_at cs i ≡ some c)
    (alive_still : c.killed ≡ false) where
  reset-IsSound : at_start p c ≡ true → IsSound owners p (set cs i (reset_current c))
  reset-IsSound starts =
      replace-IsSound owners p cs i c (reset_current c) good here refl
        (record {
          same = refl;
          older = (good.placed i c here).older;
          inside = λ s _ _ at. absurd (ground (arith, at));
        })
        (λ t le. ground (arith, start_past owners p cs i c good here alive_still starts t))

  same-IsSound : IsSound owners p (set cs i c)
  same-IsSound =
      replace-IsSound owners p cs i c c good here refl (good.placed i c here) (λ t le. refl)

  get_start : at_start p c ≡ true → Got owners p cs i c
  unfolding consumer_get expected_next
  get_start starts = elim (ℕ_discrete good.first p.next_serial) [
    | yes none_left ↦
        let empty =
          head_of_empty p.next_serial p.queue
            (subst (λ f. Consec f p.queue p.next_serial) none_left good.run) in
        record {
          payload = 0;
          consumer = reset_current c;
          eq = ground (arith, alive_still, good.running, starts, empty);
          sound = reset-IsSound starts;
        }
    | no some_left ↦
        let less : good.first < p.next_serial =
          omega (arith, some_left, Consec-le good.first p.next_serial p.queue good.run) in
        let head = head_of_lem good.first p.next_serial p.queue good.run less in
        let (e, found, at, seen) =
          find_elem_lem good.first good.first p.next_serial (passed p.queue_serial cs) p.queue
            good.run good.counted (omega arith) less in
        record {
          payload = e.payload;
          consumer = reset_current c;
          eq = ground (arith, alive_still, good.running, starts, head, found);
          sound = reset-IsSound starts;
        }
  ]

  get_forward :
      (s : ℕ) → at_start p c ≡ false → c.current_element_pointer ≡ some s → Got owners p cs i c
  unfolding consumer_get expected_next
  get_forward s goes at =
      let within = inside owners p cs i c good here alive_still s goes at in
      let link = next_of_lem s good.first p.next_serial p.queue good.run within.0 within.1 in
      elim (dec_lt (suc s) p.next_serial) [
        | yes more ↦
            let (e, found, at_next, seen) =
              find_elem_lem (suc s) good.first p.next_serial (passed p.queue_serial cs) p.queue
                good.run good.counted (omega (arith, within.0)) more in
            record {
              payload = e.payload;
              consumer = c;
              eq = ground (arith, alive_still, good.running, goes, at, link, more, found);
              sound = same-IsSound;
            }
        | no last ↦ record {
          payload = 0;
          consumer = c;
          eq = ground (arith, alive_still, good.running, goes, at, link, last, within.1);
          sound = same-IsSound;
        }
      ]

  pub consumer_get_lem : Got owners p cs i c
  consumer_get_lem = elim (Bool-cases (at_start p c)) [
    | inl starts ↦ get_start starts
    | inr goes ↦ elim (pointer_cases c.current_element_pointer) [
      | inl nowhere ↦ absurd (ground (arith, goes, nowhere))
      | inr (s, at) ↦ get_forward s goes at
    ]
  ]

-- One holder of the producer more.
abbrev with_refs : Producer → ℕ → Producer
with_refs p n = record p { ref_count = n }

with_refs-IsSound :
    (owners owners' : ℕ) (p : Producer) (cs : List Consumer) (n : ℕ)
    → IsSound owners p cs
    → n ≡ owners' + alive cs
    → 0 < owners'
    → IsSound owners' (with_refs p n) cs
with_refs-IsSound owners owners' p cs n good counted owned = record {
  first = good.first;
  run = good.run;
  counted = good.counted;
  open_still = good.open_still;
  live_count = good.live_count;
  refs = counted;
  owned = owned;
  running = good.running;
  next_small = good.next_small;
  serial_small = good.serial_small;
  few = good.few;
  lag = good.lag;
  placed = good.placed;
}

pub producer_ref_lem :
    (owners : ℕ) (p : Producer) (cs : List Consumer)
    → IsSound owners p cs
    → (producer_ref p ≡ some (record p { ref_count = p.ref_count + 1 }))
      × IsSound (owners + 1) (record p { ref_count = p.ref_count + 1 }) cs
unfolding producer_ref
producer_ref_lem owners p cs good = (
  ground (arith, good.refs, good.owned),
  with_refs-IsSound owners (owners + 1) p cs (p.ref_count + 1) good (omega (arith, good.refs))
      (omega arith),
)

pub producer_unref_lem :
    (owners : ℕ) (p : Producer) (cs : List Consumer)
    → IsSound owners p cs
    → 1 < owners
    → (producer_unref p ≡ some (false, record p { ref_count = p.ref_count - 1 }))
      × IsSound (owners - 1) (record p { ref_count = p.ref_count - 1 }) cs
unfolding producer_unref
producer_unref_lem owners p cs good shared = (
  ground (arith, good.refs, shared),
  with_refs-IsSound owners (owners - 1) p cs (p.ref_count - 1) good
      (omega (arith, good.refs, shared)) (omega (arith, shared)),
)
