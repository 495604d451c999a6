-- ===== src/BufferQueue/Kill.antt =====
-- bq_consumer_kill of hmrtspsvr/src/utils/bufferqueue.c.
use hm_platform.Base.{
  ℕ, suc, ◌+◌, ◌-◌, ◌<◌, ◌≤◌, ◌≡◌, refl, sym, ap, subst, ◌∙◌, List, ◌∷◌, none, some, ltb, ◌==◌,
  if◌then◌else◌, true, false, ◌||◌, not, arith, inl, inr, Bool-cases, ℕ_discrete, set,
}
use hm_platform.BufferQueue.{
  Element, Producer, Consumer, payloads, find_elem, bump, tail_of, consumer_elem_unref, is_some,
  at_start, lower_seen, consumer_kill, producer_unref,
}
use hm_platform.BufferQueue.Passed.{
  past, alive, passed, consumer_at, alive-set, passed-set, alive_pos,
}
use hm_platform.BufferQueue.Links.{
  Counted-same, Consec-le, bump-Consec, Counted-bump, payloads-bump, tail_of-Consec,
  tail_of-Counted, lower_lem,
}
use hm_platform.BufferQueue.Removal.{count}
use hm_platform.BufferQueue.Sound.{Placed, AllPlaced, pointer_cases, IsSound}
use hm_platform.BufferQueue.Seen.{AllPlaced-set, AllPlaced-raise, Unreffed, consumer_elem_unref_lem}
use hm_platform.BufferQueue.Leaves.{Forgotten, Leaving, forget_last, forget_others}
use hm_platform.BufferQueue.Steps.{all_open, strict, at_object, past_of, counted_tail}

-- A reference to the producer is given back, and others are held.
producer_unref-IsSound :
    (owners : ℕ) (p : Producer) (cs : List Consumer)
    → IsSound (suc owners) p cs
    → 0 < owners
    → producer_unref p ≡ some (false, record p { ref_count = p.ref_count - 1 })
      × IsSound owners (record p { ref_count = p.ref_count - 1 }) cs
unfolding producer_unref
producer_unref-IsSound owners p cs good more = (
  ground (arith, good.refs, more),
  record {
    first = good.first;
    run = good.run;
    counted = good.counted;
    open_still = good.open_still;
    live_count = good.live_count;
    refs = omega (arith, good.refs);
    owned = more;
    running = good.running;
    next_small = good.next_small;
    serial_small = good.serial_small;
    few = good.few;
    lag = good.lag;
    placed = good.placed;
  },
)

at_first : (first t : ℕ) → first ≤ t → t < suc first → t ≡ first
at_first first t le less = omega (arith, le, less)

-- The state after a consumer was killed.
pub record Killed (owners : ℕ) (p : Producer) (cs : List Consumer) (i : ℕ) (c : Consumer)
    : Type 0 where
  pub after : Producer
  pub consumer : Consumer
  pub eq : consumer_kill p c ≡ some (false, after, consumer)
  pub dead : consumer.killed ≡ true
  pub sound : IsSound owners after (set cs i consumer)
  pub copies :
      (x : ℕ)
      → count x (payloads after.queue) + count x after.freed
        ≡ count x (payloads p.queue) + count x p.freed

module _ (owners : ℕ) (p : Producer) (cs : List Consumer) (i : ℕ) (c : Consumer)
    (good : IsSound owners p cs) (here : consumer_at cs i ≡ some c)
    (alive_still : c.killed ≡ false) where
  some_consumer : 0 < alive cs
  some_consumer = omega (arith, alive_pos cs i c here alive_still)

  finish :
      (p1 : Producer) (c1 : Consumer) (q : List Element)
      → consumer_elem_unref p (record c { killed = true }) ≡ some (p1, c1)
      → c1.killed ≡ true
      → Forgotten (suc owners) (record p1 { consumers = p1.consumers - 1 }) c1 (set cs i c1) q
      → ((x : ℕ)
          → count x (payloads q) + count x p1.freed ≡ count x (payloads p.queue) + count x p.freed)
      → Killed owners p cs i c
  unfolding consumer_kill
  finish p1 c1 q unref dead f chain =
      let (back, sound) = producer_unref-IsSound owners f.after (set cs i c1) f.sound good.owned in
      record {
        after = record f.after { ref_count = f.after.ref_count - 1 };
        consumer = c1;
        eq = ground (arith, alive_still, good.live_count, some_consumer, unref, f.eq, back);
        dead = dead;
        sound = sound;
        copies = λ x. omega (arith, f.copies x, chain x);
      }

  -- The counts without the consumer.
  module _ (c1 : Consumer) (dead : c1.killed ≡ true) where
    alive_less : alive (set cs i c1) + 1 ≡ alive cs
    alive_less = ground (arith, alive-set cs i c c1 here, alive_still, dead)

    passed_less :
        (t : ℕ)
        → passed p.queue_serial (set cs i c1) t + past p.queue_serial t c
          ≡ passed p.queue_serial cs t
    passed_less t = ground (arith, passed-set p.queue_serial t cs i c c1 here, dead)

    left_behind :
        (p1 : Producer) (first : ℕ)
        → p1.consumers ≡ p.consumers
        → p1.ref_count ≡ p.ref_count
        → p1.stopped ≡ p.stopped
        → p1.next_serial ≡ p.next_serial
        → p1.queue_serial ≡ p.queue_serial
        → p1.min_serial ≤ p.next_serial
        → AllPlaced first p.next_serial p.queue_serial (set cs i c1)
        → Leaving (suc owners) (record p1 { consumers = p1.consumers - 1 }) (set cs i c1) first
    left_behind p1 first same_consumers same_refs same_stopped same_next same_serial lag placed =
        record {
          live_count = omega (arith, same_consumers, good.live_count, alive_less);
          refs = omega (arith, same_refs, good.refs, alive_less);
          owned = omega arith;
          running = same_stopped ∙ good.running;
          next_small = omega (arith, same_next, good.next_small);
          serial_small = omega (arith, same_serial, good.serial_small);
          few = omega (arith, good.few, alive_less);
          lag = omega (arith, lag, same_next);
          placed =
              subst (λ n. AllPlaced first n p1.queue_serial (set cs i c1)) (sym same_next)
                (subst (λ q. AllPlaced first p.next_serial q (set cs i c1)) (sym same_serial)
                  placed);
        }

    dead-Placed :
        (first : ℕ)
        → c1.current_element_pointer ≡ c1.current_element_object
        → c1.queue_serial ≤ p.queue_serial
        → Placed first p.next_serial p.queue_serial c1
    dead-Placed first same older = record {
      same = same;
      older = older;
      inside = λ s alive_again _ _. absurd (ground (arith, alive_again, dead));
    }

  -- A consumer that is at no element of the present queue.
  kill_elsewhere :
      ((t : ℕ) → past p.queue_serial t c ≡ 0)
      → consumer_elem_unref p (record c { killed = true }) ≡ some (p, record c { killed = true })
      → lower_seen (record p { consumers = p.consumers - 1 }) (record c { killed = true })
        ≡ some p.queue
      → Killed owners p cs i c
  kill_elsewhere nowhere unref lowered =
      let c1 : Consumer = record c { killed = true } in
      let p2 : Producer = record p { consumers = p.consumers - 1 } in
      let old = good.placed i c here in
      let leaving = left_behind c1 refl p good.first refl refl refl refl refl good.lag (
        AllPlaced-set good.first p.next_serial p.queue_serial cs i c1 good.placed
          (dead-Placed c1 refl good.first old.same old.older)) in
      let counted =
        Counted-same (passed p.queue_serial cs) (passed p.queue_serial (set cs i c1)) good.first
          p.next_serial p.queue good.run (λ t le. omega (arith, passed_less c1 refl t, nowhere t))
          good.counted in
      elim (ℕ_discrete (alive (set cs i c1)) 0) [
        | yes nobody ↦
            finish p c1 p.queue unref refl
              (forget_last (suc owners) p2 c1 (set cs i c1) good.first leaving nobody
                (Consec-le good.first p.next_serial p.queue good.run))
              (λ x. refl)
        | no others ↦
            finish p c1 p.queue unref refl
              (forget_others (suc owners) p2 c1 (set cs i c1) good.first leaving p.queue lowered
                good.run counted (omega (arith, others)))
              (λ x. refl)
      ]

  -- A consumer at the element `s` of the present queue.
  module _ (s : ℕ) (goes : at_start p c ≡ false) (at : c.current_element_pointer ≡ some s) where
    inside_queue : (good.first ≤ s) × (s < p.next_serial)
    inside_queue = (good.placed i c here).inside s alive_still (ground (arith, goes, at)) at

    object_here : c.current_element_object ≡ some s
    object_here = at_object owners p cs i c good here alive_still s goes at

    past_here : (t : ℕ) → past p.queue_serial t c ≡ (if ltb t s then 1 else 0)
    past_here = past_of owners p cs i c good here alive_still s goes at

    kill-Unreffed : Unreffed p (record c { killed = true }) s good.first (passed p.queue_serial cs)
    kill-Unreffed =
        consumer_elem_unref_lem p (record c { killed = true }) s good.first
          (passed p.queue_serial cs) good.run good.counted inside_queue.0 inside_queue.1
          (all_open owners p cs i c good here alive_still s goes at)
          (strict owners p cs i c good here alive_still s goes at)
          (omega (arith, good.live_count, good.few)) (ground (arith, goes, at)) at object_here

    -- Others have not seen the element.
    kill_before_others :
        passed p.queue_serial cs s + 1 < p.consumers
        → consumer_elem_unref p (record c { killed = true })
          ≡ some (record p { queue = bump s p.queue }, record c { killed = true })
        → Killed owners p cs i c
    unfolding lower_seen
    kill_before_others more unref =
        let c1 : Consumer = record c { killed = true } in
        let p1 : Producer = record p { queue = bump s p.queue } in
        let old = good.placed i c here in
        let leaving = left_behind c1 refl p1 good.first refl refl refl refl refl good.lag (
          AllPlaced-set good.first p.next_serial p.queue_serial cs i c1 good.placed
            (dead-Placed c1 refl good.first old.same old.older)) in
        let f : (ℕ → ℕ) = λ t. passed p.queue_serial cs t + (if t == s then 1 else 0) in
        let open_at = all_open owners p cs i c good here alive_still s goes at in
        let r =
          lower_lem (p.consumers - 1) s good.first p.next_serial f
            (passed p.queue_serial (set cs i c1)) (bump s p.queue)
            (bump-Consec s good.first p.next_serial p.queue good.run)
            (Counted-bump s good.first p.next_serial (passed p.queue_serial cs) f p.queue good.run
              good.counted (λ t. refl) (omega (arith, more, good.live_count, good.few)))
            inside_queue.0 inside_queue.1
            (λ t le. ground (arith, passed_less c1 refl t, past_here t, le))
            (λ t less. ground (arith, passed_less c1 refl t, past_here t, less))
            (λ t le. ground (arith, open_at t le, more))
            (omega (arith, good.live_count, good.few)) in
        finish p1 c1 r.after unref refl
          (forget_others (suc owners) (record p1 { consumers = p1.consumers - 1 }) c1 (set cs i c1)
            good.first leaving r.after (ground (arith, goes, at, object_here, r.eq)) r.run r.counted
            (omega (arith, alive_less c1 refl, good.live_count, more)))
          (λ x. ap (λ l. count x l + count x p.freed) (r.same_payloads ∙ payloads-bump s p.queue))

    -- The element goes with the consumer.
    kill_last :
        (elem : Element)
        → find_elem s p.queue ≡ some elem
        → passed p.queue_serial cs s + 1 ≡ p.consumers
        → s ≡ good.first
        → consumer_elem_unref p (record c { killed = true })
          ≡ some (
            record p { min_serial = s; freed = elem.payload ∷ p.freed; queue = tail_of p.queue },
            record c {
              killed = true;
              current_element_object = none;
              current_element_pointer = none;
            },
          )
        → Killed owners p cs i c
    unfolding lower_seen
    kill_last elem found last at_head unref =
        let c1 : Consumer = record c {
          killed = true;
          current_element_object = none;
          current_element_pointer = none;
        } in
        let p1 : Producer = record p {
          min_serial = s;
          freed = elem.payload ∷ p.freed;
          queue = tail_of p.queue;
        } in
        let p2 : Producer = record p1 { consumers = p1.consumers - 1 } in
        let run =
          tail_of-Consec good.first p.next_serial p.queue good.run
            (omega (arith, inside_queue.0, inside_queue.1)) in
        let old = good.placed i c here in
        let leaving =
          left_behind c1 refl p1 (suc good.first) refl refl refl refl refl
            (omega (arith, inside_queue.1))
            (AllPlaced-raise good.first (suc good.first) p.next_serial p.queue_serial (set cs i c1)
              (AllPlaced-set good.first p.next_serial p.queue_serial cs i c1 good.placed
                (dead-Placed c1 refl good.first refl old.older))
              (λ t le less.
                subst (λ u. alive (set cs i c1) ≤ passed p.queue_serial (set cs i c1) u)
                  (at_head ∙ sym (at_first good.first t le less))
                  (ground (
                    arith,
                    last,
                    good.live_count,
                    alive_less c1 refl,
                    passed_less c1 refl s,
                    past_here s,
                  )))) in
        let counted =
          Counted-same (passed p.queue_serial cs) (passed p.queue_serial (set cs i c1))
            (suc good.first) p.next_serial (tail_of p.queue) run
            (λ t le. ground (arith, passed_less c1 refl t, past_here t, le, at_head))
            (tail_of-Counted (passed p.queue_serial cs) p.queue good.counted) in
        let copied = λ (x : ℕ).
          counted_tail s good.first p.next_serial x p.queue p.freed elem good.run found at_head in
        elim (ℕ_discrete (alive (set cs i c1)) 0) [
          | yes nobody ↦
              finish p1 c1 (tail_of p.queue) unref refl
                (forget_last (suc owners) p2 c1 (set cs i c1) (suc good.first) leaving nobody
                  (Consec-le (suc good.first) p.next_serial (tail_of p.queue) run))
                copied
          | no others ↦
              finish p1 c1 (tail_of p.queue) unref refl
                (forget_others (suc owners) p2 c1 (set cs i c1) (suc good.first) leaving
                  (tail_of p.queue) (ground arith) run counted (omega (arith, others)))
                copied
        ]

    kill_here : Killed owners p cs i c
    kill_here = elim kill-Unreffed.outcome [
      | inl (more, eq) ↦ kill_before_others more eq
      | inr (last, at_head, eq) ↦ kill_last kill-Unreffed.elem kill-Unreffed.found last at_head eq
    ]

  nowhere_lem :
      consumer_elem_unref p (record c { killed = true }) ≡ some (p, record c { killed = true })
      → (not (p.queue_serial == c.queue_serial) || not (is_some c.current_element_pointer)) ≡ true
      → Killed owners p cs i c
  unfolding lower_seen
  nowhere_lem unref starts =
      let old = good.placed i c here in
      kill_elsewhere
        (λ t. elim (pointer_cases c.current_element_pointer) [
          | inl nowhere ↦ ground (arith, nowhere)
          | inr (s, at) ↦ ground (arith, at, starts)
        ])
        unref (ground (arith, starts, old.same))

  -- A live consumer of a sound producer leaves with no use of freed memory and no failed assertion.
  -- The state stays sound, and no payload is lost or freed twice.
  pub consumer_kill_lem : Killed owners p cs i c
  unfolding consumer_elem_unref
  consumer_kill_lem = elim (pointer_cases c.current_element_pointer) [
    | inl nowhere ↦
        nowhere_lem (ground (arith, nowhere, (good.placed i c here).same)) (ground (arith, nowhere))
    | inr (s, at) ↦ elim (Bool-cases (at_start p c)) [
      | inl starts ↦ nowhere_lem (ground (arith, at, starts, (good.placed i c here).same)) starts
      | inr goes ↦ kill_here s goes at
    ]
  ]
