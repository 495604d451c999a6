-- ===== src/BufferQueue/Steps.antt =====
-- The parts of a consumer's move: hmrtspsvr/src/utils/bufferqueue.c.
use hm_platform.Base.{
  ℕ, suc, ◌+◌, ◌<◌, ◌≤◌, ◌≡◌, refl, sym, ap, ◌∙◌, List, [], ◌∷◌, Option, none, some, ltb, ◌==◌,
  if◌then◌else◌, Bool, true, false, arith, inl, inr, set,
}
use hm_platform.BufferQueue.{
  Element, Producer, Consumer, payloads, head_of, find_elem, bump, tail_of, is_some, at_start,
  reset_current, expected_next, go_to, move_internal, consumer_move,
}
use hm_platform.BufferQueue.Passed.{
  live, past, alive, passed, consumer_at, alive-set, passed-set, passed-lt-alive,
}
use hm_platform.BufferQueue.Links.{
  Consec, Counted-same, next_of_lem, bump-Consec, Counted-bump, head_of_lem, tail_of-Consec,
  tail_of-Counted,
}
use hm_platform.BufferQueue.Removal.{count}
use hm_platform.BufferQueue.Sound.{Placed, pointer_cases, IsSound}
use hm_platform.BufferQueue.Seen.{
  AllPlaced-set, AllPlaced-raise, passed_strict, Unreffed, consumer_elem_unref_lem,
}

-- A consumer changes in a way that its elements do not feel.
pub replace-IsSound :
    (owners : ℕ) (p : Producer) (cs : List Consumer) (i : ℕ) (c c' : Consumer)
    (good : IsSound owners p cs)
    → consumer_at cs i ≡ some c
    → live c' ≡ live c
    → Placed good.first p.next_serial p.queue_serial c'
    → ((t : ℕ) → good.first ≤ t → past p.queue_serial t c' ≡ past p.queue_serial t c)
    → IsSound owners p (set cs i c')
replace-IsSound owners p cs i c c' good here same_live placed same =
    let alive_same : alive (set cs i c') ≡ alive cs =
      omega (arith, alive-set cs i c c' here, same_live) in
    let passed_same : ((t : ℕ)
        → good.first ≤ t
        → passed p.queue_serial cs t ≡ passed p.queue_serial (set cs i c') t) =
      λ t le. omega (arith, passed-set p.queue_serial t cs i c c' here, same t le) in
    record {
      first = good.first;
      run = good.run;
      counted =
          Counted-same (passed p.queue_serial cs) (passed p.queue_serial (set cs i c')) good.first
            p.next_serial p.queue good.run passed_same good.counted;
      open_still = λ t le. ground (arith, good.open_still t le, passed_same t le, alive_same);
      live_count = omega (arith, good.live_count, alive_same);
      refs = omega (arith, good.refs, alive_same);
      owned = good.owned;
      running = good.running;
      next_small = good.next_small;
      serial_small = good.serial_small;
      few = omega (arith, good.few, alive_same);
      lag = good.lag;
      placed = AllPlaced-set good.first p.next_serial p.queue_serial cs i c' good.placed placed;
    }

-- The head's payload leaves the queue.
pub counted_tail :
    (s first next x : ℕ) (q : List Element) (freed : List ℕ) (elem : Element)
    → Consec first q next
    → find_elem s q ≡ some elem
    → s ≡ first
    → count x (payloads (tail_of q)) + count x (elem.payload ∷ freed)
      ≡ count x (payloads q) + count x freed
unfolding find_elem
counted_tail s first next x [] freed elem run found at_head = absurd (ground (arith, found))
counted_tail s first next x (e ∷ q) freed elem run found at_head =
    let same : e ≡ elem = ground (arith, found, at_head, run.0) in
    omega (arith, ap (λ (d : Element). count x (d.payload ∷ [])) same)

-- The state after a move.
pub record Moved (owners : ℕ) (p : Producer) (cs : List Consumer) (i : ℕ) (c : Consumer)
    : Type 0 where
  pub done : Bool
  pub after : Producer
  pub consumer : Consumer
  pub eq : consumer_move p c ≡ some (done, after, consumer)
  pub sound : IsSound owners after (set cs i consumer)
  pub copies :
      (x : ℕ)
      → count x (payloads after.queue) + count x after.freed
        ≡ count x (payloads p.queue) + count x p.freed
  pub from_start :
      at_start p c ≡ true
      → (done ≡ is_some (head_of p.queue)) × (consumer.current_element_pointer ≡ head_of p.queue)
  pub goes_on :
      (s : ℕ)
      → at_start p c ≡ false
      → c.current_element_pointer ≡ some s
      → (done ≡ ltb (suc s) p.next_serial)
        × (consumer.current_element_pointer ≡ some (if ltb (suc s) p.next_serial then suc s else s))

-- A consumer that is at `s` in the present queue.
abbrev pub at_elem : ℕ → Bool → ℕ → Consumer
at_elem qs killed s = record {
  queue_serial = qs;
  current_element_pointer = some s;
  current_element_object = some s;
  killed = killed;
}

module _ (owners : ℕ) (p : Producer) (cs : List Consumer) (i : ℕ) (c : Consumer)
    (good : IsSound owners p cs) (here : consumer_at cs i ≡ some c)
    (alive_still : c.killed ≡ false) where
  pub start_past : at_start p c ≡ true → (t : ℕ) → past p.queue_serial t c ≡ 0
  start_past starts t = elim (pointer_cases c.current_element_pointer) [
    | inl nowhere ↦ ground (arith, nowhere)
    | inr (s, at) ↦ ground (arith, at, starts)
  ]

  pub move_nowhere : at_start p c ≡ true → head_of p.queue ≡ none → Moved owners p cs i c
  unfolding consumer_move move_internal expected_next
  move_nowhere starts empty = record {
    done = false;
    after = p;
    consumer = reset_current c;
    eq = ground (arith, alive_still, good.running, starts, empty);
    sound =
        replace-IsSound owners p cs i c (reset_current c) good here refl
          (record {
            same = refl;
            older = (good.placed i c here).older;
            inside = λ s _ _ at. absurd (ground (arith, at));
          })
          (λ t le. ground (arith, start_past starts t));
    copies = λ x. refl;
    from_start = λ _. ground (arith, empty);
    goes_on = λ s not_start at. absurd (ground (arith, starts, not_start));
  }

  pub move_to_head : at_start p c ≡ true → good.first < p.next_serial → Moved owners p cs i c
  unfolding consumer_move move_internal expected_next go_to
  move_to_head starts some_elem =
      let head = head_of_lem good.first p.next_serial p.queue good.run some_elem in
      record {
        done = true;
        after = p;
        consumer = at_elem p.queue_serial c.killed good.first;
        eq = ground (arith, alive_still, good.running, starts, head);
        sound =
            replace-IsSound owners p cs i c (at_elem p.queue_serial c.killed good.first) good here
              refl
              (record {
                same = refl;
                older = omega arith;
                inside = λ s _ _ at. ground (arith, at, some_elem);
              })
              (λ t le. ground (arith, start_past starts t, le));
        copies = λ x. refl;
        from_start = λ _. ground (arith, head);
        goes_on = λ s not_start at. absurd (ground (arith, starts, not_start));
      }

  module _ (s : ℕ) (goes : at_start p c ≡ false) (at : c.current_element_pointer ≡ some s) where
    pub now : c.queue_serial ≡ p.queue_serial
    now = ground (arith, goes, at)

    pub inside : (good.first ≤ s) × (s < p.next_serial)
    inside = (good.placed i c here).inside s alive_still now at

    pub at_object : c.current_element_object ≡ some s
    at_object = sym (good.placed i c here).same ∙ at

    pub past_of : (t : ℕ) → past p.queue_serial t c ≡ (if ltb t s then 1 else 0)
    past_of t = ground (arith, alive_still, now, at)

    pub some_live : 0 < alive cs
    some_live = omega (
      arith,
      passed-lt-alive p.queue_serial s cs i c here (ground (arith, past_of s, alive_still)),
    )

    pub all_open : (t : ℕ) → good.first ≤ t → passed p.queue_serial cs t < p.consumers
    all_open t le = ground (arith, good.open_still t le, some_live, good.live_count)

    pub strict : (t : ℕ) → t < s → passed p.queue_serial cs s < passed p.queue_serial cs t
    strict t less =
        passed_strict p.queue_serial t s cs i c here (ground (arith, past_of t, less))
          (ground (arith, past_of s)) (omega (arith, less))

    pub unreffed : Unreffed p c s good.first (passed p.queue_serial cs)
    unreffed =
        consumer_elem_unref_lem p c s good.first (passed p.queue_serial cs) good.run good.counted
          inside.0 inside.1 all_open strict (omega (arith, good.live_count, good.few)) now at
          at_object

    stays :
        (u : ℕ)
        → c.current_element_pointer ≡ some u
        → suc s ≡ p.next_serial
        → (false ≡ ltb (suc u) p.next_serial)
          × (c.current_element_pointer ≡ some (if ltb (suc u) p.next_serial then suc u else u))
    stays u at_u last = ground (arith, at, at_u, last)

    -- The consumer goes to the next element, or stays at the last.
    pub move_stays : suc s ≡ p.next_serial → Moved owners p cs i c
    unfolding consumer_move move_internal expected_next
    move_stays last =
        let link = next_of_lem s good.first p.next_serial p.queue good.run inside.0 inside.1 in
        record {
          done = false;
          after = p;
          consumer = c;
          eq = ground (arith, alive_still, good.running, goes, at, link, last);
          sound =
              replace-IsSound owners p cs i c c good here refl (good.placed i c here)
                (λ t le. refl);
          copies = λ x. refl;
          from_start = λ starts. absurd (ground (arith, starts, goes));
          goes_on = λ u _ at_u. stays u at_u last;
        }

    -- The consumer at the next element.
    abbrev pub next_one : Consumer
    next_one = at_elem p.queue_serial c.killed (suc s)

    pub past_next :
        (t : ℕ)
        → passed p.queue_serial (set cs i next_one) t
          ≡ passed p.queue_serial cs t + (if t == s then 1 else 0)
    past_next t =
        ground (arith, passed-set p.queue_serial t cs i c next_one here, past_of t, alive_still)

    pub alive_next : alive (set cs i next_one) ≡ alive cs
    alive_next = omega (arith, alive-set cs i c next_one here)

    pub next-Placed :
        suc s < p.next_serial → Placed good.first p.next_serial p.queue_serial next_one
    next-Placed more = record {
      same = refl;
      older = omega arith;
      inside = λ u _ _ at_u. ground (arith, at_u, more, inside.0);
    }

    pub move_says :
        suc s < p.next_serial
        → (u : ℕ) → c.current_element_pointer ≡ some u
        → (true ≡ ltb (suc u) p.next_serial)
          × (◌≡◌ {A = Option ℕ}
              (some (suc s))
              (some (if ltb (suc u) p.next_serial then suc u else u)))
    move_says more u at_u = ground (arith, at, at_u, more)

    pub kept_elem-IsSound :
        suc s < p.next_serial
        → passed p.queue_serial cs s + 1 < p.consumers
        → IsSound owners (record p { queue = bump s p.queue }) (set cs i next_one)
    kept_elem-IsSound more others = record {
      first = good.first;
      run = bump-Consec s good.first p.next_serial p.queue good.run;
      counted =
          Counted-bump s good.first p.next_serial (passed p.queue_serial cs)
            (passed p.queue_serial (set cs i next_one)) p.queue good.run good.counted past_next
            (omega (arith, others, good.live_count, good.few));
      open_still = λ t le.
          inr (ground (arith, past_next t, alive_next, all_open t le, others, good.live_count));
      live_count = omega (arith, good.live_count, alive_next);
      refs = omega (arith, good.refs, alive_next);
      owned = good.owned;
      running = good.running;
      next_small = good.next_small;
      serial_small = good.serial_small;
      few = omega (arith, good.few, alive_next);
      lag = good.lag;
      placed =
          AllPlaced-set good.first p.next_serial p.queue_serial cs i next_one good.placed
            (next-Placed more);
    }

    pub freed_elem-IsSound :
        (freed : List ℕ)
        → suc s < p.next_serial
        → passed p.queue_serial cs s + 1 ≡ p.consumers
        → s ≡ good.first
        → IsSound owners
            (record p { min_serial = s; freed = freed; queue = tail_of p.queue })
            (set cs i next_one)
    freed_elem-IsSound freed more last at_head = record {
      first = suc good.first;
      run =
          tail_of-Consec good.first p.next_serial p.queue good.run
            (omega (arith, inside.0, inside.1));
      counted =
          Counted-same (passed p.queue_serial cs) (passed p.queue_serial (set cs i next_one))
            (suc good.first) p.next_serial (tail_of p.queue)
            (tail_of-Consec good.first p.next_serial p.queue good.run
              (omega (arith, inside.0, inside.1)))
            (λ t le. ground (arith, past_next t, le, at_head))
            (tail_of-Counted (passed p.queue_serial cs) p.queue good.counted);
      open_still = λ t le. inr (
          ground (
            arith,
            past_next t,
            alive_next,
            all_open t (omega (arith, le)),
            le,
            at_head,
            good.live_count,
          ));
      live_count = omega (arith, good.live_count, alive_next);
      refs = omega (arith, good.refs, alive_next);
      owned = good.owned;
      running = good.running;
      next_small = good.next_small;
      serial_small = good.serial_small;
      few = omega (arith, good.few, alive_next);
      lag = omega (arith, inside.1);
      placed =
          AllPlaced-raise good.first (suc good.first) p.next_serial p.queue_serial
            (set cs i next_one)
            (AllPlaced-set good.first p.next_serial p.queue_serial cs i next_one good.placed
              (next-Placed more))
            (λ t le less.
              ground (arith, past_next t, alive_next, le, less, at_head, last, good.live_count));
    }

    pub count-tail_of :
        (elem : Element) (x : ℕ)
        → find_elem s p.queue ≡ some elem
        → s ≡ good.first
        → count x (payloads (tail_of p.queue)) + count x (elem.payload ∷ p.freed)
          ≡ count x (payloads p.queue) + count x p.freed
    count-tail_of elem x found at_head =
        counted_tail s good.first p.next_serial x p.queue p.freed elem good.run found at_head
