-- ===== src/BufferQueue/Leaves.antt =====
-- A consumer leaves: hmrtspsvr/src/utils/bufferqueue.c.
use hm_platform.Base.{
  ℕ, suc, ◌+◌, ◌^◌, ◌<◌, ◌≤◌, ◌≡◌, refl, ap, List, [], some, false, arith, inl, inr, length,
}
use hm_platform.BufferQueue.{Element, Producer, Consumer, payloads, lower_seen, forget, free_all}
use hm_platform.BufferQueue.Passed.{alive, passed, passed-antitone, passed-le-alive}
use hm_platform.BufferQueue.Links.{Consec, Counted}
use hm_platform.BufferQueue.Removal.{count, remove_all_seen_lem}
use hm_platform.BufferQueue.Sound.{AllPlaced, passed_beyond, IsSound, count-free_all}
use hm_platform.BufferQueue.Seen.{AllPlaced-raise}

-- The state after the elements were dealt with.
pub record Forgotten (owners : ℕ) (p : Producer) (c : Consumer) (cs : List Consumer)
    (q : List Element) : Type 0 where
  pub after : Producer
  pub eq : forget p c ≡ some after
  pub sound : IsSound owners after cs
  pub copies :
      (x : ℕ)
      → count x (payloads after.queue) + count x after.freed
        ≡ count x (payloads q) + count x p.freed

-- What holds of the producer when the consumer does not count any more.
pub record Leaving (owners : ℕ) (p : Producer) (cs : List Consumer) (first : ℕ) : Type 0 where
  pub live_count : p.consumers ≡ alive cs
  pub refs : p.ref_count ≡ owners + alive cs
  pub owned : 0 < owners
  pub running : p.stopped ≡ false
  pub next_small : p.next_serial < 2 ^ 64
  pub serial_small : p.queue_serial < 2 ^ 64
  pub few : alive cs < 2 ^ 64
  pub lag : p.min_serial ≤ p.next_serial
  pub placed : AllPlaced first p.next_serial p.queue_serial cs

module _ (owners : ℕ) (p : Producer) (c : Consumer) (cs : List Consumer) (first : ℕ)
    (good : Leaving owners p cs first) where
  -- Nobody is left.
  pub forget_last : alive cs ≡ 0 → first ≤ p.next_serial → Forgotten owners p c cs p.queue
  unfolding forget
  forget_last nobody le = record {
    after = record p { freed = free_all p.queue p.freed; queue = [] };
    eq = ground (arith, good.live_count, nobody, good.running);
    sound = record {
      first = p.next_serial;
      run = refl;
      counted = tt;
      open_still = λ t _. inl nobody;
      live_count = good.live_count;
      refs = good.refs;
      owned = good.owned;
      running = good.running;
      next_small = good.next_small;
      serial_small = good.serial_small;
      few = good.few;
      lag = good.lag;
      placed =
          AllPlaced-raise first p.next_serial p.next_serial p.queue_serial cs good.placed
            (λ t _ _. omega (arith, nobody));
    };
    copies = λ x. omega (arith, count-free_all x p.queue p.freed);
  }

  -- Others are left.
  pub forget_others :
      (q : List Element)
      → lower_seen p c ≡ some q
      → Consec first q p.next_serial
      → Counted (passed p.queue_serial cs) q
      → 0 < alive cs
      → Forgotten owners p c cs q
  unfolding forget
  forget_others q lowered run counted some_left =
      let k =
        remove_all_seen_lem (suc (length q)) p.consumers first p.next_serial
          (passed p.queue_serial cs) q p.freed run counted (passed-antitone p.queue_serial cs)
          (λ t. omega (arith, passed-le-alive p.queue_serial t cs, good.live_count))
          (omega arith) in
      let nobody_beyond =
        passed_beyond first p.next_serial p.queue_serial p.next_serial cs good.placed
          (omega arith) in
      let at_start_open : passed p.queue_serial cs k.start < alive cs = elim k.open_start [
        | inl empty ↦ omega (arith, ap (passed p.queue_serial cs) empty, nobody_beyond, some_left)
        | inr less ↦ omega (arith, less, good.live_count)
      ] in
      record {
        after = record p { queue = k.left; freed = k.gone };
        eq = ground (arith, lowered, k.eq, good.live_count, some_left);
        sound = record {
          first = k.start;
          run = k.run;
          counted = k.counted;
          open_still = λ t le.
              inr (omega (arith, passed-antitone p.queue_serial cs k.start t le, at_start_open));
          live_count = good.live_count;
          refs = good.refs;
          owned = good.owned;
          running = good.running;
          next_small = good.next_small;
          serial_small = good.serial_small;
          few = good.few;
          lag = good.lag;
          placed =
              AllPlaced-raise first k.start p.next_serial p.queue_serial cs good.placed
                (λ t le less. omega (arith, k.seen_before t less le, good.live_count));
        };
        copies = k.copies;
      }
