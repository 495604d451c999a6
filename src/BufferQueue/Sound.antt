-- ===== src/BufferQueue/Sound.antt =====
-- What holds of a producer with its consumers, and what the producer does:
-- hmrtspsvr/src/utils/bufferqueue.c.
use hm_platform.Base.{
  ℕ, suc, ◌+◌, ◌-◌, ◌^◌, ◌<◌, ◌≤◌, ◌≡◌, ◌≢◌, ◌↔◌, refl, sym, ap, subst, List, [], ◌∷◌, ◌++◌, Option,
  none, some, ◌==◌, if◌then◌else◌, Bool, true, false, ◌&&◌, not, arith, ◌⊎◌, inl, inr, Bool-cases,
  dec_lt, ℕ_discrete,
}
use hm_platform.BufferQueue.{
  Element, Producer, Consumer, payloads, free_all, producer_reset_queue, producer_put, pushed,
  add64,
}
use hm_platform.BufferQueue.Passed.{past, alive, passed, consumer_at}
use hm_platform.BufferQueue.Links.{Consec, Counted, Consec-append, Counted-append}
use hm_platform.BufferQueue.Removal.{count}

pub pointer_cases : (o : Option ℕ) → (o ≡ none) ⊎ ((s : ℕ) × o ≡ some s)
pointer_cases none = inl refl
pointer_cases (some s) = inr (s, refl)

-- A consumer of the queue of serial `qs`, whose elements are those from `first` to below `next`.
pub record Placed (first next qs : ℕ) (c : Consumer) : Type 0 where
  pub same : c.current_element_pointer ≡ c.current_element_object
  pub older : c.queue_serial ≤ qs
  pub inside :
      (s : ℕ)
      → c.killed ≡ false
      → c.queue_serial ≡ qs
      → c.current_element_pointer ≡ some s
      → (first ≤ s) × (s < next)

abbrev pub AllPlaced : ℕ → ℕ → ℕ → List Consumer → Type 0
AllPlaced first next qs cs =
    (i : ℕ) (c : Consumer) → consumer_at cs i ≡ some c → Placed first next qs c

past_beyond :
    (first next qs t : ℕ) (c : Consumer) → Placed first next qs c → next ≤ t → past qs t c ≡ 0
past_beyond first next qs t c here beyond = elim (pointer_cases c.current_element_pointer) [
  | inl nowhere ↦ ground (arith, nowhere)
  | inr (s, at) ↦ elim (Bool-cases (not c.killed && (c.queue_serial == qs))) [
    | inl counts ↦
        let inside = here.inside s (ground (arith, counts)) (ground (arith, counts)) at in
        ground (arith, counts, at, inside, beyond)
    | inr other ↦ ground (arith, other)
  ]
]

-- Nobody has passed what is not there yet.
pub passed_beyond :
    (first next qs t : ℕ) (cs : List Consumer)
    → AllPlaced first next qs cs
    → next ≤ t
    → passed qs cs t ≡ 0
unfolding passed
passed_beyond first next qs t [] all beyond = refl
passed_beyond first next qs t (c ∷ cs) all beyond =
    let none_here = past_beyond first next qs t c (all 0 c refl) beyond in
    let none_later = passed_beyond first next qs t cs (λ i d h. all (suc i) d h) beyond in
    omega (arith, none_here, none_later)

-- The producer and its consumers: `owners` others hold a reference to the producer.
pub record IsSound (owners : ℕ) (p : Producer) (cs : List Consumer) : Type 0 where
  pub first : ℕ
  pub run : Consec first p.queue p.next_serial
  pub counted : Counted (passed p.queue_serial cs) p.queue
  pub open_still : (t : ℕ) → first ≤ t → (alive cs ≡ 0) ⊎ (passed p.queue_serial cs t < alive cs)
  pub live_count : p.consumers ≡ alive cs
  pub refs : p.ref_count ≡ owners + alive cs
  pub owned : 0 < owners
  pub running : p.stopped ≡ false
  pub next_small : p.next_serial < 2 ^ 64
  pub serial_small : p.queue_serial < 2 ^ 64
  pub few : alive cs < 2 ^ 64
  pub lag : p.min_serial ≤ p.next_serial
  pub placed : AllPlaced first p.next_serial p.queue_serial cs

pub count-free_all :
    (x : ℕ) (q : List Element) (freed : List ℕ)
    → count x (free_all q freed) ≡ count x (payloads q) + count x freed
count-free_all x [] freed = omega arith
count-free_all x (e ∷ q) freed = omega (arith, count-free_all x q (e.payload ∷ freed))

pub count-payloads-append :
    (x : ℕ) (q : List Element) (e : Element)
    → count x (payloads (q ++ (e ∷ []))) ≡ count x (payloads q) + (if e.payload == x then 1 else 0)
count-payloads-append x [] e = omega arith
count-payloads-append x (d ∷ q) e = omega (arith, count-payloads-append x q e)

-- All consumers are behind in a queue of a later serial.
pub passed_stale :
    (first next qs t : ℕ) (cs : List Consumer)
    → AllPlaced first next qs cs
    → passed (suc qs) cs t ≡ 0
unfolding passed
passed_stale first next qs t [] all = refl
passed_stale first next qs t (c ∷ cs) all =
    let older : c.queue_serial ≤ qs = (all 0 c refl).older in
    let here : past (suc qs) t c ≡ 0 = ground (arith, older) in
    let later = passed_stale first next qs t cs (λ i d h. all (suc i) d h) in
    omega (arith, here, later)

stale_open :
    (owners : ℕ) (p : Producer) (cs : List Consumer)
    → IsSound owners p cs
    → (t qs : ℕ) → qs ≡ suc p.queue_serial
    → (alive cs ≡ 0) ⊎ (passed qs cs t < alive cs)
stale_open owners p cs good t qs up =
    let zero_passed = passed_stale good.first p.next_serial p.queue_serial t cs good.placed in
    elim (ℕ_discrete (alive cs) 0) [
      | yes nobody ↦ inl nobody
      | no some_live ↦ inr (omega (arith, some_live, zero_passed, ap (λ q. passed q cs t) up))
    ]

-- The queue is reset.
pub reset-IsSound :
    (owners : ℕ) (p : Producer) (cs : List Consumer)
    → IsSound owners p cs
    → p.queue_serial + 1 < 2 ^ 64
    → IsSound owners
        (record p {
          freed = free_all p.queue p.freed;
          queue = [];
          queue_serial = add64 p.queue_serial 1;
          next_serial = 0;
          min_serial = 0;
        })
        cs
reset-IsSound owners p cs good small =
    let up : add64 p.queue_serial 1 ≡ suc p.queue_serial = omega (arith, small) in
    record {
      first = 0;
      run = refl;
      counted = tt;
      open_still = λ t le. stale_open owners p cs good t (add64 p.queue_serial 1) up;
      live_count = good.live_count;
      refs = good.refs;
      owned = good.owned;
      running = good.running;
      next_small = omega arith;
      serial_small = omega (arith, up, small);
      few = good.few;
      lag = omega arith;
      placed = λ i c h. record {
        same = (good.placed i c h).same;
        older = omega (arith, up, (good.placed i c h).older);
        inside = λ s alive_still now at. absurd (omega (arith, up, now, (good.placed i c h).older));
      };
    }

-- A queue that is reset gives all its payloads to the free function.
pub record Emptied (owners : ℕ) (p : Producer) (cs : List Consumer) : Type 0 where
  pub after : Producer
  pub eq : producer_reset_queue p ≡ some after
  pub sound : IsSound owners after cs
  pub no_elements : after.queue ≡ []
  pub cleared :
      (after.queue ≡ [])
      × (after.queue_serial ≡ p.queue_serial + 1)
      × (after.next_serial ≡ 0)
      × (after.min_serial ≡ 0)
  pub copies : (x : ℕ) → count x after.freed ≡ count x (payloads p.queue) + count x p.freed

pub producer_reset_queue_lem :
    (owners : ℕ) (p : Producer) (cs : List Consumer)
    → IsSound owners p cs
    → p.queue_serial + 1 < 2 ^ 64
    → Emptied owners p cs
unfolding producer_reset_queue
producer_reset_queue_lem owners p cs good small = record {
  after = record p {
    freed = free_all p.queue p.freed;
    queue = [];
    queue_serial = add64 p.queue_serial 1;
    next_serial = 0;
    min_serial = 0;
  };
  eq = ground (arith, good.running);
  sound = reset-IsSound owners p cs good small;
  no_elements = refl;
  cleared = (refl, omega (arith, small), refl, refl);
  copies = λ x. count-free_all x p.queue p.freed;
}

-- A buffer that is put is at the tail of the queue; one that is refused leaves an empty queue of the next
-- serial.
pub record Put (owners : ℕ) (p : Producer) (cs : List Consumer) (payload : ℕ)
    (m : Option (Bool × Producer)) : Type 0 where
  pub taken : Bool
  pub after : Producer
  pub eq : m ≡ some (taken, after)
  pub sound : IsSound owners after cs
  pub placed_last :
      taken ≡ true
      → after.queue
        ≡ p.queue ++ (record { payload = payload; seen = 0; serial = p.next_serial } ∷ [])
  pub reset :
      taken ≡ false
      → (after.queue ≡ [])
        × (after.queue_serial ≡ p.queue_serial + 1)
        × (after.next_serial ≡ 0)
        × (after.min_serial ≡ 0)
  pub refused_when : (taken ≡ false) ↔ (p.max_backlog ≤ p.next_serial - p.min_serial)
  pub copies :
      (x : ℕ)
      → count x (payloads after.queue) + count x after.freed
        ≡ count x (payloads p.queue)
          + count x p.freed
          + (if taken then (if payload == x then 1 else 0) else 0)

-- The producer with a new element.
abbrev with_elem : Producer → ℕ → Producer
with_elem p payload = record p {
  queue = p.queue ++ (record { payload = payload; seen = 0; serial = p.next_serial } ∷ []);
  next_serial = add64 p.next_serial 1;
  total_packets = add64 p.total_packets 1;
}

with_elem-IsSound :
    (owners : ℕ) (p : Producer) (cs : List Consumer) (payload : ℕ)
    → IsSound owners p cs
    → p.next_serial + 1 < 2 ^ 64
    → IsSound owners (with_elem p payload) cs
with_elem-IsSound owners p cs payload good small =
    let up : add64 p.next_serial 1 ≡ suc p.next_serial = omega (arith, small) in
    let e : Element = record { payload = payload; seen = 0; serial = p.next_serial } in
    record {
      first = good.first;
      run =
          subst (Consec good.first (p.queue ++ (e ∷ []))) (sym up)
            (Consec-append good.first p.next_serial p.queue e good.run refl);
      counted = Counted-append (passed p.queue_serial cs) p.queue e good.counted (
          sym (
            passed_beyond good.first p.next_serial p.queue_serial p.next_serial cs good.placed
              (omega arith)));
      open_still = good.open_still;
      live_count = good.live_count;
      refs = good.refs;
      owned = good.owned;
      running = good.running;
      next_small = omega (arith, up, small);
      serial_small = good.serial_small;
      few = good.few;
      lag = omega (arith, up, good.lag);
      placed = λ i c h. record {
        same = (good.placed i c h).same;
        older = (good.placed i c h).older;
        inside = λ s alive_still now at.
            let inside = (good.placed i c h).inside s alive_still now at in
            (inside.0, omega (arith, inside.1, up));
      };
    }

pub pushed_lem :
    (owners : ℕ) (p : Producer) (cs : List Consumer) (payload : ℕ)
    → IsSound owners p cs
    → p.next_serial + 1 < 2 ^ 64
    → (after : Producer) × pushed p payload ≡ some after
      × IsSound owners after cs
      × ((x : ℕ)
          → count x (payloads after.queue) + count x after.freed
            ≡ count x (payloads p.queue) + count x p.freed + (if payload == x then 1 else 0))
      × (after.queue
          ≡ p.queue ++ (record { payload = payload; seen = 0; serial = p.next_serial } ∷ []))
unfolding pushed
pushed_lem owners p cs payload good small = (
  with_elem p payload,
  ground (arith, small),
  with_elem-IsSound owners p cs payload good small,
  λ x. omega (
    arith,
    count-payloads-append x p.queue
        (record { payload = payload; seen = 0; serial = p.next_serial }),
  ),
  refl,
)

-- Putting a buffer on a running queue whose serials have room: it is refused exactly when the backlog
-- is full, and the queue is then empty, of the next queue serial, with serials from 0 on; else it is in a
-- new element at the tail that nobody has seen. The state stays sound, and no payload is lost or freed
-- twice.
pub producer_put_lem :
    (owners : ℕ) (p : Producer) (cs : List Consumer) (payload : ℕ)
    → IsSound owners p cs
    → p.queue_serial + 1 < 2 ^ 64
    → p.next_serial + 1 < 2 ^ 64
    → payload ≢ 0
    → Put owners p cs payload (producer_put p payload)
unfolding producer_put
producer_put_lem owners p cs payload good serial_room room valid =
    elim (dec_lt (p.next_serial - p.min_serial) p.max_backlog) [
      | yes space ↦
          let (after, eq, sound, copies, in_queue) = pushed_lem owners p cs payload good room in
          record {
            taken = true;
            after = after;
            eq = ground (arith, valid, good.running, space, good.lag, good.next_small, eq);
            sound = sound;
            placed_last = λ _. in_queue;
            reset = λ e. absurd cc;
            refused_when = ground (arith, space);
            copies = copies;
          }
      | no full ↦
          let r = producer_reset_queue_lem owners p cs good serial_room in
          record {
            taken = false;
            after = r.after;
            eq = ground (arith, valid, good.running, full, good.lag, good.next_small, r.eq);
            sound = r.sound;
            placed_last = λ e. absurd cc;
            reset = λ _. r.cleared;
            refused_when = ground (arith, full);
            copies = λ x. omega (arith, r.copies x, ap (λ q. count x (payloads q)) r.no_elements);
          }
    ]
