-- ===== src/BufferQueue/Runs.antt =====
-- A producer and its consumers, in any order of their calls: hmrtspsvr/src/utils/bufferqueue.c.
use hm_platform.Base.{
  ℕ, ◌+◌, ◌-◌, ◌^◌, ◌<◌, ◌≡◌, ◌≢◌, List, [], ◌∷◌, ◌++◌, Option, some, if◌then◌else◌, ◌>>=◌, false,
  set,
}
use hm_platform.BufferQueue.{
  Producer, Consumer, payloads, producer_reset_queue, producer_new, producer_put, producer_put_eof,
  consumer_new, consumer_move, consumer_kill, consumer_get, producer_ref, producer_unref,
}
use hm_platform.BufferQueue.Passed.{alive, consumer_at}
use hm_platform.BufferQueue.Removal.{count}
use hm_platform.BufferQueue.Sound.{IsSound}

-- The producer, its consumers, the number of others that hold the producer, and the payloads that it
-- took, the last first.
pub record System : Type 0 where
  pub producer : Producer
  pub consumers : List Consumer
  pub owners : ℕ
  pub taken : List ℕ

pub data Call : Type 0 where
  puts : ℕ → Call
  puts_eof : ℕ → Call
  resets : Call
  joins : Call
  moves : ℕ → Call
  leaves : ℕ → Call
  gets : ℕ → Call
  refs : Call
  unrefs : Call

-- What a call does; the consumer at an index must be there.
unfoldable pub step : Call → System → Option System
step (puts payload) s = producer_put s.producer payload >>= λ r.
    some (record s { producer = r.1; taken = if r.0 then payload ∷ s.taken else s.taken })
step (puts_eof eof) s =
    producer_put_eof eof s.producer >>= λ p. some (record s { producer = p; taken = eof ∷ s.taken })
step resets s = producer_reset_queue s.producer >>= λ p. some (record s { producer = p })
step joins s = consumer_new s.producer >>= λ r.
    some (record s { producer = r.1; consumers = s.consumers ++ (r.0 ∷ []) })
step (moves i) s = consumer_at s.consumers i >>= λ c. consumer_move s.producer c >>= λ r.
    some (record s { producer = r.1; consumers = set s.consumers i r.2 })
step (leaves i) s = consumer_at s.consumers i >>= λ c. consumer_kill s.producer c >>= λ r.
    some (record s { producer = r.1; consumers = set s.consumers i r.2 })
step (gets i) s = consumer_at s.consumers i >>= λ c.
    consumer_get s.producer c >>= λ r. some (record s { consumers = set s.consumers i r.1 })
step refs s =
    producer_ref s.producer >>= λ p. some (record s { producer = p; owners = s.owners + 1 })
step unrefs s =
    producer_unref s.producer >>= λ r. some (record s { producer = r.1; owners = s.owners - 1 })

-- Payloads are not NULL; a consumer moves, reads and leaves while it is not killed; whoever is the last
-- to hold the producer keeps it.
unfoldable pub Allowed : Call → System → Type 0
Allowed (puts payload) s = payload ≢ 0
Allowed (puts_eof eof) s = Unit
Allowed resets s = Unit
Allowed joins s = Unit
Allowed (moves i) s = (c : Consumer) × consumer_at s.consumers i ≡ some c × c.killed ≡ false
Allowed (leaves i) s = (c : Consumer) × consumer_at s.consumers i ≡ some c × c.killed ≡ false
Allowed (gets i) s = (c : Consumer) × consumer_at s.consumers i ≡ some c × c.killed ≡ false
Allowed refs s = Unit
Allowed unrefs s = 1 < s.owners

-- The counters have room for one more.
pub record HasRoom (s : System) : Type 0 where
  pub serials : s.producer.next_serial + 1 < 2 ^ 64
  pub queues : s.producer.queue_serial + 1 < 2 ^ 64
  pub places : alive s.consumers + 1 < 2 ^ 64

-- The producer and its consumers are sound, and each payload that was taken is in the queue or was
-- freed, once.
pub record IsKept (s : System) : Type 0 where
  pub sound : IsSound s.owners s.producer s.consumers
  pub copies :
      (x : ℕ) → count x (payloads s.producer.queue) + count x s.producer.freed ≡ count x s.taken

pub record Steps (c : Call) (s : System) : Type 0 where
  pub after : System
  pub eq : step c s ≡ some after
  pub kept : IsKept after

-- The states that calls lead to from a new producer, as long as the counters have room.
pub data Reachable : System → Type 0 where
  starts :
      (p : Producer)
      → producer_new ≡ some p
      → Reachable (record { producer = p; consumers = []; owners = 1; taken = [] })
  goes :
      (c : Call) (s s' : System)
      → Reachable s
      → HasRoom s
      → Allowed c s
      → step c s ≡ some s'
      → Reachable s'
