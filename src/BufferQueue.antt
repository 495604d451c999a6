-- ===== src/BufferQueue.antt =====
-- The queue of media buffers between a producer and its consumers: hmrtspsvr/src/utils/bufferqueue.c.
-- Each function holds the producer's lock. A link of the queue, and the element it holds, are named by
-- the element's serial number; `none` is a use of a freed link or element, or a failed assertion.
pub mod Passed
pub mod Links
pub mod Removal
pub mod Sound
pub mod Seen
pub mod Steps
pub mod Moves
pub mod Joins
pub mod Leaves
pub mod Kill
pub mod Backlog
pub mod Reads
pub mod Runs
mod Tests
use hm_platform.Base.{
  ℕ, zero, suc, ◌+◌, ◌-◌, ◌/◌, ◌%◌, ◌^◌, List, [], ◌∷◌, ◌++◌, Option, none, some, ltb, leb, ◌==◌,
  if◌then◌else◌, ◌>>=◌, assert, Bool, true, false, ◌&&◌, ◌||◌, not, length, map,
}

-- `BufferQueue_Element`
pub record Element : Type 0 where
  pub payload : ℕ
  pub seen : ℕ
  pub serial : ℕ

-- `struct BufferQueue_Producer`, and the payloads that were given to its free function, the last first.
pub record Producer : Type 0 where
  pub ref_count : ℕ
  pub queue : List Element
  pub next_serial : ℕ
  pub queue_serial : ℕ
  pub consumers : ℕ
  pub stopped : Bool
  pub total_packets : ℕ
  pub min_serial : ℕ
  pub max_backlog : ℕ
  pub freed : List ℕ

-- `struct BufferQueue_Consumer`
pub record Consumer : Type 0 where
  pub queue_serial : ℕ
  pub current_element_pointer : Option ℕ
  pub current_element_object : Option ℕ
  pub killed : Bool

-- `gulong` arithmetic.
abbrev pub add64 : ℕ → ℕ → ℕ
add64 a b = (a + b) % 2 ^ 64

abbrev pub sub64 : ℕ → ℕ → ℕ
sub64 a b = (a + 2 ^ 64 - b) % 2 ^ 64

abbrev pub default_max_backlog : ℕ
default_max_backlog = 2048

-- What a pointer is not NULL for.
abbrev pub is_some : Option ℕ → Bool
is_some none = false
is_some (some s) = true

abbrev pub same_link : Option ℕ → Option ℕ → Bool
same_link none none = true
same_link (some a) (some b) = a == b
same_link a b = false

-- `queue->head`, the link behind a link, and the element of a link.
abbrev pub head_of : List Element → Option ℕ
head_of [] = none
head_of (e ∷ q) = some e.serial

pub next_of : ℕ → List Element → Option (Option ℕ)
next_of s [] = none
next_of s (e ∷ q) = if e.serial == s then some (head_of q) else next_of s q

pub find_elem : ℕ → List Element → Option Element
find_elem s [] = none
find_elem s (e ∷ q) = if e.serial == s then some e else find_elem s q

-- `++elem->seen`
pub bump : ℕ → List Element → List Element
bump s [] = []
bump s (e ∷ q) = if e.serial == s then record e { seen = add64 e.seen 1 } ∷ q else e ∷ bump s q

abbrev pub tail_of : List Element → List Element
tail_of [] = []
tail_of (e ∷ q) = q

abbrev pub payloads : List Element → List ℕ
payloads [] = []
payloads (e ∷ q) = e.payload ∷ payloads q

-- The queue is freed from the head on.
abbrev pub free_all : List Element → List ℕ → List ℕ
free_all [] freed = freed
free_all (e ∷ q) freed = free_all q (e.payload ∷ freed)

pub producer_reset_queue : Producer → Option Producer
producer_reset_queue p = assert (not p.stopped) (
    some (record p {
      freed = free_all p.queue p.freed;
      queue = [];
      queue_serial = add64 p.queue_serial 1;
      next_serial = 0;
      min_serial = 0;
    }))

-- A producer that is not shared.
pub producer_new : Option Producer
producer_new = producer_reset_queue (record {
  ref_count = 1;
  queue = [];
  next_serial = 0;
  queue_serial = 0;
  consumers = 0;
  stopped = false;
  total_packets = 0;
  min_serial = 0;
  max_backlog = default_max_backlog;
  freed = [];
})

pub producer_ref : Producer → Option Producer
producer_ref p = assert (ltb 0 p.ref_count) (some (record p { ref_count = p.ref_count + 1 }))

pub get_backlog : Producer → ℕ
get_backlog p = sub64 p.next_serial p.min_serial

-- A new element at the tail.
pub pushed : Producer → ℕ → Option Producer
pushed p payload = assert (not (add64 p.next_serial 1 == 0)) (
    some (record p {
      queue = p.queue ++ (record { payload = payload; seen = 0; serial = p.next_serial } ∷ []);
      next_serial = add64 p.next_serial 1;
      total_packets = add64 p.total_packets 1;
    }))

-- The result is whether it is E_OK, and not -E_FULL.
pub producer_put : Producer → ℕ → Option (Bool × Producer)
producer_put p payload = assert (not (payload == 0)) (
    assert (not p.stopped) (
      if leb p.max_backlog (sub64 p.next_serial p.min_serial)
      then (producer_reset_queue p >>= λ p'. some (false, p'))
      else (pushed p payload >>= λ p'. some (true, p'))))

-- LS_EOF is a payload.
pub producer_put_eof : ℕ → Producer → Option Producer
producer_put_eof eof p = assert (not p.stopped) (pushed p eof)

pub producer_free_internal : Producer → Option Producer
producer_free_internal p =
    assert (p.consumers == 0) (some (record p { freed = free_all p.queue p.freed; queue = [] }))

-- The result is whether the producer is gone.
pub producer_unref : Producer → Option (Bool × Producer)
producer_unref p =
    if not (p.ref_count == 1)
    then some (false, record p { ref_count = p.ref_count - 1 })
    else assert (p.consumers == 0) (
        assert (not p.stopped) (
          producer_free_internal (record p { ref_count = 0; stopped = true }) >>= λ p'.
          some (true, p')))

pub consumer_new : Producer → Option (Consumer × Producer)
consumer_new p = assert (not p.stopped) (do
  p' ← producer_ref p
  assert (ltb p'.consumers (2 ^ 64 - 1)) (
      some (
        record {
          queue_serial = 0;
          current_element_pointer = none;
          current_element_object = none;
          killed = false;
        },
        record p' { consumers = p'.consumers + 1 },
      )))

-- The element is freed, which only the head of the queue is.
pub elem_done : Producer → Consumer → Element → Option (Producer × Consumer)
elem_done p c elem = assert (same_link c.current_element_pointer (head_of p.queue)) (
    some (
      record p {
        min_serial = elem.serial;
        freed = elem.payload ∷ p.freed;
        queue = tail_of p.queue;
      },
      record c { current_element_object = none; current_element_pointer = none },
    ))

pub elem_seen : Producer → Consumer → ℕ → Option (Producer × Consumer)
elem_seen p c s = do
  elem ← find_elem s p.queue
  (λ (r : Option (Producer × Consumer)).
        if ltb (add64 elem.seen 1) p.consumers
        then some (record p { queue = bump s p.queue }, c)
        else r)
      (elem_done p c elem)

pub consumer_elem_unref : Producer → Consumer → Option (Producer × Consumer)
consumer_elem_unref p c = elim c.current_element_object [
  | none ↦ some (p, c)
  | some s ↦ if not (p.queue_serial == c.queue_serial) then some (p, c) else elem_seen p c s
]

-- `bq_remove_all_seen_elements`: the first element that all consumers have seen, and the loop that
-- removes it and searches again.
pub find_seen : ℕ → List Element → Option (Option Element)
find_seen n [] = some none
find_seen n (e ∷ q) = if leb n e.seen then assert (e.seen == n) (some (some e)) else find_seen n q

pub delete_elem : ℕ → List Element → List Element
delete_elem s [] = []
delete_elem s (e ∷ q) = if e.serial == s then q else e ∷ delete_elem s q

pub remove_all_seen : ℕ → ℕ → List Element → List ℕ → Option (List Element × List ℕ)
remove_all_seen zero n q freed = none
remove_all_seen (suc fuel) n q freed = find_seen n q >>= λ found. elim found [
  | none ↦ some (q, freed)
  | some e ↦ remove_all_seen fuel n (delete_elem e.serial q) (e.payload ∷ freed)
]

-- The seen counts of the elements from a link back to the head, each lowered by one.
pub lower : ℕ → ℕ → List Element → Option (List Element)
lower n s [] = none
lower n s (e ∷ q) =
    let e' : Element = record e { seen = sub64 e.seen 1 } in
    let before = (lower n s q >>= λ q'. assert (leb e.seen n) (some (e' ∷ q'))) in
    if e.serial == s then assert (leb e.seen n) (some (e' ∷ q)) else before

-- What happens to the elements once the consumer does not count.
pub lower_seen : Producer → Consumer → Option (List Element)
lower_seen p c =
    let lowered : Option (List Element) = elim c.current_element_pointer [
      | none ↦ none
      | some s ↦ lower p.consumers s p.queue
    ] in
    if (c.queue_serial == p.queue_serial) && is_some c.current_element_object
    then lowered
    else some p.queue

pub forget : Producer → Consumer → Option Producer
forget p c =
    let others = (do
      q ← lower_seen p c
      left ← remove_all_seen (suc (length q)) p.consumers q p.freed
      some (record p { queue = left.0; freed = left.1 })) in
    if p.consumers == 0
    then some (if p.stopped then p else record p { freed = free_all p.queue p.freed; queue = [] })
    else others

-- The result is whether the producer is gone.
pub consumer_kill : Producer → Consumer → Option (Bool × Producer × Consumer)
consumer_kill p c =
    let gone = (do
      r ← consumer_elem_unref p (record c { killed = true })
      p1 ← forget (record r.0 { consumers = r.0.consumers - 1 }) r.1
      u ← producer_unref p1
      some (u.0, u.1, r.1)) in
    if c.killed then some (false, p, c) else assert (ltb 0 p.consumers) gone

-- The link that a consumer moves to, if there is one.
abbrev pub at_start : Producer → Consumer → Bool
at_start p c = not (p.queue_serial == c.queue_serial) || not (is_some c.current_element_pointer)

abbrev pub reset_current : Consumer → Consumer
reset_current c = record c { current_element_pointer = none; current_element_object = none }

pub expected_next : Producer → Consumer → Option (Option ℕ × Consumer)
expected_next p c =
    let later =
      (elim c.current_element_pointer [ none ↦ some none | some s ↦ next_of s p.queue ] >>= λ l.
      some (l, c)) in
    if at_start p c then some (head_of p.queue, reset_current c) else later

pub go_to : Producer → Consumer → ℕ → Option (Bool × Producer × Consumer)
go_to p c s = do
  r ← (if is_some c.current_element_pointer then consumer_elem_unref p c else some (p, c))
  some (
    true,
    r.0,
    record r.1 {
      queue_serial = r.0.queue_serial;
      current_element_pointer = some s;
      current_element_object = some s;
    },
  )

pub move_internal : Producer → Consumer → Option (Bool × Producer × Consumer)
move_internal p c =
    expected_next p c >>= λ e. elim e.0 [ none ↦ some (false, p, e.1) | some s ↦ go_to p e.1 s ]

pub consumer_move : Producer → Consumer → Option (Bool × Producer × Consumer)
consumer_move p c = if c.killed || p.stopped then some (false, p, c) else move_internal p c

-- The payload of the next element; NULL is 0.
pub consumer_get : Producer → Consumer → Option (ℕ × Consumer)
consumer_get p c =
    let got =
      (expected_next p c >>= λ e. elim e.0 [
        | none ↦ some (0, e.1)
        | some s ↦ find_elem s p.queue >>= λ elem. some (elem.payload, e.1)
      ]) in
    if c.killed || p.stopped then some (0, c) else got

pub consumer_unseen : Producer → Consumer → Option ℕ
consumer_unseen p c =
    let counted : Option ℕ = elim c.current_element_object [
      | none ↦ some (elim (head_of p.queue) [ none ↦ 0 | some s ↦ p.next_serial ])
      | some s ↦ assert (ltb s p.next_serial) (some (sub64 p.next_serial s))
    ] in
    if p.stopped
    then some 0
    else if not (c.queue_serial == p.queue_serial)
    then some p.next_serial
    else counted

-- The result is whether it is 0 or 1, and not -E_FULL.
pub test_blockable : Producer → ℕ → Bool
test_blockable p packets =
    p.stopped || ltb (add64 (sub64 p.next_serial p.min_serial) packets) (p.max_backlog / 2)
