-- ===== src/Event.antt =====
-- Reference-counted events and an event loop: hmlib/src/hm_event.c. The operations that other threads
-- ask for wait in a queue, which the loop's thread works off; each function holds the loop's lock where
-- the code does. There is one loop. Memory is a map from addresses to events, and a count of 0 is a
-- freed event; `none` is a use of freed memory, a failed assertion or BUG.
pub mod Refs
pub mod Work
pub mod Calls
pub mod Runs
mod Tests
use hm_platform.Base.{
  ℕ, zero, suc, ◌+◌, ◌-◌, List, [], ◌∷◌, ◌++◌, Option, none, some, ltb, ◌==◌, if◌then◌else◌, ◌>>=◌,
  assert, Bool, true, false, ◌&&◌, ◌||◌, not,
}

-- `EV_READ` and `EV_WRITE`.
pub record Mask : Type 0 where
  pub reads : Bool
  pub writes : Bool

abbrev pub any : Mask → Bool
any m = m.reads || m.writes

-- `a & b`, `a & b == b`, `a & ~b` and `a | b`.
abbrev pub meets : Mask → Mask → Bool
meets a b = (a.reads && b.reads) || (a.writes && b.writes)

abbrev pub covers : Mask → Mask → Bool
covers a b = (a.reads || not b.reads) && (a.writes || not b.writes)

abbrev pub without : Mask → Mask → Mask
without a b = record { reads = a.reads && not b.reads; writes = a.writes && not b.writes }

abbrev pub union : Mask → Mask → Mask
union a b = record { reads = a.reads || b.reads; writes = a.writes || b.writes }

-- The calls of libev, on the watchers of the event at an address.
pub record Libev : Type 1 where
  pub Ev : Type 0
  pub io_start : Ev → ℕ → ℕ → Mask → Ev
  pub io_stop : Ev → ℕ → Ev
  pub timer_start : Ev → ℕ → ℕ → Ev
  pub timer_stop : Ev → ℕ → Ev
  pub break_all : Ev → Ev

-- `struct _JEvent`; `none` is a negative descriptor or timeout, and `in_loop` the flag
-- FLAGS_EVENT_IN_LOOP. `attached` is that `loop` is not NULL.
pub record Event : Type 0 where
  pub ref_count : ℕ
  pub ev_fd : Option ℕ
  pub timeout : Option ℕ
  pub events : Mask
  pub in_loop : Bool
  pub attached : Bool

-- `struct _JLoopOps`
pub data LoopOps : Type 0 where
  ops_add : ℕ → LoopOps
  ops_remove : ℕ → LoopOps
  ops_modify : ℕ → LoopOps
  ops_quit : LoopOps

abbrev pub max_ref_count : ℕ
max_ref_count = 10000

pub contains : ℕ → List ℕ → Bool
contains e [] = false
contains e (x ∷ l) = x == e || contains e l

-- The list without the first link of an event.
pub delete_event : ℕ → List ℕ → List ℕ
delete_event e [] = []
delete_event e (x ∷ l) = if x == e then l else x ∷ delete_event e l

pub new_event : Option ℕ → Mask → Event
new_event fd events = record {
  ref_count = 1;
  ev_fd = fd;
  timeout = none;
  events = events;
  in_loop = false;
  attached = false;
}

module _ (libev : Libev) where
  open libev use {Ev, io_start, io_stop, timer_start, timer_stop, break_all}

  -- `struct _JEventLoop`, the memory, and whether the loop's thread is at its operations.
  pub record EventLoop : Type 0 where
    pub mem : ℕ → Event
    pub ev_loop : Ev
    pub request_pending : Bool
    pub loop_quited : Bool
    pub events_list : List ℕ
    pub operations : List LoopOps
    pub executing : Bool

  abbrev pub put : EventLoop → ℕ → Event → EventLoop
  put s e v = record s { mem = λ j. if j == e then v else s.mem j }

  -- An event that is not freed.
  pub live : EventLoop → ℕ → Option Event
  live s e = if (s.mem e).ref_count == 0 then none else some (s.mem e)

  pub event_ref : EventLoop → ℕ → Option EventLoop
  event_ref s e = do
    v ← live s e
    assert (ltb v.ref_count max_ref_count)
        (some (put s e (record v { ref_count = v.ref_count + 1 })))

  pub event_unref : EventLoop → ℕ → Option EventLoop
  event_unref s e = do
    v ← live s e
    assert (ltb v.ref_count max_ref_count)
        (some (put s e (record v { ref_count = v.ref_count - 1 })))

  -- `ev_io_start`, if there are events to watch.
  pub started_io : Ev → ℕ → Event → Ev
  started_io ev e v = elim v.ev_fd [
    | none ↦ ev
    | some fd ↦ if any v.events then io_start ev e fd v.events else ev
  ]

  pub loop_sync_add : EventLoop → ℕ → Option EventLoop
  loop_sync_add s e = do
    v ← live s e
    some (record (put s e (record v { in_loop = true })) {
      ev_loop = elim v.timeout [
        | none ↦ started_io s.ev_loop e v
        | some t ↦ timer_start (started_io s.ev_loop e v) e t
      ];
    })

  pub stopped_io : Ev → ℕ → Event → Ev
  stopped_io ev e v = elim v.ev_fd [ none ↦ ev | some fd ↦ io_stop ev e ]

  pub loop_sync_remove : EventLoop → ℕ → Option EventLoop
  loop_sync_remove s e = do
    v ← live s e
    some (record (put s e (record v { in_loop = false })) {
      ev_loop = elim v.timeout [
        | none ↦ stopped_io s.ev_loop e v
        | some t ↦ timer_stop (stopped_io s.ev_loop e v) e
      ];
    })

  pub loop_sync_io_modified : EventLoop → ℕ → Option EventLoop
  loop_sync_io_modified s e = do
    v ← live s e
    some (if v.in_loop then record s { ev_loop = started_io (stopped_io s.ev_loop e v) e v } else s)

  -- The functions of the operations.
  pub run_add : EventLoop → ℕ → Option EventLoop
  run_add s e = do
    s1 ← event_ref (record s { events_list = e ∷ s.events_list }) e
    loop_sync_add s1 e

  pub unlink : EventLoop → ℕ → Option EventLoop
  unlink s e = do
    s1 ← loop_sync_remove (record s { events_list = delete_event e s.events_list }) e
    event_unref s1 e

  pub run_remove : EventLoop → ℕ → Option EventLoop
  run_remove s e = let found = unlink s e in if contains e s.events_list then found else some s

  pub release_one : EventLoop → ℕ → Option EventLoop
  release_one s e = do
    v ← live s e
    assert v.attached (loop_sync_remove s e >>= λ s1. event_unref s1 e)

  pub release_all : EventLoop → List ℕ → Option EventLoop
  release_all s [] = some s
  release_all s (e ∷ l) = do s1 ← release_one s e; release_all s1 l

  pub run_quit : EventLoop → Option EventLoop
  run_quit s = do
    s1 ← release_all s s.events_list
    some (record s1 { events_list = []; ev_loop = break_all s1.ev_loop })

  -- One round of `hm_event_loop_exec_operations`; it ends when the queue is empty.
  pub run_operation : EventLoop → LoopOps → Option EventLoop
  run_operation s (ops_add e) = run_add s e >>= λ s1. event_unref s1 e
  run_operation s (ops_remove e) = run_remove s e >>= λ s1. event_unref s1 e
  run_operation s (ops_modify e) = loop_sync_io_modified s e >>= λ s1. event_unref s1 e
  run_operation s ops_quit = run_quit s

  pub exec_operation : EventLoop → Option EventLoop
  exec_operation s = elim s.operations [
    | [] ↦ some (record s { executing = false })
    | op ∷ rest ↦ run_operation (record s { operations = rest }) op
  ]

  pub woken_up : EventLoop → EventLoop
  woken_up s = record s { request_pending = false; executing = true }

  -- What the functions that other threads call have in common: the event's reference, the operation at
  -- the end of the queue, and the wakeup.
  pub push : EventLoop → ℕ → LoopOps → Option EventLoop
  push s e op =
      if s.loop_quited
      then some s
      else (event_ref s e >>= λ s1.
          some (record s1 { operations = s.operations ++ (op ∷ []); request_pending = true }))

  -- What is done under a condition.
  abbrev pub when : Bool → EventLoop → Option EventLoop → Option EventLoop
  when b s r = if b then r else some s

  pub attach : EventLoop → ℕ → Option EventLoop
  attach s e = do
    v ← live s e
    assert (not v.attached) (push (put s e (record v { attached = true })) e (ops_add e))

  pub remove : EventLoop → ℕ → Option EventLoop
  remove s e = do v ← live s e; when v.attached s (push s e (ops_remove e))

  pub quit : EventLoop → EventLoop
  quit s = if s.loop_quited then s else record s { loop_quited = true; request_pending = true }

  -- The events watched, changed to `m`, and the operation that tells the loop.
  pub change_events : EventLoop → ℕ → Event → Mask → Option EventLoop
  change_events s e v m =
      let s1 = put s e (record v { events = m }) in
      let told = push s1 e (ops_modify e) in if v.attached then told else some s1

  pub remove_events : EventLoop → ℕ → Mask → Option EventLoop
  remove_events s e m = do
    v ← live s e
    when (meets v.events m) s (change_events s e v (without v.events m))

  pub add_events : EventLoop → ℕ → Mask → Option EventLoop
  add_events s e m = do
    v ← live s e
    when (not (covers v.events m)) s (change_events s e v (union v.events m))

  -- What the loop does to an event whose callback returned FALSE.
  pub event_sync_remove : EventLoop → ℕ → Option EventLoop
  event_sync_remove s e = do v ← live s e; assert v.attached (run_remove s e)

  -- The changes of events and timeout that the loop's own thread makes.
  pub remove_events_sync : EventLoop → ℕ → Mask → Option EventLoop
  remove_events_sync s e m = do
    v ← live s e
    when (meets v.events m) s (
        assert v.attached
          (loop_sync_io_modified (put s e (record v { events = without v.events m })) e))

  pub add_events_sync : EventLoop → ℕ → Mask → Option EventLoop
  add_events_sync s e m = do
    v ← live s e
    when (not (covers v.events m)) s (
        assert v.attached
          (loop_sync_io_modified (put s e (record v { events = union v.events m })) e))

  pub set_timeout : EventLoop → ℕ → Option ℕ → Option EventLoop
  set_timeout s e timeout = do
    v ← live s e
    some (if v.attached then s else put s e (record v { timeout = timeout }))
