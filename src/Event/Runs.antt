-- ===== src/Event/Runs.antt =====
-- Every state that calls lead to: hmlib/src/hm_event.c.
use hm_platform.Base.{
  ℕ, ◌+◌, ◌-◌, ◌<◌, ◌≡◌, refl, subst, [], Option, none, some, ◌==◌, if◌then◌else◌, true, false,
  arith, some_unique,
}
use hm_platform.Event.{
  Libev, Mask, EventLoop, put, live, event_ref, event_unref, attach, remove, quit, remove_events,
  add_events, event_sync_remove, new_event, woken_up, exec_operation,
}
use hm_platform.Event.Refs.{
  IsHeld, HasRoom, event_ref_lem, event_unref_lem, listed, queued, holds_quit, is_empty,
}
use hm_platform.Event.Work.{run_remove_lem, exec_operation_lem}
use hm_platform.Event.Calls.{
  Returns, attach_lem, remove_lem, remove_events_lem, add_events_lem, quit-IsHeld, woken_up-IsHeld,
}

-- What a thread may call, and the moves of the loop's thread: it wakes up, takes the next operation,
-- or has a callback return FALSE.
pub data Call : Type 0 where
  creates : ℕ → Option ℕ → Mask → Call
  refs : ℕ → Call
  unrefs : ℕ → Call
  attaches : ℕ → Call
  removes : ℕ → Call
  adds : ℕ → Mask → Call
  drops : ℕ → Mask → Call
  quits : Call
  wakes : Call
  works : Call
  returns_false : ℕ → Call

-- The references that the threads hold after a call.
unfoldable pub owned_after : Call → (ℕ → ℕ) → ℕ → ℕ
owned_after (creates e fd m) owned j = if j == e then owned j + 1 else owned j
owned_after (refs e) owned j = if j == e then owned j + 1 else owned j
owned_after (unrefs e) owned j = if j == e then owned j - 1 else owned j
owned_after (attaches e) owned j = owned j
owned_after (removes e) owned j = owned j
owned_after (adds e m) owned j = owned j
owned_after (drops e m) owned j = owned j
owned_after quits owned j = owned j
owned_after wakes owned j = owned j
owned_after works owned j = owned j
owned_after (returns_false e) owned j = owned j

module _ (libev : Libev) where
  open libev use {Ev}

  -- A new loop, with no event in memory.
  unfoldable pub initial : Ev → EventLoop libev
  initial ev = record {
    mem = λ j. record {
      ref_count = 0;
      ev_fd = none;
      timeout = none;
      events = record { reads = false; writes = false };
      in_loop = false;
      attached = false;
    };
    ev_loop = ev;
    request_pending = false;
    loop_quited = false;
    events_list = [];
    operations = [];
    executing = false;
  }

  unfoldable pub step : Call → EventLoop libev → Option (EventLoop libev)
  step (creates e fd m) s = some (put libev s e (new_event fd m))
  step (refs e) s = event_ref libev s e
  step (unrefs e) s = event_unref libev s e
  step (attaches e) s = attach libev s e
  step (removes e) s = remove libev s e
  step (adds e m) s = add_events libev s e m
  step (drops e m) s = remove_events libev s e m
  step quits s = some (quit libev s)
  step wakes s = some (woken_up libev s)
  step works s = exec_operation libev s
  step (returns_false e) s = event_sync_remove libev s e

  -- A thread calls only for an event that it holds a reference to, and attaches it once; memory is
  -- given out when it is free; the loop's thread works when it is awake, and calls an event that it
  -- lists.
  unfoldable pub Allowed : Call → (ℕ → ℕ) → EventLoop libev → Type 0
  Allowed (creates e fd m) owned s = (s.mem e).ref_count ≡ 0
  Allowed (refs e) owned s = 0 < owned e
  Allowed (unrefs e) owned s = 0 < owned e
  Allowed (attaches e) owned s = (0 < owned e) × ((s.mem e).attached ≡ false)
  Allowed (removes e) owned s = 0 < owned e
  Allowed (adds e m) owned s = 0 < owned e
  Allowed (drops e m) owned s = 0 < owned e
  Allowed quits owned s = Unit
  Allowed wakes owned s = Unit
  Allowed works owned s = s.executing ≡ true
  Allowed (returns_false e) owned s = 0 < listed e s.events_list

  created_attached :
      (owned : ℕ → ℕ) (s : EventLoop libev) (e : ℕ) (fd : Option ℕ) (m : Mask)
      → IsHeld libev owned s
      → (s.mem e).ref_count ≡ 0
      → (j : ℕ) → 0 < listed j s.events_list + queued j s.operations
      → ((put libev s e (new_event fd m)).mem j).attached ≡ true
  created_attached owned s e fd m good free j pos =
      let other : (j == e) ≡ false = ground (arith, good.counts j, good.counts e, free, pos) in
      rw other (good.attached j pos)

  created :
      (owned : ℕ → ℕ) (s : EventLoop libev) (e : ℕ) (fd : Option ℕ) (m : Mask)
      → IsHeld libev owned s
      → (s.mem e).ref_count ≡ 0
      → IsHeld libev (λ j. if j == e then owned j + 1 else owned j) (put libev s e (new_event fd m))
  unfolding new_event
  created owned s e fd m good free = record {
    counts = λ j. ground (arith, good.counts j, free);
    attached = λ j pos. created_attached owned s e fd m good free j pos;
    no_quit = good.no_quit;
    woken = good.woken;
  }

  sync_removed :
      (owned : ℕ → ℕ) (s : EventLoop libev) (e : ℕ)
      → IsHeld libev owned s
      → (s.mem e).ref_count < 9999
      → 0 < listed e s.events_list
      → Returns libev (event_sync_remove libev s e) owned
  unfolding event_sync_remove live
  sync_removed owned s e good small there =
      let r = run_remove_lem libev owned s e good (omega (arith, small)) in
      record {
        after = r.after;
        eq = ground (arith, good.counts e, there, good.attached e (omega (arith, there)), r.eq);
        held = r.held;
      }

  initial-IsHeld : (ev : Ev) → IsHeld libev (λ j. 0) (initial ev)
  unfolding initial listed queued holds_quit is_empty
  initial-IsHeld ev = record {
    counts = λ j. ground arith;
    attached = λ j pos. absurd (omega (arith, pos));
    no_quit = refl;
    woken = refl;
  }

  -- Every call that is allowed, when each count is below 9999 and every reference is held by
  -- somebody, ends with no use of freed memory, failed assertion or BUG, and every reference is held
  -- by somebody again: an event's count is the number of references that threads hold, of its places
  -- in the loop's list and of its operations in the queue. An event in the list or the queue has its
  -- loop set, and an operation that waits has a wakeup.
  pub step_lem :
      (c : Call) (owned : ℕ → ℕ) (s : EventLoop libev)
      → IsHeld libev owned s
      → HasRoom libev s
      → Allowed c owned s
      → Returns libev (step c s) (owned_after c owned)
  unfolding step Allowed owned_after
  step_lem (creates e fd m) owned s good room free = record {
    after = put libev s e (new_event fd m);
    eq = refl;
    held = created owned s e fd m good free;
  }
  step_lem (refs e) owned s good room mine =
      let r = event_ref_lem libev owned s e good (omega (arith, room e)) mine in
      record { after = r.after; eq = r.eq; held = r.held }
  step_lem (unrefs e) owned s good room mine =
      let r = event_unref_lem libev owned s e good (omega (arith, room e)) mine in
      record { after = r.after; eq = r.eq; held = r.held }
  step_lem (attaches e) owned s good room mine =
      attach_lem libev owned s e good (room e) mine.0 mine.1
  step_lem (removes e) owned s good room mine = remove_lem libev owned s e good (room e) mine
  step_lem (adds e m) owned s good room mine = add_events_lem libev owned s e good (room e) mine m
  step_lem (drops e m) owned s good room mine =
      remove_events_lem libev owned s e good (room e) mine m
  step_lem quits owned s good room tt = record {
    after = quit libev s;
    eq = refl;
    held = quit-IsHeld libev owned s good;
  }
  step_lem wakes owned s good room tt = record {
    after = woken_up libev s;
    eq = refl;
    held = woken_up-IsHeld libev owned s good;
  }
  step_lem works owned s good room working =
      let (after, eq, held) = exec_operation_lem libev owned s good room working in
      record { after = after; eq = eq; held = held }
  step_lem (returns_false e) owned s good room fires = sync_removed owned s e good (room e) fires

  -- The states that calls lead to, as long as counts stay below 9999.
  pub data Reachable (ev : Ev) : (ℕ → ℕ) → EventLoop libev → Type 0 where
    starts : Reachable ev (λ j. 0) (initial ev)
    goes :
        (c : Call) (owned : ℕ → ℕ) (s s' : EventLoop libev)
        → Reachable ev owned s
        → HasRoom libev s
        → Allowed c owned s
        → step c s ≡ some s'
        → Reachable ev (owned_after c owned) s'

  -- In every state that allowed calls lead to from a new loop, as long as each count stays below 9999,
  -- every reference is held by somebody, an event in the loop's list or queue has its loop set, an
  -- operation that waits has a wakeup, and the operation that ends the loop is not in the queue, whether
  -- or not hm_event_loop_quit was called.
  pub Reachable-IsHeld :
      (ev : Ev) (owned : ℕ → ℕ) (s : EventLoop libev) → Reachable ev owned s → IsHeld libev owned s
  Reachable-IsHeld ev _ _ starts = initial-IsHeld ev
  Reachable-IsHeld ev _ _ (goes c owned0 s s1 before room allowed eq) =
      let r = step_lem c owned0 s (Reachable-IsHeld ev owned0 s before) room allowed in
      subst (IsHeld libev (owned_after c owned0)) (some_unique r.eq eq) r.held
