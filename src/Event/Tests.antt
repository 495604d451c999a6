-- ===== src/Event/Tests.antt =====
-- Runs of an event loop over a libev that only counts its calls: hmlib/src/hm_event.c.
use hm_platform.Base.{ℕ, ◌+◌, ◌≡◌, refl, some, ◌==◌, if◌then◌else◌, true, false, arith}
use hm_platform.Event.{Libev, Mask, EventLoop, put, new_event}
use hm_platform.Event.Refs.{IsHeld, HasRoom, listed, queued, holds_quit, is_empty}
use hm_platform.Event.Calls.{Returns}
use hm_platform.Event.Runs.{
  creates, attaches, owned_after, initial, step, Allowed, step_lem, Reachable, starts, goes,
  Reachable-IsHeld,
}

abbrev counting : Libev
counting = record {
  Ev = ℕ;
  io_start = λ ev e fd m. ev + 1;
  io_stop = λ ev e. ev + 1;
  timer_start = λ ev e t. ev + 1;
  timer_stop = λ ev e. ev + 1;
  break_all = λ ev. ev + 1;
}

abbrev readable : Mask
readable = record { reads = true; writes = false }

-- One event, at address 4, which one thread holds.
abbrev one_event : EventLoop counting
one_event = put counting (initial counting 0) 4 (new_event (some 3) readable)

abbrev one_owner : ℕ → ℕ
one_owner j = if j == 4 then 1 else 0

one_event-IsHeld : IsHeld counting one_owner one_event
unfolding initial new_event listed queued holds_quit is_empty
one_event-IsHeld = record {
  counts = λ j. ground arith;
  attached = λ j pos. absurd (omega (arith, pos));
  no_quit = refl;
  woken = refl;
}

one_event-HasRoom : HasRoom counting one_event
unfolding initial new_event
one_event-HasRoom j = ground arith

may_attach : Allowed counting (attaches 4) one_owner one_event
unfolding Allowed initial new_event
may_attach = (ground arith, refl)

step_example :
    Returns counting (step counting (attaches 4) one_event) (owned_after (attaches 4) one_owner)
step_example =
    step_lem counting (attaches 4) one_owner one_event one_event-IsHeld one_event-HasRoom may_attach

-- A loop with an event that was told to quit.
initial-HasRoom : HasRoom counting (initial counting 0)
unfolding initial
initial-HasRoom j = ground arith

may_create : Allowed counting (creates 4 (some 3) readable) (λ j. 0) (initial counting 0)
unfolding Allowed initial
may_create = refl

creation : step counting (creates 4 (some 3) readable) (initial counting 0) ≡ some one_event
unfolding step
creation = refl

reached : Reachable counting 0 (owned_after (creates 4 (some 3) readable) (λ j. 0)) one_event
reached =
    goes (creates 4 (some 3) readable) (λ j. 0) (initial counting 0) one_event starts
      initial-HasRoom may_create creation

Reachable-IsHeld_example :
    IsHeld counting (owned_after (creates 4 (some 3) readable) (λ j. 0)) one_event
Reachable-IsHeld_example =
    Reachable-IsHeld counting 0 (owned_after (creates 4 (some 3) readable) (λ j. 0)) one_event
      reached
