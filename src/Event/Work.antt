-- ===== src/Event/Work.antt =====
-- The work of the loop's thread: hmlib/src/hm_event.c.
use hm_platform.Base.{
  ℕ, ◌+◌, ◌<◌, ◌≡◌, refl, sym, ap, ◌∙◌, List, [], ◌∷◌, some, ◌==◌, if◌then◌else◌, Bool, true, false,
  ◌||◌, arith, ◌⊎◌, inl, inr, Bool-cases,
}
use hm_platform.Event.{
  Libev, EventLoop, LoopOps, ops_add, ops_remove, ops_modify, ops_quit, contains, delete_event, put,
  live, event_ref, event_unref, loop_sync_add, loop_sync_remove, loop_sync_io_modified, run_add,
  unlink, run_remove, run_operation, exec_operation,
}
use hm_platform.Event.Refs.{
  listed, names, queued, is_quit, holds_quit, is_empty, listed-delete_event, contains-listed,
  IsHeld, HasRoom, Ends, more, less, event_unref_lem, Synced-IsHeld, loop_sync_add_lem,
  loop_sync_remove_lem, loop_sync_io_modified_lem,
}

List-cases :
    (l : List LoopOps) → (l ≡ []) ⊎ ((op : LoopOps) × (rest : List LoopOps) × l ≡ op ∷ rest)
List-cases [] = inl refl
List-cases (op ∷ rest) = inr (op, rest, refl)

emptied : (l : List LoopOps) (pending : Bool) → l ≡ [] → (is_empty l || pending || false) ≡ true
unfolding is_empty
emptied l pending done = ground (arith, done)

no_quit_head :
    (op : LoopOps) (rest : List LoopOps) → holds_quit (op ∷ rest) ≡ false → is_quit op ≡ false
unfolding holds_quit
no_quit_head op rest h = ground (arith, h)

module _ (libev : Libev) where
  -- The same holders, written otherwise.
  pub IsHeld-same :
      (owned owned' : ℕ → ℕ) (s : EventLoop libev)
      → IsHeld libev owned s
      → ((j : ℕ) → owned j ≡ owned' j)
      → IsHeld libev owned' s
  IsHeld-same owned owned' s good same = record {
    counts = λ j. omega (arith, good.counts j, same j);
    attached = good.attached;
    no_quit = good.no_quit;
    woken = good.woken;
  }

  -- The count of an event that came to the list.
  added_count :
      (owned : ℕ → ℕ) (s : EventLoop libev) (e j : ℕ)
      → (s.mem j).ref_count ≡ owned j + (listed j s.events_list + queued j s.operations)
      → (if j == e
          then record (s.mem e) { ref_count = (s.mem e).ref_count + 1 }
          else s.mem j).ref_count
        ≡ owned j + (listed j (e ∷ s.events_list) + queued j s.operations)
  unfolding listed
  added_count owned s e j count = ground (arith, count)

  added_attached :
      (s : EventLoop libev) (e j : ℕ)
      → (s.mem e).attached ≡ true
      → (0 < listed j s.events_list + queued j s.operations → (s.mem j).attached ≡ true)
      → 0 < listed j (e ∷ s.events_list) + queued j s.operations
      → (if j == e
          then record (s.mem e) { ref_count = (s.mem e).ref_count + 1 }
          else s.mem j).attached
        ≡ true
  unfolding listed
  added_attached s e j here before pos = elim (Bool-cases (j == e)) [
    | inl same ↦ rw same here
    | inr other ↦ rw other (before (ground (arith, pos, other)))
  ]

  -- The loop takes an event that is alive.
  run_add_lem :
      (owned : ℕ → ℕ) (s : EventLoop libev) (e : ℕ)
      → IsHeld libev owned s
      → (s.mem e).ref_count < 10000
      → 0 < (s.mem e).ref_count
      → (s.mem e).attached ≡ true
      → Ends libev (run_add libev s e) s owned
  unfolding run_add event_ref live
  run_add_lem owned s e good small alive here =
      let s1 : EventLoop libev =
        put libev (record s { events_list = e ∷ s.events_list }) e
          (record (s.mem e) { ref_count = (s.mem e).ref_count + 1 }) in
      let held : IsHeld libev owned s1 = record {
        counts = λ j. added_count owned s e j (good.counts j);
        attached = λ j pos. added_attached s e j here (good.attached j) pos;
        no_quit = good.no_quit;
        woken = good.woken;
      } in
      let r = loop_sync_add_lem libev s1 e (ground arith) in
      record {
        after = r.after;
        eq = ground (arith, small, alive, r.eq);
        held = Synced-IsHeld libev owned (loop_sync_add libev s1 e) s1 r held;
        grown = λ j. ground (arith, r.same_counts j);
      }

  -- The loop lets go of an event in its list.
  unlink_lem :
      (owned : ℕ → ℕ) (s : EventLoop libev) (e : ℕ)
      → IsHeld libev owned s
      → (s.mem e).ref_count < 10000
      → contains e s.events_list ≡ true
      → Ends libev (unlink libev s e) s owned
  unfolding unlink
  unlink_lem owned s e good small has =
      let s1 : EventLoop libev = record s { events_list = delete_event e s.events_list } in
      let held : IsHeld libev (more libev owned e) s1 = record {
        counts = λ j. ground (arith, good.counts j, listed-delete_event j e s.events_list has);
        attached = λ j pos.
            good.attached j (omega (arith, pos, listed-delete_event j e s.events_list has));
        no_quit = good.no_quit;
        woken = good.woken;
      } in
      let alive : 0 < (s.mem e).ref_count =
        omega (arith, good.counts e, contains-listed e s.events_list has) in
      let r = loop_sync_remove_lem libev s1 e alive in
      let u =
        event_unref_lem libev (more libev owned e) r.after e
          (Synced-IsHeld libev (more libev owned e) (loop_sync_remove libev s1 e) s1 r held)
          (omega (arith, r.same_counts e, small)) (ground arith) in
      record {
        after = u.after;
        eq = ground (arith, r.eq, u.eq);
        held =
            IsHeld-same (less libev (more libev owned e) e) owned u.after u.held
              (λ j. ground arith);
        grown = λ j. ground (arith, r.same_counts j, u.grown j);
      }

  pub run_remove_lem :
      (owned : ℕ → ℕ) (s : EventLoop libev) (e : ℕ)
      → IsHeld libev owned s
      → (s.mem e).ref_count < 10000
      → Ends libev (run_remove libev s e) s owned
  unfolding run_remove
  run_remove_lem owned s e good small = elim (Bool-cases (contains e s.events_list)) [
    | inl has ↦
        let r = unlink_lem owned s e good small has in
        record { after = r.after; eq = ground (arith, has, r.eq); held = r.held; grown = r.grown }
    | inr lacks ↦ record {
      after = s;
      eq = ground (arith, lacks);
      held = good;
      grown = λ j. omega arith;
    }
  ]

  -- An operation is taken from the queue: its reference is the worker's now.
  taken :
      (owned : ℕ → ℕ) (s : EventLoop libev) (op : LoopOps) (rest : List LoopOps)
      → IsHeld libev owned s
      → s.executing ≡ true
      → s.operations ≡ op ∷ rest
      → IsHeld libev (λ j. owned j + names j op) (record s { operations = rest })
  unfolding queued holds_quit is_empty
  taken owned s op rest good working head = record {
    counts = λ j. ground (arith, good.counts j, ap (queued j) head);
    attached = λ j pos. good.attached j (omega (arith, pos, ap (queued j) head));
    no_quit = ground (arith, good.no_quit, ap holds_quit head);
    woken = ground (arith, working);
  }

  taken_attached :
      (owned : ℕ → ℕ) (s : EventLoop libev) (op : LoopOps) (rest : List LoopOps)
      → IsHeld libev owned s
      → s.operations ≡ op ∷ rest
      → (j : ℕ) → 0 < names j op
      → (s.mem j).attached ≡ true
  unfolding queued
  taken_attached owned s op rest good head j pos =
      good.attached j (omega (arith, pos, ap (queued j) head))

  -- The worker's reference goes when the operation is done.
  given_back :
      (owned owned1 : ℕ → ℕ) (s : EventLoop libev) (e : ℕ)
      → IsHeld libev owned1 s
      → (s.mem e).ref_count < 10000
      → ((j : ℕ) → owned1 j ≡ owned j + (if e == j then 1 else 0))
      → Ends libev (event_unref libev s e) s owned
  given_back owned owned1 s e good small mine =
      let u = event_unref_lem libev owned1 s e good small (ground (arith, mine e)) in
      record {
        after = u.after;
        eq = u.eq;
        held = IsHeld-same (less libev owned1 e) owned u.after u.held (λ j. ground (arith, mine j));
        grown = u.grown;
      }

  pub run_operation_lem :
      (owned : ℕ → ℕ) (s : EventLoop libev) (op : LoopOps)
      → IsHeld libev (λ j. owned j + names j op) s
      → HasRoom libev s
      → is_quit op ≡ false
      → ((j : ℕ) → 0 < names j op → (s.mem j).attached ≡ true)
      → (after : EventLoop libev) × run_operation libev s op ≡ some after × IsHeld libev owned after
  unfolding run_operation names is_quit
  run_operation_lem owned s (ops_add e) good room other there =
      let r =
        run_add_lem (λ j. owned j + names j (ops_add e)) s e good (omega (arith, room e))
          (ground (arith, good.counts e)) (there e (ground arith)) in
      let u =
        given_back owned (λ j. owned j + names j (ops_add e)) r.after e r.held
          (omega (arith, room e, r.grown e)) (λ j. refl) in
      (u.after, ground (arith, r.eq, u.eq), u.held)
  run_operation_lem owned s (ops_remove e) good room other there =
      let r =
        run_remove_lem (λ j. owned j + names j (ops_remove e)) s e good (omega (arith, room e)) in
      let u =
        given_back owned (λ j. owned j + names j (ops_remove e)) r.after e r.held
          (omega (arith, room e, r.grown e)) (λ j. refl) in
      (u.after, ground (arith, r.eq, u.eq), u.held)
  run_operation_lem owned s (ops_modify e) good room other there =
      let r = loop_sync_io_modified_lem libev s e (ground (arith, good.counts e)) in
      let u =
        given_back owned (λ j. owned j + names j (ops_modify e)) r.after e
          (Synced-IsHeld libev (λ j. owned j + names j (ops_modify e))
            (loop_sync_io_modified libev s e) s r good)
          (omega (arith, room e, r.same_counts e)) (λ j. refl) in
      (u.after, ground (arith, r.eq, u.eq), u.held)
  run_operation_lem owned s ops_quit good room other there = absurd (ground (arith, other))

  pub exec_operation_lem :
      (owned : ℕ → ℕ) (s : EventLoop libev)
      → IsHeld libev owned s
      → HasRoom libev s
      → s.executing ≡ true
      → (after : EventLoop libev) × exec_operation libev s ≡ some after × IsHeld libev owned after
  unfolding exec_operation
  exec_operation_lem owned s good room working = elim (List-cases s.operations) [
    | inl done ↦ (
      record s { executing = false },
      ground (arith, done),
      record {
        counts = good.counts;
        attached = good.attached;
        no_quit = good.no_quit;
        woken = emptied s.operations s.request_pending done;
      },
    )
    | inr (op, rest, head) ↦
        let (after, eq, held) =
          run_operation_lem owned (record s { operations = rest }) op
            (taken owned s op rest good working head) room
            (no_quit_head op rest (ap holds_quit (sym head) ∙ good.no_quit))
            (taken_attached owned s op rest good head) in
        (after, ground (arith, head, eq), held)
  ]
