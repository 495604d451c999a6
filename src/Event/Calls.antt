-- ===== src/Event/Calls.antt =====
-- The calls of other threads: hmlib/src/hm_event.c.
use hm_platform.Base.{
  ℕ, ◌+◌, ◌<◌, ◌≡◌, refl, subst, List, [], ◌∷◌, ◌++◌, Option, some, ◌==◌, if◌then◌else◌, true,
  false, not, arith, inl, inr, Bool-cases,
}
use hm_platform.Event.{
  Libev, Mask, Event, EventLoop, LoopOps, ops_add, ops_remove, ops_modify, put, live, event_ref,
  push, attach, remove, quit, change_events, remove_events, add_events, meets, covers, without,
  union, woken_up,
}
use hm_platform.Event.Refs.{
  names, is_quit, is_empty, queued-append, holds_quit-append, IsHeld, listed, queued,
}

is_empty-append : (l : List LoopOps) (op : LoopOps) → is_empty (l ++ (op ∷ [])) ≡ false
unfolding is_empty
is_empty-append [] op = refl
is_empty-append (x ∷ l) op = refl

module _ (libev : Libev) where
  -- A call that ends in a state that is held.
  pub record Returns (m : Option (EventLoop libev)) (owned : ℕ → ℕ) : Type 0 where
    pub after : EventLoop libev
    pub eq : m ≡ some after
    pub held : IsHeld libev owned after

  put_attached :
      (s : EventLoop libev) (e : ℕ) (v : Event) (j : ℕ)
      → ((s.mem e).attached ≡ true → v.attached ≡ true)
      → (s.mem j).attached ≡ true
      → ((put libev s e v).mem j).attached ≡ true
  put_attached s e v j still before = elim (Bool-cases (j == e)) [
    | inl same ↦
        let at : j ≡ e = ground (arith, same) in
        rw same (still (subst (λ k. (s.mem k).attached ≡ true) at before))
    | inr other ↦ rw other before
  ]

  -- A change of an event that keeps its count.
  pub put-IsHeld :
      (owned : ℕ → ℕ) (s : EventLoop libev) (e : ℕ) (v : Event)
      → IsHeld libev owned s
      → v.ref_count ≡ (s.mem e).ref_count
      → ((s.mem e).attached ≡ true → v.attached ≡ true)
      → IsHeld libev owned (put libev s e v)
  put-IsHeld owned s e v good same still = record {
    counts = λ j. ground (arith, good.counts j, same);
    attached = λ j pos. put_attached s e v j still (good.attached j pos);
    no_quit = good.no_quit;
    woken = good.woken;
  }

  pushed_attached :
      (s : EventLoop libev) (e : ℕ) (op : LoopOps) (j : ℕ)
      → (s.mem e).attached ≡ true
      → ((k : ℕ) → names k op ≡ (if e == k then 1 else 0))
      → (0 < listed j s.events_list + queued j s.operations → (s.mem j).attached ≡ true)
      → 0 < listed j s.events_list + queued j (s.operations ++ (op ∷ []))
      → (if j == e
          then record (s.mem e) { ref_count = (s.mem e).ref_count + 1 }
          else s.mem j).attached
        ≡ true
  pushed_attached s e op j here named before pos = elim (Bool-cases (j == e)) [
    | inl same ↦ rw same here
    | inr other ↦
        rw other (before (ground (arith, pos, other, named j, queued-append j s.operations op)))
  ]

  pub push_lem :
      (owned : ℕ → ℕ) (s : EventLoop libev) (e : ℕ) (op : LoopOps)
      → IsHeld libev owned s
      → (s.mem e).ref_count < 9999
      → 0 < owned e
      → is_quit op ≡ false
      → (s.mem e).attached ≡ true
      → ((j : ℕ) → names j op ≡ (if e == j then 1 else 0))
      → Returns (push libev s e op) owned
  unfolding push event_ref live
  push_lem owned s e op good small mine other here named = elim (Bool-cases s.loop_quited) [
    | inl over ↦ record { after = s; eq = ground (arith, over); held = good }
    | inr going ↦ record {
      after = record (put libev s e (record (s.mem e) { ref_count = (s.mem e).ref_count + 1 })) {
        operations = s.operations ++ (op ∷ []);
        request_pending = true;
      };
      eq = ground (arith, going, good.counts e, small, mine);
      held = record {
        counts = λ j. ground (arith, good.counts j, named j, queued-append j s.operations op);
        attached = λ j pos. pushed_attached s e op j here named (good.attached j) pos;
        no_quit = holds_quit-append s.operations op other good.no_quit;
        woken = ground (arith, is_empty-append s.operations op);
      };
    }
  ]

  module _ (owned : ℕ → ℕ) (s : EventLoop libev) (e : ℕ) (good : IsHeld libev owned s)
      (small : (s.mem e).ref_count < 9999) (mine : 0 < owned e) where
    pub alive : live libev s e ≡ some (s.mem e)
    unfolding live
    alive = ground (arith, good.counts e, mine)

    pub attach_lem : (s.mem e).attached ≡ false → Returns (attach libev s e) owned
    unfolding attach names is_quit
    attach_lem new =
        let v : Event = record (s.mem e) { attached = true } in
        let r =
          push_lem owned (put libev s e v) e (ops_add e)
            (put-IsHeld owned s e v good refl (λ _. refl)) (ground (arith, small)) mine refl
            (ground arith) (λ j. refl) in
        record { after = r.after; eq = ground (arith, alive, new, r.eq); held = r.held }

    pub remove_lem : Returns (remove libev s e) owned
    unfolding remove names is_quit
    remove_lem = elim (Bool-cases (s.mem e).attached) [
      | inl there ↦
          let r = push_lem owned s e (ops_remove e) good small mine refl there (λ j. refl) in
          record { after = r.after; eq = ground (arith, alive, there, r.eq); held = r.held }
      | inr nowhere ↦ record { after = s; eq = ground (arith, alive, nowhere); held = good }
    ]

    pub change_events_lem : (m : Mask) → Returns (change_events libev s e (s.mem e) m) owned
    unfolding change_events names is_quit
    change_events_lem m =
        let v : Event = record (s.mem e) { events = m } in
        let put_good = put-IsHeld owned s e v good refl (λ h. h) in
        elim (Bool-cases (s.mem e).attached) [
          | inl there ↦
              let r =
                push_lem owned (put libev s e v) e (ops_modify e) put_good (ground (arith, small))
                  mine refl (ground (arith, there)) (λ j. refl) in
              record { after = r.after; eq = ground (arith, there, r.eq); held = r.held }
          | inr nowhere ↦ record {
            after = put libev s e v;
            eq = ground (arith, nowhere);
            held = put_good;
          }
        ]

    pub remove_events_lem : (m : Mask) → Returns (remove_events libev s e m) owned
    unfolding remove_events
    remove_events_lem m =
        let r = change_events_lem (without (s.mem e).events m) in
        elim (Bool-cases (meets (s.mem e).events m)) [
          | inl some_left ↦ record {
            after = r.after;
            eq = ground (arith, alive, some_left, r.eq);
            held = r.held;
          }
          | inr unchanged ↦ record { after = s; eq = ground (arith, alive, unchanged); held = good }
        ]

    pub add_events_lem : (m : Mask) → Returns (add_events libev s e m) owned
    unfolding add_events
    add_events_lem m =
        let r = change_events_lem (union (s.mem e).events m) in
        elim (Bool-cases (not (covers (s.mem e).events m))) [
          | inl some_new ↦ record {
            after = r.after;
            eq = ground (arith, alive, some_new, r.eq);
            held = r.held;
          }
          | inr unchanged ↦ record { after = s; eq = ground (arith, alive, unchanged); held = good }
        ]

  pub quit-IsHeld :
      (owned : ℕ → ℕ) (s : EventLoop libev)
      → IsHeld libev owned s
      → IsHeld libev owned (quit libev s)
  unfolding quit
  quit-IsHeld owned s good = elim (Bool-cases s.loop_quited) [
    | inl over ↦ subst (IsHeld libev owned) {x = s} (ground (arith, over)) good
    | inr going ↦ record {
      counts = λ j. ground (arith, going, good.counts j);
      attached = λ j pos. ground (arith, going, good.attached j (ground (arith, going, pos)));
      no_quit = ground (arith, going, good.no_quit);
      woken = ground (arith, going);
    }
  ]

  pub woken_up-IsHeld :
      (owned : ℕ → ℕ) (s : EventLoop libev)
      → IsHeld libev owned s
      → IsHeld libev owned (woken_up libev s)
  unfolding woken_up
  woken_up-IsHeld owned s good = record {
    counts = good.counts;
    attached = good.attached;
    no_quit = good.no_quit;
    woken = ground arith;
  }
