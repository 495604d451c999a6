-- ===== src/Event/Refs.antt =====
-- Who holds a reference to an event: hmlib/src/hm_event.c.
use hm_platform.Base.{
  ℕ, ◌+◌, ◌-◌, ◌<◌, ◌≤◌, ◌≡◌, refl, ap, subst₂, ◌∙◌, List, [], ◌∷◌, ◌++◌, Option, none, some, ◌==◌,
  if◌then◌else◌, Bool, true, false, ◌||◌, arith, inl, inr, Bool-cases,
}
use hm_platform.Event.{
  Libev, EventLoop, LoopOps, ops_add, ops_remove, ops_modify, ops_quit, contains, delete_event, put,
  live, event_ref, event_unref, loop_sync_add, loop_sync_remove, loop_sync_io_modified, started_io,
  stopped_io,
}

-- How often an event is in the loop's list, and in its queue.
unfoldable pub listed : ℕ → List ℕ → ℕ
listed e [] = 0
listed e (x ∷ l) = (if x == e then 1 else 0) + listed e l

unfoldable pub names : ℕ → LoopOps → ℕ
names e (ops_add x) = if x == e then 1 else 0
names e (ops_remove x) = if x == e then 1 else 0
names e (ops_modify x) = if x == e then 1 else 0
names e ops_quit = 0

unfoldable pub queued : ℕ → List LoopOps → ℕ
queued e [] = 0
queued e (op ∷ l) = names e op + queued e l

-- Whether the operation that ends the loop is in the queue.
unfoldable pub is_quit : LoopOps → Bool
is_quit (ops_add x) = false
is_quit (ops_remove x) = false
is_quit (ops_modify x) = false
is_quit ops_quit = true

unfoldable pub holds_quit : List LoopOps → Bool
holds_quit [] = false
holds_quit (op ∷ l) = is_quit op || holds_quit l

unfoldable pub is_empty : List LoopOps → Bool
is_empty [] = true
is_empty (op ∷ l) = false

pub queued-append :
    (e : ℕ) (l : List LoopOps) (op : LoopOps) → queued e (l ++ (op ∷ [])) ≡ queued e l + names e op
unfolding queued
queued-append e [] op = omega arith
queued-append e (x ∷ l) op = omega (arith, queued-append e l op)

pub holds_quit-append :
    (l : List LoopOps) (op : LoopOps)
    → is_quit op ≡ false
    → holds_quit l ≡ false
    → holds_quit (l ++ (op ∷ [])) ≡ false
unfolding holds_quit
holds_quit-append [] op other h = ground (arith, other)
holds_quit-append (x ∷ l) op other h =
    let rest : holds_quit l ≡ false = ground (arith, h) in
    ground (arith, h, holds_quit-append l op other rest)

pub listed-delete_event :
    (e x : ℕ) (l : List ℕ)
    → contains x l ≡ true
    → listed e (delete_event x l) + (if x == e then 1 else 0) ≡ listed e l
unfolding listed delete_event contains
listed-delete_event e x [] h = absurd (ground (arith, h))
listed-delete_event e x (y ∷ l) h = elim (Bool-cases (y == x)) [
  | inl hit ↦ ground (arith, hit)
  | inr miss ↦
      let rest : contains x l ≡ true = ground (arith, h, miss) in
      ground (arith, miss, listed-delete_event e x l rest)
]

pub contains-listed : (x : ℕ) (l : List ℕ) → contains x l ≡ true → 0 < listed x l
unfolding listed contains
contains-listed x [] h = absurd (ground (arith, h))
contains-listed x (y ∷ l) h = elim (Bool-cases (y == x)) [
  | inl hit ↦ ground (arith, hit)
  | inr miss ↦
      let rest : contains x l ≡ true = ground (arith, h, miss) in
      ground (arith, miss, contains-listed x l rest)
]

module _ (libev : Libev) where
  -- Every reference is somebody's: `owned` is what the program's other parts hold. An event in the
  -- list or the queue has its loop set. Work that waits has asked for a wakeup or is being done.
  pub record IsHeld (owned : ℕ → ℕ) (s : EventLoop libev) : Type 0 where
    pub counts :
        (e : ℕ) → (s.mem e).ref_count ≡ owned e + (listed e s.events_list + queued e s.operations)
    pub attached :
        (e : ℕ) → 0 < listed e s.events_list + queued e s.operations → (s.mem e).attached ≡ true
    pub no_quit : holds_quit s.operations ≡ false
    pub woken : (is_empty s.operations || s.request_pending || s.executing) ≡ true

  -- No count is near the limit of REF_DEBUG_TEST.
  abbrev pub HasRoom : EventLoop libev → Type 0
  HasRoom s = (e : ℕ) → (s.mem e).ref_count < 9999

  -- A function that ends in a state that is held, with one reference more at most to each event.
  pub record Ends (m : Option (EventLoop libev)) (s : EventLoop libev) (owned : ℕ → ℕ)
      : Type 0 where
    pub after : EventLoop libev
    pub eq : m ≡ some after
    pub held : IsHeld owned after
    pub grown : (j : ℕ) → (after.mem j).ref_count ≤ (s.mem j).ref_count + 1

  -- One reference more, or less.
  abbrev pub more : (ℕ → ℕ) → ℕ → ℕ → ℕ
  more owned e = λ j. if j == e then owned j + 1 else owned j

  abbrev pub less : (ℕ → ℕ) → ℕ → ℕ → ℕ
  less owned e = λ j. if j == e then owned j - 1 else owned j

  pub event_ref_lem :
      (owned : ℕ → ℕ) (s : EventLoop libev) (e : ℕ)
      → IsHeld owned s
      → (s.mem e).ref_count < 10000
      → 0 < owned e
      → Ends (event_ref libev s e) s (more owned e)
  unfolding event_ref live
  event_ref_lem owned s e good small mine =
      let counted = good.counts e in
      record {
        after = put libev s e (record (s.mem e) { ref_count = (s.mem e).ref_count + 1 });
        eq = ground (arith, counted, small, mine);
        held = record {
          counts = λ j. ground (arith, good.counts j);
          attached = λ j pos. ground (arith, good.attached j pos);
          no_quit = good.no_quit;
          woken = good.woken;
        };
        grown = λ j. ground arith;
      }

  pub event_unref_lem :
      (owned : ℕ → ℕ) (s : EventLoop libev) (e : ℕ)
      → IsHeld owned s
      → (s.mem e).ref_count < 10000
      → 0 < owned e
      → Ends (event_unref libev s e) s (less owned e)
  unfolding event_unref live
  event_unref_lem owned s e good small mine =
      let counted = good.counts e in
      record {
        after = put libev s e (record (s.mem e) { ref_count = (s.mem e).ref_count - 1 });
        eq = ground (arith, counted, small, mine);
        held = record {
          counts = λ j. ground (arith, good.counts j, mine);
          attached = λ j pos. ground (arith, good.attached j pos);
          no_quit = good.no_quit;
          woken = good.woken;
        };
        grown = λ j. ground arith;
      }

  -- A function that changes no count, list or queue.
  pub record Synced (m : Option (EventLoop libev)) (s : EventLoop libev) : Type 0 where
    pub after : EventLoop libev
    pub eq : m ≡ some after
    pub same_counts : (j : ℕ) → (after.mem j).ref_count ≡ (s.mem j).ref_count
    pub same_attached : (j : ℕ) → (after.mem j).attached ≡ (s.mem j).attached
    pub same_list : after.events_list ≡ s.events_list
    pub same_operations : after.operations ≡ s.operations
    pub same_pending : after.request_pending ≡ s.request_pending
    pub same_executing : after.executing ≡ s.executing

  pub Synced-IsHeld :
      (owned : ℕ → ℕ) (m : Option (EventLoop libev)) (s : EventLoop libev) (r : Synced m s)
      → IsHeld owned s
      → IsHeld owned r.after
  Synced-IsHeld owned m s r good = record {
    counts = λ j. ground (arith, r.same_counts j, r.same_list, r.same_operations, good.counts j);
    attached = λ j pos.
        r.same_attached j
        ∙ good.attached j
            (subst₂ (λ l q. 0 < listed j l + queued j q) r.same_list r.same_operations pos);
    no_quit = ap holds_quit r.same_operations ∙ good.no_quit;
    woken =
        ground (arith, ap is_empty r.same_operations, r.same_pending, r.same_executing, good.woken);
  }

  pub loop_sync_add_lem :
      (s : EventLoop libev) (e : ℕ) → 0 < (s.mem e).ref_count → Synced (loop_sync_add libev s e) s
  unfolding loop_sync_add live
  loop_sync_add_lem s e alive = record {
    after = record (put libev s e (record (s.mem e) { in_loop = true })) {
      ev_loop = elim (s.mem e).timeout [
        | none ↦ started_io libev s.ev_loop e (s.mem e)
        | some t ↦ libev.timer_start (started_io libev s.ev_loop e (s.mem e)) e t
      ];
    };
    eq = ground (arith, alive);
    same_counts = λ j. ground arith;
    same_attached = λ j. ground arith;
    same_list = refl;
    same_operations = refl;
    same_pending = refl;
    same_executing = refl;
  }

  pub loop_sync_remove_lem :
      (s : EventLoop libev) (e : ℕ)
      → 0 < (s.mem e).ref_count
      → Synced (loop_sync_remove libev s e) s
  unfolding loop_sync_remove live
  loop_sync_remove_lem s e alive = record {
    after = record (put libev s e (record (s.mem e) { in_loop = false })) {
      ev_loop = elim (s.mem e).timeout [
        | none ↦ stopped_io libev s.ev_loop e (s.mem e)
        | some t ↦ libev.timer_stop (stopped_io libev s.ev_loop e (s.mem e)) e
      ];
    };
    eq = ground (arith, alive);
    same_counts = λ j. ground arith;
    same_attached = λ j. ground arith;
    same_list = refl;
    same_operations = refl;
    same_pending = refl;
    same_executing = refl;
  }

  pub loop_sync_io_modified_lem :
      (s : EventLoop libev) (e : ℕ)
      → 0 < (s.mem e).ref_count
      → Synced (loop_sync_io_modified libev s e) s
  unfolding loop_sync_io_modified live
  loop_sync_io_modified_lem s e alive = record {
    after =
        if (s.mem e).in_loop
        then record s {
          ev_loop = started_io libev (stopped_io libev s.ev_loop e (s.mem e)) e (s.mem e);
        }
        else s;
    eq = ground (arith, alive);
    same_counts = λ j. ground arith;
    same_attached = λ j. ground arith;
    same_list = ground arith;
    same_operations = ground arith;
    same_pending = ground arith;
    same_executing = ground arith;
  }
