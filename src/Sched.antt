-- ===== src/Sched.antt =====
-- The scheduler of event loops: hmlib/src/hm_sched.c. Each entry point holds the scheduler's lock.
-- Attaching a source to an event loop, and removing it, are the calls of an interface, which may
-- abort; a loop has one weight, the sum of its sources' weights, in 32 bits.
pub mod Balance
pub mod Changes
pub mod Weights
mod Tests
use hm_platform.Base.{
  ℕ, zero, suc, ◌+◌, ◌-◌, ◌%◌, ◌^◌, List, [], ◌∷◌, Option, none, some, ltb, ◌==◌, if◌then◌else◌,
  ◌>>=◌, replicate, Bool, true, false,
}

-- hm_event_loop_new, hm_event_loop_attach and hm_event_remove, the source written as a number.
pub record EventLoops : Type 1 where
  pub EventLoop : Type 0
  pub new_loop : EventLoop
  pub attach : EventLoop → ℕ → Option EventLoop
  pub remove : EventLoop → ℕ → Option EventLoop

-- `struct _JSrcWeight`; the loop is its index.
pub record SrcWeight : Type 0 where
  pub w : ℕ
  pub src : ℕ
  pub loop : ℕ

-- `unsigned` addition and subtraction.
abbrev pub add32 : ℕ → ℕ → ℕ
add32 a b = (a + b) % 2 ^ 32

abbrev pub sub32 : ℕ → ℕ → ℕ
sub32 a b = (a + 2 ^ 32 - b) % 2 ^ 32

-- The entry that `hm_list_find_custom` finds, and the list without its link.
pub find_sw : ℕ → List SrcWeight → Option SrcWeight
find_sw src [] = none
find_sw src (s ∷ rest) = if s.src == src then some s else find_sw src rest

pub delete_sw : ℕ → List SrcWeight → List SrcWeight
delete_sw src [] = []
delete_sw src (s ∷ rest) = if s.src == src then rest else s ∷ delete_sw src rest

module _ (e : EventLoops) where
  open e use {EventLoop, new_loop, attach, remove}

  -- `struct _JLoop`
  pub record Loop : Type 0 where
    pub weight : ℕ
    pub loop : EventLoop

  -- `struct _JLoopScher`
  pub record LoopScher : Type 0 where
    pub loops : List Loop
    pub total_weight : ℕ
    pub w_list : List SrcWeight

  abbrev pub fresh_loop : Loop
  fresh_loop = record { weight = 0; loop = new_loop }

  pub sched_new : ℕ → LoopScher
  sched_new loops = record { loops = replicate loops fresh_loop; total_weight = 0; w_list = [] }

  -- The loop of `find_best_loop` from `idx` on.
  pub find_best : List Loop → ℕ → ℕ → ℕ → ℕ
  find_best [] idx best_w best_i = best_i
  find_best (l ∷ ls) idx best_w best_i =
      find_best ls (suc idx) (if ltb l.weight best_w then l.weight else best_w)
        (if ltb l.weight best_w then idx else best_i)

  pub find_best_loop : LoopScher → ℕ
  find_best_loop s = find_best s.loops 0 s.total_weight 0

  -- What is done to the loop at an index; there must be one.
  pub with_loop : List Loop → ℕ → (Loop → Option Loop) → Option (List Loop)
  with_loop [] i f = none
  with_loop (l ∷ ls) zero f = do l' ← f l; some (l' ∷ ls)
  with_loop (l ∷ ls) (suc i) f = do ls' ← with_loop ls i f; some (l ∷ ls')

  pub loop_add_source : Loop → ℕ → ℕ → Option Loop
  loop_add_source l src weight = do
    ev ← attach l.loop src
    some (record { weight = add32 l.weight weight; loop = ev })

  pub loop_del_source : Loop → ℕ → ℕ → Option Loop
  loop_del_source l src weight = do
    ev ← remove l.loop src
    some (record { weight = sub32 l.weight weight; loop = ev })

  pub sched_add : LoopScher → ℕ → ℕ → Option LoopScher
  sched_add s src weight =
      let best = find_best_loop s in
      do
        ls ← with_loop s.loops best (λ l. loop_add_source l src weight)
        some (record {
          loops = ls;
          total_weight = add32 s.total_weight weight;
          w_list = record { w = weight; src = src; loop = best } ∷ s.w_list;
        })

  -- The result is whether the source was found: 0 or -1.
  pub sched_remove : LoopScher → ℕ → Option (Bool × LoopScher)
  sched_remove s src = elim (find_sw src s.w_list) [
    | none ↦ some (false, s)
    | some sw ↦ do
      ls ← with_loop s.loops sw.loop (λ l. loop_del_source l src sw.w)
      some (
        true,
        record {
          loops = ls;
          total_weight = sub32 s.total_weight sw.w;
          w_list = delete_sw src s.w_list;
        },
      )
  ]
