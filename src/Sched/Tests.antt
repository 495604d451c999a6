-- ===== src/Sched/Tests.antt =====
-- Runs of the scheduler on an event loop that lists its sources: hmlib/src/hm_sched.c.
use hm_platform.Base.{ℕ, zero, suc, ◌+◌, ◌^◌, ◌<◌, List, [], ◌∷◌, some, refl, ◌≡◌, arith, length}
use hm_platform.Sched.{EventLoops, LoopScher, SrcWeight, sched_new, find_sw}
use hm_platform.Sched.Weights.{weight_at, sum_of}
use hm_platform.Sched.Balance.{IsBalanced, sched_new-IsBalanced}
use hm_platform.Sched.Changes.{
  Attaches, Detaches, Added, Removed, GivenBack, sched_add_lem, sched_remove_found,
  sched_remove-sched_add,
}

-- An event loop that only counts: attaching and removing always go through.
abbrev counting : EventLoops
counting = record {
  EventLoop = ℕ;
  new_loop = 0;
  attach = λ l src. some (src + l);
  remove = λ l src. some l;
}

attaches : (src : ℕ) → Attaches counting src
attaches src l = (src + l, refl)

detaches : (src : ℕ) → Detaches counting src
detaches src l = (l, refl)

abbrev two_loops : LoopScher counting
two_loops = sched_new counting 2

two_loops-IsBalanced : IsBalanced counting two_loops
two_loops-IsBalanced = sched_new-IsBalanced counting 2

some_loop : 0 < length two_loops.loops
unfolding sched_new
some_loop = omega arith

room : two_loops.total_weight + 5 < 2 ^ 32
unfolding sched_new
room = omega arith

sched_add_example : Added counting two_loops 7 5
sched_add_example =
    sched_add_lem counting two_loops 7 5 two_loops-IsBalanced some_loop room (attaches 7)

-- Two loops, each with a source.
abbrev busy_entries : List SrcWeight
busy_entries = record { w = 3; src = 9; loop = 1 } ∷ record { w = 5; src = 7; loop = 0 } ∷ []

abbrev busy : LoopScher counting
busy = record {
  loops = record { weight = 5; loop = 7 } ∷ record { weight = 3; loop = 9 } ∷ [];
  total_weight = 8;
  w_list = busy_entries;
}

busy_each : (i : ℕ) → weight_at counting busy.loops i ≡ sum_of i busy_entries
busy_each zero = ground arith
busy_each (suc zero) = ground arith
busy_each (suc (suc i)) = ground arith

busy-IsBalanced : IsBalanced counting busy
busy-IsBalanced = record {
  total = ground arith;
  small = ground arith;
  each = busy_each;
  within = (ground arith, (ground arith, tt));
}

busy_finds : find_sw 7 busy_entries ≡ some (record { w = 5; src = 7; loop = 0 })
unfolding find_sw
busy_finds = refl

sched_remove_example : Removed counting busy 7 (record { w = 5; src = 7; loop = 0 })
sched_remove_example =
    sched_remove_found counting busy 7 (record { w = 5; src = 7; loop = 0 }) busy-IsBalanced
      busy_finds (detaches 7)

sched_remove-sched_add_example : GivenBack counting two_loops 7 5
sched_remove-sched_add_example =
    sched_remove-sched_add counting two_loops 7 5 two_loops-IsBalanced some_loop room (attaches 7)
      (detaches 7)
