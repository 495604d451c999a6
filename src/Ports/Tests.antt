-- ===== src/Ports/Tests.antt =====
-- Runs of the allocator, and the theorems about it at concrete states.
use hm_platform.Base.{
  ℕ, ◌≡◌, ◌+◌, ◌-◌, ◌<◌, ◌≤◌, refl, List, [], ◌∷◌, none, some, arith, ◌>>=◌, ◌⊎◌,
}
use hm_platform.Ports.{
  PortsCtl, init, set_range, set_reserved, get_one, put_one, get_pair, put_pair, scan,
  bitmap_test_and_set, bitmap_reset,
}
use hm_platform.Ports.Marks.{marks}
use hm_platform.Ports.Inv.{IsValid, IsReset, init-IsValid, set_range_lem}
use hm_platform.Ports.Moves.{Same, Took}
use hm_platform.Ports.One.{get_one_lem}
use hm_platform.Ports.Pair.{Pairs, get_pair_lem}
use hm_platform.Ports.Reserve.{Reserved, set_reserved_lem, put_one_twice}
use hm_platform.Ports.Runs.{Call, run, step, run-IsValid, put_pair-get_pair}

-- Ports 20001 to 20005 with 20002 reserved.
abbrev small : PortsCtl
small = record {
  min = 20001;
  max = 20006;
  used = 0;
  next = 20001;
  reserved = 1;
  bitmap = record { bits = 5; bytes = 0 ∷ 1 ∷ 0 ∷ 0 ∷ 0 ∷ [] };
}

-- The same with the pair 20004, 20005 in use.
abbrev paired : PortsCtl
paired = record small {
  used = 2;
  next = 20001;
  bitmap = record { bits = 5; bytes = 0 ∷ 1 ∷ 0 ∷ 1 ∷ 1 ∷ [] };
}

small_made : (do pc ← set_range init 20001 20006; set_reserved pc 20002) ≡ some small
unfolding set_range set_reserved bitmap_test_and_set
small_made = refl

pair_made : get_pair small ≡ some (some (20004, 20005), paired)
unfolding get_pair get_one put_one scan bitmap_reset bitmap_test_and_set
pair_made = refl

no_second_pair : (do r ← get_pair paired; some r.0) ≡ some none
unfolding get_pair get_one put_one scan bitmap_reset bitmap_test_and_set
no_second_pair = refl

small-IsValid : IsValid small
unfolding marks
small-IsValid = omega arith

paired-IsValid : IsValid paired
unfolding marks
paired-IsValid = omega arith

get_one_example :
    (0 + 1 < 20006 - 20001
      → (port : ℕ) × (pc' : PortsCtl) × (get_one small ≡ some (some port, pc'))
        × Took small port pc')
    × (20006 - 20001 ≤ 0 + 1 → get_one small ≡ some (none, small))
get_one_example = get_one_lem small small-IsValid

get_pair_example : Pairs small (get_pair small)
get_pair_example = get_pair_lem small small-IsValid

set_range_example :
    (0 < 7 → 7 < 9 → (pc' : PortsCtl) × (set_range paired 7 9 ≡ some pc') × IsReset 7 9 pc')
    × ((◌≡◌ {A = ℕ} 7 0) ⊎ (9 ≤ 7) → set_range paired 7 9 ≡ none)
set_range_example = set_range_lem paired 7 9 paired-IsValid

set_reserved_example :
    (20001 ≤ 20003
      → 20003 < 20006
      → (pc' : PortsCtl) × (set_reserved small 20003 ≡ some pc') × Reserved small 20003 pc')
    × ((20003 < 20001) ⊎ (20006 ≤ 20003) → set_reserved small 20003 ≡ some small)
set_reserved_example = set_reserved_lem small 20003 small-IsValid

put_one_twice_example :
    put_one
      (record paired { used = 1; bitmap = record { bits = 5; bytes = 0 ∷ 1 ∷ 0 ∷ 0 ∷ 1 ∷ [] } })
      20004
    ≡ none
unfolding put_one bitmap_reset
put_one_twice_example = put_one_twice paired 20004 paired-IsValid refl

abbrev history : List Call
history = Call.sets_range 20001 20006 ∷ Call.reserves 20002 ∷ Call.gets_pair ∷ []

run-IsValid_example : IsValid paired
unfolding run step set_range set_reserved get_pair get_one put_one scan bitmap_reset
    bitmap_test_and_set
run-IsValid_example = run-IsValid init history init-IsValid refl

put_pair-get_pair_example :
    (pc2 : PortsCtl) × (put_pair paired 20004 20005 ≡ some pc2) × Same small pc2
put_pair-get_pair_example = put_pair-get_pair small 20004 20005 small-IsValid pair_made
