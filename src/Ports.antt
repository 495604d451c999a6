-- ===== src/Ports.antt =====
-- The allocator of RTP ports: hmrtspsvr/src/utils/ports.c.
-- Each entry point holds the lock of the one allocator, so a call is one step on its state.
-- A failed G_ASSERT or BUG aborts the process: `none`. Below it, `none` is -E_OUTOFPORTS.
pub mod Marks
pub mod Inv
pub mod Moves
pub mod One
pub mod Pair
pub mod Reserve
pub mod Runs
mod Tests
use hm_platform.Base.{
  ℕ, zero, suc, ◌+◌, ◌-◌, ◌%◌, Bool, List, [], ◌++◌, Option, none, some, ltb, leb, ◌==◌,
  if◌then◌else◌, ◌>>=◌, assert, get_or, set, drop, replicate, ◌&&◌, ◌||◌,
}

-- `sizeof(gchar)` is 1, so the map has a byte for each bit and only bit 0 of a byte is used.
pub record Bitmap : Type 0 where
  pub bits : ℕ
  pub bytes : List ℕ

abbrev pub bitmap_alloc : ℕ → Bitmap
bitmap_alloc size = record { bits = size; bytes = replicate size 0 }

-- `memset(bitmap->map, 0, bits)`
abbrev pub bitmap_zero : Bitmap → Bitmap
bitmap_zero b = record b { bytes = replicate b.bits 0 ++ drop b.bits b.bytes }

-- The old bit, and the map with `map[bit] |= 1`.
pub bitmap_test_and_set : Bitmap → ℕ → Option (ℕ × Bitmap)
bitmap_test_and_set b bit =
    let old = get_or b.bytes bit 0 in
    assert (ltb bit b.bits)
      (some (old % 2, record b { bytes = set b.bytes bit (old - old % 2 + 1) }))

-- `map[bit] &= ~1`, and BUG where the bit is clear.
pub bitmap_reset : Bitmap → ℕ → Option Bitmap
bitmap_reset b bit =
    let old = get_or b.bytes bit 0 in
    assert (ltb bit b.bits && old % 2 == 1)
      (some (record b { bytes = set b.bytes bit (old - old % 2) }))

pub bitmap_set_bits : Bitmap → ℕ → Option Bitmap
bitmap_set_bits b bits = assert (leb bits b.bits) (some (record b { bits = bits }))

pub record PortsCtl : Type 0 where
  pub min : ℕ
  pub max : ℕ
  pub used : ℕ
  pub next : ℕ
  pub reserved : ℕ
  pub bitmap : Bitmap

-- The static allocator: all zero, and no map.
abbrev pub init : PortsCtl
init = record {
  min = 0;
  max = 0;
  used = 0;
  next = 0;
  reserved = 0;
  bitmap = record { bits = 0; bytes = [] };
}

abbrev pub renewed : ℕ → ℕ → Bitmap → PortsCtl
renewed low hi b = record { min = low; max = hi; used = 0; next = low; reserved = 0; bitmap = b }

-- g_malloc never returns NULL, so -E_NOMEM cannot come.
pub set_range : PortsCtl → ℕ → ℕ → Option PortsCtl
unfolding bitmap_set_bits
set_range pc low hi = assert (ltb low hi && ltb 0 low) (
    if ltb (pc.max - pc.min) (hi - low)
    then some (renewed low hi (bitmap_alloc (hi - low)))
    else do b ← bitmap_set_bits pc.bitmap (hi - low); some (renewed low hi (bitmap_zero b)))

pub set_reserved : PortsCtl → ℕ → Option PortsCtl
set_reserved pc port = if leb pc.max port || ltb port pc.min then some pc else do
  (old, b) ← bitmap_test_and_set pc.bitmap (port - pc.min)
  some (record pc { bitmap = b; reserved = if old == 0 then pc.reserved + 1 else pc.reserved })

-- `++next`, going round at `max`.
abbrev pub advance : PortsCtl → ℕ
advance pc = if leb pc.max (pc.next + 1) then pc.min else pc.next + 1

-- The loop of `get_one`, with the rounds that are left. The state comes back on failure too.
pub scan : ℕ → PortsCtl → Option (Option ℕ × PortsCtl)
scan zero pc = some (none, pc)
scan (suc total) pc =
    let rest = scan total (record pc { next = advance pc }) in
    do
      (old, b) ← bitmap_test_and_set pc.bitmap (pc.next - pc.min)
      if old == 0
          then some (some pc.next, record pc { bitmap = b; used = pc.used + 1; next = advance pc })
          else rest

pub get_one : PortsCtl → Option (Option ℕ × PortsCtl)
get_one pc =
    let total = pc.max - pc.min in
    if leb total (pc.used + pc.reserved) then some (none, pc) else scan total pc

-- `--used` and `BUG_ON(used < 0)`
pub put_one : PortsCtl → ℕ → Option PortsCtl
put_one pc port = assert (ltb port pc.max && leb pc.min port) (do
  b ← bitmap_reset pc.bitmap (port - pc.min)
  assert (ltb 0 pc.used) (some (record pc { bitmap = b; used = pc.used - 1 })))

abbrev pub PairResult : Type 0
PairResult = Option (Option (ℕ × ℕ) × PortsCtl)

abbrev pub is_odd : ℕ → Bool
is_odd n = n % 2 == 1

abbrev pub fail_putting : PortsCtl → ℕ → PairResult
fail_putting pc port = do pc' ← put_one pc port; some (none, pc')

-- What the two inner loops of `get_pair` do in one round. `lower` goes on with the search for an
-- even port, `higher port` with the search for the port above the even `port` that is held.
-- The second test of a new round, `--total < 0`, is the first clause of `pair_loops`.
pub low_round : (PortsCtl → PairResult) → (ℕ → PortsCtl → PairResult) → PortsCtl → PairResult
low_round lower higher pc = do
  (got, pc1) ← get_one pc
  elim got [
    | none ↦ some (none, pc1)
    | some low ↦ if is_odd low then (do pc2 ← put_one pc1 low; lower pc2) else higher low pc1
  ]

pub high_round : (PortsCtl → PairResult) → (ℕ → PortsCtl → PairResult) → ℕ → PortsCtl → PairResult
high_round lower higher low pc = do
  (got, pc1) ← get_one pc
  elim got [
    | none ↦ fail_putting pc1 low
    | some hi ↦ if hi == low + 1 then some (some (low, hi), pc1) else do
      pc2 ← put_one pc1 low
      if is_odd hi then (do pc3 ← put_one pc2 hi; lower pc3) else higher hi pc2
  ]

-- With `total` rounds left: the search for an even port, and that for the port above it.
abbrev pub Loops : Type 0
Loops = record { low : PortsCtl → PairResult; high : ℕ → PortsCtl → PairResult }

pub pair_loops : ℕ → Loops
unfolding low_round high_round
pair_loops zero =
    let low = λ (pc : PortsCtl). let r : PairResult = some (none, pc) in r in
    record { low = low; high = high_round low (λ hi pc. fail_putting pc hi) }
pair_loops (suc total) =
    let rest = pair_loops total in
    let low = low_round rest.low rest.high in record { low = low; high = high_round low rest.high }

pub get_pair : PortsCtl → PairResult
unfolding pair_loops
get_pair pc =
    let total = pc.max - pc.min in
    if ltb total (pc.used + pc.reserved + 2) then some (none, pc) else (pair_loops total).low pc

pub put_pair : PortsCtl → ℕ → ℕ → Option PortsCtl
put_pair pc low hi = do pc' ← put_one pc low; put_one pc' hi

pub get_range : PortsCtl → Option (ℕ × ℕ)
get_range pc = if leb pc.max pc.min then none else some (pc.min, pc.max)
