-- ===== src/Ports/Inv.antt =====
-- The invariant of the allocator, and what taking and giving back a port do to it.
use hm_platform.Base.{
  ℕ, zero, ◌+◌, ◌-◌, ◌%◌, ◌≤◌, ◌<◌, ◌≡◌, refl, ◌⊎◌, inl, inr, List, [], ◌++◌, none, some, arith,
  length, get_or, replicate, drop, length-append, length-replicate, append-nil, Bool-cases, ltb,
}
use hm_platform.Ports.{PortsCtl, init, renewed, set_range}
use hm_platform.Ports.Marks.{marks, marks-replicate, get_or-replicate}

pub record IsValid (pc : PortsCtl) : Type 0 where
  pub ordered : pc.min ≤ pc.max
  pub sized : pc.bitmap.bits ≡ pc.max - pc.min
  pub room : pc.bitmap.bits ≤ length pc.bitmap.bytes
  pub next_low : pc.min ≤ pc.next
  pub next_high : (pc.next < pc.max) ⊎ (pc.min ≡ pc.max)
  -- Each bit that is set stands for a port in use or a reserved one.
  pub counted : marks pc.bitmap.bits pc.bitmap.bytes ≡ pc.used + pc.reserved

-- The bit of a port: 1 where it is in use or reserved.
abbrev pub bit_of : PortsCtl → ℕ → ℕ
bit_of pc port = get_or pc.bitmap.bytes (port - pc.min) 0 % 2

pub init-IsValid : IsValid init
unfolding marks
init-IsValid = omega arith

-- What `set_range` leaves: the range as asked for, valid, nothing taken and every port free.
pub record IsReset (low hi : ℕ) (pc : PortsCtl) : Type 0 where
  pub valid : IsValid pc
  pub low_end : pc.min ≡ low
  pub high_end : pc.max ≡ hi
  pub none_taken : pc.used + pc.reserved ≡ 0
  pub all_free : (port : ℕ) → low ≤ port → port < hi → bit_of pc port ≡ 0

renewed-IsReset :
    (low hi : ℕ) (rest : List ℕ)
    → low < hi
    → IsReset low hi
        (renewed low hi (record { bits = hi - low; bytes = replicate (hi - low) 0 ++ rest }))
renewed-IsReset low hi rest h = record {
  valid = omega (
    arith,
    marks-replicate (hi - low) rest,
    length-append (replicate (hi - low) 0) rest,
    length-replicate (hi - low) (zero),
  );
  low_end = refl;
  high_end = refl;
  none_taken = omega arith;
  all_free = λ port k l. omega (arith, get_or-replicate (hi - low) rest (port - low) (omega arith));
}

renewed_range : ℕ → ℕ → List ℕ → PortsCtl
renewed_range low hi rest =
    renewed low hi (record { bits = hi - low; bytes = replicate (hi - low) 0 ++ rest })

set_range-renewed :
    (pc : PortsCtl) (low hi : ℕ)
    → IsValid pc
    → 0 < low
    → low < hi
    → (rest : List ℕ) × (set_range pc low hi ≡ some (renewed_range low hi rest))
unfolding set_range renewed_range
set_range-renewed pc low hi v h k = elim (Bool-cases (ltb (pc.max - pc.min) (hi - low))) [
  | inl grows ↦ ([], ground (arith, append-nil {A = ℕ} (replicate (hi - low) 0)))
  | inr fits ↦ (drop (hi - low) pc.bitmap.bytes, ground arith)
]

-- From a valid state, `set_range` succeeds on every range with `0 < low < hi`, and leaves the
-- range as asked for, valid, with nothing taken and every port free; on any other range it aborts.
pub set_range_lem :
    (pc : PortsCtl) (low hi : ℕ)
    → IsValid pc
    → (0 < low
        → low < hi
        → (pc' : PortsCtl) × (set_range pc low hi ≡ some pc') × IsReset low hi pc')
      × ((low ≡ 0) ⊎ (hi ≤ low) → set_range pc low hi ≡ none)
unfolding set_range renewed_range
set_range_lem pc low hi v = (succeeds, λ bad. ground arith)
  where
    succeeds :
        0 < low
        → low < hi
        → (pc' : PortsCtl) × (set_range pc low hi ≡ some pc') × IsReset low hi pc'
    succeeds h k =
        let (rest, e) = set_range-renewed pc low hi v h k in
        (renewed_range low hi rest, e, renewed-IsReset low hi rest k)
