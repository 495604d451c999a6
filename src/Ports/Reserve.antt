-- ===== src/Ports/Reserve.antt =====
-- Reserving a port, and giving one back in any state.
use hm_platform.Base.{
  ℕ, ◌+◌, ◌-◌, ◌%◌, ◌≤◌, ◌<◌, ◌≡◌, ◌⊎◌, inl, inr, none, some, arith, ◌==◌, if◌then◌else◌,
  Option-cases, length, get_or, set, length-set, get_or-set_self, get_or-set_ne, ◌≢◌, refl, ap,
}
use hm_platform.Ports.{PortsCtl, put_one, set_reserved, bitmap_test_and_set, bitmap_reset}
use hm_platform.Ports.Marks.{marks-set}
use hm_platform.Ports.Inv.{IsValid, bit_of}
use hm_platform.Ports.Moves.{Gave, put_one_lem}

-- The port's bit is set, the bits of the others are as before, and the marks add up.
pub record Reserved (pc : PortsCtl) (port : ℕ) (pc' : PortsCtl) : Type 0 where
  pub valid : IsValid pc'
  pub bit_set : bit_of pc' port ≡ 1
  pub others : (p : ℕ) → pc.min ≤ p → p ≢ port → bit_of pc' p ≡ bit_of pc p
  pub min_eq : pc'.min ≡ pc.min
  pub max_eq : pc'.max ≡ pc.max
  pub used_eq : pc'.used ≡ pc.used
  pub reserved_eq : pc'.reserved + bit_of pc port ≡ pc.reserved + 1

reserve : PortsCtl → ℕ → PortsCtl
reserve pc port =
    let i = port - pc.min in
    let old = get_or pc.bitmap.bytes i 0 in
    record pc {
      bitmap = record { bits = pc.bitmap.bits; bytes = set pc.bitmap.bytes i (old - old % 2 + 1) };
      reserved = if old % 2 == 0 then pc.reserved + 1 else pc.reserved;
    }

reserve-Reserved :
    (pc : PortsCtl) (port : ℕ)
    → IsValid pc
    → pc.min ≤ port
    → port < pc.max
    → Reserved pc port (reserve pc port)
unfolding reserve
reserve-Reserved pc port v h k =
    let i = port - pc.min in
    let bs = pc.bitmap.bytes in
    let new = get_or bs i 0 - get_or bs i 0 % 2 + 1 in
    let inside : i < length bs = omega arith in
    let m = marks-set pc.bitmap.bits bs i new (omega arith) (omega arith) in
    record {
      valid = ground (arith, m, length-set bs i new);
      bit_set = ground (arith, get_or-set_self bs i new 0 inside);
      others = λ p above other.
          ap (λ b. b % 2) (get_or-set_ne bs i (p - pc.min) new 0 (omega (arith, above, other, h)));
      min_eq = refl;
      max_eq = refl;
      used_eq = refl;
      reserved_eq = ground arith;
    }

-- `set_reserved` never aborts on a valid state. It ignores a port out of range; one in range is
-- marked, the marks of all others are as before, and it is counted as reserved exactly if it was neither
-- reserved nor in use.
pub set_reserved_lem :
    (pc : PortsCtl) (port : ℕ)
    → IsValid pc
    → (pc.min ≤ port
        → port < pc.max
        → (pc' : PortsCtl) × (set_reserved pc port ≡ some pc') × Reserved pc port pc')
      × ((port < pc.min) ⊎ (pc.max ≤ port) → set_reserved pc port ≡ some pc)
unfolding set_reserved bitmap_test_and_set reserve
set_reserved_lem pc port v =
    (λ h k. (reserve pc port, ground arith, reserve-Reserved pc port v h k), λ out. ground arith)

-- What a `put_one` that returns has checked.
pub put_one-checks :
    (pc : PortsCtl) (port : ℕ) {pc' : PortsCtl}
    → put_one pc port ≡ some pc'
    → (pc.min ≤ port) × (port < pc.max) × (bit_of pc port ≡ 1) × (0 < pc.used)
unfolding put_one bitmap_reset
put_one-checks pc port e = ground arith

pub put_one-Gave :
    (pc : PortsCtl) (port : ℕ) {pc' : PortsCtl}
    → IsValid pc
    → put_one pc port ≡ some pc'
    → Gave pc port pc'
put_one-Gave pc port v e =
    let (a, b, c, d) = put_one-checks pc port e in
    let (pc1, q, g) = put_one_lem pc port v a b c d in ground (arith, e, q, g)

-- Giving a port back twice is caught: where the first call returns, a second one aborts.
pub put_one_twice :
    (pc : PortsCtl) (port : ℕ) {pc' : PortsCtl}
    → IsValid pc
    → put_one pc port ≡ some pc'
    → put_one pc' port ≡ none
put_one_twice pc port {pc'} v e = elim (Option-cases (put_one pc' port)) [
  | inl aborts ↦ aborts
  | inr (pc2, again) ↦
      absurd (still_free (put_one-Gave pc port v e) (put_one-checks pc' port again))
]
  where
    still_free :
        Gave pc port pc'
        → (pc'.min ≤ port) × (port < pc'.max) × (bit_of pc' port ≡ 1) × (0 < pc'.used)
        → ⊥
    still_free g c =
        let i = port - pc.min in
        let bs = pc.bitmap.bytes in
        let (low, high, bit, used) = put_one-checks pc port e in
        let inside : i < length bs = omega arith in
        ground (arith, get_or-set_self bs i (get_or bs i 0 - 1) 0 inside)
