-- ===== src/Ports/One.antt =====
-- The allocation of one port.
use hm_platform.Base.{
  ℕ, zero, suc, ◌+◌, ◌-◌, ◌%◌, ◌≤◌, ◌<◌, ◌≡◌, refl, ◌⊎◌, inl, inr, none, some, arith, get_or, set,
  length-set, Bool-cases, ◌==◌, ◌∙◌, ℕ_discrete, dec_lt,
}
use hm_platform.Ports.{PortsCtl, get_one, scan, advance, bitmap_test_and_set}
use hm_platform.Ports.Marks.{marks-set, marks_full}
use hm_platform.Ports.Inv.{IsValid, bit_of}
use hm_platform.Ports.Moves.{Same, Took, Same-Took, Same-trans}

-- The indices that `n` rounds visit from index `s` on, going round at `total`.
abbrev Window : ℕ → ℕ → ℕ → ℕ → Type 0
Window total s n i = ((s ≤ i) × (i < s + n)) ⊎ (i + total < s + n)

advance-Same :
    {pc : PortsCtl} → IsValid pc → pc.min < pc.max → Same pc (record pc { next = advance pc })
advance-Same v h = ground arith

-- The state after the port at `next` was taken.
abbrev taking : PortsCtl → PortsCtl
taking pc =
    let i = pc.next - pc.min in
    let bs = pc.bitmap.bytes in
    record pc {
      bitmap = record { bits = pc.bitmap.bits; bytes = set bs i (get_or bs i 0 + 1) };
      used = pc.used + 1;
      next = advance pc;
    }

taking-Took :
    (pc : PortsCtl)
    → IsValid pc
    → pc.min < pc.max
    → bit_of pc pc.next ≡ 0
    → Took pc pc.next (taking pc)
taking-Took pc v h free =
    let bs = pc.bitmap.bytes in
    let i = pc.next - pc.min in
    let inside : i < pc.bitmap.bits = omega arith in
    ground (
      arith,
      inside,
      length-set bs i (get_or bs i 0 + 1),
      marks-set pc.bitmap.bits bs i (get_or bs i 0 + 1),
    )

-- One round of the loop.
scan-free :
    (n : ℕ) (pc : PortsCtl)
    → IsValid pc
    → pc.min < pc.max
    → bit_of pc pc.next ≡ 0
    → scan (suc n) pc ≡ some (some pc.next, taking pc)
unfolding scan bitmap_test_and_set
scan-free n pc v h free =
    let inside : pc.next - pc.min < pc.bitmap.bits = omega arith in ground (arith, inside, free)

scan-taken :
    (n : ℕ) (pc : PortsCtl)
    → IsValid pc
    → pc.min < pc.max
    → bit_of pc pc.next ≡ 1
    → scan (suc n) pc ≡ scan n (record pc { next = advance pc })
unfolding scan bitmap_test_and_set
scan-taken n pc v h free =
    let inside : pc.next - pc.min < pc.bitmap.bits = omega arith in ground (arith, inside, free)

-- What the loop finds: the first free port that it visits, or all of the ports taken.
abbrev Found : ℕ → PortsCtl → Type 0
Found n pc =
    ((port : ℕ) × (pc' : PortsCtl) × (scan n pc ≡ some (some port, pc')) × Took pc port pc')
    ⊎ ((pc' : PortsCtl) × (scan n pc ≡ some (none, pc'))
        × Same pc pc'
        × ((i : ℕ)
            → Window (pc.max - pc.min) (pc.next - pc.min) n i
            → i < pc.max - pc.min
            → get_or pc.bitmap.bytes i 0 % 2 ≡ 1))

scan_lem : (n : ℕ) (pc : PortsCtl) → IsValid pc → pc.min < pc.max → Found n pc
unfolding scan
scan_lem zero pc v h = inr (pc, refl, ground arith, λ i w l. absurd (omega arith))
scan_lem (suc n) pc v h = elim (Bool-cases (bit_of pc pc.next == 0)) [
  | inl free ↦
      inl (pc.next, taking pc, scan-free n pc v h (ground arith), taking-Took pc v h (ground arith))
  | inr taken ↦
      let s = advance-Same v h in
      let bit : bit_of pc pc.next ≡ 1 = ground arith in
      elim (scan_lem n (record pc { next = advance pc }) s.valid h) [
        | inl (port, pc', e, t) ↦ inl (port, pc', scan-taken n pc v h bit ∙ e, Same-Took port s t)
        | inr (pc', e, s', all) ↦ inr (
          pc',
          scan-taken n pc v h bit ∙ e,
          Same-trans s s',
          λ i w l. elim (ℕ_discrete i (pc.next - pc.min)) [
            | yes e ↦ rw e bit
            | no ne ↦ all i (ground arith) l
          ],
        )
      ]
]

-- While fewer ports are marked than the range holds, one of them is free.
some_free :
    (pc : PortsCtl)
    → IsValid pc
    → pc.used + pc.reserved < pc.max - pc.min
    → ((i : ℕ) → i < pc.max - pc.min → get_or pc.bitmap.bytes i 0 % 2 ≡ 1)
    → ⊥
some_free pc v h all =
    let full = marks_full pc.bitmap.bits pc.bitmap.bytes (λ i l. all i (omega arith)) in
    omega (arith, full)

-- `get_one` is total on valid states. While a port of the range is neither in use nor reserved, it
-- takes a free one and changes no other bit; else it fails and leaves the state as it was.
pub get_one_lem :
    (pc : PortsCtl)
    → IsValid pc
    → (pc.used + pc.reserved < pc.max - pc.min
        → (port : ℕ) × (pc' : PortsCtl) × (get_one pc ≡ some (some port, pc')) × Took pc port pc')
      × (pc.max - pc.min ≤ pc.used + pc.reserved → get_one pc ≡ some (none, pc))
unfolding get_one
get_one_lem pc v = (takes, λ h. ground arith)
  where
    whole :
        (i : ℕ)
        → i < pc.max - pc.min
        → Window (pc.max - pc.min) (pc.next - pc.min) (pc.max - pc.min) i
    whole i l = elim (dec_lt i (pc.next - pc.min)) [
      | yes p ↦ inr (omega arith)
      | no p ↦ inl (omega arith)
    ]

    takes :
        pc.used + pc.reserved < pc.max - pc.min
        → (port : ℕ) × (pc' : PortsCtl) × (get_one pc ≡ some (some port, pc')) × Took pc port pc'
    takes h = elim (scan_lem (pc.max - pc.min) pc v (omega arith)) [
      | inl (port, pc', e, t) ↦ (port, pc', ground (arith, e), t)
      | inr (pc', e, s, all) ↦ absurd (some_free pc v h (λ i l. all i (whole i l) l))
    ]
