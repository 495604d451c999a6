-- ===== src/Ports/Moves.antt =====
-- How two states of the allocator are related when a port was taken or given back between them.
use hm_platform.Base.{
  ℕ, ◌+◌, ◌-◌, ◌≤◌, ◌<◌, ◌≡◌, sym, ap, some, arith, length, get_or, set, length-set,
  get_or-set_self, get_or-set_ne,
}
use hm_platform.Ports.{PortsCtl, put_one, bitmap_reset}
use hm_platform.Ports.Marks.{marks-set, set-set, set_get, set_comm}
use hm_platform.Ports.Inv.{IsValid, bit_of}

-- Nothing but `next` has moved.
pub record Same (pc pc' : PortsCtl) : Type 0 where
  pub valid : IsValid pc'
  pub min_eq : pc'.min ≡ pc.min
  pub max_eq : pc'.max ≡ pc.max
  pub used_eq : pc'.used ≡ pc.used
  pub reserved_eq : pc'.reserved ≡ pc.reserved
  pub bits_eq : pc'.bitmap.bits ≡ pc.bitmap.bits
  pub bytes_eq : pc'.bitmap.bytes ≡ pc.bitmap.bytes

-- The port was free, and is now in use; no other bit has changed.
pub record Took (pc : PortsCtl) (port : ℕ) (pc' : PortsCtl) : Type 0 where
  pub valid : IsValid pc'
  pub in_low : pc.min ≤ port
  pub in_high : port < pc.max
  pub free : bit_of pc port ≡ 0
  pub min_eq : pc'.min ≡ pc.min
  pub max_eq : pc'.max ≡ pc.max
  pub used_eq : pc'.used ≡ pc.used + 1
  pub reserved_eq : pc'.reserved ≡ pc.reserved
  pub bits_eq : pc'.bitmap.bits ≡ pc.bitmap.bits
  pub bytes_eq :
      pc'.bitmap.bytes
      ≡ set pc.bitmap.bytes (port - pc.min) (get_or pc.bitmap.bytes (port - pc.min) 0 + 1)

pub Same-refl : {pc : PortsCtl} → IsValid pc → Same pc pc
Same-refl v = ground arith

pub Same-trans : {a b c : PortsCtl} → Same a b → Same b c → Same a c
Same-trans s t = ground arith

pub Same-Took : {a b c : PortsCtl} (port : ℕ) → Same a b → Took b port c → Took a port c
Same-Took port s t = ground arith

-- The port was taken, and is free now; no other bit has changed.
pub record Gave (pc : PortsCtl) (port : ℕ) (pc' : PortsCtl) : Type 0 where
  pub valid : IsValid pc'
  pub min_eq : pc'.min ≡ pc.min
  pub max_eq : pc'.max ≡ pc.max
  pub used_eq : pc'.used ≡ pc.used - 1
  pub reserved_eq : pc'.reserved ≡ pc.reserved
  pub bits_eq : pc'.bitmap.bits ≡ pc.bitmap.bits
  pub bytes_eq :
      pc'.bitmap.bytes
      ≡ set pc.bitmap.bytes (port - pc.min) (get_or pc.bitmap.bytes (port - pc.min) 0 - 1)

abbrev giving : PortsCtl → ℕ → PortsCtl
giving pc port =
    let i = port - pc.min in
    let bs = pc.bitmap.bytes in
    record pc {
      used = pc.used - 1;
      bitmap = record { bits = pc.bitmap.bits; bytes = set bs i (get_or bs i 0 - 1) };
    }

-- A port whose bit is set can be given back while a port is in use.
pub put_one_lem :
    (pc : PortsCtl) (port : ℕ)
    → IsValid pc
    → pc.min ≤ port
    → port < pc.max
    → bit_of pc port ≡ 1
    → 0 < pc.used
    → (pc' : PortsCtl) × (put_one pc port ≡ some pc') × Gave pc port pc'
unfolding put_one bitmap_reset
put_one_lem pc port v h k b u =
    let bs = pc.bitmap.bytes in
    let i = port - pc.min in
    let m = marks-set pc.bitmap.bits bs i (get_or bs i 0 - 1) (omega arith) (omega arith) in
    let l = length-set bs i (get_or bs i 0 - 1) in
    (giving pc port, ground arith, ground (arith, m, l))

Took-inside :
    {pc pc1 : PortsCtl} (port : ℕ) → Took pc port pc1 → port - pc.min < length pc.bitmap.bytes
Took-inside {pc} port t =
    let i = port - pc.min in
    omega
      (arith, length-set pc.bitmap.bytes i (get_or pc.bitmap.bytes i 0 + 1), ap length t.bytes_eq)

-- What a taken port's byte is afterwards.
Took-byte :
    {pc pc1 : PortsCtl} (port : ℕ)
    → Took pc port pc1
    → get_or pc1.bitmap.bytes (port - pc1.min) 0 ≡ get_or pc.bitmap.bytes (port - pc.min) 0 + 1
Took-byte {pc} {pc1} port t =
    let i = port - pc.min in
    let bs = pc.bitmap.bytes in
    rw (t.bytes_eq, t.min_eq) (get_or-set_self bs i (get_or bs i 0 + 1) 0 (Took-inside port t))

Took-Gave : {pc pc1 pc2 : PortsCtl} (port : ℕ) → Took pc port pc1 → Gave pc1 port pc2 → Same pc pc2
Took-Gave {pc} port t g =
    let i = port - pc.min in
    let bs = pc.bitmap.bytes in
    ground (arith, Took-byte port t, set-set bs i (get_or bs i 0 + 1) (get_or bs i 0), set_get bs i)

-- Giving back the port that was just taken restores the map and the counters.
pub Took-put_one :
    {pc pc1 : PortsCtl} (port : ℕ)
    → Took pc port pc1
    → (pc2 : PortsCtl) × (put_one pc1 port ≡ some pc2) × Same pc pc2
Took-put_one {pc} {pc1} port t =
    let b = Took-byte port t in
    let (pc2, e, g) =
      put_one_lem pc1 port t.valid (omega arith) (omega arith) (omega arith) (omega arith) in
    (pc2, e, Took-Gave port t g)

module _ {pc pc1 pc2 : PortsCtl} (low hi : ℕ) (t : Took pc low pc1) (u : Took pc1 hi pc2) where
  -- Two ports that are taken one after the other differ.
  Took_differ : low - pc.min ≡ hi - pc.min → ⊥
  Took_differ e = ground (arith, Took-byte low t, ap (λ n. get_or pc1.bitmap.bytes n 0) e)

  Took-Took-byte :
      get_or pc2.bitmap.bytes (low - pc2.min) 0 ≡ get_or pc.bitmap.bytes (low - pc.min) 0 + 1
  Took-Took-byte =
      let j = hi - pc.min in
      let k =
        get_or-set_ne pc1.bitmap.bytes j (low - pc.min) (get_or pc1.bitmap.bytes j 0 + 1) 0
          (λ e. Took_differ (sym e)) in
      ground (arith, Took-byte low t, k)

  Took-Took-Gave : {pc3 : PortsCtl} → Gave pc2 low pc3 → Took pc hi pc3
  Took-Took-Gave g =
      let i = low - pc.min in
      let j = hi - pc.min in
      let bs = pc.bitmap.bytes in
      let k' = get_or-set_ne bs i j (get_or bs i 0 + 1) 0 Took_differ in
      let w = set_comm bs i j (get_or bs i 0 + 1) (get_or bs j 0 + 1) Took_differ in
      let l = set_comm bs i j (get_or bs i 0) (get_or bs j 0 + 1) Took_differ in
      let z = set-set (set bs j (get_or bs j 0 + 1)) i (get_or bs i 0 + 1) (get_or bs i 0) in
      ground (arith, Took-Took-byte, k', w, l, z, set_get bs i)

  -- Giving back the first of two ports leaves the second one taken.
  pub Took-Took-put_one : (pc3 : PortsCtl) × (put_one pc2 low ≡ some pc3) × Took pc hi pc3
  Took-Took-put_one =
      let b = Took-Took-byte in
      let (pc3, e, g) =
        put_one_lem pc2 low u.valid (omega arith) (omega arith) (omega arith) (omega arith) in
      (pc3, e, Took-Took-Gave g)
