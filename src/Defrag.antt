-- ===== src/Defrag.antt =====
-- Reassembly of packets from fragments: hmshare/src/hm_fragments.c, and the packet's record of
-- hmshare/include/hm_netproto.h. The table is held under its lock by every entry point. Memory that
-- g_malloc gives has any contents; the outer `none` of a result is a write out of bounds.
pub mod Sorted
pub mod Whole
pub mod Table
pub mod Runs
pub mod Sound
pub mod Answers
pub mod Received
mod Tests
use hm_platform.Base.{
  ℕ, zero, suc, ◌+◌, ◌%◌, ◌^◌, List, [], ◌∷◌, ◌++◌, Option, none, some, ltb, leb, ◌==◌,
  if◌then◌else◌, ◌>>=◌, assert, Bool, true, false, length, take, drop, not,
}

-- `struct _HmNetPackInfo`; `start` holds the `size` bytes of the payload.
pub record NetPackInfo : Type 0 where
  pub total_packets : ℕ
  pub packet_no : ℕ
  pub start : List ℕ
  pub private_from_low_layer : ℕ

-- `struct _HmPacketFrags`, without its timer.
pub record PacketFrags : Type 0 where
  pub packet_identity : ℕ
  pub total : ℕ
  pub eat : ℕ
  pub total_size : ℕ
  pub packets : List NetPackInfo

-- `guint` and `gsize` addition.
abbrev pub add32 : ℕ → ℕ → ℕ
add32 a b = (a + b) % 2 ^ 32

abbrev pub add64 : ℕ → ℕ → ℕ
add64 a b = (a + b) % 2 ^ 64

abbrev pub max_packet_fragments : ℕ
max_packet_fragments = 64

pub memcpy : List ℕ → ℕ → List ℕ → Option (List ℕ)
memcpy buf pos bytes =
    if leb (pos + length bytes) (length buf)
    then some (take pos buf ++ (bytes ++ drop (pos + length bytes) buf))
    else none

-- Whether the packets are numbered from `no` on and their sizes sum up to the total.
pub sane_from : List NetPackInfo → ℕ → ℕ → ℕ → Bool
sane_from [] n size total_size = size == total_size
sane_from (npi ∷ list) n size total_size =
    let rest = sane_from list (add32 n 1) (add64 size (length npi.start)) total_size in
    if npi.packet_no == n then rest else false

pub sanity_test : PacketFrags → Bool
sanity_test frags = sane_from frags.packets 1 0 frags.total_size

-- The fragment's place is before the first of a higher number.
pub insert_packet : List NetPackInfo → NetPackInfo → List NetPackInfo
insert_packet [] np = np ∷ []
insert_packet (npi ∷ list) np =
    if ltb np.packet_no npi.packet_no then np ∷ npi ∷ list else npi ∷ insert_packet list np

-- What `enqueue` returns: NULL, its argument back, or the packet made of all fragments.
pub data Enqueued : Type 0 where
  waiting : Enqueued
  refused : Enqueued
  whole : NetPackInfo → Enqueued

-- The table of packets in progress.
pub find_frags : ℕ → List PacketFrags → Option PacketFrags
find_frags identity [] = none
find_frags identity (f ∷ pl) =
    if f.packet_identity == identity then some f else find_frags identity pl

-- The first entry of an identity, changed in place, and its link removed.
pub replace_frags : ℕ → PacketFrags → List PacketFrags → List PacketFrags
replace_frags identity g [] = []
replace_frags identity g (f ∷ pl) =
    if f.packet_identity == identity then g ∷ pl else f ∷ replace_frags identity g pl

pub delete_frags : ℕ → List PacketFrags → List PacketFrags
delete_frags identity [] = []
delete_frags identity (f ∷ pl) =
    if f.packet_identity == identity then pl else f ∷ delete_frags identity pl

pub new_frags : ℕ → ℕ → PacketFrags
new_frags identity total = record {
  packet_identity = identity;
  total = total;
  eat = 0;
  total_size = 0;
  packets = [];
}

-- What `linearize` gives to its caller: NULL becomes the argument of `enqueue`.
abbrev pub linearized : Option NetPackInfo → Enqueued
linearized none = refused
linearized (some npi) = whole npi

-- `g_malloc`, whose NULL is `none`.
module _ (malloc : ℕ → Option (List ℕ)) where
  -- NULL when there is no memory for the payload.
  pub new_npi : ℕ → Option NetPackInfo
  new_npi total_size = do
    bytes ← malloc total_size
    some (record { total_packets = 1; packet_no = 1; start = bytes; private_from_low_layer = 0 })

  pub copied : NetPackInfo → NetPackInfo → Option (Option NetPackInfo)
  copied npi n = do
    bytes ← memcpy n.start 0 npi.start
    some (
        some (record {
          total_packets = npi.total_packets;
          packet_no = npi.packet_no;
          start = bytes;
          private_from_low_layer = npi.private_from_low_layer;
        }))

  -- The inner `none` is NULL.
  pub copy_npi : NetPackInfo → Option (Option NetPackInfo)
  copy_npi npi = elim (new_npi (length npi.start)) [ none ↦ some none | some n ↦ copied npi n ]

  -- The loop of `linearize`: the buffer and the first identity that is not NULL. The position is a
  -- `gint`, and one that does not fit is `none`.
  pub copy_packets : List NetPackInfo → List ℕ → ℕ → ℕ → Option (List ℕ × ℕ)
  copy_packets [] buf pos identity = some (buf, identity)
  copy_packets (pi ∷ list) buf pos identity = do
    buf' ← memcpy buf pos pi.start
    assert (ltb (pos + length pi.start) (2 ^ 31)) (
        copy_packets list buf' (pos + length pi.start)
          (if identity == 0 then pi.private_from_low_layer else identity))

  pub joined_into : PacketFrags → NetPackInfo → Option (Option NetPackInfo)
  joined_into frags npi = do
    made ← copy_packets frags.packets npi.start 0 0
    some (some (record npi { start = made.0; private_from_low_layer = made.1 }))

  -- The packet made of all fragments, or NULL.
  pub joined : PacketFrags → Option (Option NetPackInfo)
  joined frags = elim (new_npi frags.total_size) [
    | none ↦ some none
    | some npi ↦ joined_into frags npi
  ]

  pub linearize : PacketFrags → Option (Enqueued × PacketFrags)
  linearize frags =
      let made = (joined frags >>= λ npi. some (linearized npi, frags)) in
      if sanity_test frags then made else some (refused, frags)

  -- The fragments with one more, and what is done when it is the last.
  pub eaten : PacketFrags → NetPackInfo → NetPackInfo → PacketFrags
  eaten frags np np_copy = record {
    packet_identity = frags.packet_identity;
    total = frags.total;
    eat = add32 frags.eat 1;
    total_size = add64 frags.total_size (length np.start);
    packets =
        if frags.eat == 0 then np_copy ∷ frags.packets else insert_packet frags.packets np_copy;
  }

  pub settle : PacketFrags → Option (Enqueued × PacketFrags)
  settle frags = if leb frags.total frags.eat then linearize frags else some (waiting, frags)

  pub enqueue : PacketFrags → NetPackInfo → Option (Enqueued × PacketFrags)
  enqueue frags np = copy_npi np >>= λ copy. elim copy [
    | none ↦ some (refused, frags)
    | some np_copy ↦ settle (eaten frags np np_copy)
  ]

  -- A fragment of a packet that is in progress.
  pub cached_listed :
      List PacketFrags → PacketFrags → NetPackInfo → Option (Option NetPackInfo × List PacketFrags)
  cached_listed pl frags net_pack = do
    r ← enqueue frags net_pack
    some (elim r.0 [
      | waiting ↦ (none, replace_frags net_pack.private_from_low_layer r.1 pl)
      | refused ↦ (none, delete_frags net_pack.private_from_low_layer pl)
      | whole npi ↦ (some npi, delete_frags net_pack.private_from_low_layer pl)
    ])

  -- A fragment of a new packet.
  pub cached_first : List PacketFrags → NetPackInfo → Option (Option NetPackInfo × List PacketFrags)
  cached_first pl net_pack = do
    r ← enqueue (new_frags net_pack.private_from_low_layer net_pack.total_packets) net_pack
    some (elim r.0 [
      | waiting ↦ (none, r.1 ∷ pl)
      | refused ↦ (none, pl)
      | whole npi ↦ (some npi, pl)
    ])

  pub cached_new : List PacketFrags → NetPackInfo → Option (Option NetPackInfo × List PacketFrags)
  cached_new pl net_pack =
      if not (net_pack.packet_no == 1)
      then some (none, pl)
      else if ltb max_packet_fragments net_pack.total_packets
      then some (none, pl)
      else cached_first pl net_pack

  pub cached : List PacketFrags → NetPackInfo → Option (Option NetPackInfo × List PacketFrags)
  cached pl net_pack = elim (find_frags net_pack.private_from_low_layer pl) [
    | some frags ↦ cached_listed pl frags net_pack
    | none ↦ cached_new pl net_pack
  ]

  pub defrag : List PacketFrags → NetPackInfo → Option (Option NetPackInfo × List PacketFrags)
  defrag pl net_packet =
      if leb net_packet.total_packets 1
      then some (some net_packet, pl)
      else if ltb net_packet.total_packets net_packet.packet_no
      then some (none, pl)
      else cached pl net_packet

-- The timer of a packet ran out: its entry goes, if it is still there.
pub expire : List PacketFrags → ℕ → List PacketFrags
expire pl identity = delete_frags identity pl
