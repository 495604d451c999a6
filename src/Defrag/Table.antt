-- ===== src/Defrag/Table.antt =====
-- A packet's fragments through the table: hmshare/src/hm_fragments.c.
use hm_platform.Base.{
  ℕ, zero, suc, ◌+◌, ◌^◌, ◌<◌, ◌≤◌, ◌≡◌, refl, sym, subst, ap, ◌∙◌, List, [], ◌∷◌, ◌++◌, ◌==◌,
  if◌then◌else◌, ◌⊎◌, arith, length, Option, none, some,
}
use hm_platform.Defrag.{
  NetPackInfo, PacketFrags, new_frags, insert_packet, eaten, settle, enqueue, find_frags,
  replace_frags, delete_frags, cached, cached_listed, cached_first, cached_new, defrag, whole,
  waiting,
}
use hm_platform.Defrag.Sorted.{
  payload, sizes, Rising, Numbered, Lacks, length-insert_packet, sizes-insert_packet,
  Lacks-insert_packet, Rising-insert_packet, Rising-Numbered, by_place,
}
use hm_platform.Defrag.Whole.{identity_of, made_of, IsMalloc, copy_npi_lem, linearize_full}

-- The payloads of the fragments from `n` on.
abbrev pub from_parts : (ℕ → List ℕ) → ℕ → ℕ → List ℕ
from_parts part n zero = []
from_parts part n (suc k) = part n ++ from_parts part (suc n) k

-- The fragments of one packet, of which every number has its payload.
module _ (identity total : ℕ) (part : ℕ → List ℕ) where
  pub record IsPart (p : NetPackInfo) : Type 0 where
    pub of_packet : p.private_from_low_layer ≡ identity
    pub counts : p.total_packets ≡ total
    pub positive : 0 < p.packet_no
    pub within : p.packet_no ≤ total
    pub carries : p.start ≡ part p.packet_no
    pub filled : 0 < length p.start

  abbrev pub AllPart : List NetPackInfo → Type 0
  AllPart [] = Unit
  AllPart (p ∷ ps) = IsPart p × AllPart ps

  pub AllPart-insert_packet :
      (ps : List NetPackInfo) (np : NetPackInfo)
      → AllPart ps
      → IsPart np
      → AllPart (insert_packet ps np)
  unfolding insert_packet
  AllPart-insert_packet [] np all here = (here, tt)
  AllPart-insert_packet (p ∷ ps) np all here =
      by_place AllPart p np ps (λ h. (here, all))
        (λ h. (all.0, AllPart-insert_packet ps np all.1 here))

  pub payload-from_parts :
      (n : ℕ) (ps : List NetPackInfo)
      → Numbered n ps
      → AllPart ps
      → payload ps ≡ from_parts part n (length ps)
  payload-from_parts n [] numbered all = refl
  payload-from_parts n (p ∷ ps) numbered all =
      ap (λ t. t ++ payload ps) (all.0.carries ∙ ap part numbered.0)
      ∙ ap (◌++◌ (part n)) (payload-from_parts (suc n) ps numbered.1 all.1)

  pub identity_of_lem :
      (ps : List NetPackInfo) (i : ℕ)
      → AllPart ps
      → (i ≡ 0) ⊎ (i ≡ identity)
      → 0 < length ps
      → identity_of ps i ≡ identity
  identity_of_lem [] i all start some_part = absurd (omega (arith, some_part))
  identity_of_lem (p ∷ []) i all start some_part = ground (arith, all.0.of_packet, start)
  identity_of_lem (p ∷ q ∷ ps) i all start some_part =
      identity_of_lem (q ∷ ps) (if i == 0 then p.private_from_low_layer else i) all.1
        (ground (arith, all.0.of_packet, start)) (omega arith)

-- Numbers that differ, among the fragments to come and from those that are held.
abbrev pub Distinct : List NetPackInfo → Type 0
Distinct [] = Unit
Distinct (p ∷ ps) = Lacks p.packet_no ps × Distinct ps

abbrev pub Apart : List NetPackInfo → List NetPackInfo → Type 0
Apart held [] = Unit
Apart held (p ∷ ps) = Lacks p.packet_no held × Apart held ps

pub Apart-insert_packet :
    (held : List NetPackInfo) (np : NetPackInfo) (ps : List NetPackInfo)
    → Apart held ps
    → Lacks np.packet_no ps
    → Apart (insert_packet held np) ps
Apart-insert_packet held np [] apart lacks = tt
Apart-insert_packet held np (p ∷ ps) apart lacks = (
  Lacks-insert_packet p.packet_no held np (λ e. lacks.0 (sym e)) apart.0,
  Apart-insert_packet held np ps apart.1 lacks.1,
)

pub Apart-single :
    (np : NetPackInfo) (ps : List NetPackInfo) → Lacks np.packet_no ps → Apart (np ∷ []) ps
Apart-single np [] lacks = tt
Apart-single np (p ∷ ps) lacks = (((λ e. lacks.0 (sym e)), tt), Apart-single np ps lacks.1)

-- What holds of the entry of a packet that is in progress.
pub record InProgress (f : PacketFrags) : Type 0 where
  pub begun : 0 < f.eat
  pub open_still : f.eat < f.total
  pub few : f.total ≤ 64
  pub counted : f.eat ≡ length f.packets
  pub sized : f.total_size ≡ sizes f.packets
  pub rises : Rising 0 f.total f.packets

module _ (malloc : ℕ → Option (List ℕ)) (sized : IsMalloc malloc) where
  -- An entry that holds every fragment.
  complete :
      (f : PacketFrags)
      → f.total ≤ f.eat
      → length f.packets ≡ f.total
      → f.total ≤ 64
      → f.total_size ≡ sizes f.packets
      → sizes f.packets < 2 ^ 31
      → 0 < sizes f.packets
      → Rising 0 f.total f.packets
      → settle malloc f ≡ some (whole (made_of f.packets), f)
  unfolding settle
  complete f full count few same small filled rises =
      let numbered = Rising-Numbered 0 f.total f.packets rises (omega (arith, count)) in
      ground (
        arith,
        full,
        linearize_full malloc sized f
            (subst (λ n. Numbered n f.packets) {x = suc 0} (omega arith) numbered)
            (omega (arith, count, few)) small filled same,
      )

  -- The entry after one more fragment.
  module _ (f : PacketFrags) (np : NetPackInfo) (good : InProgress f)
      (fits : np.packet_no ≤ f.total) (positive : 0 < np.packet_no)
      (lacks : Lacks np.packet_no f.packets) (small : sizes f.packets + length np.start < 2 ^ 31)
      (filled : 0 < length np.start) where
    grown : eaten malloc f np np ≡ record {
      packet_identity = f.packet_identity;
      total = f.total;
      eat = suc f.eat;
      total_size = sizes (insert_packet f.packets np);
      packets = insert_packet f.packets np;
    }
    unfolding eaten
    grown = ground (
      arith,
      good.begun,
      good.open_still,
      good.few,
      good.sized,
      small,
      sizes-insert_packet f.packets np,
    )

    -- The entry, with the fields written out.
    abbrev pub with_one : PacketFrags
    with_one = record {
      packet_identity = f.packet_identity;
      total = f.total;
      eat = suc f.eat;
      total_size = sizes (insert_packet f.packets np);
      packets = insert_packet f.packets np;
    }

    pub with_one-rises : Rising 0 f.total (insert_packet f.packets np)
    with_one-rises = Rising-insert_packet 0 f.total f.packets np good.rises lacks positive fits

    pub with_one-InProgress : suc f.eat < f.total → InProgress with_one
    with_one-InProgress more = record {
      begun = omega arith;
      open_still = more;
      few = good.few;
      counted = omega (arith, good.counted, length-insert_packet f.packets np);
      sized = refl;
      rises = with_one-rises;
    }

    pub enqueue_more : suc f.eat < f.total → enqueue malloc f np ≡ some (waiting, with_one)
    unfolding enqueue settle
    enqueue_more more = ground (arith, more, copy_npi_lem malloc sized np filled, grown)

    pub enqueue_last :
        suc f.eat ≡ f.total
        → enqueue malloc f np ≡ some (whole (made_of (insert_packet f.packets np)), with_one)
    unfolding enqueue
    enqueue_last last =
        let done =
          complete with_one (omega (arith, last))
            (omega (arith, last, good.counted, length-insert_packet f.packets np)) good.few refl
            (omega (arith, small, sizes-insert_packet f.packets np))
            (omega (arith, filled, sizes-insert_packet f.packets np)) with_one-rises in
        ground (arith, copy_npi_lem malloc sized np filled, grown, done)

    -- The fragment through the table.
    pub defrag_more :
        (pl : List PacketFrags)
        → find_frags np.private_from_low_layer pl ≡ some f
        → 1 < np.total_packets
        → np.packet_no ≤ np.total_packets
        → suc f.eat < f.total
        → defrag malloc pl np ≡ some (none, replace_frags np.private_from_low_layer with_one pl)
    unfolding defrag cached cached_listed
    defrag_more pl found several inside more =
        ground (arith, found, several, inside, enqueue_more more)

    pub defrag_last :
        (pl : List PacketFrags)
        → find_frags np.private_from_low_layer pl ≡ some f
        → 1 < np.total_packets
        → np.packet_no ≤ np.total_packets
        → suc f.eat ≡ f.total
        → defrag malloc pl np
          ≡ some (
            some (made_of (insert_packet f.packets np)),
            delete_frags np.private_from_low_layer pl,
          )
    unfolding defrag cached cached_listed
    defrag_last pl found several inside last =
        ground (arith, found, several, inside, enqueue_last last)

  -- The entry of a first fragment.
  abbrev pub entry_of : NetPackInfo → PacketFrags
  entry_of np = record {
    packet_identity = np.private_from_low_layer;
    total = np.total_packets;
    eat = 1;
    total_size = sizes (np ∷ []);
    packets = np ∷ [];
  }

  pub entry_of-InProgress :
      (np : NetPackInfo)
      → np.packet_no ≡ 1
      → 1 < np.total_packets
      → np.total_packets ≤ 64
      → InProgress (entry_of np)
  entry_of-InProgress np first several few = record {
    begun = omega arith;
    open_still = several;
    few = few;
    counted = omega arith;
    sized = refl;
    rises = (omega (arith, first), omega (arith, first, several));
  }

  pub defrag_first :
      (pl : List PacketFrags) (np : NetPackInfo)
      → find_frags np.private_from_low_layer pl ≡ none
      → np.packet_no ≡ 1
      → 1 < np.total_packets
      → np.total_packets ≤ 64
      → length np.start < 2 ^ 31
      → 0 < length np.start
      → defrag malloc pl np ≡ some (none, entry_of np ∷ pl)
  unfolding defrag cached cached_new cached_first enqueue settle eaten new_frags
  defrag_first pl np unknown first several few small filled =
      ground (arith, unknown, first, several, few, small, copy_npi_lem malloc sized np filled)
