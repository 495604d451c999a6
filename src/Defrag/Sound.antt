-- ===== src/Defrag/Sound.antt =====
-- The entries of the table, and a fragment that comes to one: hmshare/src/hm_fragments.c.
use hm_platform.Base.{
  ℕ, suc, ◌*◌, ◌^◌, ◌<◌, ◌≤◌, ◌≡◌, ◌≢◌, refl, sym, subst, ap, List, [], ◌∷◌, leb, ◌==◌,
  if◌then◌else◌, true, false, Bool-cases, ℕ_discrete, ◌⊎◌, inl, inr, arith, length, Option, some,
  ◌∙◌,
}
use hm_platform.Defrag.{
  NetPackInfo, PacketFrags, find_frags, replace_frags, delete_frags, enqueue, eaten, settle,
  linearize, sanity_test, new_frags, insert_packet, Enqueued, waiting, refused, whole,
}
use hm_platform.Defrag.Sorted.{
  sizes, Numbered, sane_from-Numbered, length-insert_packet, sizes-insert_packet, by_place,
}
use hm_platform.Defrag.Whole.{made_of, IsMalloc, copy_npi_lem, copy_npi_empty, linearize_full}

-- An entry of the table: its counters are those of its fragments, which are short.
pub record IsSound (f : PacketFrags) : Type 0 where
  pub open_still : f.eat < f.total
  pub few : f.total ≤ 64
  pub counted : f.eat ≡ length f.packets
  pub sized : f.total_size ≡ sizes f.packets
  pub short : sizes f.packets ≤ f.eat * 2 ^ 24

abbrev pub AllSound : List PacketFrags → Type 0
AllSound [] = Unit
AllSound (f ∷ pl) = IsSound f × AllSound pl

pub AllSound-find_frags :
    (i : ℕ) (pl : List PacketFrags) (f : PacketFrags)
    → AllSound pl
    → find_frags i pl ≡ some f
    → IsSound f × (f.packet_identity ≡ i)
unfolding find_frags
AllSound-find_frags i [] f all h = absurd (ground (arith, h))
AllSound-find_frags i (g ∷ pl) f all h = elim (Bool-cases (g.packet_identity == i)) [
  | inl hit ↦
      let same : g ≡ f = ground (arith, h, hit) in
      (subst IsSound same all.0, ground (arith, hit, ap PacketFrags.packet_identity same))
  | inr miss ↦ AllSound-find_frags i pl f all.1 (ground (arith, h, miss))
]

pub AllSound-replace_frags :
    (i : ℕ) (g : PacketFrags) (pl : List PacketFrags)
    → AllSound pl
    → IsSound g
    → AllSound (replace_frags i g pl)
unfolding replace_frags
AllSound-replace_frags i g [] all good = tt
AllSound-replace_frags i g (f ∷ pl) all good = elim (Bool-cases (f.packet_identity == i)) [
  | inl hit ↦
      subst (λ b. AllSound (if b then g ∷ pl else f ∷ replace_frags i g pl)) (sym hit) (good, all.1)
  | inr miss ↦
      subst (λ b. AllSound (if b then g ∷ pl else f ∷ replace_frags i g pl)) (sym miss)
        (all.0, AllSound-replace_frags i g pl all.1 good)
]

pub AllSound-delete_frags :
    (i : ℕ) (pl : List PacketFrags) → AllSound pl → AllSound (delete_frags i pl)
unfolding delete_frags
AllSound-delete_frags i [] all = tt
AllSound-delete_frags i (f ∷ pl) all = elim (Bool-cases (f.packet_identity == i)) [
  | inl hit ↦ subst (λ b. AllSound (if b then pl else f ∷ delete_frags i pl)) (sym hit) all.1
  | inr miss ↦
      subst (λ b. AllSound (if b then pl else f ∷ delete_frags i pl)) (sym miss)
        (all.0, AllSound-delete_frags i pl all.1)
]

pub find_frags-replace_frags :
    (i j : ℕ) (g : PacketFrags) (pl : List PacketFrags)
    → g.packet_identity ≡ i
    → j ≢ i
    → find_frags j (replace_frags i g pl) ≡ find_frags j pl
unfolding find_frags replace_frags
find_frags-replace_frags i j g [] same ne = refl
find_frags-replace_frags i j g (f ∷ pl) same ne =
    ground (arith, same, ne, find_frags-replace_frags i j g pl same ne)

pub find_frags-delete_frags :
    (i j : ℕ) (pl : List PacketFrags) → j ≢ i → find_frags j (delete_frags i pl) ≡ find_frags j pl
unfolding find_frags delete_frags
find_frags-delete_frags i j [] ne = refl
find_frags-delete_frags i j (f ∷ pl) ne = ground (arith, ne, find_frags-delete_frags i j pl ne)

-- A predicate of identity and fragment holds of all that the table has.
abbrev pub AllOf : (ℕ → NetPackInfo → Type 0) → ℕ → List NetPackInfo → Type 0
AllOf P i [] = Unit
AllOf P i (p ∷ ps) = P i p × AllOf P i ps

abbrev pub AllHeld : (ℕ → NetPackInfo → Type 0) → List PacketFrags → Type 0
AllHeld P [] = Unit
AllHeld P (f ∷ pl) = AllOf P f.packet_identity f.packets × AllHeld P pl

pub AllOf-insert_packet :
    (P : ℕ → NetPackInfo → Type 0) (i : ℕ) (ps : List NetPackInfo) (np : NetPackInfo)
    → AllOf P i ps
    → P i np
    → AllOf P i (insert_packet ps np)
unfolding insert_packet
AllOf-insert_packet P i [] np all here = (here, tt)
AllOf-insert_packet P i (p ∷ ps) np all here =
    by_place (AllOf P i) p np ps (λ h. (here, all))
      (λ h. (all.0, AllOf-insert_packet P i ps np all.1 here))

pub AllHeld-find_frags :
    (P : ℕ → NetPackInfo → Type 0) (i : ℕ) (pl : List PacketFrags) (f : PacketFrags)
    → AllHeld P pl
    → find_frags i pl ≡ some f
    → AllOf P i f.packets
unfolding find_frags
AllHeld-find_frags P i [] f all h = absurd (ground (arith, h))
AllHeld-find_frags P i (g ∷ pl) f all h = elim (Bool-cases (g.packet_identity == i)) [
  | inl hit ↦
      let same : g ≡ f = ground (arith, h, hit) in
      let at : g.packet_identity ≡ i = ground (arith, hit) in
      subst (λ d. AllOf P i d.packets) same (subst (λ j. AllOf P j g.packets) at all.0)
  | inr miss ↦ AllHeld-find_frags P i pl f all.1 (ground (arith, h, miss))
]

pub AllHeld-replace_frags :
    (P : ℕ → NetPackInfo → Type 0) (i : ℕ) (g : PacketFrags) (pl : List PacketFrags)
    → AllHeld P pl
    → AllOf P g.packet_identity g.packets
    → AllHeld P (replace_frags i g pl)
unfolding replace_frags
AllHeld-replace_frags P i g [] all good = tt
AllHeld-replace_frags P i g (f ∷ pl) all good =
    elim (f.packet_identity == i)
      as (λ b. AllHeld P (if b then g ∷ pl else f ∷ replace_frags i g pl)) [
        | true ↦ (good, all.1)
        | false ↦ (all.0, AllHeld-replace_frags P i g pl all.1 good)
      ]

pub AllHeld-delete_frags :
    (P : ℕ → NetPackInfo → Type 0) (i : ℕ) (pl : List PacketFrags)
    → AllHeld P pl
    → AllHeld P (delete_frags i pl)
unfolding delete_frags
AllHeld-delete_frags P i [] all = tt
AllHeld-delete_frags P i (f ∷ pl) all =
    elim (f.packet_identity == i) as (λ b. AllHeld P (if b then pl else f ∷ delete_frags i pl)) [
      | true ↦ all.1
      | false ↦ (all.0, AllHeld-delete_frags P i pl all.1)
    ]

pub passed :
    (i total j : ℕ) (g : PacketFrags) (pl : List PacketFrags)
    → g.packet_identity ≡ (new_frags i total).packet_identity
    → j ≢ i
    → find_frags j (g ∷ pl) ≡ find_frags j pl
unfolding find_frags new_frags
passed i total j g pl same ne = ground (arith, same, ne)

module _ (malloc : ℕ → Option (List ℕ)) (sized : IsMalloc malloc) where
  -- What comes of a fragment that is added to an entry.
  pub record Settled (f : PacketFrags) (np : NetPackInfo) : Type 0 where
    pub result : Enqueued
    pub entry : PacketFrags
    pub eq : enqueue malloc f np ≡ some (result, entry)
    pub identity : entry.packet_identity ≡ f.packet_identity
    pub outcome :
        (result ≡ waiting × IsSound entry × entry.packets ≡ insert_packet f.packets np)
        ⊎ ((result ≡ refused)
            ⊎ (result ≡ whole (made_of (insert_packet f.packets np))
                × Numbered 1 (insert_packet f.packets np)
                × length (insert_packet f.packets np) ≡ f.total))

  -- Before nothing is also the place by number.
  first_packet :
      (ps : List NetPackInfo) (np : NetPackInfo) → length ps ≡ 0 → np ∷ ps ≡ insert_packet ps np
  unfolding insert_packet
  first_packet [] np empty = refl
  first_packet (p ∷ ps) np empty = absurd (omega (arith, empty))

  -- The entry with the fragment.
  record Grown (f : PacketFrags) (np : NetPackInfo) : Type 0 where
    entry : PacketFrags
    eq : eaten malloc f np np ≡ entry
    identity : entry.packet_identity ≡ f.packet_identity
    total : entry.total ≡ f.total
    eat : entry.eat ≡ suc f.eat
    counted : entry.eat ≡ length entry.packets
    fits : entry.total_size ≡ sizes entry.packets
    short : sizes entry.packets ≤ entry.eat * 2 ^ 24
    packets : entry.packets ≡ insert_packet f.packets np

  grown : (f : PacketFrags) (np : NetPackInfo) → IsSound f → length np.start ≤ 2 ^ 24 → Grown f np
  unfolding eaten
  grown f np good small = record {
    entry = eaten malloc f np np;
    eq = refl;
    identity = refl;
    total = refl;
    eat = ground (arith, good.open_still, good.few);
    counted =
        ground (arith, good.open_still, good.few, good.counted, length-insert_packet f.packets np);
    fits = ground (
      arith,
      good.open_still,
      good.few,
      good.sized,
      good.short,
      small,
      sizes-insert_packet f.packets np,
    );
    short =
        ground
          (arith, good.open_still, good.few, good.short, small, sizes-insert_packet f.packets np);
    packets = elim (Bool-cases (f.eat == 0)) [
      | inl first ↦
          let none_held : length f.packets ≡ 0 = ground (arith, first, good.counted) in
          rw first (first_packet f.packets np none_held)
      | inr later ↦ rw later refl
    ];
  }

  filled-Settled :
      (f : PacketFrags) (np : NetPackInfo)
      → IsSound f
      → length np.start ≤ 2 ^ 24
      → 0 < length np.start
      → Settled f np
  unfolding enqueue settle linearize sanity_test
  filled-Settled f np good small filled =
      let g = grown f np good small in
      let copied = copy_npi_lem malloc sized np filled in
      elim (Bool-cases (leb f.total (suc f.eat))) [
        | inl full ↦ elim (Bool-cases (sanity_test g.entry)) [
          | inl sane ↦
              let numbered =
                sane_from-Numbered g.entry.packets 1 0 g.entry.total_size
                  (omega (arith, g.counted, g.eat, good.open_still, good.few)) sane in
              let made =
                linearize_full malloc sized g.entry numbered
                  (omega (arith, g.counted, g.eat, good.open_still, good.few))
                  (omega (arith, g.short, g.eat, good.open_still, good.few))
                  (omega (arith, filled, ap sizes g.packets, sizes-insert_packet f.packets np))
                  g.fits in
              record {
                result = whole (made_of (insert_packet f.packets np));
                entry = g.entry;
                eq =
                    ground (arith, copied, g.eq, g.total, g.eat, full, sane, made)
                    ∙ ap (λ ps. some (whole (made_of ps), g.entry)) g.packets;
                identity = g.identity;
                outcome = inr (
                    inr (
                      refl,
                      subst (Numbered 1) g.packets numbered,
                      ap length (sym g.packets)
                          ∙ ground (arith, g.counted, g.eat, good.open_still, full),
                    ));
              }
          | inr insane ↦ record {
            result = refused;
            entry = g.entry;
            eq = ground (arith, copied, g.eq, g.total, g.eat, full, insane);
            identity = g.identity;
            outcome = inr (inl refl);
          }
        ]
        | inr open_still ↦ record {
          result = waiting;
          entry = g.entry;
          eq = ground (arith, copied, g.eq, g.total, g.eat, open_still);
          identity = g.identity;
          outcome = inl (
            refl,
            record {
              open_still = ground (arith, g.total, g.eat, open_still);
              few = omega (arith, g.total, good.few);
              counted = g.counted;
              sized = g.fits;
              short = g.short;
            },
            g.packets,
          );
        }
      ]

  -- A fragment without a payload is refused.
  empty-Settled : (f : PacketFrags) (np : NetPackInfo) → length np.start ≡ 0 → Settled f np
  unfolding enqueue
  empty-Settled f np empty = record {
    result = refused;
    entry = f;
    eq = ground (arith, copy_npi_empty malloc sized np empty);
    identity = refl;
    outcome = inr (inl refl);
  }

  pub settled :
      (f : PacketFrags) (np : NetPackInfo) → IsSound f → length np.start ≤ 2 ^ 24 → Settled f np
  settled f np good small = elim (ℕ_discrete (length np.start) 0) [
    | yes empty ↦ empty-Settled f np empty
    | no some_byte ↦ filled-Settled f np good small (omega (arith, some_byte))
  ]
