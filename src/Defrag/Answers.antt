-- ===== src/Defrag/Answers.antt =====
-- Every call of hm_net_packet_defrag: hmshare/src/hm_fragments.c.
use hm_platform.Base.{
  ℕ, ◌^◌, ◌<◌, ◌≤◌, ◌≡◌, ◌≢◌, refl, sym, subst₂, ◌∙◌, List, [], ◌∷◌, ltb, leb, dec_lt, ℕ_discrete,
  Bool-cases, Option-cases, ◌⊎◌, inl, inr, arith, length, Option, none, some,
}
use hm_platform.Defrag.{
  NetPackInfo, PacketFrags, find_frags, replace_frags, delete_frags, cached, cached_listed,
  cached_first, cached_new, defrag, expire, new_frags, insert_packet,
}
use hm_platform.Defrag.Sorted.{Numbered, length-insert_packet}
use hm_platform.Defrag.Whole.{made_of, IsMalloc}
use hm_platform.Defrag.Sound.{
  IsSound, AllSound, AllSound-find_frags, AllSound-replace_frags, AllSound-delete_frags,
  find_frags-replace_frags, find_frags-delete_frags, passed, settled, AllOf, AllHeld,
  AllOf-insert_packet, AllHeld-find_frags, AllHeld-replace_frags, AllHeld-delete_frags,
}

module _ (malloc : ℕ → Option (List ℕ)) (sized : IsMalloc malloc) where
  -- What comes of any call: a packet made whole is made of the entry's fragments and the new one, and
  -- an entry never holds a fragment but those it held and the new one.
  pub record Answered (pl : List PacketFrags) (np : NetPackInfo) : Type 1 where
    pub out : Option NetPackInfo
    pub after : List PacketFrags
    pub eq : defrag malloc pl np ≡ some (out, after)
    pub sound : AllSound after
    pub others : (j : ℕ) → j ≢ np.private_from_low_layer → find_frags j after ≡ find_frags j pl
    pub keeps :
        (P : ℕ → NetPackInfo → Type 0)
        → AllHeld P pl
        → P np.private_from_low_layer np
        → AllHeld P after
    pub given :
        (out ≡ none)
        ⊎ ((np.total_packets ≤ 1 × out ≡ some np)
            ⊎ ((f : PacketFrags) × find_frags np.private_from_low_layer pl ≡ some f
                × out ≡ some (made_of (insert_packet f.packets np))
                × Numbered 1 (insert_packet f.packets np)
                × length (insert_packet f.packets np) ≡ f.total
                × f.total ≤ 64))

  same_table :
      (pl : List PacketFrags) (np : NetPackInfo)
      → AllSound pl
      → defrag malloc pl np ≡ some (none, pl)
      → Answered pl np
  same_table pl np all h = record {
    out = none;
    after = pl;
    eq = h;
    sound = all;
    others = λ j ne. refl;
    keeps = λ P held new. held;
    given = inl refl;
  }

  listed-Answered :
      (pl : List PacketFrags) (np : NetPackInfo) (f : PacketFrags)
      → AllSound pl
      → length np.start ≤ 2 ^ 24
      → find_frags np.private_from_low_layer pl ≡ some f
      → 1 < np.total_packets
      → np.packet_no ≤ np.total_packets
      → Answered pl np
  unfolding defrag cached cached_listed
  listed-Answered pl np f all small found several inside =
      let (good, same) = AllSound-find_frags np.private_from_low_layer pl f all found in
      let r = settled malloc sized f np good small in
      let i = np.private_from_low_layer in
      elim r.outcome [
        | inl (waits, sound, with_it) ↦ record {
          out = none;
          after = replace_frags i r.entry pl;
          eq = ground (arith, found, several, inside, r.eq, waits);
          sound = AllSound-replace_frags i r.entry pl all sound;
          others = λ j ne. find_frags-replace_frags i j r.entry pl (r.identity ∙ same) ne;
          keeps = λ P held new. AllHeld-replace_frags P i r.entry pl held (
              subst₂ (AllOf P) (sym (r.identity ∙ same)) (sym with_it) (
                AllOf-insert_packet P i f.packets np (AllHeld-find_frags P i pl f held found) new));
          given = inl refl;
        }
        | inr (inl fails) ↦ record {
          out = none;
          after = delete_frags i pl;
          eq = ground (arith, found, several, inside, r.eq, fails);
          sound = AllSound-delete_frags i pl all;
          others = λ j ne. find_frags-delete_frags i j pl ne;
          keeps = λ P held new. AllHeld-delete_frags P i pl held;
          given = inl refl;
        }
        | inr (inr (made, numbered, count)) ↦ record {
          out = some (made_of (insert_packet f.packets np));
          after = delete_frags i pl;
          eq = ground (arith, found, several, inside, r.eq, made);
          sound = AllSound-delete_frags i pl all;
          others = λ j ne. find_frags-delete_frags i j pl ne;
          keeps = λ P held new. AllHeld-delete_frags P i pl held;
          given = inr (inr (f, found, refl, numbered, count, good.few));
        }
      ]

  new_IsSound : (i total : ℕ) → 0 < total → total ≤ 64 → IsSound (new_frags i total)
  unfolding new_frags
  new_IsSound i total some_part few = record {
    open_still = some_part;
    few = few;
    counted = refl;
    sized = refl;
    short = omega arith;
  }

  first-Answered :
      (pl : List PacketFrags) (np : NetPackInfo)
      → AllSound pl
      → length np.start ≤ 2 ^ 24
      → find_frags np.private_from_low_layer pl ≡ none
      → 1 < np.total_packets
      → np.total_packets ≤ 64
      → np.packet_no ≡ 1
      → Answered pl np
  unfolding defrag cached cached_new cached_first new_frags
  first-Answered pl np all small unknown several few at_one =
      let i = np.private_from_low_layer in
      let r =
        settled malloc sized (new_frags i np.total_packets) np
          (new_IsSound i np.total_packets (omega (arith, several)) few) small in
      elim r.outcome [
        | inl (waits, sound, with_it) ↦ record {
          out = none;
          after = r.entry ∷ pl;
          eq = ground (arith, unknown, several, few, at_one, r.eq, waits);
          sound = (sound, all);
          others = λ j ne. passed i np.total_packets j r.entry pl r.identity ne;
          keeps = λ P held new. (
            subst₂ (AllOf P) (sym r.identity) (sym with_it) (AllOf-insert_packet P i [] np tt new),
            held,
          );
          given = inl refl;
        }
        | inr (inl fails) ↦
            same_table pl np all (ground (arith, unknown, several, few, at_one, r.eq, fails))
        | inr (inr (made, numbered, count)) ↦
            absurd (omega (arith, count, several, length-insert_packet [] np))
      ]

  passed_on :
      (pl : List PacketFrags) (np : NetPackInfo)
      → AllSound pl
      → np.total_packets ≤ 1
      → Answered pl np
  unfolding defrag
  passed_on pl np all single = record {
    out = some np;
    after = pl;
    eq = ground (arith, single);
    sound = all;
    others = λ j ne. refl;
    keeps = λ P held new. held;
    given = inr (inl (single, refl));
  }

  dropped_beyond :
      (pl : List PacketFrags) (np : NetPackInfo)
      → 1 < np.total_packets
      → np.total_packets < np.packet_no
      → defrag malloc pl np ≡ some (none, pl)
  unfolding defrag
  dropped_beyond pl np several beyond = ground (arith, several, beyond)

  dropped_new :
      (pl : List PacketFrags) (np : NetPackInfo)
      → find_frags np.private_from_low_layer pl ≡ none
      → 1 < np.total_packets
      → np.packet_no ≤ np.total_packets
      → (np.packet_no ≢ 1) ⊎ (64 < np.total_packets)
      → defrag malloc pl np ≡ some (none, pl)
  unfolding defrag cached cached_new
  dropped_new pl np unknown several inside why = ground (arith, unknown, several, inside, why)

  by_entry :
      (pl : List PacketFrags) (np : NetPackInfo)
      → AllSound pl
      → length np.start ≤ 2 ^ 24
      → 1 < np.total_packets
      → np.packet_no ≤ np.total_packets
      → (find_frags np.private_from_low_layer pl ≡ none)
        ⊎ ((f : PacketFrags) × (find_frags np.private_from_low_layer pl ≡ some f))
      → Answered pl np
  by_entry pl np all small several inside (inr (f, found)) =
      listed-Answered pl np f all small found several inside
  by_entry pl np all small several inside (inl unknown) = elim (ℕ_discrete np.packet_no 1) [
    | no later ↦ same_table pl np all (dropped_new pl np unknown several inside (inl later))
    | yes at_one ↦ elim (dec_lt 64 np.total_packets) [
      | yes many ↦ same_table pl np all (dropped_new pl np unknown several inside (inr many))
      | no few ↦ first-Answered pl np all small unknown several (omega (arith, few)) at_one
    ]
  ]

  -- Whatever fragment of at most 16 megabytes comes when the entries of the table are sound, the call
  -- ends with no access out of bounds and a sound table in which other packets' entries are as before.
  -- An entry holds no fragment but those that it held and, under its identity, the new one. The call
  -- returns NULL, or its argument if that is no fragment, or the payloads of the fragments in the table's
  -- entry of its identity and its own, which are then at most 64 and numbered 1, 2 and so on, in this order.
  pub defrag_lem :
      (pl : List PacketFrags) (np : NetPackInfo)
      → AllSound pl
      → length np.start ≤ 2 ^ 24
      → Answered pl np
  defrag_lem pl np all small = elim (Bool-cases (leb np.total_packets 1)) [
    | inl single ↦ passed_on pl np all (ground (arith, single))
    | inr several ↦ elim (Bool-cases (ltb np.total_packets np.packet_no)) [
      | inl beyond ↦
          same_table pl np all
            (dropped_beyond pl np (ground (arith, several)) (ground (arith, beyond)))
      | inr inside ↦
          by_entry pl np all small (ground (arith, several)) (ground (arith, inside))
            (Option-cases (find_frags np.private_from_low_layer pl))
    ]
  ]

-- When a packet's time runs out, its entry goes and the others stay.
pub expire_lem :
    (pl : List PacketFrags) (i : ℕ)
    → AllSound pl
    → AllSound (expire pl i) × ((j : ℕ) → j ≢ i → find_frags j (expire pl i) ≡ find_frags j pl)
unfolding expire
expire_lem pl i all = (AllSound-delete_frags i pl all, λ j ne. find_frags-delete_frags i j pl ne)
