-- ===== src/Defrag/Runs.antt =====
-- The delivery of a packet's fragments, one call of hm_net_packet_defrag after the other:
-- hmshare/src/hm_fragments.c.
use hm_platform.Base.{
  ℕ, zero, suc, ◌+◌, ◌^◌, ◌<◌, ◌≤◌, ◌≡◌, refl, sym, ap, ◌∙◌, List, [], ◌∷◌, inl, arith, length,
  Option, none, some, ◌>>=◌,
}
use hm_platform.Defrag.{NetPackInfo, PacketFrags, find_frags, replace_frags, delete_frags, defrag}
use hm_platform.Defrag.Sorted.{
  sizes, Lacks, Numbered, Rising-Numbered, length-insert_packet, sizes-insert_packet,
}
use hm_platform.Defrag.Whole.{made_of, IsMalloc}
use hm_platform.Defrag.Table.{
  from_parts, IsPart, AllPart, AllPart-insert_packet, payload-from_parts, identity_of_lem, Distinct,
  Apart, Apart-insert_packet, Apart-single, InProgress, with_one, with_one-rises,
  with_one-InProgress, defrag_more, defrag_last, entry_of, entry_of-InProgress, defrag_first,
}

-- A sequence of calls, with what each returns.
pub deliver :
    (ℕ → Option (List ℕ))
    → List PacketFrags
    → List NetPackInfo
    → Option (List (Option NetPackInfo) × List PacketFrags)
deliver malloc pl [] = some ([], pl)
deliver malloc pl (np ∷ rest) = do
  r ← defrag malloc pl np
  later ← deliver malloc r.1 rest
  some (r.0 ∷ later.0, later.1)

-- NULL for every fragment but the last.
abbrev pub answers : ℕ → NetPackInfo → List (Option NetPackInfo)
answers zero npi = []
answers (suc zero) npi = some npi ∷ []
answers (suc (suc n)) npi = none ∷ answers (suc n) npi

module _ (malloc : ℕ → Option (List ℕ)) (sized : IsMalloc malloc) where
  pub deliver_cons :
      (pl pl1 pl2 : List PacketFrags) (np : NetPackInfo) (rest : List NetPackInfo)
      (out : Option NetPackInfo) (outs : List (Option NetPackInfo))
      → defrag malloc pl np ≡ some (out, pl1)
      → deliver malloc pl1 rest ≡ some (outs, pl2)
      → deliver malloc pl (np ∷ rest) ≡ some (out ∷ outs, pl2)
  unfolding deliver
  deliver_cons pl pl1 pl2 np rest out outs first later = ground (arith, first, later)

  pub deliver_nil : (pl : List PacketFrags) → deliver malloc pl [] ≡ some ([], pl)
  unfolding deliver
  deliver_nil pl = refl

  find_head :
      (f : PacketFrags) (pl : List PacketFrags) (i : ℕ)
      → f.packet_identity ≡ i
      → find_frags i (f ∷ pl) ≡ some f
  unfolding find_frags
  find_head f pl i same = ground (arith, same)

  replace_head :
      (f g : PacketFrags) (pl : List PacketFrags) (i : ℕ)
      → f.packet_identity ≡ i
      → replace_frags i g (f ∷ pl) ≡ g ∷ pl
  unfolding replace_frags
  replace_head f g pl i same = ground (arith, same)

  delete_head :
      (f : PacketFrags) (pl : List PacketFrags) (i : ℕ)
      → f.packet_identity ≡ i
      → delete_frags i (f ∷ pl) ≡ pl
  unfolding delete_frags
  delete_head f pl i same = ground (arith, same)

  module _ (identity total : ℕ) (part : ℕ → List ℕ) where
    -- The packet that the fragments make up.
    abbrev pub whole_packet : NetPackInfo
    whole_packet = record {
      total_packets = 1;
      packet_no = 1;
      start = from_parts part 1 total;
      private_from_low_layer = identity;
    }

    made_of_parts :
        (ps : List NetPackInfo)
        → Numbered 1 ps
        → AllPart identity total part ps
        → length ps ≡ total
        → 0 < total
        → made_of ps ≡ whole_packet
    made_of_parts ps numbered all full some_part =
        let same =
          payload-from_parts identity total part 1 ps numbered all ∙ ap (from_parts part 1) full in
        let who =
          identity_of_lem identity total part ps 0 all (inl refl)
            (omega (arith, full, some_part)) in
        ground (arith, same, who)

    -- One more fragment of the entry at the head of the table.
    module _ (f : PacketFrags) (pl : List PacketFrags) (np : NetPackInfo) (good : InProgress f)
        (same_id : f.packet_identity ≡ identity) (same_total : f.total ≡ total)
        (held : AllPart identity total part f.packets) (here : IsPart identity total part np)
        (lacks : Lacks np.packet_no f.packets)
        (small : sizes f.packets + length np.start < 2 ^ 31) where
      fits : np.packet_no ≤ f.total
      fits = omega (arith, here.within, same_total)

      same : f.packet_identity ≡ np.private_from_low_layer
      same = same_id ∙ sym here.of_packet

      several : 1 < np.total_packets
      several = omega (arith, good.begun, good.open_still, same_total, here.counts)

      within : np.packet_no ≤ np.total_packets
      within = omega (arith, here.within, here.counts)

      -- The entry with the fragment.
      abbrev next_entry : PacketFrags
      next_entry = with_one malloc sized f np good fits here.positive lacks small here.filled

      one_more : suc f.eat < f.total → defrag malloc (f ∷ pl) np ≡ some (none, next_entry ∷ pl)
      one_more more =
          defrag_more malloc sized f np good fits here.positive lacks small here.filled (f ∷ pl)
            (find_head f pl np.private_from_low_layer same) several within more
          ∙ ap (λ t. some (none, t)) (replace_head f next_entry pl np.private_from_low_layer same)

      next_InProgress : suc f.eat < f.total → InProgress next_entry
      next_InProgress =
          with_one-InProgress malloc sized f np good fits here.positive lacks small here.filled

      next_held : AllPart identity total part next_entry.packets
      next_held = AllPart-insert_packet identity total part f.packets np held here

      next_full : suc f.eat ≡ f.total → length next_entry.packets ≡ total
      next_full last =
          omega (arith, last, good.counted, same_total, length-insert_packet f.packets np)

      next-Numbered : suc f.eat ≡ f.total → Numbered 1 next_entry.packets
      next-Numbered last =
          Rising-Numbered 0 f.total next_entry.packets
            (with_one-rises malloc sized f np good fits here.positive lacks small here.filled)
            (omega (arith, next_full last, same_total))

      last_one : suc f.eat ≡ f.total → defrag malloc (f ∷ pl) np ≡ some (some whole_packet, pl)
      last_one last =
          defrag_last malloc sized f np good fits here.positive lacks small here.filled (f ∷ pl)
            (find_head f pl np.private_from_low_layer same) several within last
          ∙ ap (λ t. some (some (made_of next_entry.packets), t))
              (delete_head f pl np.private_from_low_layer same)
          ∙ ap (λ t. some (some t, pl))
              (made_of_parts next_entry.packets (next-Numbered last) next_held (next_full last)
                (omega (arith, good.open_still, same_total)))

    -- The fragments that are missing arrive.
    rest_arrives :
        (f : PacketFrags) (pl : List PacketFrags) (ps : List NetPackInfo)
        → InProgress f
        → f.packet_identity ≡ identity
        → f.total ≡ total
        → AllPart identity total part f.packets
        → AllPart identity total part ps
        → Distinct ps
        → Apart f.packets ps
        → f.eat + length ps ≡ total
        → sizes f.packets + sizes ps < 2 ^ 31
        → deliver malloc (f ∷ pl) ps ≡ some (answers (length ps) whole_packet, pl)
    rest_arrives f pl [] good same_id same_total held to_come distinct apart count small =
        absurd (omega (arith, good.open_still, same_total, count))
    rest_arrives f pl (np ∷ []) good same_id same_total held to_come distinct apart count small =
        deliver_cons (f ∷ pl) pl pl np [] (some whole_packet) []
          (last_one f pl np good same_id same_total held to_come.0 apart.0 (omega (arith, small))
            (omega (arith, count, same_total)))
          (deliver_nil pl)
    rest_arrives f pl (np ∷ next ∷ ps) good same_id same_total held to_come distinct apart count
          small =
        let fitting : sizes f.packets + length np.start < 2 ^ 31 = omega (arith, small) in
        let more : suc f.eat < f.total = omega (arith, count, same_total) in
        deliver_cons (f ∷ pl)
          (next_entry f pl np good same_id same_total held to_come.0 apart.0 fitting ∷ pl) pl np
          (next ∷ ps) none (answers (suc (length ps)) whole_packet)
          (one_more f pl np good same_id same_total held to_come.0 apart.0 fitting more)
          (rest_arrives (next_entry f pl np good same_id same_total held to_come.0 apart.0 fitting)
            pl (next ∷ ps)
            (next_InProgress f pl np good same_id same_total held to_come.0 apart.0 fitting more)
            same_id same_total
            (next_held f pl np good same_id same_total held to_come.0 apart.0 fitting) to_come.1
            distinct.1 (Apart-insert_packet f.packets np (next ∷ ps) apart.1 distinct.0)
            (omega (arith, count)) (omega (arith, small, sizes-insert_packet f.packets np)))

    -- A packet cut into 2 to 64 fragments, none of them empty, which arrive in any order but for the first, each once and
    -- with nothing of another packet between them, when the table has no entry of its identity: if
    -- the payloads together are below two gigabytes, every call but the last returns NULL, the last
    -- returns the payloads in the order of their numbers as one packet, and the table is left as it was.
    pub deliver_lem :
        (pl : List PacketFrags) (first : NetPackInfo) (ps : List NetPackInfo)
        → find_frags identity pl ≡ none
        → 1 < total
        → total ≤ 64
        → first.packet_no ≡ 1
        → AllPart identity total part (first ∷ ps)
        → Distinct (first ∷ ps)
        → length (first ∷ ps) ≡ total
        → sizes (first ∷ ps) < 2 ^ 31
        → deliver malloc pl (first ∷ ps) ≡ some (answers total whole_packet, pl)
    deliver_lem pl first [] unknown several few at_one parts distinct count small =
        absurd (omega (arith, several, count))
    deliver_lem pl first (next ∷ ps) unknown several few at_one parts distinct count small =
        let here = parts.0 in
        let count_of : 1 < first.total_packets = omega (arith, several, here.counts) in
        let few_of : first.total_packets ≤ 64 = omega (arith, few, here.counts) in
        deliver_cons pl (entry_of malloc sized first ∷ pl) pl first (next ∷ ps) none
          (answers (suc (length ps)) whole_packet)
          (defrag_first malloc sized pl first (ap (λ i. find_frags i pl) here.of_packet ∙ unknown)
            at_one count_of few_of (omega (arith, small)) here.filled)
          (rest_arrives (entry_of malloc sized first) pl (next ∷ ps)
            (entry_of-InProgress malloc sized first at_one count_of few_of) here.of_packet
            here.counts (here, tt) parts.1 distinct.1 (Apart-single first (next ∷ ps) distinct.0)
            (omega (arith, count)) (omega (arith, small)))
        ∙ ap (λ n. some (answers n whole_packet, pl)) {x = suc (suc (length ps))} count
