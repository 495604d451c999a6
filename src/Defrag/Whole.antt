-- ===== src/Defrag/Whole.antt =====
-- The copies of fragments and of whole packets: hmshare/src/hm_fragments.c.
use hm_platform.Base.{
  ℕ, suc, ◌+◌, ◌^◌, ◌<◌, ◌≤◌, ◌≡◌, refl, sym, ap, ◌∙◌, List, [], ◌∷◌, ◌++◌, append-nil,
  append_assoc, ◌==◌, if◌then◌else◌, arith, length, Option, none, some, take, drop, drop_all,
  length-append, length-drop,
}
use hm_platform.Defrag.{
  NetPackInfo, PacketFrags, memcpy, new_npi, copied, copy_npi, copy_packets, joined_into, joined,
  linearize, sanity_test, whole,
}
use hm_platform.Defrag.Sorted.{payload, sizes, Numbered, sane_from_full}

take_append : (xs ys : List ℕ) → take (length xs) (xs ++ ys) ≡ xs
take_append [] ys = refl
take_append (x ∷ xs) ys = ap (◌∷◌ x) (take_append xs ys)

drop_append : (xs ys : List ℕ) (n : ℕ) → drop (length xs + n) (xs ++ ys) ≡ drop n ys
drop_append [] ys n = ap (λ k. drop k ys) (omega arith)
drop_append (x ∷ xs) ys n =
    ap (λ k. drop k (x ∷ (xs ++ ys))) {y = suc (length xs + n)} (omega arith) ∙ drop_append xs ys n

-- A copy within bounds, behind what was copied before.
memcpy_lem :
    (pre junk bytes : List ℕ)
    → length bytes ≤ length junk
    → memcpy (pre ++ junk) (length pre) bytes ≡ some ((pre ++ bytes) ++ drop (length bytes) junk)
unfolding memcpy
memcpy_lem pre junk bytes fits =
    let put =
      ap (λ t. t ++ (bytes ++ drop (length pre + length bytes) (pre ++ junk)))
        (take_append pre junk)
      ∙ ap (λ t. pre ++ (bytes ++ t)) (drop_append pre junk (length bytes))
      ∙ sym (append_assoc pre bytes (drop (length bytes) junk)) in
    ground (arith, fits, put, length-append pre junk)

-- The first identity that is not NULL.
abbrev pub identity_of : List NetPackInfo → ℕ → ℕ
identity_of [] identity = identity
identity_of (p ∷ ps) identity =
    identity_of ps (if identity == 0 then p.private_from_low_layer else identity)

-- A packet made whole.
abbrev pub made_of : List NetPackInfo → NetPackInfo
made_of ps = record {
  total_packets = 1;
  packet_no = 1;
  start = payload ps;
  private_from_low_layer = identity_of ps 0;
}

-- What glib says of `g_malloc`: NULL for no bytes, else as many as were asked for.
pub record IsMalloc (malloc : ℕ → Option (List ℕ)) : Type 0 where
  pub nothing : malloc 0 ≡ none
  pub given : (n : ℕ) → 0 < n → (bytes : List ℕ) × malloc n ≡ some bytes × length bytes ≡ n

module _ (malloc : ℕ → Option (List ℕ)) (sized : IsMalloc malloc) where
  pub copy_npi_lem : (np : NetPackInfo) → 0 < length np.start → copy_npi malloc np ≡ some (some np)
  unfolding copy_npi new_npi copied
  copy_npi_lem np filled =
      let (bytes, got, same) = sized.given (length np.start) filled in
      let put = memcpy_lem [] bytes np.start (omega (arith, same)) in
      let rest =
        ap (λ t. np.start ++ t) (drop_all (length np.start) bytes (omega (arith, same)))
        ∙ append-nil np.start in
      ground (arith, got, put, rest)

  -- A fragment without a payload is not copied.
  pub copy_npi_empty : (np : NetPackInfo) → length np.start ≡ 0 → copy_npi malloc np ≡ some none
  unfolding copy_npi new_npi
  copy_npi_empty np empty =
      let got : malloc (length np.start) ≡ none = ap malloc empty ∙ sized.nothing in
      ground (arith, got)

  copy_packets_lem :
      (ps : List NetPackInfo) (pre junk : List ℕ) (pos identity : ℕ)
      → pos ≡ length pre
      → length junk ≡ sizes ps
      → length pre + sizes ps < 2 ^ 31
      → copy_packets malloc ps (pre ++ junk) pos identity
        ≡ some (pre ++ payload ps, identity_of ps identity)
  unfolding copy_packets
  copy_packets_lem [] pre [] pos identity at same small = refl
  copy_packets_lem [] pre (x ∷ junk) pos identity at same small = absurd (omega (arith, same))
  copy_packets_lem (p ∷ ps) pre junk pos identity at same small =
      let copied = memcpy_lem pre junk p.start (omega (arith, same)) in
      let rest =
        copy_packets_lem ps (pre ++ p.start) (drop (length p.start) junk) (pos + length p.start)
          (if identity == 0 then p.private_from_low_layer else identity)
          (omega (arith, at, length-append pre p.start))
          (omega (arith, same, length-drop (length p.start) junk))
          (omega (arith, small, length-append pre p.start)) in
      ground (arith, at, copied, rest, small, append_assoc pre p.start (payload ps))

  -- Consecutive fragments of less than two gigabytes, which are not empty, are joined.
  pub linearize_full :
      (frags : PacketFrags)
      → Numbered 1 frags.packets
      → length frags.packets < 2 ^ 31
      → sizes frags.packets < 2 ^ 31
      → 0 < sizes frags.packets
      → frags.total_size ≡ sizes frags.packets
      → linearize malloc frags ≡ some (whole (made_of frags.packets), frags)
  unfolding linearize joined joined_into sanity_test new_npi
  linearize_full frags numbered few small filled same =
      let sane =
        sane_from_full frags.packets 1 0 frags.total_size numbered (omega (arith, few))
          (omega (arith, small)) (omega (arith, same)) in
      let (bytes, got, size) = sized.given frags.total_size (omega (arith, same, filled)) in
      let made =
        copy_packets_lem frags.packets [] bytes 0 0 refl (omega (arith, same, size))
          (omega (arith, small)) in
      ground (arith, sane, got, made)
