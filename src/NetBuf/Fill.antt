-- ===== src/NetBuf/Fill.antt =====
-- Filling the next free block.
use hm_platform.Base.{
  ℕ, zero, suc, ◌+◌, ◌-◌, ◌≤◌, ◌<◌, ◌≡◌, refl, sym, ap, ap₂, ◌∙◌, subst, inl, true, List, [], ◌∷◌,
  ◌++◌, arith, ◌==◌, length, some, get_or, set, take, drop, length-append, length-take, length-drop,
  length-set, get_or-set_self,
}
use hm_platform.NetBuf.{
  NetBuf, BufBlock, no_block, block_at, data_of, step_from, memcpy, write_ok, fill_next,
}
use hm_platform.NetBuf.Window.{pos, stored, Along, stored_snoc, Along-snoc, stored-set, Along-set}
use hm_platform.NetBuf.Inv.{Ring, Ring-IsValid, IsValid, contents, Fits, Idle}

take_eq : {i j : ℕ} (xs ys : List ℕ) → i ≡ j → take j xs ≡ ys → take i xs ≡ ys
take_eq xs ys e h = rw e h

take-over :
    (e : ℕ) (raw src rest : List ℕ)
    → e ≤ length raw
    → take (e + length src) (take e raw ++ (src ++ rest)) ≡ take e raw ++ src
take-over zero raw [] rest h = refl
take-over zero raw (x ∷ src) rest h =
    take_eq {j = suc (0 + length src)} (x ∷ (src ++ rest)) (x ∷ src) (omega arith)
      (ap (◌∷◌ x) (take-over 0 raw src rest (omega arith)))
take-over (suc e) [] src rest h = absurd (omega arith)
take-over (suc e) (x ∷ raw) src rest h =
    take_eq {j = suc (e + length src)} (x ∷ (take e raw ++ (src ++ rest))) (x ∷ (take e raw ++ src))
      (omega arith) (ap (◌∷◌ x) (take-over e raw src rest (omega arith)))

-- Data copied behind a slice of a block extends the slice.
pub slice-memcpy :
    (s e : ℕ) (raw src rest : List ℕ)
    → s ≤ e
    → e ≤ length raw
    → take (e + length src - s) (drop s (take e raw ++ (src ++ rest)))
      ≡ take (e - s) (drop s raw) ++ src
slice-memcpy zero e raw src rest h k =
    take_eq {j = e + length src} (take e raw ++ (src ++ rest)) _ (omega arith)
      (take-over e raw src rest k ∙ ap (λ j. take j raw ++ src) (omega arith))
slice-memcpy (suc s) zero raw src rest h k = absurd (omega arith)
slice-memcpy (suc s) (suc e) [] src rest h k = absurd (omega arith)
slice-memcpy (suc s) (suc e) (x ∷ raw) src rest h k =
    take_eq {j = e + length src - s} (drop s (take e raw ++ (src ++ rest))) _ (omega arith) (
      slice-memcpy s e raw src rest (omega arith) (omega arith)
      ∙ ap (λ j. take j (drop s raw) ++ src) (omega arith))

pub length-memcpy :
    (raw : List ℕ) (p : ℕ) (src : List ℕ)
    → p + length src ≤ length raw
    → length (memcpy raw p src) ≡ length raw
length-memcpy raw p src h = omega (
  arith,
  length-append (take p raw) (src ++ drop (p + length src) raw),
  length-append src (drop (p + length src) raw),
  length-take p raw,
  length-drop (p + length src) raw,
)

module _ (m : ℕ) (b : NetBuf) (d k : ℕ) (r : Ring m b d k) (free : k < b.num_buffers)
    (rest : List ℕ) (some_rest : 0 < length rest) (short : length rest ≤ m) where
  -- The block that is filled, and the ring with it.
  unfoldable pub filled_block : BufBlock
  filled_block = record (block_at b b.next_use) {
    is_busy = true;
    start_pos = 0;
    end_pos = length rest;
    raw_data = memcpy (block_at b b.next_use).raw_data 0 rest;
  }

  unfoldable pub filled : NetBuf
  filled = record b {
    next_deal = d;
    next_use = step_from b.num_buffers b.next_use;
    no_blocks = suc k == b.num_buffers;
    buffer_bytes = b.buffer_bytes + length rest;
    buff = set b.buff b.next_use filled_block;
  }

  next_free : Idle m (block_at b b.next_use)
  next_free =
      head_of_idle (b.num_buffers - k) (omega arith) (
        subst (λ u. Along b.num_buffers b.buff (Idle m) u (b.num_buffers - k)) (sym r.use_at)
          r.idle)
    where
      head_of_idle :
          (j : ℕ)
          → 0 < j
          → Along b.num_buffers b.buff (Idle m) b.next_use j
          → Idle m (block_at b b.next_use)
      head_of_idle zero h a = absurd (omega arith)
      head_of_idle (suc j) h a = a.0

  filled_block-Fits : Fits m filled_block
  unfolding filled_block
  filled_block-Fits = record {
    busy = refl;
    some_data = some_rest;
    inside = short;
    room =
        length-memcpy (block_at b b.next_use).raw_data 0 rest (omega (arith, next_free.room, short))
        ∙ next_free.room;
  }

  filled_block-data : data_of filled_block ≡ rest
  unfolding filled_block
  filled_block-data =
      take_eq {j = 0 + length rest - 0} (rest ++ _) rest (omega arith)
        (slice-memcpy 0 0 (block_at b b.next_use).raw_data rest _ (omega arith) (omega arith))

  abbrev filled_buff : List BufBlock
  filled_buff = set b.buff b.next_use filled_block

  written : get_or (set b.buff b.next_use filled_block) b.next_use no_block ≡ filled_block
  written =
      get_or-set_self b.buff b.next_use filled_block no_block
        (ground (arith, r.size, r.use_at, r.head_in))

  -- The write stands outside the blocks with data, and at their end.
  used_before : Along b.num_buffers filled_buff (Fits m) d k
  used_before =
      Along-set b.num_buffers b.buff (Fits m) d k b.next_use filled_block r.head_in r.count_in
        (ground (arith, r.use_at, r.head_in)) (ground (arith, r.use_at, r.head_in, r.count_in))
        r.used

  last_written : get_or filled_buff (pos b.num_buffers d k) no_block ≡ filled_block
  last_written = rw (← r.use_at) written

  free_after :
      Along b.num_buffers filled_buff (Idle m) (pos b.num_buffers d (suc k)) (b.num_buffers - suc k)
  free_after =
      let n = b.num_buffers in
      let old =
        subst (Along n b.buff (Idle m) (pos n d k)) {y = suc (n - suc k)} (omega arith) r.idle in
      Along-set n b.buff (Idle m) (pos n d (suc k)) (n - suc k) b.next_use filled_block
        (ground (arith, r.head_in)) (omega arith) (ground (arith, r.use_at, r.head_in))
        (ground (arith, r.use_at, r.head_in))
        (subst (λ u. Along n b.buff (Idle m) u (n - suc k)) (ground (arith, r.head_in)) old.1)

  pub filled-Ring : Ring m filled d (suc k)
  unfolding filled
  filled-Ring = record {
    head_in = r.head_in;
    count_in = free;
    size = length-set b.buff b.next_use filled_block ∙ r.size;
    deal = inl (omega arith, refl);
    use_at = ground (arith, r.use_at, r.head_in);
    full = ground arith;
    used =
        Along-snoc b.num_buffers filled_buff (Fits m) d k r.head_in free used_before
          (subst (Fits m) (sym last_written) filled_block-Fits);
    idle = free_after;
  }

  pub stored-filled :
      stored b.num_buffers filled.buff d (suc k) ≡ stored b.num_buffers b.buff d k ++ rest
  unfolding filled
  stored-filled =
      stored_snoc b.num_buffers filled_buff d k r.head_in free
      ∙ ap₂ ◌++◌
          (stored-set b.num_buffers b.buff d k b.next_use filled_block r.head_in r.count_in
            (ground (arith, r.use_at, r.head_in)) (ground (arith, r.use_at, r.head_in, r.count_in)))
          (ap data_of last_written ∙ filled_block-data)

  pub fill_next-filled : fill_next b rest ≡ some filled
  unfolding fill_next filled write_ok filled_block
  fill_next-filled = ground (arith, next_free.not_busy, r.deal, r.use_at, r.full, r.head_in)

-- With a free block, the next one is filled: the bytes go behind those of the ring.
pub fill_next_lem :
    (m : ℕ) (b : NetBuf) (d k : ℕ) (rest : List ℕ)
    → Ring m b d k
    → b.buffer_bytes ≡ length (stored b.num_buffers b.buff d k)
    → k < b.num_buffers
    → 0 < length rest
    → length rest ≤ m
    → (b2 : NetBuf) × (fill_next b rest ≡ some b2)
      × IsValid m b2
      × (contents b2 ≡ stored b.num_buffers b.buff d k ++ rest)
unfolding filled
fill_next_lem m b d k rest r c free some_rest short =
    let st = stored-filled m b d k r free rest some_rest short in
    let (v, e) =
      Ring-IsValid m (filled m b d k r free rest some_rest short) d (suc k)
        (filled-Ring m b d k r free rest some_rest short)
        (omega (arith, c, ap length st, length-append (stored b.num_buffers b.buff d k) rest)) in
    (
      filled m b d k r free rest some_rest short,
      fill_next-filled m b d k r free rest some_rest short,
      v,
      e ∙ st,
    )
