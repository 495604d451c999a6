-- ===== src/NetBuf/Append.antt =====
-- Appending to the block that was filled last.
use hm_platform.Base.{
  ℕ, suc, ◌+◌, ◌-◌, ◌≤◌, ◌<◌, ◌≡◌, sym, ap, ap₂, ◌∙◌, subst, Bool, true, List, ◌++◌, arith, ◌==◌,
  if◌then◌else◌, length, some, none, get_or, set, append_assoc, length-append, length-set,
  get_or-set_self,
}
use hm_platform.NetBuf.{
  NetBuf, BufBlock, no_block, block_at, put_block, data_of, memcpy, last_pos, append, Wire, Flusher,
  bytes,
}
use hm_platform.NetBuf.Window.{
  pos, stored, Along, stored_snoc, Along-snoc, Along_last, Along-init, stored-set, Along-set,
}
use hm_platform.NetBuf.Inv.{Ring, Ring-IsValid, IsValid, contents, Fits, Idle}
use hm_platform.NetBuf.Fill.{slice-memcpy, length-memcpy}

-- In an empty ring the last block is free.
pub last_pos-none : (m : ℕ) (b : NetBuf) (d : ℕ) → Ring m b d 0 → last_pos b ≡ none
unfolding last_pos
last_pos-none m b d r =
    let n = b.num_buffers in
    let u = pos n d 0 in
    let all =
      subst (Along n b.buff (Idle m) u) {y = suc (n - 1)} (omega (arith, r.head_in)) r.idle in
    let last =
      Along_last n b.buff (Idle m) u (n - 1) (ground (arith, r.head_in)) (omega (arith, r.head_in))
        all in
    let at : pos n u (n - 1) ≡ (if b.next_use == 0 then n - 1 else b.next_use - 1) =
      ground (arith, r.use_at, r.head_in) in
    rw (← at) (rw last.not_busy)

module _ (m : ℕ) (b : NetBuf) (d k : ℕ) (r : Ring m b d (suc k)) where
  abbrev pub last : ℕ
  last = pos b.num_buffers d k

  pub last-Fits : Fits m (block_at b last)
  last-Fits = Along_last b.num_buffers b.buff (Fits m) d k r.head_in r.count_in r.used

  pub last_pos-last : last_pos b ≡ some last
  unfolding last_pos
  last_pos-last =
      let at : last ≡ (if b.next_use == 0 then b.num_buffers - 1 else b.next_use - 1) =
        ground (arith, r.use_at, r.head_in, r.count_in) in
      rw (← at) (rw last-Fits.busy)

  module _ (bs : List ℕ) (short : length bs ≤ m - (block_at b last).end_pos) where
    unfoldable pub longer_block : BufBlock
    longer_block = record (block_at b last) {
      raw_data = memcpy (block_at b last).raw_data (block_at b last).end_pos bs;
      end_pos = (block_at b last).end_pos + length bs;
    }

    unfoldable pub longer : NetBuf
    longer = record (put_block b last longer_block) { buffer_bytes = b.buffer_bytes + length bs }

    longer_block-Fits : Fits m longer_block
    unfolding longer_block
    longer_block-Fits =
        let f = last-Fits in
        let l =
          length-memcpy (block_at b last).raw_data (block_at b last).end_pos bs
            (omega (arith, f.room, f.inside)) in
        record {
          busy = f.busy;
          some_data = omega (arith, f.some_data);
          inside = omega (arith, f.inside);
          room = l ∙ f.room;
        }

    longer_block-data : data_of longer_block ≡ data_of (block_at b last) ++ bs
    unfolding longer_block
    longer_block-data =
        slice-memcpy (block_at b last).start_pos (block_at b last).end_pos
          (block_at b last).raw_data bs _ (omega (arith, last-Fits.some_data))
          (omega (arith, last-Fits.room, last-Fits.inside))

    written : get_or (set b.buff last longer_block) last no_block ≡ longer_block
    written =
        get_or-set_self b.buff last longer_block no_block
          (ground (arith, r.size, r.head_in, r.count_in))

    pub longer-Ring : Ring m longer d (suc k)
    unfolding longer
    longer-Ring =
        let n = b.num_buffers in
        let before = Along-init n b.buff (Fits m) d k r.used in
        record {
          head_in = r.head_in;
          count_in = r.count_in;
          size = length-set b.buff last longer_block ∙ r.size;
          deal = r.deal;
          use_at = r.use_at;
          full = r.full;
          used =
              Along-snoc n _ (Fits m) d k r.head_in r.count_in
                (Along-set n b.buff (Fits m) d k last longer_block r.head_in
                  (omega (arith, r.count_in)) (ground (arith, r.head_in, r.count_in))
                  (ground (arith, r.head_in, r.count_in)) before)
                (subst (Fits m) (sym written) longer_block-Fits);
          idle =
              Along-set n b.buff (Idle m) (pos n d (suc k)) (n - suc k) last longer_block
                (ground (arith, r.head_in, r.count_in)) (omega arith)
                (ground (arith, r.head_in, r.count_in)) (ground (arith, r.head_in, r.count_in))
                r.idle;
        }

    pub stored-longer :
        stored b.num_buffers longer.buff d (suc k) ≡ stored b.num_buffers b.buff d (suc k) ++ bs
    unfolding longer
    stored-longer =
        let n = b.num_buffers in
        stored_snoc n (set b.buff last longer_block) d k r.head_in r.count_in
        ∙ ap₂ ◌++◌
            (stored-set n b.buff d k last longer_block r.head_in (omega (arith, r.count_in))
              (ground (arith, r.head_in, r.count_in)) (ground (arith, r.head_in, r.count_in)))
            (ap data_of written ∙ longer_block-data)
        ∙ sym (append_assoc (stored n b.buff d k) (data_of (block_at b last)) bs)
        ∙ ap (λ l. l ++ bs) (sym (stored_snoc n b.buff d k r.head_in r.count_in))

-- Where the last block has room, `append` puts the bytes behind those of the ring.
pub append_lem :
    {W : Type 0} (flush : Flusher W) (m : ℕ) (b : NetBuf) (d k : ℕ) (r : Ring m b d (suc k))
    (bs : List ℕ) (pending : Bool) (w : Wire W)
    → b.buffer_bytes ≡ length (stored b.num_buffers b.buff d (suc k))
    → 0 < length bs
    → length bs ≤ m
    → length bs ≤ m - (block_at b (last m b d k r)).end_pos
    → (b2 : NetBuf) × (append m flush b bs pending w ≡ (bytes (length bs), true, b2, w))
      × IsValid m b2
      × (contents b2 ≡ stored b.num_buffers b.buff d (suc k) ++ bs)
unfolding longer longer_block append
append_lem flush m b d k r bs pending w c some_bs small short =
    let st = stored-longer m b d k r bs short in
    let (v, e) =
      Ring-IsValid m (longer m b d k r bs short) d (suc k) (longer-Ring m b d k r bs short) (
        omega (arith, c, ap length st, length-append (stored b.num_buffers b.buff d (suc k)) bs)) in
    (longer m b d k r bs short, ground (arith, short, last_pos-last m b d k r), v, e ∙ st)
