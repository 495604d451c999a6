-- ===== src/NetBuf/Drain.antt =====
-- `net_buf_flush`: what reaches the flush worker, and what stays.
use hm_platform.Base.{
  ℕ, zero, suc, ◌-◌, ◌≡◌, refl, sym, ◌∙◌, subst₂, inr, false, arith, ◌==◌, if◌then◌else◌, length,
  get_or, set, drop, length-set, length-take, length-drop, get_or-set_self,
}
use hm_platform.NetBuf.{NetBuf, BufBlock, no_block, block_at, cleared, data_of, step_from, flush_ok}
use hm_platform.NetBuf.Window.{
  pos, pos_zero, pos_step, step-lt, stored, Along, Along-set, Along-snoc, stored-set, Outside,
}
use hm_platform.NetBuf.Inv.{Ring, Fits, Idle}

module _ (m : ℕ) (b : NetBuf) (d k : ℕ) (r : Ring m b d (suc k)) where
  first_apart : Outside b.num_buffers (step_from b.num_buffers d) k d
  first_apart = ground (arith, r.head_in, r.count_in)

  rest_from : pos b.num_buffers (step_from b.num_buffers d) k ≡ pos b.num_buffers d (suc k)
  rest_from = pos_step b.num_buffers d k r.head_in r.count_in

  new_block : get_or (set b.buff d (cleared (block_at b d))) d no_block ≡ cleared (block_at b d)
  new_block = get_or-set_self b.buff d _ no_block (omega (arith, r.size, r.head_in))

  -- A write to the first block leaves the others as they are.
  pub still_used :
      (first : BufBlock)
      → Along b.num_buffers (set b.buff d first) (Fits m) (step_from b.num_buffers d) k
  still_used first =
      Along-set b.num_buffers b.buff (Fits m) (step_from b.num_buffers d) k d first
        (step-lt b.num_buffers d r.head_in) (omega (arith, r.count_in)) r.head_in first_apart
        r.used.1

  pub still_free :
      (first : BufBlock)
      → Along b.num_buffers
          (set b.buff d first)
          (Idle m)
          (pos b.num_buffers d (suc k))
          (b.num_buffers - suc k)
  still_free first =
      Along-set b.num_buffers b.buff (Idle m) (pos b.num_buffers d (suc k)) (b.num_buffers - suc k)
        d first (ground (arith, r.head_in, r.count_in)) (omega arith) r.head_in
        (ground (arith, r.head_in, r.count_in)) r.idle

  pub still_stored :
      (first : BufBlock)
      → stored b.num_buffers (set b.buff d first) (step_from b.num_buffers d) k
        ≡ stored b.num_buffers b.buff (step_from b.num_buffers d) k
  still_stored first =
      stored-set b.num_buffers b.buff (step_from b.num_buffers d) k d first
        (step-lt b.num_buffers d r.head_in) (omega (arith, r.count_in)) r.head_in first_apart

  now_free :
      Along b.num_buffers
        (set b.buff d (cleared (block_at b d)))
        (Idle m)
        (pos b.num_buffers (step_from b.num_buffers d) k)
        (b.num_buffers - k)
  now_free =
      let n = b.num_buffers in
      let u = pos n d (suc k) in
      let back : pos n u (n - suc k) ≡ d = ground (arith, r.head_in, r.count_in) in
      let freed : Idle m
          (get_or (set b.buff d (cleared (block_at b d))) (pos n u (n - suc k)) no_block) =
        rw (back, new_block) (record { not_busy = refl; room = r.used.0.room }) in
      subst₂ (Along n (set b.buff d (cleared (block_at b d))) (Idle m)) {u = suc (n - suc k)}
        (sym rest_from) (omega (arith, r.count_in))
        (Along-snoc n _ (Idle m) u (n - suc k) (ground (arith, r.head_in, r.count_in))
          (omega (arith, r.count_in)) (still_free _) freed)

  -- The ring without its first block.
  unfoldable pub flushed : NetBuf
  flushed = record b {
    no_blocks = false;
    buff = set b.buff d (cleared (block_at b d));
    next_deal = if k == 0 then b.num_buffers else step_from b.num_buffers d;
  }

  pub flushed-Ring : Ring m flushed (step_from b.num_buffers d) k
  unfolding flushed
  flushed-Ring = record {
    head_in = step-lt b.num_buffers d r.head_in;
    count_in = omega (arith, r.count_in);
    size = length-set b.buff d _ ∙ r.size;
    deal = ground arith;
    use_at = r.use_at ∙ sym rest_from;
    full = inr (omega (arith, r.count_in), refl);
    used = still_used _;
    idle = now_free;
  }

-- Behind the only block with data stands a free one.
second_free :
    (m : ℕ) (b : NetBuf) (d : ℕ) (r : Ring m b d 1)
    → Idle m (get_or (set b.buff d (cleared (block_at b d))) (step_from b.num_buffers d) no_block)
second_free m b d r =
    let n = b.num_buffers in
    let all =
      subst₂ (Along n (set b.buff d (cleared (block_at b d))) (Idle m)) {v = suc (n - 1)}
        (pos_zero n (step_from n d) (step-lt n d r.head_in)) (omega (arith, r.count_in))
        (now_free m b d 0 r) in
    all.0

pub flush_ok-flushed :
    (m : ℕ) (b : NetBuf) (d k : ℕ) (r : Ring m b d (suc k)) → flush_ok b ≡ flushed m b d k r
unfolding flushed flush_ok
flush_ok-flushed m b d zero r = ground (arith, r.deal, (second_free m b d r).not_busy)
flush_ok-flushed m b d (suc k) r =
    ground (arith, r.deal, (still_used m b d (suc k) r (cleared (block_at b d))).0.busy)

-- The bytes behind the first block are those of the ring that starts at the next one.
pub stored-flushed :
    (m : ℕ) (b : NetBuf) (d k : ℕ) (r : Ring m b d (suc k))
    → stored b.num_buffers (flushed m b d k r).buff (step_from b.num_buffers d) k
      ≡ stored b.num_buffers b.buff (step_from b.num_buffers d) k
unfolding flushed
stored-flushed m b d k r = still_stored m b d k r _

pub flushed-counted :
    (m : ℕ) (b : NetBuf) (d k : ℕ) (r : Ring m b d (suc k))
    → b.buffer_bytes ≡ length (stored b.num_buffers b.buff (step_from b.num_buffers d) k)
    → (flushed m b d k r).buffer_bytes
      ≡ length (stored b.num_buffers (flushed m b d k r).buff (step_from b.num_buffers d) k)
unfolding flushed
flushed-counted m b d k r c = rw (stored-flushed m b d k r) c

pub length-data : (m : ℕ) (k : BufBlock) → Fits m k → length (data_of k) ≡ k.end_pos - k.start_pos
length-data m k f = omega (
  arith,
  length-take (k.end_pos - k.start_pos) (drop k.start_pos k.raw_data),
  length-drop k.start_pos k.raw_data,
  f.inside,
  f.room,
)
