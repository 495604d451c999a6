-- ===== src/NetBuf/Rounds.antt =====
-- One round of `net_buf_flush`: hmnet/src/hm_netbuf.c.
use hm_platform.Base.{
  ℕ, suc, ◌+◌, ◌-◌, ◌≤◌, ◌<◌, ◌≡◌, refl, ap, ap₂, ◌∙◌, List, ◌++◌, arith, length, some, get_or, set,
  take, drop, length-append, length-drop, drop-take, drop-drop, length-set, get_or-set_self,
}
use hm_platform.NetBuf.{
  NetBuf, no_block, block_at, data_of, step_from, flush_ok, flush_loop, send, Wire, Flusher, Ret,
  bytes, error,
}
use hm_platform.NetBuf.Window.{stored}
use hm_platform.NetBuf.Inv.{Ring, IsValid, contents}
use hm_platform.NetBuf.Drain.{length-data, still_used, still_free, still_stored}

-- The worker takes no more bytes than it is given.
abbrev pub IsHonest : {W : Type 0} → Flusher W → Type 0
IsHonest {W} flush =
    (bs : List ℕ) (world : W) (n : ℕ) → (flush bs world).0 ≡ bytes n → n ≤ length bs

module _ {W : Type 0} (flush : Flusher W) where
  pub send_bytes :
      (bs : List ℕ) (w : Wire W) (n : ℕ)
      → IsHonest flush
      → (send flush bs w).0 ≡ bytes n
      → (n ≤ length bs) × ((send flush bs w).1.sent ≡ w.sent ++ take n bs)
  unfolding send
  send_bytes bs w n honest e = (honest bs w.world n e, rw e)

  pub send_error :
      (bs : List ℕ) (w : Wire W) (e : ℕ)
      → (send flush bs w).0 ≡ error e
      → (send flush bs w).1.sent ≡ w.sent
  unfolding send
  send_error bs w e h = rw h

-- What a flush leaves: a valid ring and wire whose bytes, behind one another, are those from
-- before; and a count that is returned is that of the bytes which stay.
pub record Drained {W : Type 0} (m : ℕ) (before : List ℕ) (r : Ret) (b : NetBuf) (w : Wire W)
    : Type 0 where
  pub valid : IsValid m b
  pub stream : w.sent ++ contents b ≡ before
  pub left : (n : ℕ) → r ≡ bytes n → n ≡ length (contents b)

module _ {W : Type 0} (flush : Flusher W) (m : ℕ) (fuel : ℕ) (b : NetBuf) (w : Wire W) (d k : ℕ)
    (ring : Ring m b d (suc k)) where
  -- What the first block holds, and what the worker answers for it.
  abbrev first : List ℕ
  first = data_of (get_or b.buff d no_block)

  abbrev pub answer : Ret × Wire W
  answer = send flush first w

  pub round_error :
      (e : ℕ) → answer.0 ≡ error e → flush_loop m flush (suc fuel) b w ≡ some (error e, b, answer.1)
  unfolding flush_loop
  round_error e h =
      ground (arith, h, ring.deal, ring.used.0.busy, ring.used.0.some_data, ring.head_in)

  pub round_full :
      (n : ℕ)
      → answer.0 ≡ bytes n
      → n ≡ length first
      → flush_loop m flush (suc fuel) b w
        ≡ flush_loop m flush fuel
            (flush_ok (record b { buffer_bytes = b.buffer_bytes - n }))
            answer.1
  unfolding flush_loop
  round_full n h l = ground (
    arith,
    h,
    l,
    length-data m _ ring.used.0,
    ring.deal,
    ring.used.0.busy,
    ring.used.0.some_data,
    ring.head_in,
  )

  -- The ring after the worker took only the first `n` bytes.
  unfoldable pub part : ℕ → NetBuf
  part n = record b {
    buffer_bytes = b.buffer_bytes - n;
    buff = set b.buff d (record (get_or b.buff d no_block) {
      start_pos = (get_or b.buff d no_block).start_pos + n;
    });
  }

  pub round_part :
      (n : ℕ)
      → answer.0 ≡ bytes n
      → n < length first
      → flush_loop m flush (suc fuel) b w ≡ some (bytes (b.buffer_bytes - n), part n, answer.1)
  unfolding flush_loop part
  round_part n h l = ground (
    arith,
    h,
    l,
    length-data m _ ring.used.0,
    ring.deal,
    ring.used.0.busy,
    ring.used.0.some_data,
    ring.head_in,
  )

  pub written :
      (n : ℕ)
      → block_at (part n) d
        ≡ record (get_or b.buff d no_block) { start_pos = (get_or b.buff d no_block).start_pos + n }
  unfolding part
  written n = get_or-set_self b.buff d _ no_block (omega (arith, ring.size, ring.head_in))

  pub part-Ring : (n : ℕ) → n < length first → Ring m (part n) d (suc k)
  unfolding part
  part-Ring n l = record {
    head_in = ring.head_in;
    count_in = ring.count_in;
    size = length-set b.buff d _ ∙ ring.size;
    deal = ring.deal;
    use_at = ring.use_at;
    full = ring.full;
    used = (
      rw (written n) (ground (arith, ring.used.0, l, length-data m _ ring.used.0)),
      still_used m b d k ring _,
    );
    idle = still_free m b d k ring _;
  }

  pub stored-part :
      (n : ℕ)
      → stored b.num_buffers (part n).buff d (suc k)
        ≡ drop n first ++ stored b.num_buffers b.buff (step_from b.num_buffers d) k
  unfolding part
  stored-part n =
      let k0 = get_or b.buff d no_block in
      ap₂ ◌++◌
        (rw (written n) (
          rw
            (
              drop-take n (k0.end_pos - k0.start_pos) (drop k0.start_pos k0.raw_data),
              drop-drop n k0.start_pos k0.raw_data,
            )
            (ap (λ j. take j (drop (k0.start_pos + n) k0.raw_data)) (omega arith))))
        (still_stored m b d k ring _)

  pub part-counted :
      (n : ℕ)
      → n < length first
      → b.buffer_bytes ≡ length (stored b.num_buffers b.buff d (suc k))
      → (part n).buffer_bytes ≡ length (stored b.num_buffers (part n).buff d (suc k))
  part-counted n l c =
      let rest = stored b.num_buffers b.buff (step_from b.num_buffers d) k in
      omega (
        arith,
        part-bytes,
        ap length (stored-part n),
        length-append (drop n first) rest,
        length-append first rest,
        length-drop n first,
      )
    where
      part-bytes : (part n).buffer_bytes ≡ b.buffer_bytes - n
      part-bytes = unfold part in refl
