-- ===== src/NetBuf/Flush.antt =====
-- `net_buf_flush`: what reaches the flush worker, and what stays.
use hm_platform.Base.{
  ℕ, zero, suc, ◌-◌, ◌<◌, ◌≡◌, refl, sym, ap, ap₂, ◌∙◌, subst₂, List, ◌++◌, arith, length, Option,
  some, get_or, take_all, append-nil, cut_inside, append_assoc, dec_lt, length-append,
}
use hm_platform.NetBuf.{
  NetBuf, no_block, data_of, step_from, flush_loop, net_buf_flush, Wire, Flusher, Ret, bytes, error,
}
use hm_platform.NetBuf.Window.{stored}
use hm_platform.NetBuf.Inv.{Ring, IsValid, Ring-IsValid, Ring-bytes, head_of, count_of, contents}
use hm_platform.NetBuf.Drain.{
  flushed, flushed-Ring, flush_ok-flushed, stored-flushed, flushed-counted,
}
use hm_platform.NetBuf.Rounds.{
  answer, IsHonest, send_bytes, send_error, Drained, round_error, round_full, part, round_part,
  part-Ring, stored-part, part-counted,
}

module _ {W : Type 0} (flush : Flusher W) (honest : IsHonest flush) (m : ℕ) where
  Drains : List ℕ → Option (Ret × NetBuf × Wire W) → Type 0
  Drains before result =
      (r : Ret) × (b' : NetBuf) × (w' : Wire W) × (result ≡ some (r, b', w'))
      × Drained m before r b' w'

  drain_nothing :
      (fuel : ℕ) (b : NetBuf) (w : Wire W) (d : ℕ)
      → Ring m b d 0
      → b.buffer_bytes ≡ 0
      → Drains w.sent (flush_loop m flush (suc fuel) b w)
  unfolding flush_loop Drains
  drain_nothing fuel b w d r c =
      let (v, e) = Ring-IsValid m b d 0 r c in
      (
        bytes 0,
        b,
        w,
        ground (arith, r.deal),
        record {
          valid = v;
          stream = rw (e, append-nil w.sent);
          left = λ n h. ground (arith, h, e);
        },
      )

  drain_part :
      (fuel : ℕ) (b : NetBuf) (w : Wire W) (d k n : ℕ) (r : Ring m b d (suc k))
      → b.buffer_bytes ≡ length (stored b.num_buffers b.buff d (suc k))
      → (answer flush m fuel b w d k r).0 ≡ bytes n
      → n < length (data_of (get_or b.buff d no_block))
      → Drains (w.sent ++ stored b.num_buffers b.buff d (suc k)) (flush_loop m flush (suc fuel) b w)
  unfolding Drains part
  drain_part fuel b w d k n r c h l =
      let first = data_of (get_or b.buff d no_block) in
      let rest = stored b.num_buffers b.buff (step_from b.num_buffers d) k in
      let p = part flush m fuel b w d k r n in
      let st = stored-part flush m fuel b w d k r n in
      let count = part-counted flush m fuel b w d k r n l c in
      let (v, e) = Ring-IsValid m p d (suc k) (part-Ring flush m fuel b w d k r n l) count in
      (
        _,
        _,
        _,
        round_part flush m fuel b w d k r n h l,
        record {
          valid = v;
          stream =
              ap₂ ◌++◌ (send_bytes flush first w n honest h).1 (e ∙ st)
              ∙ cut_inside n w.sent first rest;
          left = λ i q. ground (arith, q, count, e);
        },
      )

  drain_error :
      (fuel : ℕ) (b : NetBuf) (w : Wire W) (d k x : ℕ) (r : Ring m b d (suc k))
      → b.buffer_bytes ≡ length (stored b.num_buffers b.buff d (suc k))
      → (answer flush m fuel b w d k r).0 ≡ error x
      → Drains (w.sent ++ stored b.num_buffers b.buff d (suc k)) (flush_loop m flush (suc fuel) b w)
  unfolding Drains
  drain_error fuel b w d k x r c h =
      let (v, e) = Ring-IsValid m b d (suc k) r c in
      (
        _,
        _,
        _,
        round_error flush m fuel b w d k r x h,
        record {
          valid = v;
          stream = ap₂ ◌++◌ (send_error flush _ w x h) e;
          left = λ i q. absurd (ground (arith, q));
        },
      )

  -- What the loop promises with `fuel` rounds left, on a ring of `k` blocks.
  Loop : ℕ → ℕ → Type 0
  Loop fuel k =
      (b : NetBuf) (w : Wire W) (d : ℕ)
      → Ring m b d k
      → b.buffer_bytes ≡ length (stored b.num_buffers b.buff d k)
      → k < fuel
      → Drains (w.sent ++ stored b.num_buffers b.buff d k) (flush_loop m flush fuel b w)

  drain_full :
      (fuel : ℕ) (b : NetBuf) (w : Wire W) (d k n : ℕ) (r : Ring m b d (suc k))
      → b.buffer_bytes ≡ length (stored b.num_buffers b.buff d (suc k))
      → (answer flush m fuel b w d k r).0 ≡ bytes n
      → n ≡ length (data_of (get_or b.buff d no_block))
      → k < fuel
      → Loop fuel k
      → Drains (w.sent ++ stored b.num_buffers b.buff d (suc k)) (flush_loop m flush (suc fuel) b w)
  unfolding Loop flushed
  drain_full fuel b w d k n r c h l lt rest_ok =
      let first = data_of (get_or b.buff d no_block) in
      let rest = stored b.num_buffers b.buff (step_from b.num_buffers d) k in
      let b1 : NetBuf = record b { buffer_bytes = b.buffer_bytes - n } in
      let r1 = Ring-bytes m b d (suc k) (b.buffer_bytes - n) r in
      let f = flush_ok-flushed m b1 d k r1 in
      let st = stored-flushed m b1 d k r1 in
      let w1 = (answer flush m fuel b w d k r).1 in
      let sent : w1.sent ≡ w.sent ++ first =
        (send_bytes flush first w n honest h).1
        ∙ ap (◌++◌ w.sent) (take_all n first (omega (arith, l))) in
      let count = flushed-counted m b1 d k r1 (omega (arith, c, l, length-append first rest)) in
      let ih =
        rest_ok (flushed m b1 d k r1) w1 (step_from b.num_buffers d) (flushed-Ring m b1 d k r1)
          count lt in
      subst₂ Drains (ap₂ ◌++◌ sent st ∙ append_assoc w.sent first rest)
        (sym (round_full flush m fuel b w d k r n h l ∙ ap (λ x. flush_loop m flush fuel x w1) f))
        ih

  flush_loop_lem : (fuel k : ℕ) → Loop fuel k
  unfolding Loop
  flush_loop_lem zero k b w d r c l = absurd (omega arith)
  flush_loop_lem (suc fuel) zero b w d r c l = rw (append-nil w.sent) (drain_nothing fuel b w d r c)
  flush_loop_lem (suc fuel) (suc k) b w d r c l =
      go (flush_loop_lem fuel k) (answer flush m fuel b w d k r).0 refl
    where
      go :
          Loop fuel k
          → (a : Ret) → (answer flush m fuel b w d k r).0 ≡ a
          → Drains
              (w.sent ++ stored b.num_buffers b.buff d (suc k))
              (flush_loop m flush (suc fuel) b w)
      go ih (error x) h = drain_error fuel b w d k x r c h
      go ih (bytes n) h = elim (dec_lt n (length (data_of (get_or b.buff d no_block)))) [
        | yes l' ↦ drain_part fuel b w d k n r c h l'
        | no ge ↦
            let le = (send_bytes flush _ w n honest h).0 in
            drain_full fuel b w d k n r c h (omega (arith, le)) (omega arith) ih
      ]

  -- On a valid ring `net_buf_flush` never meets BUG and its loop ends. What the worker has taken,
  -- followed by what is left in the ring, is what it had taken before followed by what was in the
  -- ring: bytes go out in order, none lost and none twice. The ring stays valid, and a count that
  -- is returned is the number of bytes that are left.
  pub net_buf_flush_lem :
      (b : NetBuf) (w : Wire W)
      → IsValid m b
      → (r : Ret) × (b' : NetBuf) × (w' : Wire W) × (net_buf_flush m flush b w ≡ some (r, b', w'))
        × Drained m (w.sent ++ contents b) r b' w'
  unfolding net_buf_flush Drains contents Loop
  net_buf_flush_lem b w v =
      flush_loop_lem (suc b.num_buffers) (count_of b) b w (head_of b) v.ring v.counted
        (omega (arith, v.ring.count_in))
