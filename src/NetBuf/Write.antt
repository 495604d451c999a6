-- ===== src/NetBuf/Write.antt =====
-- `net_buf_write`: what is sent at once, what is stored, and what is refused.
use hm_platform.Base.{
  ℕ, zero, suc, ◌-◌, ◌≤◌, ◌<◌, ◌≡◌, refl, sym, ap, ap₂, ◌∙◌, ◌⊎◌, inl, inr, Bool, true, false, List,
  [], ◌++◌, arith, length, Option, some, take, drop, take_all, take-append-drop, append-nil,
  append_assoc, length-drop, dec_lt,
}
use hm_platform.NetBuf.{
  NetBuf, block_at, append, net_buf_write, send, Wire, Flusher, Ret, bytes, error, e_packet2long,
}
use hm_platform.NetBuf.Window.{stored}
use hm_platform.NetBuf.Inv.{Ring, IsValid, Ring-IsValid, head_of, count_of, contents}
use hm_platform.NetBuf.Rounds.{IsHonest, send_bytes, send_error}
use hm_platform.NetBuf.Fill.{fill_next_lem}
use hm_platform.NetBuf.Append.{last_pos-none, last_pos-last, last, append_lem}

-- What a write leaves, of the bytes `before` that were sent or stored: all of `bs` behind them if
-- its length is returned, and nothing more if 0 or an error is.
pub record Written {W : Type 0} (m : ℕ) (before bs : List ℕ) (r : Ret) (b : NetBuf) (w : Wire W)
    : Type 0 where
  pub valid : IsValid m b
  pub outcome :
      ((r ≡ bytes (length bs)) × (w.sent ++ contents b ≡ before ++ bs))
      ⊎ ((((r ≡ bytes 0) ⊎ (e : ℕ) × (r ≡ error e))) × (w.sent ++ contents b ≡ before))

module _ {W : Type 0} (flush : Flusher W) (honest : IsHonest flush) (m : ℕ) (bs : List ℕ)
    (pending : Bool) where
  Writes : List ℕ → Option (Ret × Bool × NetBuf × Wire W) → Type 0
  Writes before result =
      (r : Ret) × (p : Bool) × (b' : NetBuf) × (w' : Wire W) × (result ≡ some (r, p, b', w'))
      × Written m before bs r b' w'

  module _ (b : NetBuf) (w : Wire W) where
    -- The rest of `bs` goes to the next free block.
    store_rest :
        (d k n : ℕ) (p : Bool) (w1 : Wire W)
        → Ring m b d k
        → b.buffer_bytes ≡ length (stored b.num_buffers b.buff d k)
        → k < b.num_buffers
        → length bs ≤ m
        → n < length bs
        → append m flush b bs pending w ≡ (bytes n, p, b, w1)
        → w1.sent ++ (stored b.num_buffers b.buff d k ++ drop n bs)
          ≡ (w.sent ++ stored b.num_buffers b.buff d k) ++ bs
        → Writes (w.sent ++ stored b.num_buffers b.buff d k) (net_buf_write m flush b bs pending w)
    unfolding net_buf_write Writes
    store_rest d k n p w1 r c free short l e s =
        let (b2, f, v, q) =
          fill_next_lem m b d k (drop n bs) r c free (omega (arith, length-drop n bs))
            (omega (arith, length-drop n bs)) in
        (
          bytes (length bs),
          p,
          b2,
          w1,
          ground (arith, e, r.full, f),
          record { valid = v; outcome = inl (refl, ap (◌++◌ w1.sent) q ∙ s) },
        )

    too_long :
        IsValid m b
        → m < length bs
        → Writes (w.sent ++ contents b) (net_buf_write m flush b bs pending w)
    unfolding net_buf_write append Writes
    too_long v h = (
      error e_packet2long,
      pending,
      b,
      w,
      ground arith,
      record { valid = v; outcome = inr (inr (e_packet2long, refl), refl) },
    )

    nothing_to_write :
        IsValid m b
        → length bs ≡ 0
        → Writes (w.sent ++ contents b) (net_buf_write m flush b bs pending w)
    unfolding net_buf_write append Writes
    nothing_to_write v h = (
      bytes (length bs),
      pending,
      b,
      w,
      ground (arith, h),
      record { valid = v; outcome = inr (inl (ground (arith, h)), refl) },
    )

    -- An empty ring: the worker is called at once.
    on_empty :
        (d : ℕ)
        → Ring m b d 0
        → b.buffer_bytes ≡ 0
        → 0 < length bs
        → length bs ≤ m
        → Writes (w.sent ++ []) (net_buf_write m flush b bs pending w)
    unfolding net_buf_write append Writes
    on_empty d r c some_bs short = go (send flush bs w).0 refl
      where
        v : IsValid m b × (contents b ≡ [])
        v = Ring-IsValid m b d 0 r c

        go :
            (a : Ret)
            → (send flush bs w).0 ≡ a
            → Writes (w.sent ++ []) (net_buf_write m flush b bs pending w)
        go (error e) h = (
          error e,
          true,
          b,
          (send flush bs w).1,
          ground (arith, h, last_pos-none m b d r),
          record {
            valid = v.0;
            outcome = inr (inr (e, refl), ap₂ ◌++◌ (send_error flush bs w e h) v.1);
          },
        )
        go (bytes n) h = elim (dec_lt n (length bs)) [
          | yes l ↦
              store_rest d 0 n true (send flush bs w).1 r c (omega (arith, r.head_in)) short l
                (ground (arith, h, last_pos-none m b d r))
                (ap (λ l. l ++ drop n bs) (send_bytes flush bs w n honest h).1
                  ∙ append_assoc w.sent (take n bs) (drop n bs)
                  ∙ ap (◌++◌ w.sent) (take-append-drop n bs)
                  ∙ ap (λ l. l ++ bs) (sym (append-nil w.sent)))
          | no l ↦ (
            bytes (length bs),
            false,
            b,
            (send flush bs w).1,
            ground (arith, h, last_pos-none m b d r, (send_bytes flush bs w n honest h).0),
            record {
              valid = v.0;
              outcome = inl (
                refl,
                ap₂ ◌++◌
                      ((send_bytes flush bs w n honest h).1
                        ∙ ap (◌++◌ w.sent) (take_all n bs (omega arith)))
                      v.1
                    ∙ append-nil (w.sent ++ bs)
                    ∙ ap (λ l. l ++ bs) (sym (append-nil w.sent)),
              );
            },
          )
        ]

    -- A ring with data: the bytes are stored whole, or refused.
    on_data :
        (d k : ℕ)
        → Ring m b d (suc k)
        → b.buffer_bytes ≡ length (stored b.num_buffers b.buff d (suc k))
        → 0 < length bs
        → length bs ≤ m
        → Writes
            (w.sent ++ stored b.num_buffers b.buff d (suc k))
            (net_buf_write m flush b bs pending w)
    unfolding net_buf_write append Writes
    on_data d k r c some_bs short =
        elim (dec_lt (m - (block_at b (last m b d k r)).end_pos) (length bs)) [
          | no l ↦
              let (b2, e, v, q) =
                append_lem flush m b d k r bs pending w c some_bs short (omega arith) in
              (
                bytes (length bs),
                true,
                b2,
                w,
                ground (arith, e),
                record {
                  valid = v;
                  outcome = inl (refl, ap (◌++◌ w.sent) q ∙ sym (append_assoc w.sent _ bs));
                },
              )
          | yes l ↦ elim (dec_lt (suc k) b.num_buffers) [
            | yes free ↦
                store_rest d (suc k) 0 true w r c free short some_bs
                  (ground (arith, last_pos-last m b d k r)) (sym (append_assoc w.sent _ bs))
            | no full ↦
                let (v, q) = Ring-IsValid m b d (suc k) r c in
                (
                  bytes 0,
                  true,
                  b,
                  w,
                  ground (arith, last_pos-last m b d k r, r.full),
                  record { valid = v; outcome = inr (inl refl, ap (◌++◌ w.sent) q) },
                )
          ]
        ]

  -- On a valid ring `net_buf_write` never meets BUG, and leaves a valid ring. If it returns the
  -- length of `bs`, the bytes sent followed by those in the ring are the ones from before with `bs`
  -- behind them; if it returns 0 or an error, they are those from before.
  pub net_buf_write_lem :
      (b : NetBuf) (w : Wire W)
      → IsValid m b
      → (r : Ret) × (p : Bool) × (b' : NetBuf) × (w' : Wire W) × (net_buf_write m flush b bs pending
            w
          ≡ some (r, p, b', w'))
        × Written m (w.sent ++ contents b) bs r b' w'
  unfolding Writes contents
  net_buf_write_lem b w v = elim (dec_lt m (length bs)) [
    | yes long ↦ too_long b w v long
    | no short ↦ elim (dec_lt 0 (length bs)) [
      | no empty ↦ nothing_to_write b w v (omega arith)
      | yes some_bs ↦ by_count (head_of b) (count_of b) v.ring v.counted some_bs (omega arith)
    ]
  ]
    where
      by_count :
          (d k : ℕ)
          → Ring m b d k
          → b.buffer_bytes ≡ length (stored b.num_buffers b.buff d k)
          → 0 < length bs
          → length bs ≤ m
          → Writes
              (w.sent ++ stored b.num_buffers b.buff d k)
              (net_buf_write m flush b bs pending w)
      by_count d zero r c h l = on_empty b w d r c h l
      by_count d (suc k) r c h l = on_data b w d k r c h l
