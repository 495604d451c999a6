-- ===== src/NetBuf/Inv.antt =====
-- The invariant of the ring, and the bytes that it holds.
use hm_platform.Base.{
  ℕ, zero, suc, ◌+◌, ◌-◌, ◌≤◌, ◌<◌, ◌≡◌, refl, ◌⊎◌, inr, true, false, List, [], arith, ltb, ◌==◌,
  if◌then◌else◌, length, replicate, some, none, length-replicate, get_or-replicate, subst, subst₂,
  sym,
}
use hm_platform.NetBuf.{NetBuf, BufBlock, no_block, step_from, net_buf_alloc}
use hm_platform.NetBuf.Window.{pos, pos_zero, step-lt, stored, Along}

-- Where the first block with data is, and how many such blocks there are.
abbrev pub head_of : NetBuf → ℕ
head_of b = if b.next_deal == b.num_buffers then b.next_use else b.next_deal

abbrev pub count_of : NetBuf → ℕ
count_of b =
    if b.next_deal == b.num_buffers
    then 0
    else if ltb b.next_deal b.next_use
    then b.next_use - b.next_deal
    else b.next_use + b.num_buffers - b.next_deal

-- The bytes in the ring, oldest first.
unfoldable pub contents : NetBuf → List ℕ
contents b = stored b.num_buffers b.buff (head_of b) (count_of b)

module _ (max_io : ℕ) where
  -- A block in use: some data, inside its memory.
  pub record Fits (k : BufBlock) : Type 0 where
    pub busy : k.is_busy ≡ true
    pub some_data : k.start_pos < k.end_pos
    pub inside : k.end_pos ≤ max_io
    pub room : length k.raw_data ≡ max_io

  pub record Idle (k : BufBlock) : Type 0 where
    pub not_busy : k.is_busy ≡ false
    pub room : length k.raw_data ≡ max_io

  -- The `k` blocks from `d` on have data and the others are free.
  pub record Ring (b : NetBuf) (d k : ℕ) : Type 0 where
    pub head_in : d < b.num_buffers
    pub count_in : k ≤ b.num_buffers
    pub size : length b.buff ≡ b.num_buffers
    pub deal : ((0 < k) × (b.next_deal ≡ d)) ⊎ ((k ≡ 0) × (b.next_deal ≡ b.num_buffers))
    pub use_at : b.next_use ≡ pos b.num_buffers d k
    pub full :
        ((k ≡ b.num_buffers) × (b.no_blocks ≡ true)) ⊎ ((k < b.num_buffers) × (b.no_blocks ≡ false))
    pub used : Along b.num_buffers b.buff Fits d k
    pub idle : Along b.num_buffers b.buff Idle (pos b.num_buffers d k) (b.num_buffers - k)

  -- A ring as above, with its bytes counted.
  pub record IsValid (b : NetBuf) : Type 0 where
    pub ring : Ring b (head_of b) (count_of b)
    pub counted : b.buffer_bytes ≡ length (contents b)

pub Ring-head : (m : ℕ) (b : NetBuf) (d k : ℕ) → Ring m b d k → (head_of b ≡ d) × (count_of b ≡ k)
Ring-head m b d k r = (
  ground (arith, r.deal, r.use_at, r.head_in, r.count_in),
  ground (arith, r.deal, r.use_at, r.head_in, r.count_in),
)

-- A ring is valid if it is one from some index on, and its bytes there are counted.
pub Ring-IsValid :
    (m : ℕ) (b : NetBuf) (d k : ℕ)
    → Ring m b d k
    → b.buffer_bytes ≡ length (stored b.num_buffers b.buff d k)
    → IsValid m b × (contents b ≡ stored b.num_buffers b.buff d k)
unfolding contents
Ring-IsValid m b d k r c =
    let (p, q) = Ring-head m b d k r in
    (record { ring = rw (p, q) r; counted = rw (p, q) c }, rw (p, q))

pub Ring-bytes :
    (m : ℕ) (b : NetBuf) (d k x : ℕ) → Ring m b d k → Ring m (record b { buffer_bytes = x }) d k
Ring-bytes m b d k x r = record {
  head_in = r.head_in;
  count_in = r.count_in;
  size = r.size;
  deal = r.deal;
  use_at = r.use_at;
  full = r.full;
  used = r.used;
  idle = r.idle;
}

Along-replicate :
    (n : ℕ) (P : BufBlock → Type 0) (k : BufBlock) (d j : ℕ)
    → P k
    → d < n
    → Along n (replicate n k) P d j
Along-replicate n P k d zero p h = tt
Along-replicate n P k d (suc j) p h = (
  subst P (sym (get_or-replicate n d k no_block h)) p,
  Along-replicate n P k (step_from n d) j p (step-lt n d h),
)

-- What `alloc` makes.
fresh : ℕ → ℕ → NetBuf
fresh m n = record {
  num_buffers = n;
  no_blocks = false;
  next_use = 0;
  next_deal = n;
  buffer_bytes = 0;
  buff = replicate n (record no_block { raw_data = replicate m 0 });
}

fresh-Ring : (m n : ℕ) → 0 < n → Ring m (fresh m n) 0 0
unfolding fresh
fresh-Ring m n h = record {
  head_in = h;
  count_in = omega arith;
  size = length-replicate n _;
  deal = inr (refl, refl);
  use_at = sym (pos_zero n 0 h);
  full = inr (h, refl);
  used = tt;
  idle = subst₂ (Along n _ (Idle m)) (sym (pos_zero n 0 h)) (omega arith) (
      Along-replicate n (Idle m) _ 0 n (record { not_busy = refl; room = length-replicate m 0 }) h);
}

-- `alloc` gives a valid empty ring for any positive count of blocks, and NULL for none.
pub net_buf_alloc-IsValid :
    (m n : ℕ)
    → (0 < n → (b : NetBuf) × (net_buf_alloc m n ≡ some b) × IsValid m b × (contents b ≡ []))
      × (net_buf_alloc m 0 ≡ none)
unfolding net_buf_alloc fresh
net_buf_alloc-IsValid m n = (
  λ h.
      let (v, e) = Ring-IsValid m (fresh m n) 0 0 (fresh-Ring m n h) refl in
      (fresh m n, ground arith, v, e),
  refl,
)
