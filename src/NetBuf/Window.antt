-- ===== src/NetBuf/Window.antt =====
-- The blocks from an index on, going round at the count of buffers.
use hm_platform.Base.{
  ℕ, zero, suc, ◌+◌, ◌-◌, ◌≤◌, ◌<◌, ◌≡◌, refl, ap, ap₂, sym, subst, ◌∙◌, ◌⊎◌, List, [], ◌++◌, arith,
  leb, if◌then◌else◌, get_or, set, append-nil, append_assoc, get_or-set_ne,
}
use hm_platform.NetBuf.{BufBlock, no_block, data_of, step_from}

-- The index `k` steps on from `d`.
abbrev pub pos : ℕ → ℕ → ℕ → ℕ
pos n d k = if leb n (d + k) then d + k - n else d + k

-- The index is not among the `k` ones from `d` on.
abbrev pub Outside : ℕ → ℕ → ℕ → ℕ → Type 0
Outside n d k i = ((i < d) ⊎ (d + k ≤ i)) × (d + k ≤ i + n)

module _ (n : ℕ) (bs : List BufBlock) where
  -- The data of `k` blocks, from `d` on.
  abbrev pub stored : ℕ → ℕ → List ℕ
  stored d zero = []
  stored d (suc k) = data_of (get_or bs d no_block) ++ stored (step_from n d) k

  -- What holds of each of `k` blocks, from `d` on.
  abbrev pub Along : (BufBlock → Type 0) → ℕ → ℕ → Type 0
  Along P d zero = Unit
  Along P d (suc k) = P (get_or bs d no_block) × Along P (step_from n d) k

pub pos_zero : (n d : ℕ) → d < n → pos n d 0 ≡ d
pos_zero n d h = ground arith

pub pos_step : (n d k : ℕ) → d < n → suc k ≤ n → pos n (step_from n d) k ≡ pos n d (suc k)
pos_step n d k h l = ground arith

pub step-lt : (n d : ℕ) → d < n → step_from n d < n
step-lt n d h = ground arith

pub Outside-step :
    (n d k i : ℕ)
    → d < n
    → suc k ≤ n
    → i < n
    → Outside n d (suc k) i
    → Outside n (step_from n d) k i
Outside-step n d k i h l m o = ground arith

module _ (n : ℕ) (bs : List BufBlock) where
  pub stored_snoc :
      (d k : ℕ)
      → d < n
      → k < n
      → stored n bs d (suc k) ≡ stored n bs d k ++ data_of (get_or bs (pos n d k) no_block)
  stored_snoc d zero h l = rw (pos_zero n d h) (append-nil _)
  stored_snoc d (suc k) h l =
      ap (λ x. data_of (get_or bs d no_block) ++ x)
        (rw (← pos_step n d k h (omega arith))
          (stored_snoc (step_from n d) k (step-lt n d h) (omega arith)))
      ∙ sym (append_assoc (data_of (get_or bs d no_block)) (stored n bs (step_from n d) k) _)

  module _ (P : BufBlock → Type 0) where
    pub Along-snoc :
        (d k : ℕ)
        → d < n
        → k < n
        → Along n bs P d k
        → P (get_or bs (pos n d k) no_block)
        → Along n bs P d (suc k)
    Along-snoc d zero h l a p = (subst (λ i. P (get_or bs i no_block)) (pos_zero n d h) p, tt)
    Along-snoc d (suc k) h l a p = (
      a.0,
      Along-snoc (step_from n d) k (step-lt n d h) (omega arith) a.1
          (subst (λ i. P (get_or bs i no_block)) (sym (pos_step n d k h (omega arith))) p),
    )

    pub Along_last :
        (d k : ℕ) → d < n → k < n → Along n bs P d (suc k) → P (get_or bs (pos n d k) no_block)
    Along_last d zero h l a = subst (λ i. P (get_or bs i no_block)) (sym (pos_zero n d h)) a.0
    Along_last d (suc k) h l a =
        subst (λ i. P (get_or bs i no_block)) (pos_step n d k h (omega arith))
          (Along_last (step_from n d) k (step-lt n d h) (omega arith) a.1)

    pub Along-init : (d k : ℕ) → Along n bs P d (suc k) → Along n bs P d k
    Along-init d zero a = tt
    Along-init d (suc k) a = (a.0, Along-init (step_from n d) k a.1)

    pub Along-set :
        (d k i : ℕ) (b : BufBlock)
        → d < n
        → k ≤ n
        → i < n
        → Outside n d k i
        → Along n bs P d k
        → Along n (set bs i b) P d k
    Along-set d zero i b h l m o a = tt
    Along-set d (suc k) i b h l m o a = (
      subst P (sym (get_or-set_ne bs i d b no_block (λ e. omega arith))) a.0,
      Along-set (step_from n d) k i b (step-lt n d h) (omega arith) m (Outside-step n d k i h l m o)
          a.1,
    )

  pub stored-set :
      (d k i : ℕ) (b : BufBlock)
      → d < n
      → k ≤ n
      → i < n
      → Outside n d k i
      → stored n (set bs i b) d k ≡ stored n bs d k
  stored-set d zero i b h l m o = refl
  stored-set d (suc k) i b h l m o =
      ap₂ (λ x y. data_of x ++ y) (get_or-set_ne bs i d b no_block (λ e. omega arith))
        (stored-set (step_from n d) k i b (step-lt n d h) (omega arith) m
          (Outside-step n d k i h l m o))
