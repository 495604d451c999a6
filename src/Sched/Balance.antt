-- ===== src/Sched/Balance.antt =====
-- The scheduler's weights agree with its sources: hmlib/src/hm_sched.c.
use hm_platform.Base.{
  ℕ, zero, suc, ◌+◌, ◌-◌, ◌^◌, ◌<◌, ◌≤◌, ◌≡◌, refl, sym, subst, ap, List, [], ◌∷◌, some, ◌==◌,
  if◌then◌else◌, arith, length, Bool-cases, inl, inr, replicate,
}
use hm_platform.Sched.{
  EventLoops, LoopScher, SrcWeight, find_sw, delete_sw, find_best_loop, sched_new, add32, sub32,
  fresh_loop,
}
use hm_platform.Sched.Weights.{
  sum_of, sum_loops, weight_at, weight_at-le-sum_loops, find_best_lem, find_sw-nil, find_sw-cons,
}

pub add32_exact : (a b : ℕ) → a + b < 2 ^ 32 → add32 a b ≡ a + b
add32_exact a b small = omega (arith, small)

pub sub32_exact : (a b : ℕ) → b ≤ a → a < 2 ^ 32 → sub32 a b ≡ a - b
sub32_exact a b le small = omega (arith, le, small)

-- Every entry names a loop that there is.
abbrev pub Within : ℕ → List SrcWeight → Type 0
Within n [] = Unit
Within n (s ∷ rest) = (s.loop < n) × Within n rest

pub Within-find_sw :
    (n src : ℕ) (l : List SrcWeight) (s : SrcWeight)
    → Within n l
    → find_sw src l ≡ some s
    → s.loop < n
Within-find_sw n src [] s all h = absurd (find_sw-nil src s h)
Within-find_sw n src (x ∷ rest) s all h = elim (find_sw-cons src x rest s h) [
  | inl hit ↦ subst (λ y. y < n) (ap SrcWeight.loop hit.1) all.0
  | inr miss ↦ Within-find_sw n src rest s all.1 miss.1
]

pub Within-delete_sw : (n src : ℕ) (l : List SrcWeight) → Within n l → Within n (delete_sw src l)
unfolding delete_sw
Within-delete_sw n src [] all = all
Within-delete_sw n src (x ∷ rest) all = elim (Bool-cases (x.src == src)) [
  | inl hit ↦ subst (λ b. Within n (if b then rest else x ∷ delete_sw src rest)) (sym hit) all.1
  | inr miss ↦
      subst (λ b. Within n (if b then rest else x ∷ delete_sw src rest)) (sym miss)
        (all.0, Within-delete_sw n src rest all.1)
]

module _ (e : EventLoops) where
  open e use {EventLoop, new_loop, attach, remove}

  -- A loop's weight is that of its sources, the total is that of all loops, and it fits 32 bits.
  pub record IsBalanced (s : LoopScher e) : Type 0 where
    pub total : s.total_weight ≡ sum_loops e s.loops
    pub small : s.total_weight < 2 ^ 32
    pub each : (i : ℕ) → weight_at e s.loops i ≡ sum_of i s.w_list
    pub within : Within (length s.loops) s.w_list

  sum_loops-replicate : (n : ℕ) → sum_loops e (replicate n (fresh_loop e)) ≡ 0
  sum_loops-replicate zero = refl
  sum_loops-replicate (suc n) = omega (arith, sum_loops-replicate n)

  weight_at-replicate : (n i : ℕ) → weight_at e (replicate n (fresh_loop e)) i ≡ 0
  weight_at-replicate zero i = refl
  weight_at-replicate (suc n) zero = refl
  weight_at-replicate (suc n) (suc i) = weight_at-replicate n i

  -- A new scheduler is balanced.
  pub sched_new-IsBalanced : (n : ℕ) → IsBalanced (sched_new e n)
  unfolding sched_new
  sched_new-IsBalanced n = record {
    total = sym (sum_loops-replicate n);
    small = omega arith;
    each = weight_at-replicate n;
    within = tt;
  }

  -- The best loop is there, and none has less weight.
  pub find_best_loop_lem :
      (s : LoopScher e)
      → IsBalanced s
      → 0 < length s.loops
      → find_best_loop e s < length s.loops
        × ((j : ℕ)
            → j < length s.loops
            → weight_at e s.loops (find_best_loop e s) ≤ weight_at e s.loops j)
  unfolding find_best_loop
  find_best_loop_lem s good some_loop =
      let b = find_best_lem e s.loops 0 s.total_weight 0 in
      elim b.found [
        | inl (at, is_total) ↦ (
          omega (arith, at, some_loop),
          λ j fits.
              subst (λ r. weight_at e s.loops r ≤ weight_at e s.loops j) (sym at)
                (omega (
                  arith,
                  weight_at-le-sum_loops e s.loops 0,
                  good.total,
                  is_total,
                  b.below j fits,
                )),
        )
        | inr (k, k_fits, at, weighs) ↦ (
          omega (arith, at, k_fits),
          λ j fits.
              subst (λ r. weight_at e s.loops r ≤ weight_at e s.loops j) {x = k} (omega (arith, at))
                (omega (arith, weighs, b.below j fits)),
        )
      ]
