-- ===== src/Sched/Weights.antt =====
-- The weights of loops and of sources.
use hm_platform.Base.{
  ℕ, zero, suc, ◌+◌, ◌<◌, ◌≤◌, ◌≡◌, refl, ap, List, [], ◌∷◌, Option, some, ltb, ◌==◌, if◌then◌else◌,
  arith, length, Bool-cases, ◌⊎◌, inl, inr, true, false,
}
use hm_platform.Sched.{EventLoops, Loop, SrcWeight, find_sw, delete_sw, with_loop, find_best}

-- The sum of all entries' weights, and of those of one loop.
abbrev pub sum_w : List SrcWeight → ℕ
sum_w [] = 0
sum_w (s ∷ rest) = s.w + sum_w rest

abbrev pub sum_of : ℕ → List SrcWeight → ℕ
sum_of i [] = 0
sum_of i (s ∷ rest) = (if s.loop == i then s.w else 0) + sum_of i rest

pub find_sw-nil : (src : ℕ) (s : SrcWeight) → ¬ (find_sw src [] ≡ some s)
unfolding find_sw
find_sw-nil src s h = ground (arith, h)

-- Where an entry is found.
pub find_sw-cons :
    (src : ℕ) (x : SrcWeight) (rest : List SrcWeight) (s : SrcWeight)
    → find_sw src (x ∷ rest) ≡ some s
    → ((x.src == src) ≡ true × x ≡ s) ⊎ ((x.src == src) ≡ false × find_sw src rest ≡ some s)
unfolding find_sw
find_sw-cons src x rest s h = elim (Bool-cases (x.src == src)) [
  | inl hit ↦ inl (ground (arith, h, hit))
  | inr miss ↦ inr (ground (arith, h, miss))
]

-- Removing an entry takes its weight from the sums.
pub sum_w-delete_sw :
    (src : ℕ) (l : List SrcWeight) (s : SrcWeight)
    → find_sw src l ≡ some s
    → sum_w (delete_sw src l) + s.w ≡ sum_w l
unfolding delete_sw
sum_w-delete_sw src [] s h = absurd (find_sw-nil src s h)
sum_w-delete_sw src (x ∷ rest) s h = elim (find_sw-cons src x rest s h) [
  | inl hit ↦ ground (arith, hit.0, ap SrcWeight.w hit.1)
  | inr miss ↦ ground (arith, miss.0, sum_w-delete_sw src rest s miss.1)
]

pub sum_of-delete_sw :
    (i src : ℕ) (l : List SrcWeight) (s : SrcWeight)
    → find_sw src l ≡ some s
    → sum_of i (delete_sw src l) + (if s.loop == i then s.w else 0) ≡ sum_of i l
unfolding delete_sw
sum_of-delete_sw i src [] s h = absurd (find_sw-nil src s h)
sum_of-delete_sw i src (x ∷ rest) s h = elim (find_sw-cons src x rest s h) [
  | inl hit ↦ ground (arith, hit.0, ap SrcWeight.w hit.1, ap SrcWeight.loop hit.1)
  | inr miss ↦ ground (arith, miss.0, sum_of-delete_sw i src rest s miss.1)
]

module _ (e : EventLoops) where
  abbrev pub sum_loops : List (Loop e) → ℕ
  sum_loops [] = 0
  sum_loops (l ∷ ls) = l.weight + sum_loops ls

  -- The weight of the loop at an index.
  abbrev pub weight_at : List (Loop e) → ℕ → ℕ
  weight_at [] i = 0
  weight_at (l ∷ ls) zero = l.weight
  weight_at (l ∷ ls) (suc i) = weight_at ls i

  pub weight_at-le-sum_loops : (ls : List (Loop e)) (i : ℕ) → weight_at ls i ≤ sum_loops ls
  weight_at-le-sum_loops [] i = omega arith
  weight_at-le-sum_loops (l ∷ ls) zero = omega arith
  weight_at-le-sum_loops (l ∷ ls) (suc i) = omega (arith, weight_at-le-sum_loops ls i)

  -- Two lists of loops that differ in the weight at one index.
  pub record Changed (ls ls' : List (Loop e)) (i : ℕ) (h : ℕ → ℕ) : Type 0 where
    pub length_same : length ls' ≡ length ls
    pub sum : sum_loops ls' + weight_at ls i ≡ sum_loops ls + h (weight_at ls i)
    pub at_index :
        (j : ℕ) → weight_at ls' j ≡ (if j == i then h (weight_at ls i) else weight_at ls j)

  -- A change of the loop at an index goes through where the change does.
  pub record Outcome (ls : List (Loop e)) (i : ℕ) (f : Loop e → Option (Loop e)) (h : ℕ → ℕ)
      : Type 0 where
    pub after : List (Loop e)
    pub eq : with_loop e ls i f ≡ some after
    pub changed : Changed ls after i h

  pub with_loop_lem :
      (ls : List (Loop e)) (i : ℕ) (f : Loop e → Option (Loop e)) (h : ℕ → ℕ)
      → ((l : Loop e) → (l' : Loop e) × f l ≡ some l' × l'.weight ≡ h l.weight)
      → i < length ls
      → Outcome ls i f h
  unfolding with_loop
  with_loop_lem [] i f h does fits = absurd (omega (arith, fits))
  with_loop_lem (l ∷ ls) zero f h does fits =
      let (l', e1, e2) = does l in
      record {
        after = l' ∷ ls;
        eq = ground (arith, e1);
        changed = record {
          length_same = refl;
          sum = omega (arith, e2);
          at_index = λ j.
              elim j
                as (λ k.
                  weight_at (l' ∷ ls) k ≡ (if k == 0 then h l.weight else weight_at (l ∷ ls) k)) [
                    | zero ↦ ground (arith, e2)
                    | suc k ↦ ground arith
                  ];
        };
      }
  with_loop_lem (l ∷ ls) (suc i) f h does fits =
      let r = with_loop_lem ls i f h does (omega (arith, fits)) in
      record {
        after = l ∷ r.after;
        eq = ground (arith, r.eq);
        changed = record {
          length_same = ap suc r.changed.length_same;
          sum = omega (arith, r.changed.sum);
          at_index = λ j.
              elim j
                as (λ k.
                  weight_at (l ∷ r.after) k
                  ≡ (if k == suc i then h (weight_at ls i) else weight_at (l ∷ ls) k)) [
                    | zero ↦ ground arith
                    | suc k ↦ ground (arith, r.changed.at_index k)
                  ];
        };
      }

  -- The loop that `find_best` takes, and its weight.
  pub record Best (ls : List (Loop e)) (idx best_w best_i : ℕ) : Type 0 where
    pub least : ℕ
    pub kept : least ≤ best_w
    pub below : (j : ℕ) → j < length ls → least ≤ weight_at ls j
    pub found :
        (find_best e ls idx best_w best_i ≡ best_i × least ≡ best_w)
        ⊎ ((k : ℕ) × k < length ls
            × find_best e ls idx best_w best_i ≡ idx + k
            × weight_at ls k ≡ least)

  Best-cons :
      (l : Loop e) (ls : List (Loop e)) (idx best_w best_i : ℕ)
      → Best ls
          (suc idx)
          (if ltb l.weight best_w then l.weight else best_w)
          (if ltb l.weight best_w then idx else best_i)
      → Best (l ∷ ls) idx best_w best_i
  unfolding find_best
  Best-cons l ls idx best_w best_i r = record {
    least = r.least;
    kept = ground (arith, r.kept);
    below = λ j. elim j as (λ k. k < length (l ∷ ls) → r.least ≤ weight_at (l ∷ ls) k) [
      | zero ↦ λ fits. ground (arith, r.kept)
      | suc k ↦ λ fits. r.below k (omega (arith, fits))
    ];
    found = elim r.found [
      | inl none_lower ↦ elim (Bool-cases (ltb l.weight best_w)) [
        | inl lower ↦ inr (
          0,
          omega arith,
          ground (arith, lower, none_lower.0),
          ground (arith, lower, none_lower.1),
        )
        | inr not_lower ↦
            inl (ground (arith, not_lower, none_lower.0), ground (arith, not_lower, none_lower.1))
      ]
      | inr (k, fits, at, weighs) ↦
          inr (suc k, omega (arith, fits), ground (arith, at), ground (arith, weighs))
    ];
  }

  pub find_best_lem : (ls : List (Loop e)) (idx best_w best_i : ℕ) → Best ls idx best_w best_i
  unfolding find_best
  find_best_lem [] idx best_w best_i = record {
    least = best_w;
    kept = omega arith;
    below = λ j fits. absurd (omega (arith, fits));
    found = inl (refl, refl);
  }
  find_best_lem (l ∷ ls) idx best_w best_i = Best-cons l ls idx best_w best_i (
      find_best_lem ls (suc idx) (if ltb l.weight best_w then l.weight else best_w)
        (if ltb l.weight best_w then idx else best_i))
