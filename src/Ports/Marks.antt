-- ===== src/Ports/Marks.antt =====
-- How many of the first bytes of the map have their bit set.
use hm_platform.Base.{
  ℕ, zero, suc, ◌+◌, ◌%◌, ◌≤◌, ◌<◌, ◌≡◌, refl, List, [], ◌∷◌, ◌++◌, arith, length, get_or, set,
  replicate,
}

unfoldable pub marks : ℕ → List ℕ → ℕ
marks zero bs = 0
marks (suc n) [] = 0
marks (suc n) (b ∷ bs) = b % 2 + marks n bs

pub marks-set :
    (n : ℕ) (bs : List ℕ) (i v : ℕ)
    → i < n
    → n ≤ length bs
    → marks n (set bs i v) + get_or bs i 0 % 2 ≡ marks n bs + v % 2
unfolding marks
marks-set zero bs i v h k = absurd (omega arith)
marks-set (suc n) [] i v h k = absurd (omega arith)
marks-set (suc n) (b ∷ bs) zero v h k = omega arith
marks-set (suc n) (b ∷ bs) (suc i) v h k =
    omega (arith, marks-set n bs i v (omega arith) (omega arith))

pub marks-replicate : (n : ℕ) (bs : List ℕ) → marks n (replicate n 0 ++ bs) ≡ 0
unfolding marks
marks-replicate zero bs = refl
marks-replicate (suc n) bs = omega (arith, marks-replicate n bs)

-- A map whose every bit is set has as many marks as bits.
pub marks_full : (n : ℕ) (bs : List ℕ) → ((i : ℕ) → i < n → get_or bs i 0 % 2 ≡ 1) → marks n bs ≡ n
unfolding marks
marks_full zero bs all = refl
marks_full (suc n) [] all = absurd (omega (arith, all 0 (omega arith)))
marks_full (suc n) (b ∷ bs) all =
    omega (arith, all 0 (omega arith), marks_full n bs (λ i h. all (suc i) (omega arith)))

pub get_or-replicate : (n : ℕ) (bs : List ℕ) (i : ℕ) → i < n → get_or (replicate n 0 ++ bs) i 0 ≡ 0
get_or-replicate zero bs i h = absurd (omega arith)
get_or-replicate (suc n) bs zero h = refl
get_or-replicate (suc n) bs (suc i) h = get_or-replicate n bs i (omega arith)

pub set-set : (bs : List ℕ) (i v w : ℕ) → set (set bs i v) i w ≡ set bs i w
set-set [] i v w = refl
set-set (b ∷ bs) zero v w = refl
set-set (b ∷ bs) (suc i) v w = λ j. b ∷ set-set bs i v w j

pub set_get : (bs : List ℕ) (i : ℕ) → set bs i (get_or bs i 0) ≡ bs
set_get [] i = refl
set_get (b ∷ bs) zero = refl
set_get (b ∷ bs) (suc i) = λ j. b ∷ set_get bs i j

pub set_comm :
    (bs : List ℕ) (i j v w : ℕ) → (i ≡ j → ⊥) → set (set bs i v) j w ≡ set (set bs j w) i v
set_comm [] i j v w ne = refl
set_comm (b ∷ bs) zero zero v w ne = absurd (ne refl)
set_comm (b ∷ bs) zero (suc j) v w ne = refl
set_comm (b ∷ bs) (suc i) zero v w ne = refl
set_comm (b ∷ bs) (suc i) (suc j) v w ne = λ k. b ∷ set_comm bs i j v w (λ e. ne (λ l. suc (e l))) k
