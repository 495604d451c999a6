-- ===== src/BufferQueue/Removal.antt =====
-- The removal of what all consumers have seen: hmrtspsvr/src/utils/bufferqueue.c.
use hm_platform.Base.{
  ℕ, zero, suc, ◌+◌, ◌<◌, ◌≤◌, ◌≡◌, refl, ap, List, [], ◌∷◌, none, some, ◌==◌, if◌then◌else◌, arith,
  ◌⊎◌, inl, inr, length, dec_lt, ℕ_discrete,
}
use hm_platform.BufferQueue.{Element, find_seen, delete_elem, remove_all_seen, payloads}
use hm_platform.BufferQueue.Links.{Consec, Counted}

-- How often a payload is in a list.
abbrev pub count : ℕ → List ℕ → ℕ
count x [] = 0
count x (y ∷ l) = (if y == x then 1 else 0) + count x l

before_or_first :
    (f : ℕ → ℕ) (n first start t : ℕ)
    → t < start
    → first ≤ t
    → n ≤ f first
    → ((u : ℕ) → u < start → suc first ≤ u → n ≤ f u)
    → n ≤ f t
before_or_first f n first start t less le at_first later = elim (ℕ_discrete t first) [
  | yes same ↦ omega (arith, ap f same, at_first)
  | no other ↦ later t less (omega (arith, other, le))
]

-- No element of the queue was seen by `n` consumers.
abbrev Fresh : ℕ → List Element → Type 0
Fresh n [] = Unit
Fresh n (e ∷ q) = (e.seen < n) × Fresh n q

find_seen-none : (n : ℕ) (q : List Element) → Fresh n q → find_seen n q ≡ some none
unfolding find_seen
find_seen-none n [] fresh = refl
find_seen-none n (e ∷ q) fresh = ground (arith, fresh.0, find_seen-none n q fresh.1)

Fresh-head :
    (f : ℕ → ℕ) (n first next : ℕ) (q : List Element)
    → Consec first q next
    → Counted f q
    → ((t u : ℕ) → t ≤ u → f u ≤ f t)
    → f first < n
    → Fresh n q
Fresh-head f n first next [] run counted falls less = tt
Fresh-head f n first next (e ∷ q) run counted falls less = (
  omega (arith, counted.0, ap f run.0, less),
  Fresh-head f n (suc first) next q run.1 counted.1 falls
      (omega (arith, falls first (suc first), less)),
)

-- The queue without the elements at its head that all `n` consumers have seen; the payloads of those
-- are freed.
pub record Kept (fuel n first next : ℕ) (f : ℕ → ℕ) (q : List Element) (freed : List ℕ)
    : Type 0 where
  pub left : List Element
  pub gone : List ℕ
  pub eq : remove_all_seen fuel n q freed ≡ some (left, gone)
  pub start : ℕ
  pub run : Consec start left next
  pub counted : Counted f left
  pub open_start : (start ≡ next) ⊎ (f start < n)
  pub later : first ≤ start
  pub seen_before : (t : ℕ) → t < start → first ≤ t → n ≤ f t
  pub copies :
      (x : ℕ) → count x (payloads left) + count x gone ≡ count x (payloads q) + count x freed

pub remove_all_seen_lem :
    (fuel n first next : ℕ) (f : ℕ → ℕ) (q : List Element) (freed : List ℕ)
    → Consec first q next
    → Counted f q
    → ((t u : ℕ) → t ≤ u → f u ≤ f t)
    → ((t : ℕ) → f t ≤ n)
    → length q < fuel
    → Kept fuel n first next f q freed
unfolding remove_all_seen find_seen delete_elem
remove_all_seen_lem zero n first next f q freed run counted falls most enough =
    absurd (omega (arith, enough))
remove_all_seen_lem (suc fuel) n first next f [] freed run counted falls most enough = record {
  left = [];
  gone = freed;
  eq = refl;
  start = first;
  run = run;
  counted = tt;
  open_start = inl run;
  later = omega arith;
  seen_before = λ t less le. absurd (omega (arith, less, le));
  copies = λ x. refl;
}
remove_all_seen_lem (suc fuel) n first next f (e ∷ q) freed run counted falls most enough =
    elim (dec_lt (f first) n) [
      | yes less ↦
          let fresh = Fresh-head f n first next (e ∷ q) run counted falls less in
          record {
            left = e ∷ q;
            gone = freed;
            eq = ground (arith, fresh.0, find_seen-none n q fresh.1);
            start = first;
            run = run;
            counted = counted;
            open_start = inr less;
            later = omega arith;
            seen_before = λ t less' le. absurd (omega (arith, less', le));
            copies = λ x. refl;
          }
      | no all ↦
          let all_seen : e.seen ≡ n = omega (arith, all, counted.0, ap f run.0, most first) in
          let r =
            remove_all_seen_lem fuel n (suc first) next f q (e.payload ∷ freed) run.1 counted.1
              falls most (omega (arith, enough)) in
          record {
            left = r.left;
            gone = r.gone;
            eq = ground (arith, all_seen, r.eq);
            start = r.start;
            run = r.run;
            counted = r.counted;
            open_start = r.open_start;
            later = omega (arith, r.later);
            seen_before = λ t less le.
                before_or_first f n first r.start t less le (omega (arith, all)) r.seen_before;
            copies = λ x. omega (arith, r.copies x);
          }
    ]
