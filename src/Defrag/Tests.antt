-- ===== src/Defrag/Tests.antt =====
-- Fragments on concrete values: hmshare/src/hm_fragments.c.
use hm_platform.Base.{
  ℕ, inl, inr, zero, suc, Option, ◌+◌, ◌<◌, ◌≤◌, ◌≡◌, refl, List, [], ◌∷◌, none, some, arith,
  length, replicate, length-replicate,
}
use hm_platform.Defrag.{NetPackInfo, PacketFrags, find_frags}
use hm_platform.Defrag.Whole.{IsMalloc}
use hm_platform.Defrag.Table.{IsPart, AllPart}
use hm_platform.Defrag.Runs.{deliver, deliver_lem, whole_packet}
use hm_platform.Defrag.Sound.{AllSound}
use hm_platform.Defrag.Received.{AllCame, Delivered, deliver-Delivered}
use hm_platform.Defrag.Answers.{Answered, defrag_lem}

abbrev zeroed : ℕ → Option (List ℕ)
zeroed zero = none
zeroed (suc n) = some (replicate (suc n) 0)

zeroed_given : (n : ℕ) → 0 < n → (bytes : List ℕ) × zeroed n ≡ some bytes × length bytes ≡ n
zeroed_given zero positive = absurd (omega (arith, positive))
zeroed_given (suc n) positive = (replicate (suc n) 0, refl, length-replicate (suc n) 0)

zeroed_sized : IsMalloc zeroed
zeroed_sized = record { nothing = refl; given = zeroed_given }

-- The payloads of a packet of three fragments.
abbrev part : ℕ → List ℕ
part n = n ∷ (n + n) ∷ []

abbrev fragment : ℕ → NetPackInfo
fragment n = record { total_packets = 3; packet_no = n; start = part n; private_from_low_layer = 7 }

fragment-IsPart : (n : ℕ) → 0 < n → n ≤ 3 → IsPart 7 3 part (fragment n)
fragment-IsPart n positive within = record {
  of_packet = refl;
  counts = refl;
  positive = positive;
  within = within;
  carries = refl;
  filled = omega arith;
}

three_parts : AllPart 7 3 part (fragment 1 ∷ fragment 3 ∷ fragment 2 ∷ [])
three_parts = (
  fragment-IsPart 1 (omega arith) (omega arith),
  (
    fragment-IsPart 3 (omega arith) (omega arith),
    (fragment-IsPart 2 (omega arith) (omega arith), tt),
  ),
)

unknown : find_frags 7 [] ≡ none
unfolding find_frags
unknown = refl

-- The second fragment comes last.
deliver_example :
    deliver zeroed [] (fragment 1 ∷ fragment 3 ∷ fragment 2 ∷ [])
    ≡ some (none ∷ none ∷ some (whole_packet zeroed zeroed_sized 7 3 part) ∷ [], [])
deliver_example =
    deliver_lem zeroed zeroed_sized 7 3 part [] (fragment 1) (fragment 3 ∷ fragment 2 ∷ []) unknown
      (omega arith) (omega arith) refl three_parts
      ((omega arith, (omega arith, tt)), ((omega arith, tt), (tt, tt))) refl (omega arith)

-- The table with one fragment of a packet of three.
abbrev one_open : List PacketFrags
one_open =
    record { packet_identity = 7; total = 3; eat = 1; total_size = 2; packets = fragment 1 ∷ [] }
    ∷ []

one_open-AllSound : AllSound one_open
one_open-AllSound = (
  record {
    open_still = omega arith;
    few = omega arith;
    counted = refl;
    sized = refl;
    short = omega arith;
  },
  tt,
)

-- The first fragment comes twice.
defrag_example : Answered zeroed zeroed_sized one_open (fragment 1)
defrag_example =
    defrag_lem zeroed zeroed_sized one_open (fragment 1) one_open-AllSound (omega arith)

-- Fragments of two packets, and a packet that is whole.
abbrev single : NetPackInfo
single = record { total_packets = 1; packet_no = 1; start = 5 ∷ []; private_from_low_layer = 9 }

abbrev arrivals : List NetPackInfo
arrivals = fragment 1 ∷ single ∷ fragment 3 ∷ fragment 2 ∷ []

arrivals-AllCame : AllCame arrivals arrivals
arrivals-AllCame = (
  (inl refl, omega arith),
  (
    (inr (inl refl), omega arith),
    ((inr (inr (inl refl)), omega arith), ((inr (inr (inr (inl refl))), omega arith), tt)),
  ),
)

received_example : Delivered arrivals (deliver zeroed [] arrivals)
received_example = deliver-Delivered zeroed zeroed_sized arrivals arrivals-AllCame
