-- ===== src/Base64/Quantum.antt =====
-- One quantum there and back.
use hm_platform.Base.{
  ℕ, ◌+◌, ◌*◌, ◌/◌, ◌%◌, ◌^◌, ◌<◌, ◌≡◌, refl, false, List, [], ◌∷◌, ◌==◌, arith, take,
}
use hm_platform.Base64.{shift_in, decode_quantum, table64}

-- A character of the alphabet shifts its index in.
pub shift_in-table64 : (x i : ℕ) → i < 64 → shift_in x (table64 i) ≡ x * 64 % 2 ^ 32 + i
unfolding shift_in table64
shift_in-table64 x i h = ground arith

pub shift_in-pad : (x : ℕ) → shift_in x b'=' ≡ x * 64 % 2 ^ 32
unfolding shift_in
shift_in-pad x = refl

pub table64-ne-pad : (i : ℕ) → i < 64 → (table64 i == b'=') ≡ false
unfolding table64
table64-ne-pad i h = ground arith

-- The bytes of the 24 bits of a quantum.
abbrev unpack : ℕ → List ℕ
unpack x = (x / 2 ^ 16 % 256) ∷ (x / 2 ^ 8 % 256) ∷ (x % 256) ∷ []

unpack_full :
    (x y z : ℕ)
    → x < 256
    → y < 256
    → z < 256
    → unpack (
        (((0 * 64 % 2 ^ 32 + x / 4) * 64 % 2 ^ 32 + (x % 4 * 16 + y / 16)) * 64 % 2 ^ 32
            + (y % 16 * 4 + z / 64))
          * 64
          % 2 ^ 32
        + z % 64)
      ≡ x ∷ y ∷ z ∷ []
unpack_full x y z h k l = ground arith

pub decode-encode_full :
    (x y z : ℕ)
    → x < 256
    → y < 256
    → z < 256
    → decode_quantum
        (table64 (x / 4))
        (table64 (x % 4 * 16 + y / 16))
        (table64 (y % 16 * 4 + z / 64))
        (table64 (z % 64))
      ≡ x ∷ y ∷ z ∷ []
unfolding decode_quantum
decode-encode_full x y z h k l =
    rw
      (
        shift_in-table64 0 (x / 4) (omega arith),
        shift_in-table64 _ (x % 4 * 16 + y / 16) (omega arith),
        shift_in-table64 _ (y % 16 * 4 + z / 64) (omega arith),
        shift_in-table64 _ (z % 64) (omega arith),
      )
      (unpack_full x y z h k l)

pub decode-encode_two :
    (x y : ℕ)
    → x < 256
    → y < 256
    → take 2 (
        decode_quantum
          (table64 (x / 4))
          (table64 (x % 4 * 16 + y / 16))
          (table64 (y % 16 * 4 + 0 / 64))
          b'=')
      ≡ x ∷ y ∷ []
unfolding decode_quantum
decode-encode_two x y h k =
    rw
      (
        shift_in-table64 0 (x / 4) (omega arith),
        shift_in-table64 _ (x % 4 * 16 + y / 16) (omega arith),
        shift_in-table64 _ (y % 16 * 4 + 0 / 64) (omega arith),
        shift_in-pad _,
      )
      (ground arith)

pub decode-encode_one :
    (x : ℕ)
    → x < 256
    → take 1 (decode_quantum (table64 (x / 4)) (table64 (x % 4 * 16 + 0 / 16)) b'=' b'=') ≡ x ∷ []
unfolding decode_quantum
decode-encode_one x h =
    rw
      (
        shift_in-table64 0 (x / 4) (omega arith),
        shift_in-table64 _ (x % 4 * 16 + 0 / 16) (omega arith),
        shift_in-pad _,
        shift_in-pad _,
      )
      (ground arith)
