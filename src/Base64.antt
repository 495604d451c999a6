-- ===== src/Base64.antt =====
-- Base64: hmlib/src/hm_base64.c. Bytes are numbers below 256. hm_alloc0 never returns NULL.
-- A decoded buffer is its first `decDataLen` bytes; what lies behind them in the allocation is the
-- zero terminator and padding.
pub mod Quantum
pub mod RoundTrip
mod Tests
use hm_platform.Base.{
  ℕ, zero, suc, ◌+◌, ◌-◌, ◌*◌, ◌/◌, ◌%◌, ◌^◌, ◌≡◌, refl, Bool, true, false, List, [], ◌∷◌, ◌++◌,
  Option, none, some, ltb, leb, ◌==◌, if◌then◌else◌, ◌&&◌, assert, ◌>>=◌, length, take, get_or,
}

-- One step of `decodeQuantum`: a byte that is none of the alphabet leaves `x` alone.
pub shift_in : ℕ → ℕ → ℕ
shift_in x c =
    if leb b'A' c && leb c b'Z'
    then x * 64 % 2 ^ 32 + (c - b'A')
    else if leb b'a' c && leb c b'z'
    then x * 64 % 2 ^ 32 + (c - b'a' + 26)
    else if leb b'0' c && leb c b'9'
    then x * 64 % 2 ^ 32 + (c - b'0' + 52)
    else if c == b'+'
    then x * 64 % 2 ^ 32 + 62
    else if c == b'/'
    then x * 64 % 2 ^ 32 + 63
    else if c == b'='
    then x * 64 % 2 ^ 32
    else x

pub decode_quantum : ℕ → ℕ → ℕ → ℕ → List ℕ
unfolding shift_in
decode_quantum a b c d =
    let x = shift_in (shift_in (shift_in (shift_in 0 a) b) c) d in
    (x / 2 ^ 16 % 256) ∷ (x / 2 ^ 8 % 256) ∷ (x % 256) ∷ []

-- The quantums of the loop, four bytes each; the last one keeps `3 - equals` bytes.
pub decode_from : ℕ → List ℕ → List ℕ
unfolding decode_quantum
decode_from equals (a ∷ b ∷ c ∷ d ∷ []) = take (3 - equals) (decode_quantum a b c d)
decode_from equals (a ∷ b ∷ c ∷ d ∷ e ∷ rest) =
    decode_quantum a b c d ++ decode_from equals (e ∷ rest)
decode_from equals _ = []

-- The count of `=` at the end, two at most.
pub equals_term : List ℕ → ℕ
equals_term src =
    let n = length src in
    if get_or src (n - 1) 0 == b'=' then (if get_or src (n - 2) 0 == b'=' then 2 else 1) else 0

-- `none` is the result -1.
pub base64_decode : List ℕ → Option (List ℕ)
unfolding decode_from equals_term
base64_decode src =
    if length src % 4 == 0 && ltb 0 (length src / 4)
    then some (decode_from (equals_term src) src)
    else none

-- `table64[i]`
pub table64 : ℕ → ℕ
table64 i =
    if ltb i 26
    then b'A' + i
    else if ltb i 52
    then b'a' + (i - 26)
    else if ltb i 62
    then b'0' + (i - 52)
    else if i == 62
    then b'+'
    else b'/'

-- The four indices of three input bytes.
pub encode_quantum : ℕ → ℕ → ℕ → List ℕ
unfolding table64
encode_quantum x y z =
    table64 (x / 4)
    ∷ table64 (x % 4 * 16 + y / 16)
    ∷ table64 (y % 16 * 4 + z / 64)
    ∷ table64 (z % 64)
    ∷ []

-- The characters of the loop.
pub encoded : List ℕ → List ℕ
unfolding encode_quantum
encoded [] = []
encoded (x ∷ []) = take 2 (encode_quantum x 0 0) ++ (b'=' ∷ b'=' ∷ [])
encoded (x ∷ y ∷ []) = take 3 (encode_quantum x y 0) ++ (b'=' ∷ [])
encoded (x ∷ y ∷ z ∷ rest) = encode_quantum x y z ++ encoded rest

-- `output_size`, in 32 bits.
pub encode_size : ℕ → ℕ
encode_size n = n * 4 % 2 ^ 32 / 3 + 4

-- One round: `snprintf` writes four characters and a zero into the `room` bytes that are left.
abbrev pub put_four : ℕ → List ℕ → Option (List ℕ) → Option (List ℕ)
put_four room four rest = assert (leb 5 room) (rest >>= λ chars. some (four ++ chars))

-- The loop, with the bytes left in the buffer; a write behind its end is `none`.
pub encode_into : ℕ → List ℕ → Option (List ℕ)
unfolding encode_quantum
encode_into room [] = assert (ltb 0 room) (some [])
encode_into room (x ∷ []) =
    let rest = encode_into (room - 4) [] in
    put_four room (take 2 (encode_quantum x 0 0) ++ (b'=' ∷ b'=' ∷ [])) rest
encode_into room (x ∷ y ∷ []) =
    let rest = encode_into (room - 4) [] in
    put_four room (take 3 (encode_quantum x y 0) ++ (b'=' ∷ [])) rest
encode_into room (x ∷ y ∷ z ∷ bytes) =
    let rest = encode_into (room - 4) bytes in put_four room (encode_quantum x y z) rest

-- Into a buffer of `output_size` bytes.
pub base64_encode : List ℕ → Option (List ℕ)
base64_encode bytes = encode_into (encode_size (length bytes)) bytes
