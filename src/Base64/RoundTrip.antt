-- ===== src/Base64/RoundTrip.antt =====
-- Decoding what was encoded, and the size of the buffer that holds it.
use hm_platform.Base.{
  ℕ, suc, ◌+◌, ◌-◌, ◌*◌, ◌/◌, ◌%◌, ◌^◌, ◌<◌, ◌≤◌, ◌≡◌, refl, ap, ap₂, ◌∙◌, List, [], ◌∷◌, ◌++◌,
  arith, length, get_or, some, none, leb, ◌>>=◌, true, inl, inr, Bool-cases,
}
use hm_platform.Base64.{
  base64_encode, encode_into, encoded, base64_decode, decode_from, equals_term, encode_size,
  table64, decode_quantum,
}
use hm_platform.Base64.Quantum.{
  table64-ne-pad, decode-encode_full, decode-encode_two, decode-encode_one,
}

abbrev pub AllBytes : List ℕ → Type 0
AllBytes [] = Unit {0}
AllBytes (x ∷ xs) = (x < 256) × AllBytes xs

-- How many `=` the encoding ends in.
pad : List ℕ → ℕ
pad [] = 0
pad (x ∷ []) = 2
pad (x ∷ y ∷ []) = 1
pad (x ∷ y ∷ z ∷ rest) = pad rest

-- Four characters for every three bytes that are begun.
length-encode : (bs : List ℕ) → length (encoded bs) ≡ (length bs + 2) / 3 * 4
unfolding encoded
length-encode [] = refl
length-encode (x ∷ []) = refl
length-encode (x ∷ y ∷ []) = refl
length-encode (x ∷ y ∷ z ∷ rest) = omega (arith, length-encode rest)

-- What `encode` gives for a byte and more is not empty.
encode-cons : (w : ℕ) (rest : List ℕ) → (c : ℕ) × (cs : List ℕ) × (encoded (w ∷ rest) ≡ c ∷ cs)
unfolding encoded
encode-cons w [] = (_, _, refl)
encode-cons w (x ∷ []) = (_, _, refl)
encode-cons w (x ∷ y ∷ rest) = (_, _, refl)

decode_from-cons :
    (e a b c d : ℕ) (l : List ℕ) {f : ℕ} {fs : List ℕ}
    → l ≡ f ∷ fs
    → decode_from e (a ∷ b ∷ c ∷ d ∷ l) ≡ decode_quantum a b c d ++ decode_from e l
unfolding decode_from
decode_from-cons e a b c d l h = rw h

decode_from-encode :
    (w : ℕ) (bs : List ℕ)
    → AllBytes (w ∷ bs)
    → decode_from (pad (w ∷ bs)) (encoded (w ∷ bs)) ≡ w ∷ bs
unfolding pad decode_from encoded
decode_from-encode x [] h = decode-encode_one x h.0
decode_from-encode x (y ∷ []) h = decode-encode_two x y h.0 h.1.0
decode_from-encode x (y ∷ z ∷ []) h = decode-encode_full x y z h.0 h.1.0 h.1.1.0
decode_from-encode x (y ∷ z ∷ w ∷ rest) h =
    let (c, cs, e) = encode-cons w rest in
    decode_from-cons (pad (w ∷ rest)) (table64 (x / 4)) (table64 (x % 4 * 16 + y / 16))
      (table64 (y % 16 * 4 + z / 64)) (table64 (z % 64)) (encoded (w ∷ rest)) e
    ∙ ap₂ ◌++◌ (decode-encode_full x y z h.0 h.1.0 h.1.1.0) (decode_from-encode w rest h.1.1.1)

get_or-last :
    (a b c d k : ℕ) (l : List ℕ)
    → k < length l
    → get_or (a ∷ b ∷ c ∷ d ∷ l) (suc (suc (suc (suc (length l)))) - suc k) 0
      ≡ get_or l (length l - suc k) 0
get_or-last a b c d k l h =
    ap (λ i. get_or (a ∷ b ∷ c ∷ d ∷ l) i 0) {y = suc (suc (suc (suc (length l - suc k))))}
      (omega arith)

equals_term-skip :
    (a b c d : ℕ) (l : List ℕ) → 2 ≤ length l → equals_term (a ∷ b ∷ c ∷ d ∷ l) ≡ equals_term l
unfolding equals_term
equals_term-skip a b c d l h =
    rw (get_or-last a b c d 0 l (omega arith), get_or-last a b c d 1 l (omega arith))

equals_term-encode :
    (w : ℕ) (bs : List ℕ) → AllBytes (w ∷ bs) → equals_term (encoded (w ∷ bs)) ≡ pad (w ∷ bs)
unfolding pad equals_term encoded
equals_term-encode x [] h = refl
equals_term-encode x (y ∷ []) h = rw (table64-ne-pad (y % 16 * 4 + 0 / 64) (omega arith))
equals_term-encode x (y ∷ z ∷ []) h = rw (table64-ne-pad (z % 64) (omega arith))
equals_term-encode x (y ∷ z ∷ w ∷ rest) h =
    equals_term-skip _ _ _ _ (encoded (w ∷ rest)) (omega (arith, length-encode (w ∷ rest)))
    ∙ equals_term-encode w rest h.1.1.1

encode_into_lem :
    (bs : List ℕ) (room : ℕ)
    → length (encoded bs) + 1 ≤ room
    → encode_into room bs ≡ some (encoded bs)
unfolding encode_into encoded
encode_into_lem [] room fits = ground (arith, fits)
encode_into_lem (x ∷ []) room fits = ground (arith, fits)
encode_into_lem (x ∷ y ∷ []) room fits = ground (arith, fits)
encode_into_lem (x ∷ y ∷ z ∷ rest) room fits =
    let enough : leb 5 room ≡ true = ground (arith, fits) in
    rw (enough, encode_into_lem rest (room - 4) (omega (arith, fits))) refl

encode_into-overrun :
    (bs : List ℕ) (room : ℕ) → room ≤ length (encoded bs) → encode_into room bs ≡ none
unfolding encode_into encoded
encode_into-overrun [] room less = ground (arith, less)
encode_into-overrun (x ∷ []) room less = ground (arith, less)
encode_into-overrun (x ∷ y ∷ []) room less = ground (arith, less)
encode_into-overrun (x ∷ y ∷ z ∷ rest) room less =
    let behind = encode_into-overrun rest (room - 4) (omega (arith, less)) in
    elim (Bool-cases (leb 5 room)) [ inl fits ↦ rw (fits, behind) refl | inr full ↦ rw full refl ]

-- For every input below a gigabyte `output_size` holds the encoding and its terminator, and the
-- encoder returns all its characters without a write behind the buffer.
pub encode_size_fits :
    (bs : List ℕ)
    → length bs < 2 ^ 30
    → (length (encoded bs) + 1 ≤ encode_size (length bs)) × (base64_encode bs ≡ some (encoded bs))
unfolding encode_size base64_encode
encode_size_fits bs h =
    let fits : length (encoded bs) + 1 ≤ encode_size (length bs) =
      omega (arith, length-encode bs) in
    (fits, encode_into_lem bs (encode_size (length bs)) fits)

-- From a gigabyte on, the 32 bits of `dataLen * 4` wrap and the encoder writes behind its buffer.
pub base64_encode-overrun :
    (bs : List ℕ) → 2 ^ 30 ≤ length bs → length bs < 2 ^ 32 → base64_encode bs ≡ none
unfolding encode_size base64_encode
base64_encode-overrun bs long h =
    encode_into-overrun bs (encode_size (length bs)) (omega (arith, length-encode bs))

-- A sequence of bytes that is not empty and below a gigabyte is encoded without a write behind the
-- buffer, and what it is encoded to decodes to it.
pub decode-encode :
    (w : ℕ) (bs : List ℕ)
    → AllBytes (w ∷ bs)
    → length (w ∷ bs) < 2 ^ 30
    → (base64_encode (w ∷ bs) >>= base64_decode) ≡ some (w ∷ bs)
unfolding base64_decode
decode-encode w bs h small =
    let l = length-encode (w ∷ bs) in
    rw ((encode_size_fits (w ∷ bs) small).1, equals_term-encode w bs h, decode_from-encode w bs h)
      (ground (arith, l))
