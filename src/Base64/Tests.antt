-- ===== src/Base64/Tests.antt =====
-- Base64 of a few bytes, and the theorems about it there.
use hm_platform.Base.{ℕ, ◌≡◌, ◌+◌, ◌≤◌, ◌>>=◌, refl, List, [], ◌∷◌, some, none, arith, length}
use hm_platform.Base64.{base64_encode, encode_into, encoded, base64_decode, encode_size}
use hm_platform.Base64.RoundTrip.{decode-encode, encode_size_fits}

abbrev four : List ℕ
four = 77 ∷ 97 ∷ 110 ∷ 255 ∷ []

encode_four : base64_encode four ≡ some (b'T' ∷ b'W' ∷ b'F' ∷ b'u' ∷ b'/' ∷ b'w' ∷ b'=' ∷ b'=' ∷ [])
unfolding base64_encode encode_into encode_size
encode_four = refl

decode_short : base64_decode (b'T' ∷ b'W' ∷ b'F' ∷ []) ≡ none
unfolding base64_decode
decode_short = refl

decode-encode_example : (base64_encode four >>= base64_decode) ≡ some four
decode-encode_example = decode-encode 77 (97 ∷ 110 ∷ 255 ∷ []) (omega arith) (omega arith)

encode_size_fits_example :
    (length (encoded four) + 1 ≤ encode_size 4) × (base64_encode four ≡ some (encoded four))
encode_size_fits_example = encode_size_fits four (omega arith)
