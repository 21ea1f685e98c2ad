-- ===== src/Hex.antt =====
-- encoding/hex of Go's standard library, as far as the program uses it: `EncodeToString`,
-- `DecodeString`, and the `%x` of fmt on byte slices.
use ark_escrow.Base.{ℕ, ◌+◌, ◌-◌, ◌*◌, ◌/◌, ◌%◌, ◌<◌, ◌≡◌, refl, arith}
use ark_escrow.Base.{[], ◌∷◌, ◌&&◌, Option, none, some, if◌then◌else◌, leb, ltb}
use ark_escrow.Base.{Str, IsBytes, IsAscii, length}

-- A digit below 16, in lower case.
hex_digit : ℕ → ℕ
hex_digit d = if ltb d 10 then d + b'0' else d - 10 + b'a'

unfoldable pub encode_to_string : Str → Str
unfolding hex_digit
encode_to_string [] = []
encode_to_string (b ∷ bs) = hex_digit (b / 16) ∷ hex_digit (b % 16) ∷ encode_to_string bs

-- Both cases are read.
from_hex_char : ℕ → Option ℕ
from_hex_char c =
    if leb b'0' c && leb c b'9'
    then some (c - b'0')
    else if leb b'a' c && leb c b'f'
    then some (c - b'a' + 10)
    else if leb b'A' c && leb c b'F'
    then some (c - b'A' + 10)
    else none

abbrev byte_of : Option ℕ → Option ℕ → Option Str → Option Str
byte_of (some hi) (some lo) (some rest) = some ((hi * 16 + lo) ∷ rest)
byte_of _ _ _ = none

-- `none` is an error: an odd length, or a character that is no hexadecimal digit.
unfoldable pub decode_string : Str → Option Str
unfolding from_hex_char
decode_string [] = some []
decode_string (c ∷ []) = none
decode_string (c ∷ d ∷ s) = byte_of (from_hex_char c) (from_hex_char d) (decode_string s)

from_hex_char-hex_digit : (d : ℕ) → d < 16 → from_hex_char (hex_digit d) ≡ some d
unfolding from_hex_char hex_digit
from_hex_char-hex_digit d h = ground arith

-- Decoding undoes encoding.
pub decode_string-encode_to_string :
    (bs : Str) → IsBytes bs → decode_string (encode_to_string bs) ≡ some bs
unfolding decode_string encode_to_string
decode_string-encode_to_string [] h = refl
decode_string-encode_to_string (b ∷ bs) h = ground (
  arith,
  from_hex_char-hex_digit (b / 16),
  from_hex_char-hex_digit (b % 16),
  decode_string-encode_to_string bs h.1,
)

pub encode_to_string-IsAscii : (bs : Str) → IsBytes bs → IsAscii (encode_to_string bs)
unfolding encode_to_string hex_digit
encode_to_string-IsAscii [] h = tt
encode_to_string-IsAscii (b ∷ bs) h =
    (ground arith, (ground arith, encode_to_string-IsAscii bs h.1))

pub length-encode_to_string : (bs : Str) → length (encode_to_string bs) ≡ 2 * length bs
unfolding encode_to_string
length-encode_to_string [] = refl
length-encode_to_string (b ∷ bs) = omega (arith, length-encode_to_string bs)

pub decode_string-nil : decode_string [] ≡ some []
unfolding decode_string
decode_string-nil = refl
