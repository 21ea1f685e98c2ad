-- ===== src/Bech32/Address.antt =====
-- The encoder, the decoder and `AddressToOutputScript` of pkg/escrow/bech32.go.
pub mod Checksum
pub mod RoundTrip
use mathlib.Core.Path.{◌∎}
use ark_escrow.Base.{
  ℕ, zero, suc, ◌+◌, ◌-◌, ◌*◌, ◌/◌, ◌%◌, ◌^◌, bit_and, bit_xor, Bool, true, false,
}
use ark_escrow.Base.{List, [], ◌∷◌, ◌++◌, map, Option, none, some, Result, ok, err, ◌>>=◌, ◌>>◌}
use ark_escrow.Base.{require, wrap_err, or_err, Str, lit, length, get_elem?, take, drop, ltb, leb}
use ark_escrow.Base.{◌==◌, not, ◌||◌, if◌then◌else◌, ◌≡◌, refl}
use ark_escrow.Bech32.Convert.{u8, u32, ConvertError, convert_bits}
use ark_escrow.Bech32.Runes.{runes}
use ark_escrow.Bech32.Polymod.{bech32m_polymod}

abbrev pub bech32_charset : Str
bech32_charset = lit "qpzry9x8gf2tvdw0s3jn54khce6mua7l"

abbrev pub bech32_const : ℕ
bech32_const = 1

abbrev pub bech32m_const : ℕ
bech32m_const = 0x2bc830a3

-- Both loops over the human-readable part: `byte(c>>5)`, a zero, `byte(c&31)`.
pub hrp_expand : Str → List ℕ
hrp_expand hrp =
    map (λ (c : ℕ × ℕ). u8 (c.0 / 2 ^ 5)) (runes hrp)
    ++ 0 ∷ map (λ (c : ℕ × ℕ). u8 (bit_and c.0 31)) (runes hrp)

-- `checksum[i] = byte((polymod >> uint(5*(5-i))) & 31)`, for the last `n` of the six.
pub checksum : ℕ → ℕ → List ℕ
checksum zero polymod = []
checksum (suc n) polymod = u8 (bit_and (polymod / 2 ^ (5 * n)) 31) ∷ checksum n polymod

-- `string(bech32Charset[d])` for each; `none` is the panic of an index out of range.
pub to_chars : List ℕ → Option Str
to_chars [] = some []
to_chars (d ∷ ds) = elim (get_elem? bech32_charset d) [
  | none ↦ none
  | some c ↦ elim (to_chars ds) [ none ↦ none | some s ↦ some (c ∷ s) ]
]

pub bech32m_encode : Str → List ℕ → Option Str
unfolding hrp_expand checksum to_chars
bech32m_encode hrp values =
    let polymod =
      bit_xor (bech32m_polymod (hrp_expand hrp ++ values ++ 0 ∷ 0 ∷ 0 ∷ 0 ∷ 0 ∷ 0 ∷ []))
        bech32m_const in
    elim (to_chars (values ++ checksum 6 polymod)) [ none ↦ none | some s ↦ some (hrp ++ b'1' ∷ s) ]

pub data AddressError : Type 0 where
  no_separator too_short invalid_character invalid_checksum empty_payload index_panic : AddressError
  bad_bits : ConvertError → AddressError

unfoldable pub encode_bech32m : Str → List ℕ → Result AddressError Str
unfolding bech32m_encode
encode_bech32m hrp program = do
  conv ← wrap_err bad_bits (convert_bits program 8 5 true)
  or_err index_panic (bech32m_encode hrp (1 ∷ conv))

-- `addr[:sepIdx]` and `addr[sepIdx+1:]` at the last '1'; `none` where there is no '1'.
pub split_last : Str → Option (Str × Str)
split_last [] = none
split_last (c ∷ s) = elim (split_last s) [
  | some (hrp, part) ↦ some (c ∷ hrp, part)
  | none ↦ if c == b'1' then some ([], s) else none
]

-- The loop over the charset: the first `j` whose character is the rune's low byte.
pub char_index : Str → ℕ → ℕ → Option ℕ
char_index [] j c = none
char_index (ch ∷ chars) j c =
    let rest = char_index chars (j + 1) c in if ch == u8 c then some j else rest

-- `data[i] = byte(idx)`: a rune of several bytes leaves zeros behind its first.
pub padding_zeros : ℕ → List ℕ → List ℕ
padding_zeros zero rest = rest
padding_zeros (suc n) rest = 0 ∷ padding_zeros n rest

pub from_chars : List (ℕ × ℕ) → Result AddressError (List ℕ)
unfolding char_index padding_zeros
from_chars [] = ok []
from_chars ((c, width) ∷ cs) = do
  idx ← or_err invalid_character (char_index bech32_charset 0 c)
  rest ← from_chars cs
  ok (idx ∷ padding_zeros (width - 1) rest)

abbrev pub split_first : List ℕ → Result AddressError (ℕ × List ℕ)
split_first [] = err empty_payload
split_first (version ∷ program) = ok (version, program)

unfoldable pub decode_bech32 : Str → Result AddressError (ℕ × List ℕ)
unfolding split_last from_chars hrp_expand
decode_bech32 addr = do
  (hrp, part) ← or_err no_separator (split_last addr)
  require (not (ltb (length part) 6)) too_short
  values ← from_chars (runes part)
  let polymod = bech32m_polymod (hrp_expand hrp ++ values)
  require (polymod == bech32_const || polymod == bech32m_const) invalid_checksum
  (version, fives) ← split_first (take (length values - 6) values)
  program ← wrap_err bad_bits (convert_bits fives 5 8 false)
  ok (version, program)

unfoldable pub address_to_output_script : Str → Result AddressError Str
unfolding decode_bech32
address_to_output_script addr = do
  (ver, prog) ← decode_bech32 addr
  let op_version = if ver == 0 then 0x00 else u8 (0x50 + ver)
  ok (op_version ∷ u8 (length prog) ∷ prog)
