-- ===== src/Tests/Addresses.antt =====
-- The theorems on pkg/escrow/bech32.go at concrete texts.
use ark_escrow.Base.{◌≡◌, refl, arith, Str, lit, [], ◌∷◌, ok, true}
use ark_escrow.Bech32.Convert.{convert_bits}
use ark_escrow.Bech32.Polymod.{bech32m_polymod}
use ark_escrow.Bech32.Runes.{runes}
use ark_escrow.Bech32.Address.{encode_bech32m, decode_bech32}
use ark_escrow.Bech32.Address.RoundTrip.{decode_bech32-encode_bech32m}

three_bytes : convert_bits (255 ∷ 0 ∷ 0xa5 ∷ []) 8 5 true ≡ ok (31 ∷ 28 ∷ 0 ∷ 10 ∷ 10 ∷ [])
unfolding convert_bits
three_bytes = refl

euro_runes :
    runes (b'a' ∷ 0xe2 ∷ 0x82 ∷ 0xac ∷ 0xff ∷ []) ≡ (97, 1) ∷ (0x20ac, 3) ∷ (0xfffd, 1) ∷ []
unfolding runes
euro_runes = refl

short_address : encode_bech32m (lit "ert") (7 ∷ 7 ∷ []) ≡ ok (lit "ert1pqurs3vqnjf")
unfolding encode_bech32m convert_bits runes bech32m_polymod
short_address = refl

-- The checksum of bech32 is taken for version 1 too.
wrong_constant : decode_bech32 (lit "ert1pqurs3vqnjf") ≡ ok (1, 7 ∷ 7 ∷ [])
unfolding decode_bech32 convert_bits runes bech32m_polymod
wrong_constant = refl

address_round_trip_example :
    (addr : Str) × (encode_bech32m (lit "ert") (7 ∷ 7 ∷ []) ≡ ok addr)
    × (decode_bech32 addr ≡ ok (1, 7 ∷ 7 ∷ []))
address_round_trip_example = decode_bech32-encode_bech32m (lit "ert") (7 ∷ 7 ∷ []) (omega arith)
