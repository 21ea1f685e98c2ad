-- ===== src/Swap/Witness.antt =====
-- `serializeWitness` and `compactSizeEncode` of pkg/escrow/swap/tx.go.
pub mod RoundTrip
use ark_escrow.Base.{
  ℕ, suc, ◌%◌, ◌/◌, ◌^◌, Str, List, [], ◌∷◌, ◌++◌, length, ltb, leb, if◌then◌else◌,
}

-- `byte(n)`
abbrev pub byte : ℕ → ℕ
byte n = n % 256

unfoldable pub compact_size_encode : ℕ → Str
compact_size_encode n =
    if ltb n 0xfd
    then byte n ∷ []
    else if leb n 0xffff
    then 0xfd ∷ byte n ∷ byte (n / 2 ^ 8) ∷ []
    else if leb n 0xffffffff
    then 0xfe ∷ byte n ∷ byte (n / 2 ^ 8) ∷ byte (n / 2 ^ 16) ∷ byte (n / 2 ^ 24) ∷ []
    else 0xff
      ∷ byte n
      ∷ byte (n / 2 ^ 8)
      ∷ byte (n / 2 ^ 16)
      ∷ byte (n / 2 ^ 24)
      ∷ byte (n / 2 ^ 32)
      ∷ byte (n / 2 ^ 40)
      ∷ byte (n / 2 ^ 48)
      ∷ byte (n / 2 ^ 56)
      ∷ []

-- The loop of `serializeWitness`.
unfoldable pub serialize_items : List Str → Str
unfolding compact_size_encode
serialize_items [] = []
serialize_items (item ∷ items) =
    compact_size_encode (length item) ++ (item ++ serialize_items items)

unfoldable pub serialize_witness : List Str → Str
unfolding serialize_items
serialize_witness items = byte (length items) ∷ serialize_items items
