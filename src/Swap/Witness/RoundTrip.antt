-- ===== src/Swap/Witness/RoundTrip.antt =====
-- The wire format read back: a count, then items with their sizes, which pkg/escrow/swap/tx.go
-- writes and the nodes of the network read.
use ark_escrow.Base.{ℕ, zero, suc, ◌+◌, ◌*◌, ◌^◌, ◌<◌, ◌≡◌, refl, arith, Str, List, [], ◌∷◌, ◌++◌}
use ark_escrow.Base.{
  Option, none, some, length, take, drop, All, ltb, leb, ◌==◌, if◌then◌else◌, append_assoc,
}
use ark_escrow.Base.{take-length_append, drop-length_append, length-append}
use ark_escrow.Swap.Witness.{byte, compact_size_encode, serialize_items, serialize_witness}

-- A little-endian number of some bytes, and the rest.
abbrev read_number : ℕ → Str → Option (ℕ × Str)
read_number zero s = some (0, s)
read_number (suc k) [] = none
read_number (suc k) (a ∷ s) = elim (read_number k s) [
  | none ↦ none
  | some (v, rest) ↦ some (a + 256 * v, rest)
]

read_compact_size : Str → Option (ℕ × Str)
read_compact_size [] = none
read_compact_size (n ∷ s) =
    if ltb n 0xfd
    then some (n, s)
    else if n == 0xfd
    then read_number 2 s
    else if n == 0xfe
    then read_number 4 s
    else read_number 8 s

read_item : Option (ℕ × Str) → Option (Str × Str)
read_item none = none
read_item (some (size, s)) = if leb size (length s) then some (take size s, drop size s) else none

cons_item : Str → Option (List Str × Str) → Option (List Str × Str)
cons_item item none = none
cons_item item (some (items, rest)) = some (item ∷ items, rest)

then_items : Option (Str × Str) → (Str → Option (List Str × Str)) → Option (List Str × Str)
unfolding cons_item
then_items none f = none
then_items (some (item, rest)) f = cons_item item (f rest)

read_items : ℕ → Str → Option (List Str × Str)
unfolding then_items
read_items zero s = some ([], s)
read_items (suc k) s = then_items (read_item (read_compact_size s)) (read_items k)

pub read_witness : Str → Option (List Str × Str)
read_witness s = elim (read_compact_size s) [ none ↦ none | some (k, rest) ↦ read_items k rest ]

read_compact_size-compact_size_encode :
    (n : ℕ) (rest : Str)
    → n < 2 ^ 64
    → read_compact_size (compact_size_encode n ++ rest) ≡ some (n, rest)
unfolding compact_size_encode read_compact_size
read_compact_size-compact_size_encode n rest h = ground arith

read_item-append :
    (item rest : Str) → read_item (some (length item, item ++ rest)) ≡ some (item, rest)
unfolding read_item
read_item-append item rest =
    rw (take-length_append item rest, drop-length_append item rest)
      (ground (arith, length-append item rest))

read_items-suc :
    (k : ℕ) (s : Str) {item rest : Str} {items : List Str} {rest' : Str} {size : ℕ × Str}
    → read_compact_size s ≡ some size
    → read_item (some size) ≡ some (item, rest)
    → read_items k rest ≡ some (items, rest')
    → read_items (suc k) s ≡ some (item ∷ items, rest')
unfolding read_items
read_items-suc k s e1 e2 e3 = rw (e1, e2, e3)

read_items-serialize_items :
    (items : List Str) (rest : Str)
    → All (λ item. length item < 2 ^ 64) items
    → read_items (length items) (serialize_items items ++ rest) ≡ some (items, rest)
unfolding read_items serialize_items
read_items-serialize_items [] rest h = refl
read_items-serialize_items (item ∷ items) rest (h, hs) =
    let after = serialize_items items ++ rest in
    rw (append_assoc, append_assoc)
      (read_items-suc _ _ (read_compact_size-compact_size_encode (length item) (item ++ after) h)
        (read_item-append item after) (read_items-serialize_items items rest hs))

-- A witness of fewer than 253 items, each shorter than 2 ^ 64 bytes, is read back item by item,
-- whatever follows it.
pub read_witness-serialize_witness :
    (items : List Str) (rest : Str)
    → length items < 253
    → All (λ item. length item < 2 ^ 64) items
    → read_witness (serialize_witness items ++ rest) ≡ some (items, rest)
unfolding serialize_witness read_witness read_compact_size
read_witness-serialize_witness items rest few short =
    let same : byte (length items) ≡ length items = omega arith in
    rw same (ground (arith, read_items-serialize_items items rest short))
