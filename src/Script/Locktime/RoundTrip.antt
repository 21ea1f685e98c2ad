-- ===== src/Script/Locktime/RoundTrip.antt =====
-- Which numbers of blocks `BIP68DecodeSequenceFromBytes` of internal/script/locktime.go reads back
-- from the bytes of a script.
use ark_escrow.Base.{ℕ, ◌+◌, ◌-◌, ◌^◌, ◌≤◌, ◌<◌, ◌≡◌, arith}
use ark_escrow.Base.{if◌then◌else◌, ok}
use ark_escrow.Base.{[], ◌∷◌, leb, ◌&&◌}
use ark_escrow.Bits.Masks.{and_bit}
use ark_escrow.Script.Txscript.{Txscript, IsTxscript}
use ark_escrow.Script.Locktime.{block, decode_number, bip68_decode_sequence_from_bytes}

module _ (tx : Txscript) (laws : IsTxscript tx) where
  decode_blocks :
      (n : ℕ) → n < 2 ^ 22 → decode_number tx n ≡ ok (record { type = block; value = n })
  unfolding decode_number
  decode_blocks n h = ground (arith, and_bit 31 n, and_bit 22 n)

  -- A pushed number of blocks, above 16 and below 2 ^ 22, is read back exactly if it is not one of
  -- 81 to 96, the values of OP_1 to OP_16; those are read as 1 to 16 blocks.
  pub decode-number_bytes :
      (n : ℕ)
      → 16 < n
      → n < 2 ^ 22
      → bip68_decode_sequence_from_bytes tx (laws.number_bytes n)
        ≡ ok (record { type = block; value = if leb 81 n && leb n 96 then n - 80 else n })
  unfolding bip68_decode_sequence_from_bytes
  decode-number_bytes n low high = ground (
    arith,
    laws.make_script_num-number_bytes n,
    laws.op_1,
    laws.op_16,
    decode_blocks n,
    decode_blocks (n - 80),
  )

  -- The opcode of a small number is read as that number of blocks.
  pub decode-opcode :
      (n : ℕ)
      → n ≤ 15
      → bip68_decode_sequence_from_bytes tx ((tx.op_1 + n) ∷ [])
        ≡ ok (record { type = block; value = n + 1 })
  unfolding bip68_decode_sequence_from_bytes
  decode-opcode n h =
      ground (
        arith,
        laws.make_script_num-byte (tx.op_1 + n),
        laws.op_1,
        laws.op_16,
        decode_blocks (n + 1),
      )
