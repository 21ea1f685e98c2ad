-- ===== src/Script/Locktime/Bounds.antt =====
-- What BIP68 makes of the sequence numbers of internal/script/locktime.go.
use ark_escrow.Base.{ℕ, ◌+◌, ◌*◌, ◌/◌, ◌%◌, ◌^◌, ◌≤◌, ◌<◌, ◌≡◌, ◌↔◌, ◌⊎◌, inl, inr, refl, arith}
use ark_escrow.Base.{Option, none, some, if◌then◌else◌, ◌==◌, ok}
use ark_escrow.Bits.Masks.{and_bit, and_mask}
use ark_escrow.Script.Txscript.{Txscript, IsTxscript}
use ark_escrow.Script.Locktime.{
  RelativeLocktime, RelativeLocktimeType, second, block, seconds_max, bip68_sequence, decode_number,
}

-- The delay that a sequence number enforces on the chain, from BIP68: none with bit 31; units of 512
-- seconds with bit 22; blocks otherwise; the count is in the lowest 16 bits.
pub enforced : ℕ → Option RelativeLocktime
enforced s =
    if s / 2 ^ 31 % 2 == 1
    then none
    else if s / 2 ^ 22 % 2 == 1
    then some (record { type = second; value = s % 2 ^ 16 * 512 })
    else some (record { type = block; value = s % 2 ^ 16 })

module _ (tx : Txscript) (laws : IsTxscript tx) where
  sequence_of_seconds :
      (v s : ℕ)
      → bip68_sequence tx (record { type = second; value = v }) ≡ ok s
      → (v ≤ seconds_max) × (v % 512 ≡ 0) × (s ≡ 2 ^ 22 + v / 2 ^ 9)
  unfolding bip68_sequence
  sequence_of_seconds v s h = ground (arith, laws.seconds_sequence v)

  sequence_of_blocks :
      (v s : ℕ) → bip68_sequence tx (record { type = block; value = v }) ≡ ok s → s ≡ v
  unfolding bip68_sequence
  sequence_of_blocks v s h = ground (arith, laws.blocks_sequence v)

  seconds_enforced :
      (v s : ℕ)
      → bip68_sequence tx (record { type = second; value = v }) ≡ ok s
      → enforced s ≡ some (record { type = second; value = v })
  unfolding enforced
  seconds_enforced v s h = ground (arith, sequence_of_seconds v s h)

  blocks_enforced :
      (v s : ℕ)
      → v < 2 ^ 32
      → bip68_sequence tx (record { type = block; value = v }) ≡ ok s
      → (enforced s ≡ some (record { type = block; value = v })) ↔ (v < 2 ^ 16)
  unfolding enforced
  blocks_enforced v s fits h = (
    λ e. ground (arith, sequence_of_blocks v s h),
    λ few. ground (arith, sequence_of_blocks v s h),
  )

  iff_by_type :
      (type : RelativeLocktimeType) (v s : ℕ)
      → v < 2 ^ 32
      → bip68_sequence tx (record { type = type; value = v }) ≡ ok s
      → (enforced s ≡ some (record { type = type; value = v })) ↔ ((type ≡ second) ⊎ (v < 2 ^ 16))
  iff_by_type second v s fits h = (λ _. inl refl, λ _. seconds_enforced v s h)
  iff_by_type block v s fits h = (
    λ e. inr ((blocks_enforced v s fits h).0 e),
    λ c. (blocks_enforced v s fits h).1 (ground arith),
  )

  -- The sequence number of a locktime enforces exactly that locktime if and only if it is one in
  -- seconds or one of fewer than 65536 blocks: `BIP68Sequence` reports no error for more blocks.
  pub enforced-bip68_sequence_iff :
      (locktime : RelativeLocktime) (s : ℕ)
      → locktime.value < 2 ^ 32
      → bip68_sequence tx locktime ≡ ok s
      → (enforced s ≡ some locktime) ↔ ((locktime.type ≡ second) ⊎ (locktime.value < 2 ^ 16))
  enforced-bip68_sequence_iff locktime s fits h = iff_by_type locktime.type locktime.value s fits h

  -- The number that `BIP68Sequence` gives for seconds is decoded to the same locktime.
  pub decode_number-bip68_sequence :
      (v s : ℕ)
      → bip68_sequence tx (record { type = second; value = v }) ≡ ok s
      → decode_number tx s ≡ ok (record { type = second; value = v })
  unfolding decode_number
  decode_number-bip68_sequence v s h =
      ground (arith, sequence_of_seconds v s h, and_bit 31 s, and_bit 22 s, and_mask 16 s)
