-- ===== src/Script/Locktime.antt =====
-- internal/script/locktime.go: relative locktimes and their BIP68 sequence numbers.
pub mod Bounds
pub mod RoundTrip
use ark_escrow.Base.{ℕ, ◌+◌, ◌-◌, ◌*◌, ◌/◌, ◌%◌, ◌^◌, ◌≡◌, bit_and, ◌&&◌, not, leb, ltb, ◌==◌, Str}
use ark_escrow.Base.{
  Bool, true, false, Option, none, some, if◌then◌else◌, Result, ok, err, ◌>>=◌, ◌>>◌,
}
use ark_escrow.Base.{require, or_err}
use ark_escrow.Script.Txscript.{Txscript}

-- The constants `LocktimeTypeSecond` and `LocktimeTypeBlock`.
pub data RelativeLocktimeType : Type 0 where
  second block : RelativeLocktimeType

pub record RelativeLocktime : Type 0 where
  pub type : RelativeLocktimeType
  pub value : ℕ  -- uint32

abbrev pub sequence_mask : ℕ
sequence_mask = 0xffff

abbrev pub sequence_type_flag : ℕ
sequence_type_flag = 2 ^ 22

abbrev pub sequence_granularity : ℕ
sequence_granularity = 9

abbrev pub seconds_mod : ℕ
seconds_mod = 2 ^ 9

abbrev pub seconds_max : ℕ
seconds_max = 0xffff * 2 ^ 9

abbrev pub sequence_disable_flag : ℕ
sequence_disable_flag = 2 ^ 31

pub data LocktimeError : Type 0 where
  seconds_too_large seconds_not_multiple : LocktimeError
  bad_script_num sequence_disabled : LocktimeError

abbrev pub is_seconds : RelativeLocktimeType → Bool
is_seconds second = true
is_seconds block = false

module _ (tx : Txscript) where
  unfoldable pub bip68_sequence : RelativeLocktime → Result LocktimeError ℕ
  bip68_sequence locktime =
      if is_seconds locktime.type && ltb seconds_max locktime.value
      then err seconds_too_large
      else if is_seconds locktime.type && not (locktime.value % seconds_mod == 0)
      then err seconds_not_multiple
      else ok (tx.lock_time_to_sequence (is_seconds locktime.type) locktime.value)

  -- Numbers from OP_1 to OP_16 are taken for the opcodes, whatever they came from.
  abbrev pub from_opcode : ℕ → ℕ
  from_opcode n = if leb tx.op_1 n && leb n tx.op_16 then n - (tx.op_1 - 1) else n

  -- The bits of the int64 `asNumber`; `&` and `<<` bind alike in Go, from the left.
  pub decode_number : ℕ → Result LocktimeError RelativeLocktime
  decode_number n =
      if not (bit_and n sequence_disable_flag == 0)
      then err sequence_disabled
      else if not (bit_and n sequence_type_flag == 0)
      then ok (record {
        type = second;
        value = bit_and n sequence_mask * 2 ^ sequence_granularity % 2 ^ 32;
      })
      else ok (record { type = block; value = n % 2 ^ 32 })

  unfoldable pub bip68_decode_sequence_from_bytes : Str → Result LocktimeError RelativeLocktime
  unfolding decode_number
  bip68_decode_sequence_from_bytes sequence = do
    number ← or_err bad_script_num (tx.make_script_num sequence)
    decode_number (from_opcode number)
