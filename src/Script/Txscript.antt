-- ===== src/Script/Txscript.antt =====
-- txscript and blockchain of btcsuite/btcd, which are not part of the repository: the script
-- builder, the tokenizer and the script numbers that internal/script calls.
use ark_escrow.Base.{
  ℕ, ◌+◌, ◌/◌, ◌^◌, ◌≤◌, ◌<◌, ◌≡◌, Bool, true, false, ◌&&◌, ◌||◌, ◌==◌, leb, Option, some, Str,
}
use ark_escrow.Base.{List, [], ◌∷◌, ◌++◌, length}

-- A call on a `ScriptBuilder`: AddOp, AddOps, AddData, AddInt64 of a number that is not negative.
pub data Item : Type 0 where
  op : ℕ → Item
  ops : Str → Item
  push : Str → Item
  int : ℕ → Item

-- What `Next` finds at the rest of a script: its end, a malformed push, or an opcode with its data
-- and what comes after.
pub data Token : Type 0 where
  at_end malformed : Token
  token : ℕ → Str → Str → Token

pub record Txscript : Type 0 where
  -- the opcodes that the code names, OP_CHECKSIG and so on
  pub op_data_32 : ℕ
  pub op_1 : ℕ
  pub op_16 : ℕ
  pub op_verify : ℕ
  pub op_drop : ℕ
  pub op_equal : ℕ
  pub op_numequal : ℕ
  pub op_sha256 : ℕ
  pub op_checksig : ℕ
  pub op_checksigverify : ℕ
  pub op_checksequenceverify : ℕ
  pub op_checksigadd : ℕ
  -- the bytes that AddData and AddInt64 append
  pub data_push : Str → Str
  pub int_push : ℕ → Str
  -- NewScriptBuilder, the calls in order, then Script; `none` is its error
  pub build : List Item → Option Str
  pub next_token : Str → Token
  pub is_small_int : ℕ → Bool
  pub as_small_int : ℕ → ℕ
  -- MakeScriptNum with minimal encoding required: the int64 as its bits, below 2 ^ 64
  pub make_script_num : Str → Option ℕ
  -- blockchain.LockTimeToSequence
  pub lock_time_to_sequence : Bool → ℕ → ℕ

abbrev pub item_bytes : Txscript → Item → Str
item_bytes tx (op o) = o ∷ []
item_bytes tx (ops s) = s
item_bytes tx (push d) = tx.data_push d
item_bytes tx (int n) = tx.int_push n

abbrev pub items_bytes : Txscript → List Item → Str
items_bytes tx [] = []
items_bytes tx (i ∷ is) = item_bytes tx i ++ items_bytes tx is

-- The documented behaviour. A script has at most 10,000 bytes; 32 bytes of data are pushed by
-- OP_DATA_32; an opcode above OP_16 has no data; BIP68 takes a number of blocks as it is, and
-- seconds as a flag with the number of 512-second units.
pub record IsTxscript (tx : Txscript) : Type 0 where
  pub op_data_32 : tx.op_data_32 ≡ 0x20
  pub op_1 : tx.op_1 ≡ 0x51
  pub op_16 : tx.op_16 ≡ 0x60
  pub op_verify : tx.op_verify ≡ 0x69
  pub op_drop : tx.op_drop ≡ 0x75
  pub op_equal : tx.op_equal ≡ 0x87
  pub op_numequal : tx.op_numequal ≡ 0x9c
  pub op_sha256 : tx.op_sha256 ≡ 0xa8
  pub op_checksig : tx.op_checksig ≡ 0xac
  pub op_checksigverify : tx.op_checksigverify ≡ 0xad
  pub op_checksequenceverify : tx.op_checksequenceverify ≡ 0xb2
  pub op_checksigadd : tx.op_checksigadd ≡ 0xba
  pub builds :
      (items : List Item)
      → length (items_bytes tx items) ≤ 10000
      → tx.build items ≡ some (items_bytes tx items)
  pub data_push_32 : (d : Str) → length d ≡ 32 → tx.data_push d ≡ tx.op_data_32 ∷ d
  pub length-int_push : (n : ℕ) → length (tx.int_push n) ≤ 9
  pub next_token-nil : tx.next_token [] ≡ at_end
  pub next_token-op :
      (o : ℕ) (rest : Str) → 0x60 < o → o < 256 → tx.next_token (o ∷ rest) ≡ token o [] rest
  pub blocks_sequence : (n : ℕ) → tx.lock_time_to_sequence false n ≡ n
  pub seconds_sequence : (n : ℕ) → n < 2 ^ 25 → tx.lock_time_to_sequence true n ≡ 2 ^ 22 + n / 2 ^ 9
  -- The numbers 1 to 16 are opcodes of their own; a larger one is the push of its script number.
  pub small_ints : (n : ℕ) → tx.is_small_int n ≡ (n == 0 || leb tx.op_1 n && leb n tx.op_16)
  pub as_small_ints : (n : ℕ) → n ≤ 15 → tx.as_small_int (tx.op_1 + n) ≡ n + 1
  pub int_push-small : (n : ℕ) → n ≤ 15 → tx.int_push (n + 1) ≡ (tx.op_1 + n) ∷ []
  pub next_token-small :
      (n : ℕ) (rest : Str)
      → n ≤ 15
      → tx.next_token ((tx.op_1 + n) ∷ rest) ≡ token (tx.op_1 + n) [] rest
  pub make_script_num-byte : (b : ℕ) → 0 < b → b < 0x80 → tx.make_script_num (b ∷ []) ≡ some b
  pub number_bytes : ℕ → Str
  pub int_push-large :
      (n : ℕ) → 16 < n → n < 2 ^ 32 → tx.int_push n ≡ length (number_bytes n) ∷ number_bytes n
  pub length-number_bytes :
      (n : ℕ) → 16 < n → n < 2 ^ 32 → (0 < length (number_bytes n)) × (length (number_bytes n) ≤ 5)
  pub make_script_num-number_bytes :
      (n : ℕ) → 16 < n → n < 2 ^ 32 → tx.make_script_num (number_bytes n) ≡ some n
  pub next_token-push :
      (d rest : Str)
      → 0 < length d
      → length d ≤ 75
      → tx.next_token (length d ∷ d ++ rest) ≡ token (length d) d rest
