-- ===== src/Tests/Txscript.antt =====
-- A small concrete version of the script library.
use ark_escrow.Base.{
  ℕ, ◌+◌, ◌-◌, ◌*◌, ◌/◌, ◌%◌, ◌^◌, ◌<◌, ◌≤◌, ◌≡◌, refl, arith, ap, Bool, true, false, Str,
}
use ark_escrow.Base.{
  Option, none, some, List, [], ◌∷◌, ◌++◌, length, take, drop, leb, ltb, ◌==◌, ◌||◌, ◌&&◌,
}
use ark_escrow.Base.{if◌then◌else◌, take-length_append, drop-length_append, length-append}
use ark_escrow.Script.Txscript.{
  Txscript, IsTxscript, Item, op, ops, push, int, Token, at_end, malformed, token, items_bytes,
}

-- Four bytes, the lowest first, and a zero.
abbrev pub five_bytes : ℕ → Str
five_bytes n = n % 256 ∷ n / 2 ^ 8 % 256 ∷ n / 2 ^ 16 % 256 ∷ n / 2 ^ 24 % 256 ∷ 0 ∷ []

abbrev pub push_number : ℕ → Str
push_number n =
    if n == 0
    then 0 ∷ []
    else if leb n 16
    then (0x50 + n) ∷ []
    else length (five_bytes n) ∷ five_bytes n

abbrev item : Item → Str
item (op o) = o ∷ []
item (ops s) = s
item (push d) = length d ∷ d
item (int n) = push_number n

abbrev items : List Item → Str
items [] = []
items (i ∷ is) = item i ++ items is

abbrev next : Str → Token
next [] = at_end
next (o ∷ rest) =
    if ltb 75 o || o == 0
    then token o [] rest
    else if leb o (length rest)
    then token o (take o rest) (drop o rest)
    else malformed

abbrev script_number : Str → Option ℕ
script_number (b ∷ []) = some b
script_number (a ∷ b ∷ c ∷ d ∷ e ∷ []) = some (a + 2 ^ 8 * b + 2 ^ 16 * c + 2 ^ 24 * d)
script_number _ = none

abbrev sequence_of : Bool → ℕ → ℕ
sequence_of false n = n
sequence_of true n = 2 ^ 22 + n / 2 ^ 9

abbrev pub txscript : Txscript
txscript = record {
  op_data_32 = 0x20;
  op_1 = 0x51;
  op_16 = 0x60;
  op_verify = 0x69;
  op_drop = 0x75;
  op_equal = 0x87;
  op_numequal = 0x9c;
  op_sha256 = 0xa8;
  op_checksig = 0xac;
  op_checksigverify = 0xad;
  op_checksequenceverify = 0xb2;
  op_checksigadd = 0xba;
  data_push = λ d. length d ∷ d;
  int_push = push_number;
  build = λ is. if leb (length (items is)) 10000 then some (items is) else none;
  next_token = next;
  is_small_int = λ (n : ℕ). n == 0 || leb 0x51 n && leb n 0x60;
  as_small_int = λ (n : ℕ). n - 0x50;
  make_script_num = script_number;
  lock_time_to_sequence = sequence_of;
}

items_lem : (is : List Item) → items is ≡ items_bytes txscript is
items_lem [] = refl
items_lem (op o ∷ is) = ap (λ l. o ∷ l) (items_lem is)
items_lem (ops s ∷ is) = ap (λ l. s ++ l) (items_lem is)
items_lem (push d ∷ is) = ap (λ l. (length d ∷ d) ++ l) (items_lem is)
items_lem (int n ∷ is) = ap (λ l. push_number n ++ l) (items_lem is)

builds :
    (is : List Item)
    → length (items_bytes txscript is) ≤ 10000
    → txscript.build is ≡ some (items_bytes txscript is)
builds is short = ground (arith, items_lem is)

next-push :
    (d rest : Str)
    → 0 < length d
    → length d ≤ 75
    → next (length d ∷ d ++ rest) ≡ token (length d) d rest
next-push d rest pos short =
    rw (take-length_append d rest, drop-length_append d rest) (ground (arith, length-append d rest))

pub txscript-IsTxscript : IsTxscript txscript
txscript-IsTxscript = record {
  op_data_32 = refl;
  op_1 = refl;
  op_16 = refl;
  op_verify = refl;
  op_drop = refl;
  op_equal = refl;
  op_numequal = refl;
  op_sha256 = refl;
  op_checksig = refl;
  op_checksigverify = refl;
  op_checksequenceverify = refl;
  op_checksigadd = refl;
  builds = builds;
  data_push_32 = λ d size. ap (λ n. n ∷ d) size;
  length-int_push = λ n. ground arith;
  next_token-nil = refl;
  next_token-op = λ o rest low high. ground arith;
  blocks_sequence = λ n. refl;
  seconds_sequence = λ n h. refl;
  small_ints = λ n. refl;
  as_small_ints = λ n h. ground arith;
  int_push-small = λ n h. ground arith;
  next_token-small = λ n rest h. ground arith;
  make_script_num-byte = λ b low high. refl;
  number_bytes = five_bytes;
  int_push-large = λ n low high. ground arith;
  length-number_bytes = λ n low high. ground arith;
  make_script_num-number_bytes = λ n low high. ground arith;
  next_token-push = next-push;
}
