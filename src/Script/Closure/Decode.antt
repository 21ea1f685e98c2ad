-- ===== src/Script/Closure/Decode.antt =====
-- `Decode` of the three closures of internal/script/closure.go, and `DecodeClosure` of
-- internal/script/script.go. A decoder returns the closure that the code fills in, `none` where it
-- reports that the script does not match, or its error. A loop over the tokens runs on the length
-- of the script, since every token takes a byte at least.
use ark_escrow.Base.{
  ℕ, zero, suc, ◌==◌, ◌||◌, ◌&&◌, not, if◌then◌else◌, Str, str_eq, is_empty, length,
}
use ark_escrow.Base.{
  Option, none, some, List, [], ◌∷◌, ◌++◌, Result, ok, err, ◌>>=◌, ◌>>◌, or_err, wrap_err, require,
}
use ark_escrow.Curve.{Curve}
use ark_escrow.Script.Txscript.{Txscript, token}
use ark_escrow.Script.Locktime.{LocktimeError, bip68_decode_sequence_from_bytes}
use ark_escrow.Script.Closure.{
  MultisigClosure, Closure, multisig_closure, csv_closure, condition_closure, checksig,
  checksig_add, ScriptError, multisig_script, condition_script,
}

pub data DecodeError : Type 0 where
  empty_script invalid_key no_match : DecodeError
  rebuild_failed : ScriptError → DecodeError
  bad_sequence : LocktimeError → DecodeError

-- `condition = append(condition, opcode)`, then the data, before the rest of the loop.
abbrev pub token_before : ℕ → Str → Str × Str → Str × Str
token_before opcode pushed (condition, sub_script) = (opcode ∷ (pushed ++ condition), sub_script)

module _ (c : Curve) (tx : Txscript) where
  -- `bytes.Equal(rebuilt, script)`
  unfoldable pub rebuilt_multisig :
      Str → MultisigClosure c.PublicKey → Result DecodeError (Option (MultisigClosure c.PublicKey))
  rebuilt_multisig script f = do
    rebuilt ← wrap_err rebuild_failed (multisig_script c tx f)
    ok (if str_eq rebuilt script then some f else none)

  -- The end of the loop of `decodeChecksig`, at the opcode that ended it.
  unfoldable pub end_checksig :
      Str → ℕ → List c.PublicKey → Result DecodeError (Option (MultisigClosure c.PublicKey))
  unfolding rebuilt_multisig
  end_checksig script opcode keys =
      if opcode == tx.op_checksig && not (length keys == 0)
      then rebuilt_multisig script (record { pub_keys = keys; type = checksig })
      else ok none

  unfoldable pub checksig_loop :
      Str → ℕ → Str → List c.PublicKey → Result DecodeError (Option (MultisigClosure c.PublicKey))
  unfolding end_checksig
  checksig_loop script zero rest keys = ok none
  checksig_loop script (suc fuel) rest keys = elim (tx.next_token rest) [
    | token opcode pushed after ↦
        if opcode == tx.op_data_32
        then (or_err invalid_key (c.parse_x_only pushed) >>= λ key.
            elim (tx.next_token after)
              as (λ _. Result DecodeError (Option (MultisigClosure c.PublicKey))) [
                | token opcode' _ after' ↦
                    if opcode' == tx.op_checksigverify
                    then checksig_loop script fuel after' (keys ++ key ∷ [])
                    else end_checksig script opcode' (keys ++ key ∷ [])
                | _ ↦ ok none
              ])
        else ok none
    | _ ↦ ok none
  ]

  unfoldable pub decode_checksig : Str → Result DecodeError (Option (MultisigClosure c.PublicKey))
  unfolding checksig_loop
  decode_checksig script = checksig_loop script (length script) script []

  -- The end of the loop of `decodeChecksigAdd`, at the small number that ended it.
  unfoldable pub end_checksig_add :
      Str → ℕ → Str → List c.PublicKey → Result DecodeError (Option (MultisigClosure c.PublicKey))
  unfolding rebuilt_multisig
  end_checksig_add script opcode after keys = elim (tx.next_token after) [
    | token opcode' _ _ ↦
        if length keys == tx.as_small_int opcode && opcode' == tx.op_numequal
        then rebuilt_multisig script (record { pub_keys = keys; type = checksig_add })
        else ok none
    | _ ↦ ok none
  ]

  unfoldable pub checksig_add_loop :
      Str → ℕ → Str → List c.PublicKey → Result DecodeError (Option (MultisigClosure c.PublicKey))
  unfolding end_checksig_add
  checksig_add_loop script zero rest keys = ok none
  checksig_add_loop script (suc fuel) rest keys = elim (tx.next_token rest) [
    | token opcode pushed after ↦
        if tx.is_small_int opcode
        then end_checksig_add script opcode after keys
        else if opcode == tx.op_data_32
        then (or_err invalid_key (c.parse_x_only pushed) >>= λ key.
            elim (tx.next_token after)
              as (λ _. Result DecodeError (Option (MultisigClosure c.PublicKey))) [
                | token opcode' _ after' ↦
                    if opcode' == tx.op_checksigadd || opcode' == tx.op_checksig
                    then checksig_add_loop script fuel after' (keys ++ key ∷ [])
                    else ok none
                | _ ↦ ok none
              ])
        else ok none
    | _ ↦ ok none
  ]

  unfoldable pub decode_checksig_add :
      Str → Result DecodeError (Option (MultisigClosure c.PublicKey))
  unfolding checksig_add_loop
  decode_checksig_add script = checksig_add_loop script (length script) script []

  unfoldable pub decode_multisig : Str → Result DecodeError (Option (MultisigClosure c.PublicKey))
  unfolding decode_checksig decode_checksig_add
  decode_multisig script = do
    require (not (is_empty script)) empty_script
    plain ← decode_checksig script
    elim plain as (λ _. Result DecodeError (Option (MultisigClosure c.PublicKey))) [
      | some f ↦ ok (some f)
      | none ↦ decode_checksig_add script
    ]

  -- What comes after an opcode, if the next token is that opcode.
  unfoldable pub expect : ℕ → Str → Option Str
  expect opcode rest = elim (tx.next_token rest) [
    | token opcode' _ after ↦ if opcode' == opcode then some after else none
    | _ ↦ none
  ]

  -- The sequence of the first token, and what comes after OP_CHECKSEQUENCEVERIFY OP_DROP.
  unfoldable pub csv_prefix : Str → Option (Str × Str)
  unfolding expect
  csv_prefix script = elim (tx.next_token script) [
    | token opcode pushed after ↦ elim (expect tx.op_checksequenceverify after) [
      | none ↦ none
      | some after' ↦ elim (expect tx.op_drop after') [
        | none ↦ none
        | some sub_script ↦
            some (if tx.is_small_int opcode then opcode ∷ [] else pushed, sub_script)
      ]
    ]
    | _ ↦ none
  ]

  -- `MultisigClosure.Decode` at the rest of a script: the closure put into a larger one.
  abbrev pub with_multisig :
      (MultisigClosure c.PublicKey → Closure c.PublicKey)
      → Option (MultisigClosure c.PublicKey)
      → Option (Closure c.PublicKey)
  with_multisig f none = none
  with_multisig f (some m) = some (f m)

  unfoldable pub decode_csv : Str → Result DecodeError (Option (Closure c.PublicKey))
  unfolding csv_prefix decode_multisig
  decode_csv script = do
    require (not (is_empty script)) empty_script
    elim (csv_prefix script) as (λ _. Result DecodeError (Option (Closure c.PublicKey))) [
      | none ↦ ok none
      | some (sequence, sub_script) ↦
          wrap_err bad_sequence (bip68_decode_sequence_from_bytes tx sequence) >>= λ locktime.
          decode_multisig sub_script >>= λ m.
          ok (with_multisig (λ m. csv_closure (record { multisig = m; locktime = locktime })) m)
    ]

  -- The tokens before the first OP_VERIFY, as opcodes and data, and the script after it; without one,
  -- what is left where the tokens end.
  unfoldable pub condition_prefix : ℕ → Str → Str × Str
  condition_prefix zero rest = ([], rest)
  condition_prefix (suc fuel) rest = elim (tx.next_token rest) [
    | token opcode pushed after ↦
        if opcode == tx.op_verify
        then ([], after)
        else token_before opcode pushed (condition_prefix fuel after)
    | _ ↦ ([], rest)
  ]

  -- `bytes.Equal(rebuilt, script)` for a closure with a condition.
  unfoldable pub rebuilt_condition :
      Str
      → Str
      → Option (MultisigClosure c.PublicKey)
      → Result DecodeError (Option (Closure c.PublicKey))
  rebuilt_condition script condition none = ok none
  rebuilt_condition script condition (some m) = do
    rebuilt ←
        wrap_err rebuild_failed
          (condition_script c tx (record { multisig = m; condition = condition }))
    ok (
        if str_eq rebuilt script
        then some (condition_closure (record { multisig = m; condition = condition }))
        else none)

  unfoldable pub decode_condition : Str → Result DecodeError (Option (Closure c.PublicKey))
  unfolding condition_prefix decode_multisig rebuilt_condition
  decode_condition script = do
    require (not (is_empty script)) empty_script
    let (condition, sub_script) = condition_prefix (length script) script
    m ← decode_multisig sub_script
    rebuilt_condition script condition m

  -- The closure of a decoder that matched; an error is passed over.
  abbrev pub or_next :
      Result DecodeError (Option (Closure c.PublicKey))
      → Result DecodeError (Closure c.PublicKey)
      → Result DecodeError (Closure c.PublicKey)
  or_next (ok (some f)) others = ok f
  or_next _ others = others

  -- `MultisigClosure.Decode` as a method of the interface.
  abbrev pub as_closure :
      Result DecodeError (Option (MultisigClosure c.PublicKey))
      → Result DecodeError (Option (Closure c.PublicKey))
  as_closure (ok m) = ok (with_multisig multisig_closure m)
  as_closure (err e) = err e

  unfoldable pub decode_closure : Str → Result DecodeError (Closure c.PublicKey)
  unfolding decode_csv decode_multisig decode_condition
  decode_closure script = do
    require (not (is_empty script)) empty_script
    or_next (decode_csv script) (
        or_next (as_closure (decode_multisig script))
          (or_next (decode_condition script) (err no_match)))
