-- ===== src/Script/Closure.antt =====
-- internal/script/closure.go: the three kinds of tapscript leaf, their scripts and witnesses.
pub mod Scripts
pub mod Decode
use ark_escrow.Base.{
  ℕ, zero, suc, ◌+◌, ◌-◌, Bool, true, false, Option, none, some, List, [], ◌∷◌, ◌++◌,
}
use ark_escrow.Base.{Str, str_eq, length, Result, ok, err, ◌>>=◌, or_err, wrap_err, reverse}
use ark_escrow.Hex
use ark_escrow.Curve.{Curve}
use ark_escrow.Script.Txscript.{Txscript, Item, op, ops, push, int}
use ark_escrow.Script.Locktime.{RelativeLocktime, LocktimeError, bip68_sequence}

-- The constants of `MultisigType`; for any other number `Script` has no case.
pub data MultisigType : Type 0 where
  checksig checksig_add : MultisigType
  other_type : ℕ → MultisigType

pub record MultisigClosure (Key : Type 0) : Type 0 where
  pub pub_keys : List Key
  pub type : MultisigType

pub record CsvMultisigClosure (Key : Type 0) : Type 0 where
  pub multisig : MultisigClosure Key
  pub locktime : RelativeLocktime

pub record ConditionMultisigClosure (Key : Type 0) : Type 0 where
  pub multisig : MultisigClosure Key
  pub condition : Str

-- The implementations of the interface `Closure`.
pub data Closure (Key : Type 0) : Type 0 where
  multisig_closure : MultisigClosure Key → Closure Key
  csv_closure : CsvMultisigClosure Key → Closure Key
  condition_closure : ConditionMultisigClosure Key → Closure Key

pub data ScriptError : Type 0 where
  builder_failed use_finalize : ScriptError
  bad_locktime : LocktimeError → ScriptError
  missing_signature : Str → ScriptError

-- `signatures[key]` of a map[string][]byte
unfoldable pub signature_of : Str → List (Str × Str) → Option Str
signature_of key [] = none
signature_of key ((other, sig) ∷ signatures) =
    let rest = signature_of key signatures in
    elim (str_eq other key) [ true ↦ some sig | false ↦ rest ]

module _ (c : Curve) (tx : Txscript) where
  -- The loop of `MultisigTypeChecksig`.
  pub checksig_items : List c.PublicKey → List Item
  checksig_items [] = []
  checksig_items (key ∷ []) = push (c.serialize key) ∷ op tx.op_checksig ∷ []
  checksig_items (key ∷ key' ∷ keys) =
      push (c.serialize key) ∷ op tx.op_checksigverify ∷ checksig_items (key' ∷ keys)

  -- The loop of `MultisigTypeChecksigAdd`, with the opcode for the next key.
  pub checksig_add_items : ℕ → List c.PublicKey → List Item
  checksig_add_items opcode [] = []
  checksig_add_items opcode (key ∷ keys) =
      push (c.serialize key) ∷ op opcode ∷ checksig_add_items tx.op_checksigadd keys

  pub multisig_items : MultisigType → List c.PublicKey → List Item
  unfolding checksig_items checksig_add_items
  multisig_items checksig keys = checksig_items keys
  multisig_items checksig_add keys =
      checksig_add_items tx.op_checksig keys ++ int (length keys) ∷ op tx.op_numequal ∷ []
  multisig_items (other_type _) keys = []

  pub multisig_script : MultisigClosure c.PublicKey → Result ScriptError Str
  unfolding multisig_items
  multisig_script f = or_err builder_failed (tx.build (multisig_items f.type f.pub_keys))

  pub csv_script : CsvMultisigClosure c.PublicKey → Result ScriptError Str
  unfolding multisig_script
  csv_script d = do
    sequence ← wrap_err bad_locktime (bip68_sequence tx d.locktime)
    csv ←
        or_err builder_failed
          (tx.build (int sequence ∷ ops (tx.op_checksequenceverify ∷ tx.op_drop ∷ []) ∷ []))
    multisig ← multisig_script d.multisig
    ok (csv ++ multisig)

  pub condition_script : ConditionMultisigClosure c.PublicKey → Result ScriptError Str
  unfolding multisig_script
  condition_script f = do
    multisig ← multisig_script f.multisig
    or_err builder_failed (tx.build (ops f.condition ∷ op tx.op_verify ∷ ops multisig ∷ []))

  -- The interface's method `Script`.
  unfoldable pub script : Closure c.PublicKey → Result ScriptError Str
  unfolding multisig_script csv_script condition_script
  script (multisig_closure f) = multisig_script f
  script (csv_closure d) = csv_script d
  script (condition_closure f) = condition_script f

  -- The loop of `MultisigClosure.Witness`, over the keys from the last to the first.
  unfoldable pub collect_signatures :
      List (Str × Str) → List c.PublicKey → Result ScriptError (List Str)
  unfolding signature_of
  collect_signatures signatures [] = ok []
  collect_signatures signatures (key ∷ keys) = do
    sig ←
        or_err (missing_signature (c.serialize key))
          (signature_of (Hex.encode_to_string (c.serialize key)) signatures)
    rest ← collect_signatures signatures keys
    ok (sig ∷ rest)

  unfoldable pub multisig_witness :
      MultisigClosure c.PublicKey → Str → List (Str × Str) → Result ScriptError (List Str)
  unfolding collect_signatures multisig_script
  multisig_witness f control_block signatures = do
    sigs ← collect_signatures signatures (reverse f.pub_keys)
    leaf ← multisig_script f
    ok (sigs ++ leaf ∷ control_block ∷ [])

  -- `multisigWitness[len(multisigWitness)-2] = script`
  unfoldable pub replace_script : Str → List Str → List Str
  replace_script leaf [] = []
  replace_script leaf (x ∷ []) = x ∷ []
  replace_script leaf (x ∷ y ∷ []) = leaf ∷ y ∷ []
  replace_script leaf (x ∷ y ∷ z ∷ rest) = x ∷ replace_script leaf (y ∷ z ∷ rest)

  unfoldable pub csv_witness :
      CsvMultisigClosure c.PublicKey → Str → List (Str × Str) → Result ScriptError (List Str)
  unfolding multisig_witness csv_script replace_script
  csv_witness f control_block signatures = do
    witness ← multisig_witness f.multisig control_block signatures
    leaf ← csv_script f
    ok (replace_script leaf witness)

  pub condition_witness :
      ConditionMultisigClosure c.PublicKey → Str → List (Str × Str) → Result ScriptError (List Str)
  condition_witness f control_block args = err use_finalize

  -- The interface's method `Witness`.
  unfoldable pub witness :
      Closure c.PublicKey → Str → List (Str × Str) → Result ScriptError (List Str)
  unfolding multisig_witness csv_witness condition_witness
  witness (multisig_closure f) = multisig_witness f
  witness (csv_closure d) = csv_witness d
  witness (condition_closure f) = condition_witness f
