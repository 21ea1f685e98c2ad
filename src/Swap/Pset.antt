-- ===== src/Swap/Pset.antt =====
-- `buildPSET`, `signTapscriptInput` and `extractAndBroadcast` of pkg/escrow/swap/tx.go. The PSETs of
-- vulpemventures/go-elements and the signatures of btcec are the parameter `Psetv2`; of a PSET the
-- model keeps what the code reads and writes at its one input.
pub mod Transaction
use ark_escrow.Base.{ℕ, Str, ◌≡◌, Option, none, some, List, [], ◌∷◌, ◌++◌, get_elem?}
use ark_escrow.Base.{Result, ok, err, ◌>>=◌, or_err}
use ark_escrow.Curve.{Curve}
use ark_escrow.Escrow.Elements.{unspendable_key}

pub record Network : Type 0 where
  pub asset_id : Str
  pub genesis_block_hash : Str

pub record InputArgs : Type 0 where
  pub txid : Str
  pub tx_index : ℕ
  pub sequence : ℕ

pub record OutputArgs : Type 0 where
  pub asset : Str
  pub amount : ℕ
  pub script : Option Str  -- the fee output has none

pub record TxOutput : Type 0 where
  pub asset : Str
  pub value : Str
  pub script : Str

pub record TapScriptSig : Type 0 where
  pub pub_key : Str
  pub signature : Str
  pub leaf_hash : Str

pub record Pset (ControlBlock : Type 0) : Type 0 where
  pub inputs : List InputArgs
  pub outputs : List OutputArgs
  pub locktime : ℕ
  pub witness_utxo : Option TxOutput
  pub tap_leaf_script : List (Str × ControlBlock)
  pub tap_internal_key : Str
  pub tap_script_sig : List TapScriptSig
  pub final_script_witness : Str

pub record Psetv2 (c : Curve) : Type 1 where
  pub ControlBlock : Type 0
  -- taproot.ParseControlBlock, elementsutil.AssetHashToBytes and ValueToBytes
  pub parse_control_block : Str → Option ControlBlock
  pub asset_hash_to_bytes : Str → Option Str
  pub value_to_bytes : ℕ → Option Str
  -- psetv2.New, then NewUpdater; AddInWitnessUtxo, AddInTapLeafScript, AddInTapInternalKey at input 0
  pub new_pset : List InputArgs → List OutputArgs → ℕ → Option (Pset ControlBlock)
  pub add_in_witness_utxo : TxOutput → Pset ControlBlock → Option (Pset ControlBlock)
  pub add_in_tap_leaf_script : Str → ControlBlock → Pset ControlBlock → Option (Pset ControlBlock)
  pub add_in_tap_internal_key : Str → Pset ControlBlock → Option (Pset ControlBlock)
  -- chainhash.NewHashFromStr; TapHash of a base leaf
  pub new_hash_from_str : Str → Option Str
  pub tap_hash : Str → Str
  -- UnsignedTx and HashForWitnessV1 at input 0 with SigHashDefault: the spent output, the genesis
  -- hash and the leaf's hash
  pub hash_for_witness_v1 : Pset ControlBlock → TxOutput → Str → Str → Option Str
  -- schnorr.Sign, then Serialize
  pub sign : c.PrivateKey → Str → Option Str
  -- Extract, then ToHex
  pub extract : Pset ControlBlock → Option Str

-- The documented behaviour: a new PSET has the inputs and outputs and no signature, and an update
-- sets its field.
pub record IsPsetv2 (c : Curve) (lib : Psetv2 c) : Type 0 where
  pub new_pset_eq :
      (inputs : List InputArgs) (outputs : List OutputArgs) (locktime : ℕ)
      (p : Pset lib.ControlBlock)
      → lib.new_pset inputs outputs locktime ≡ some p
      → (p.inputs ≡ inputs) × (p.outputs ≡ outputs) × (p.tap_script_sig ≡ [])
  pub add_in_witness_utxo_eq :
      (utxo : TxOutput) (p p' : Pset lib.ControlBlock)
      → lib.add_in_witness_utxo utxo p ≡ some p'
      → (p'.inputs ≡ p.inputs)
        × (p'.outputs ≡ p.outputs)
        × (p'.tap_script_sig ≡ p.tap_script_sig)
        × (p'.witness_utxo ≡ some utxo)
  pub add_in_tap_leaf_script_eq :
      (leaf : Str) (cb : lib.ControlBlock) (p p' : Pset lib.ControlBlock)
      → lib.add_in_tap_leaf_script leaf cb p ≡ some p'
      → (p'.inputs ≡ p.inputs)
        × (p'.outputs ≡ p.outputs)
        × (p'.tap_script_sig ≡ p.tap_script_sig)
        × (p'.witness_utxo ≡ p.witness_utxo)
        × (p'.tap_leaf_script ≡ p.tap_leaf_script ++ (leaf, cb) ∷ [])
  pub add_in_tap_internal_key_eq :
      (key : Str) (p p' : Pset lib.ControlBlock)
      → lib.add_in_tap_internal_key key p ≡ some p'
      → (p'.inputs ≡ p.inputs)
        × (p'.outputs ≡ p.outputs)
        × (p'.tap_script_sig ≡ p.tap_script_sig)
        × (p'.witness_utxo ≡ p.witness_utxo)
        × (p'.tap_leaf_script ≡ p.tap_leaf_script)

pub data PsetError : Type 0 where
  new_failed bad_asset bad_value utxo_failed bad_control_block leaf_script_failed : PsetError
  internal_key_failed no_unspendable_key : PsetError
  -- a field of the input is missing: a panic of the code
  no_witness_utxo no_tap_leaf_script : PsetError
  unsigned_tx_failed bad_genesis_hash sign_failed extract_failed broadcast_failed : PsetError

module _ (c : Curve) (lib : Psetv2 c) where
  unfoldable pub build_pset :
      Str
      → ℕ
      → ℕ
      → ℕ
      → ℕ
      → ℕ
      → Str
      → Str
      → Str
      → Str
      → Network
      → Result PsetError (Pset lib.ControlBlock)
  build_pset txid vout sequence input_amount output_amount fee prevout_script dest_script
        leaf_script control_block net =
      do
        p0 ← or_err new_failed (
            lib.new_pset (record { txid = txid; tx_index = vout; sequence = sequence } ∷ [])
              (record { asset = net.asset_id; amount = output_amount; script = some dest_script }
                ∷ record { asset = net.asset_id; amount = fee; script = none }
                ∷ [])
              0)
        asset ← or_err bad_asset (lib.asset_hash_to_bytes net.asset_id)
        value ← or_err bad_value (lib.value_to_bytes input_amount)
        p1 ← or_err utxo_failed (
            lib.add_in_witness_utxo
              (record { asset = asset; value = value; script = prevout_script }) p0)
        cb ← or_err bad_control_block (lib.parse_control_block control_block)
        p2 ← or_err leaf_script_failed (lib.add_in_tap_leaf_script leaf_script cb p1)
        key ← or_err no_unspendable_key (unspendable_key c)
        or_err internal_key_failed (lib.add_in_tap_internal_key (c.serialize key) p2)

  -- `p.Inputs[0].TapScriptSig = append(p.Inputs[0].TapScriptSig, sig)`
  abbrev pub add_sig : TapScriptSig → Pset lib.ControlBlock → Pset lib.ControlBlock
  add_sig sig p = record {
    inputs = p.inputs;
    outputs = p.outputs;
    locktime = p.locktime;
    witness_utxo = p.witness_utxo;
    tap_leaf_script = p.tap_leaf_script;
    tap_internal_key = p.tap_internal_key;
    tap_script_sig = p.tap_script_sig ++ sig ∷ [];
    final_script_witness = p.final_script_witness;
  }

  -- `p.Inputs[0].FinalScriptWitness = witness`
  abbrev pub set_witness : Str → Pset lib.ControlBlock → Pset lib.ControlBlock
  set_witness witness p = record {
    inputs = p.inputs;
    outputs = p.outputs;
    locktime = p.locktime;
    witness_utxo = p.witness_utxo;
    tap_leaf_script = p.tap_leaf_script;
    tap_internal_key = p.tap_internal_key;
    tap_script_sig = p.tap_script_sig;
    final_script_witness = witness;
  }

  -- The loop over the keys, in which a nil key is passed over.
  unfoldable pub sign_keys :
      Str
      → Str
      → List (Option c.PrivateKey)
      → Pset lib.ControlBlock
      → Result PsetError (Pset lib.ControlBlock)
  sign_keys sighash leaf_hash [] p = ok p
  sign_keys sighash leaf_hash (none ∷ keys) p = sign_keys sighash leaf_hash keys p
  sign_keys sighash leaf_hash (some key ∷ keys) p = do
    sig ← or_err sign_failed (lib.sign key sighash)
    sign_keys sighash leaf_hash keys (
        add_sig
          (record { pub_key = c.serialize (c.pub_key key); signature = sig; leaf_hash = leaf_hash })
          p)

  unfoldable pub sign_tapscript_input :
      Pset lib.ControlBlock
      → List (Option c.PrivateKey)
      → Network
      → Result PsetError (Pset lib.ControlBlock)
  unfolding sign_keys
  sign_tapscript_input p keys net = do
    utxo ← or_err no_witness_utxo p.witness_utxo
    genesis_hash ← or_err bad_genesis_hash (lib.new_hash_from_str net.genesis_block_hash)
    (leaf, _) ← or_err no_tap_leaf_script (get_elem? p.tap_leaf_script 0)
    let leaf_hash = lib.tap_hash leaf
    sighash ← or_err unsigned_tx_failed (lib.hash_for_witness_v1 p utxo genesis_hash leaf_hash)
    sign_keys sighash leaf_hash keys p

  -- The id that the node answers, with the transactions that were sent to it.
  unfoldable pub extract_and_broadcast :
      (Str → Option Str) → Pset lib.ControlBlock → Result PsetError Str × List Str
  extract_and_broadcast send_raw_transaction p = elim (lib.extract p) [
    | none ↦ (err extract_failed, [])
    | some tx_hex ↦ (or_err broadcast_failed (send_raw_transaction tx_hex), tx_hex ∷ [])
  ]
