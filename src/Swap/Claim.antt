-- ===== src/Swap/Claim.antt =====
-- pkg/escrow/swap/escrow_claim.go: the claim of an escrow through one of its four leaves. A key and
-- the network are pointers, the preimage a slice: each may be nil.
pub mod Amounts
pub mod Stacks
pub mod Spends
pub mod Closures
pub mod Broadcast
use ark_escrow.Base.{
  ℕ, zero, suc, ◌-◌, Str, not, ◌&&◌, ◌||◌, ◌==◌, ltb, leb, Option, none, some, List, [], ◌∷◌,
  get_elem?,
}
use ark_escrow.Base.{Result, ok, err, ◌>>=◌, ◌>>◌, require, or_err, wrap_err, length, is_empty}
use ark_escrow.Base.{if◌then◌else◌}
use ark_escrow.Hex
use ark_escrow.Curve.{Curve}
use ark_escrow.Script.Txscript.{Txscript}
use ark_escrow.Script.Locktime.{LocktimeError, bip68_sequence}
use ark_escrow.Script.Closure.{signature_of}
use ark_escrow.Bech32.Address.{AddressError, address_to_output_script}
use ark_escrow.Escrow.{EscrowScript, timeout_closure}
use ark_escrow.Escrow.Elements.{Taproot, ElementsError, elements_leaf_script, elements_p2tr_script}
use ark_escrow.Swap.Witness.{serialize_witness}
use ark_escrow.Swap.Pset.{
  Network, Pset, Psetv2, PsetError, TapScriptSig, build_pset, sign_tapscript_input,
  extract_and_broadcast, set_witness,
}

abbrev pub htlc_estimated_fee : ℕ
htlc_estimated_fee = 500

abbrev pub dust_limit : ℕ
dust_limit = 546

-- uint32(transaction.DefaultSequence) of go-elements
abbrev pub default_sequence : ℕ
default_sequence = 0xffffffff

pub data ClaimError : Type 0 where
  no_escrow_script no_signing_key no_destination : ClaimError
  invalid_leaf : ℕ → ClaimError
  below_dust : ClaimError
  elements_failed : ElementsError → ClaimError
  bad_destination : AddressError → ClaimError
  bad_locktime : LocktimeError → ClaimError
  pset_failed : PsetError → ClaimError
  no_preimage : ClaimError
  no_signature : Str → ClaimError
  two_keys_required : ClaimError
  -- a nil key, a missing first key or a closure of another kind: a panic of the code
  panic : ClaimError

-- `if p == nil { p = d }`
abbrev pub or_default : {A : Type 0} → A → Option A → A
or_default d none = d
or_default d (some p) = p

-- `Leaf` is an int that is not negative.
pub record ClaimEscrowConfig (c : Curve) : Type 0 where
  pub escrow_script : Option (EscrowScript c.PublicKey)
  pub fund_tx_id : Str
  pub fund_vout : ℕ  -- uint32
  pub amount : ℕ  -- uint64
  pub leaf : ℕ
  pub signing_keys : List (Option c.PrivateKey)
  pub preimage : Option Str
  pub dest_address : Str
  pub fee : ℕ  -- uint64
  pub network : Option Network

-- The map from the hex of a key to its signature; a later one replaces an earlier one.
unfoldable pub collect_sigs : List TapScriptSig → List (Str × Str) → List (Str × Str)
collect_sigs [] sigs = sigs
collect_sigs (tap_sig ∷ tap_sigs) sigs =
    collect_sigs tap_sigs ((Hex.encode_to_string tap_sig.pub_key, tap_sig.signature) ∷ sigs)

module _ (c : Curve) where
  unfoldable pub get_sig : List (Str × Str) → Option (Option c.PrivateKey) → Result ClaimError Str
  get_sig sigs (some (some key)) =
      let pub_hex = Hex.encode_to_string (c.serialize (c.pub_key key)) in
      or_err (no_signature pub_hex) (signature_of pub_hex sigs)
  get_sig sigs _ = err panic

  -- The witness of a leaf, from the map of signatures.
  unfoldable pub escrow_witness :
      List (Str × Str)
      → ℕ
      → List (Option c.PrivateKey)
      → Option Str
      → Str
      → Str
      → Result ClaimError (List Str)
  unfolding get_sig
  escrow_witness sigs zero keys preimage leaf_script control_block = do
    secret ← or_err no_preimage preimage
    sig ← get_sig sigs (get_elem? keys 0)
    ok (sig ∷ secret ∷ leaf_script ∷ control_block ∷ [])
  escrow_witness sigs (suc zero) keys preimage leaf_script control_block = do
    sig ← get_sig sigs (get_elem? keys 0)
    ok (sig ∷ leaf_script ∷ control_block ∷ [])
  escrow_witness sigs leaf keys preimage leaf_script control_block = do
    require (leaf == 2 || leaf == 3) (invalid_leaf leaf)
    require (not (ltb (length keys) 2)) two_keys_required
    oracle_sig ← get_sig sigs (get_elem? keys 0)
    winner_sig ← get_sig sigs (get_elem? keys 1)
    ok (winner_sig ∷ oracle_sig ∷ leaf_script ∷ control_block ∷ [])

  module _ (lib : Psetv2 c) where
    unfoldable pub finalize_escrow_witness :
        Pset lib.ControlBlock
        → ℕ
        → List (Option c.PrivateKey)
        → Option Str
        → Str
        → Str
        → Result ClaimError (Pset lib.ControlBlock)
    unfolding escrow_witness collect_sigs
    finalize_escrow_witness p leaf keys preimage leaf_script control_block = do
      items ←
          escrow_witness (collect_sigs p.tap_script_sig []) leaf keys preimage leaf_script
            control_block
      ok (set_witness c lib (serialize_witness items) p)

module _ (c : Curve) (tx : Txscript) (taproot : Taproot c.PublicKey) (lib : Psetv2 c) where
  -- The sequence number of the input: the timeout's for the timeout leaf.
  unfoldable pub claim_sequence : EscrowScript c.PublicKey → ℕ → Result ClaimError ℕ
  claim_sequence es leaf =
      if leaf == 1
      then (or_err panic (timeout_closure es) >>= λ closure.
          wrap_err bad_locktime (bip68_sequence tx closure.locktime))
      else ok default_sequence

  -- `ClaimEscrow` up to the broadcast; `regtest` is the network of a nil pointer.
  unfoldable pub claim_pset :
      Network → ClaimEscrowConfig c → Result ClaimError (Pset lib.ControlBlock)
  unfolding claim_sequence
  claim_pset regtest cfg = do
    es ← or_err no_escrow_script cfg.escrow_script
    require (not (length cfg.signing_keys == 0)) no_signing_key
    require (not (is_empty cfg.dest_address)) no_destination
    let network = or_default regtest cfg.network
    let fee = if cfg.fee == 0 then htlc_estimated_fee else cfg.fee
    require (ltb cfg.leaf (length es.closures)) (invalid_leaf cfg.leaf)
    require (not (leb cfg.amount fee || leb (cfg.amount - fee) dust_limit)) below_dust
    (leaf_script, control_block) ←
        wrap_err elements_failed (elements_leaf_script c tx taproot es.closures cfg.leaf)
    prevout_script ← wrap_err elements_failed (elements_p2tr_script c tx taproot es.closures)
    dest_script ← wrap_err bad_destination (address_to_output_script cfg.dest_address)
    sequence ← claim_sequence es cfg.leaf
    p ← wrap_err pset_failed (
        build_pset c lib cfg.fund_tx_id cfg.fund_vout sequence cfg.amount (cfg.amount - fee) fee
          prevout_script dest_script leaf_script control_block network)
    signed ← wrap_err pset_failed (sign_tapscript_input c lib p cfg.signing_keys network)
    finalize_escrow_witness c lib signed cfg.leaf cfg.signing_keys cfg.preimage leaf_script
        control_block

  -- The id that the node answers, with the transactions that were sent to it.
  unfoldable pub claim_escrow :
      (Str → Option Str) → Network → ClaimEscrowConfig c → Result ClaimError Str × List Str
  claim_escrow send_raw_transaction regtest cfg = elim (claim_pset regtest cfg) [
    | err e ↦ (err e, [])
    | ok p ↦ (
      wrap_err pset_failed (extract_and_broadcast c lib send_raw_transaction p).0,
      (extract_and_broadcast c lib send_raw_transaction p).1,
    )
  ]
