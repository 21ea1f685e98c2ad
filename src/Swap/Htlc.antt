-- ===== src/Swap/Htlc.antt =====
-- pkg/escrow/swap/liquid_htlc.go: the two-leaf HTLC, its funding and its spending.
pub mod Leaves
pub mod Amounts
pub mod Spends
pub mod Funding
use ark_escrow.Base.{
  ℕ, zero, suc, ◌+◌, ◌-◌, ◌%◌, ◌^◌, Str, str_eq, not, ◌==◌, leb, Option, none, some, List, [], ◌∷◌,
  get_elem?,
}
use ark_escrow.Base.{
  Result, ok, err, or_err, wrap_err, require, length, Bool, true, false, if◌then◌else◌,
}
use ark_escrow.Base.{◌>>=◌, ◌>>◌}
use ark_escrow.Curve.{Curve}
use ark_escrow.Script.Txscript.{Txscript}
use ark_escrow.Script.Locktime.{RelativeLocktime, LocktimeError, block, bip68_sequence}
use ark_escrow.Script.Closure.{
  Closure, condition_closure, csv_closure, ConditionMultisigClosure, CsvMultisigClosure,
}
use ark_escrow.Bech32.Address.{AddressError, address_to_output_script, encode_bech32m}
use ark_escrow.Escrow.{hash_condition, single, as_condition, as_csv}
use ark_escrow.Escrow.Elements.{
  Taproot, ElementsError, address_failed, elements_leaf_script, elements_p2tr_script,
  elements_tap_tree,
}
use ark_escrow.Swap.Witness.{serialize_witness}
use ark_escrow.Swap.Pset.{
  Network, Pset, Psetv2, PsetError, build_pset, sign_tapscript_input, set_witness,
}
use ark_escrow.Swap.Claim.{htlc_estimated_fee, dust_limit, default_sequence, or_default}

pub record HtlcScript (Key : Type 0) : Type 0 where
  pub receiver_pub_key : Key
  pub sender_pub_key : Key
  pub payment_hash : Str  -- 32 bytes
  pub timeout : RelativeLocktime
  pub closures : List (Closure Key)

pub data HtlcError : Type 0 where
  keys_missing condition_failed htlc_or_key_missing : HtlcError
  elements_failed : ElementsError → HtlcError
  bad_destination : AddressError → HtlcError
  bad_locktime : LocktimeError → HtlcError
  below_dust : ℕ → HtlcError
  pset_failed : PsetError → HtlcError
  funding_failed lookup_failed vout_not_found : HtlcError
  -- a closure of another kind, or no signature: a panic of the code
  panic : HtlcError

-- uint64 subtraction
abbrev pub sub_u64 : ℕ → ℕ → ℕ
sub_u64 a b = (a + 2 ^ 64 - b) % 2 ^ 64

module _ {Key : Type 0} where
  unfoldable pub new_htlc_script :
      Txscript → Option Key → Option Key → Str → ℕ → Result HtlcError (HtlcScript Key)
  new_htlc_script tx (some receiver) (some sender) payment_hash timeout_blocks =
      let timeout : RelativeLocktime = record { type = block; value = timeout_blocks } in
      do
        condition ← or_err condition_failed (tx.build (hash_condition tx payment_hash))
        ok (record {
          receiver_pub_key = receiver;
          sender_pub_key = sender;
          payment_hash = payment_hash;
          timeout = timeout;
          closures =
              condition_closure (record { multisig = single receiver; condition = condition })
              ∷ csv_closure (record { multisig = single sender; locktime = timeout })
              ∷ [];
        })
  new_htlc_script tx _ _ payment_hash timeout_blocks = err keys_missing

  unfoldable pub claim_closure : HtlcScript Key → Option (ConditionMultisigClosure Key)
  claim_closure h = as_condition (get_elem? h.closures 0)

  unfoldable pub refund_closure : HtlcScript Key → Option (CsvMultisigClosure Key)
  refund_closure h = as_csv (get_elem? h.closures 1)

module _ (c : Curve) (tx : Txscript) (taproot : Taproot c.PublicKey) where
  unfoldable pub htlc_p2tr_script : HtlcScript c.PublicKey → Result ElementsError Str
  htlc_p2tr_script h = elements_p2tr_script c tx taproot h.closures

  unfoldable pub htlc_address : HtlcScript c.PublicKey → Str → Result ElementsError Str
  htlc_address h hrp = do
    (key, _) ← elements_tap_tree c tx taproot h.closures
    wrap_err address_failed (encode_bech32m hrp (c.serialize key))

  unfoldable pub htlc_leaf_script : HtlcScript c.PublicKey → ℕ → Result ElementsError (Str × Str)
  htlc_leaf_script h leaf_index = elements_leaf_script c tx taproot h.closures leaf_index

-- `LeafIndex` is an int that is not negative.
pub record SpendHtlcConfig (c : Curve) : Type 0 where
  pub htlc : Option (HtlcScript c.PublicKey)
  pub fund_tx_id : Str
  pub fund_vout : ℕ  -- uint32
  pub amount : ℕ  -- uint64
  pub leaf_index : ℕ
  pub signing_key : Option c.PrivateKey
  pub dest_address : Str
  pub preimage : Option Str
  pub network : Option Network
  pub fee : ℕ  -- uint64

-- The HTLC and the key, unless one of the pointers is nil.
abbrev pub htlc_and_key : {H K : Type 0} → Option H → Option K → Result HtlcError (H × K)
htlc_and_key (some h) (some key) = ok (h, key)
htlc_and_key _ _ = err htlc_or_key_missing

-- The witness of the claim leaf with a preimage, or of the other cases.
abbrev pub htlc_witness : ℕ → Option Str → Str → Str → Str → List Str
htlc_witness zero (some preimage) sig leaf control_block =
    sig ∷ preimage ∷ leaf ∷ control_block ∷ []
htlc_witness _ _ sig leaf control_block = sig ∷ leaf ∷ control_block ∷ []

module _ (c : Curve) (tx : Txscript) (taproot : Taproot c.PublicKey) (lib : Psetv2 c) where
  unfoldable pub htlc_sequence : HtlcScript c.PublicKey → ℕ → Result HtlcError ℕ
  htlc_sequence h leaf_index =
      if leaf_index == 1
      then (or_err panic (refund_closure h) >>= λ closure.
          wrap_err bad_locktime (bip68_sequence tx closure.locktime))
      else ok default_sequence

  -- `SpendHTLC` up to the broadcast; `regtest` is the network of a nil pointer.
  unfoldable pub spend_pset : Network → SpendHtlcConfig c → Result HtlcError (Pset lib.ControlBlock)
  unfolding htlc_p2tr_script htlc_leaf_script htlc_sequence
  spend_pset regtest cfg = do
    (htlc, signing_key) ← htlc_and_key cfg.htlc cfg.signing_key
    let network = or_default regtest cfg.network
    let fee = if cfg.fee == 0 then htlc_estimated_fee else cfg.fee
    (leaf, control_block) ←
        wrap_err elements_failed (htlc_leaf_script c tx taproot htlc cfg.leaf_index)
    prevout_script ← wrap_err elements_failed (htlc_p2tr_script c tx taproot htlc)
    dest_script ← wrap_err bad_destination (address_to_output_script cfg.dest_address)
    let output_amount = sub_u64 cfg.amount fee
    require (not (leb output_amount dust_limit)) (below_dust output_amount)
    sequence ← htlc_sequence htlc cfg.leaf_index
    p ← wrap_err pset_failed (
        build_pset c lib cfg.fund_tx_id cfg.fund_vout sequence cfg.amount output_amount fee
          prevout_script dest_script leaf control_block network)
    signed ← wrap_err pset_failed (sign_tapscript_input c lib p (some signing_key ∷ []) network)
    tap_sig ← or_err panic (get_elem? signed.tap_script_sig 0)
    ok (
        set_witness c lib
          (serialize_witness
            (htlc_witness cfg.leaf_index cfg.preimage tap_sig.signature leaf control_block))
          signed)
