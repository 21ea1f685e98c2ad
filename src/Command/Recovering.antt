-- ===== src/Command/Recovering.antt =====
-- `recoverAction` and `recoverykitAction` of cmd/escrow/commands.go.
pub mod Claims
pub mod Actions
pub mod Verified
use ark_escrow.Base.{
  ℕ, ◌∷◌, Str, lit, Bool, true, false, Option, some, none, [], Result, ok, err, ◌>>=◌, ◌>>◌, or_err,
  wrap_err, require, is_empty, not, str_eq, if◌then◌else◌, ◌&&◌,
}
use ark_escrow.Hex
use ark_escrow.Curve.{Curve}
use ark_escrow.Script.Txscript.{Txscript}
use ark_escrow.Deal.{Deal}
use ark_escrow.Escrow.{EscrowScript, new_escrow_script}
use ark_escrow.Escrow.Elements.{Taproot}
use ark_escrow.Recovery.{
  RecoveryKit, Codec, KitError, recovery_kit_for_buyer, recovery_kit_for_seller, encode,
  decode_recovery_kit, kit_escrow_params, validate,
}
use ark_escrow.Recovery.Address.{EscrowAddressError, address, kit_escrow_address}
use ark_escrow.Store.{DealJson}
use ark_escrow.Store.Files.{Disk}
use ark_escrow.Swap.Pset.{Network, Psetv2}
use ark_escrow.Swap.Claim.{ClaimEscrowConfig}
use ark_escrow.Swap.Claim.Broadcast.{claim}
use ark_escrow.Swap.Services.{Services, get_tx_out, call}
use ark_escrow.Command.{
  CommandError, invalid_kit, invalid_kit_json, kit_not_funded, invalid_role, json_failed,
  kit_refused, kit_failed, elements_failed, lookup_failed, already_spent, invalid_kit_key,
  secret_missing, invalid_secret, invalid_node_url, params_failed, script_failed, claim_failed,
  parse_priv_key, opened_deal,
}
use ark_escrow.Command.World
use ark_escrow.Command.World.{Env, Action}

-- The kit of the text, or of the JSON file that the text names.
unfoldable pub read_kit : Codec → (Str → Option Str) → Str → Result CommandError RecoveryKit
read_kit codec read_file text = elim (decode_recovery_kit codec text) [
  | ok kit ↦ ok kit
  | err _ ↦ or_err invalid_kit (read_file text) >>= λ contents.
      or_err invalid_kit_json (codec.unmarshal contents)
]

-- `if secretHex == "" && kit.Secret != "" { secretHex = kit.Secret }`
unfoldable pub secret_hex : Str → Str → Str
secret_hex flag kept = if is_empty flag && not (is_empty kept) then kept else flag

-- The leaf of the kit's role, and the preimage of the seller's.
unfoldable pub leaf_and_preimage : RecoveryKit → Str → Result CommandError (ℕ × Option Str)
unfolding secret_hex
leaf_and_preimage kit secret =
    if str_eq kit.role (lit "buyer")
    then ok (1, none)
    else if str_eq kit.role (lit "seller")
    then (require (not (is_empty (secret_hex secret kit.secret))) secret_missing
        >> (or_err invalid_secret (Hex.decode_string (secret_hex secret kit.secret)) >>= λ preimage.
            ok (0, some preimage)))
    else ok (0, none)

module _ (c : Curve) where
  -- What `recoverAction` tests before it asks the node.
  unfoldable pub checked_kit : Codec → (Str → Option Str) → Str → Result CommandError RecoveryKit
  unfolding read_kit
  checked_kit codec read_file text = do
    kit ← read_kit codec read_file text
    wrap_err kit_refused (validate c kit)
    require (not (is_empty kit.fund_tx_id)) kit_not_funded
    ok kit

module _ (c : Curve) (tx : Txscript) (taproot : Taproot c.PublicKey) where
  -- The claim that a kit makes.
  unfoldable pub kit_claim : RecoveryKit → Str → Str → Result CommandError (ClaimEscrowConfig c)
  unfolding leaf_and_preimage
  kit_claim kit secret dest = do
    params ← wrap_err params_failed (kit_escrow_params c kit)
    es ← wrap_err script_failed (new_escrow_script tx params)
    _ ← wrap_err elements_failed (address c tx taproot es kit.network_hrp)
    signing_key ← wrap_err invalid_kit_key (parse_priv_key c kit.priv_key)
    (leaf, preimage) ← leaf_and_preimage kit secret
    ok (record {
      escrow_script = some es;
      fund_tx_id = kit.fund_tx_id;
      fund_vout = kit.fund_vout;
      amount = kit.amount;
      leaf = leaf;
      signing_keys = some signing_key ∷ [];
      preimage = preimage;
      dest_address = dest;
      fee = 0;
      network = none;
    })

-- What `recoverykitAction` reports of the kit's address.
pub data Verification : Type 0 where
  unverified : Verification
  verified : Str → Verification
  mismatch : Str → Str → Verification

-- `if err == nil && deal.EscrowAddress != ""`
unfoldable pub verification : Str → Result EscrowAddressError Str → Verification
verification stored (err _) = unverified
verification stored (ok addr) =
    if is_empty stored
    then unverified
    else if str_eq addr stored
    then verified addr
    else mismatch addr stored

unfoldable pub kit_of_role : Str → Deal → Result CommandError RecoveryKit
kit_of_role role deal =
    if str_eq role (lit "buyer")
    then wrap_err kit_failed (recovery_kit_for_buyer deal)
    else if str_eq role (lit "seller")
    then wrap_err kit_failed (recovery_kit_for_seller deal)
    else err invalid_role

module _ (c : Curve) (tx : Txscript) (taproot : Taproot c.PublicKey) where
  -- The text of the kit, and what is reported of it; `indent` is `RecoveryKit.JSON`.
  unfoldable pub recoverykit_action :
      DealJson
      → Codec
      → (RecoveryKit → Option Str)
      → Env
      → Str
      → Str
      → Bool
      → Str
      → Disk
      → Result CommandError (Str × Verification)
  unfolding kit_of_role verification
  recoverykit_action json codec indent env id role as_json hrp disk = do
    deal ← opened_deal json env id disk
    kit ← kit_of_role role deal
    let named = record kit { network_hrp = hrp }
    text ← or_err json_failed (if as_json then indent named else encode codec named)
    ok (text, verification deal.escrow_address (kit_escrow_address c tx taproot named))
