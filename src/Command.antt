-- ===== src/Command.antt =====
-- The actions of cmd/escrow/commands.go that change a deal in the store alone. An action goes from
-- the directory that NewFileStore opened to the directory that it leaves; what it prints is left out.
pub mod Shipping
pub mod Joining
pub mod World
pub mod Settle
pub mod Funding
pub mod Creating
pub mod Recovering
pub mod Program
use ark_escrow.Base.{
  ℕ, Str, Option, some, none, [], or_err, Result, ok, err, ◌>>=◌, ◌>>◌, wrap_err, require, length,
  not, is_empty, if◌then◌else◌, ◌==◌,
}
use ark_escrow.Hex
use ark_escrow.Curve.{Curve}
use ark_escrow.Script.Txscript.{Txscript}
use ark_escrow.Escrow.{EscrowError, EscrowScript, generate_secret, new_escrow_script}
use ark_escrow.Escrow.Elements.{Taproot, ElementsError}
use ark_escrow.Recovery.Address.{EscrowAddressError, deal_escrow_address}
use ark_escrow.Deal.{Deal, DealError, JoinToken, created, join, set_escrow_address, ship}
use ark_escrow.Params.{ParamsError, escrow_params}
use ark_escrow.Swap.Claim.{ClaimError}
use ark_escrow.Recovery.{KitError, ValidateError}
use ark_escrow.Swap.Htlc.{HtlcError}
use ark_escrow.Swap.Fund.{FundError}
use ark_escrow.Swap.Payout.{PayoutError}
use ark_escrow.Command.World.{Env}
use ark_escrow.Store.{DealJson, StoreError, new_file_store, load, save, left_after}
use ark_escrow.Store.Files.{Disk}

-- The errors of `parsePrivKey`.
pub data KeyError : Type 0 where
  bad_hex : KeyError
  key_length : ℕ → KeyError

pub data CommandError : Type 0 where
  store_failed : StoreError → CommandError
  deal_failed : DealError → CommandError
  bad_token key_failed : CommandError
  secret_failed : EscrowError → CommandError
  address_failed : EscrowAddressError → CommandError
  seller_key_missing buyer_key_missing secret_missing invalid_secret invalid_winner : CommandError
  invalid_seller_key invalid_buyer_key invalid_oracle_key invalid_kit_key : KeyError → CommandError
  invalid_node_url no_destination : CommandError
  params_failed : ParamsError → CommandError
  script_failed : EscrowError → CommandError
  claim_failed : ClaimError → CommandError
  -- the claim's transaction, whose escrow is not paid out
  payout_failed : Str → PayoutError → CommandError
  not_joined oracle_missing draw_failed : CommandError
  invalid_kit invalid_kit_json kit_not_funded invalid_role json_failed : CommandError
  kit_refused : ValidateError → CommandError
  kit_failed : KitError → CommandError
  elements_failed : ElementsError → CommandError
  lookup_failed already_spent : CommandError
  fund_failed swap_failed : FundError → CommandError
  -- the escrow's transaction, in which the output is not found
  vout_missing : Str → HtlcError → CommandError

module _ (c : Curve) where
  unfoldable pub parse_priv_key : Str → Result KeyError c.PrivateKey
  parse_priv_key hex_key = do
    key_bytes ← or_err bad_hex (Hex.decode_string hex_key)
    require (length key_bytes == 32) (key_length (length key_bytes))
    ok (c.priv_key_from_bytes key_bytes)

  -- A private key of a deal file, which may be missing.
  unfoldable pub stored_key :
      CommandError → (KeyError → CommandError) → Str → Result CommandError c.PrivateKey
  stored_key missing invalid text = do
    require (not (is_empty text)) missing
    wrap_err invalid (parse_priv_key text)

  unfoldable pub deal_script : Txscript → Deal → Result CommandError (EscrowScript c.PublicKey)
  deal_script tx deal = do
    params ← wrap_err params_failed (escrow_params c deal)
    wrap_err script_failed (new_escrow_script tx params)

-- The deal that an action starts with, from the directory that NewFileStore opens.
unfoldable pub opened_deal : DealJson → Env → Str → Disk → Result CommandError Deal
unfolding new_file_store
opened_deal json env id disk = do
  opened ← wrap_err store_failed (new_file_store (if env.directory_made then some disk else none))
  wrap_err store_failed (load json id opened)

-- The directory after an action that failed.
abbrev pub left_by : CommandError → Disk → Disk
left_by (store_failed e) disk = left_after e disk
left_by _ disk = disk

-- `if err := deal.Method(…); err != nil { return err }`
abbrev pub changed : Deal × Option DealError → Result CommandError Deal
changed (deal, none) = ok deal
changed (deal, some e) = err (deal_failed e)

module _ (json : DealJson) where
  unfoldable pub ship_action : ℕ → Str → Option Disk → Result CommandError Disk
  unfolding new_file_store ship
  ship_action now id opened = do
    disk ← wrap_err store_failed (new_file_store opened)
    deal ← wrap_err store_failed (load json id disk)
    shipped ← changed (ship now deal)
    wrap_err store_failed (save json shipped disk)

-- The deal of a token that the store does not have.
abbrev pub deal_of_token : ℕ → JoinToken → Deal
deal_of_token now token = record {
  id = token.deal_id;
  state = created;
  title = token.title;
  amount = token.amount;
  created_at = now;
  updated_at = now;
  seller_pub_key = token.seller_pub_key;
  buyer_pub_key = [];
  oracle_pub_key = token.oracle_pub_key;
  secret_hash = [];
  timeout_blocks = token.timeout_blocks;
  escrow_address = [];
  fund_tx_id = [];
  fund_vout = 0;
  claim_tx_id = [];
  seller_priv_key = [];
  buyer_priv_key = [];
  secret = [];
}

-- The deal that is joined: the store's, or the token's after any error of `Load`.
abbrev pub local_deal : ℕ → JoinToken → Result StoreError Deal → Deal
local_deal now token (ok deal) = deal
local_deal now token (err _) = deal_of_token now token

module _ (c : Curve) (tx : Txscript) (taproot : Taproot c.PublicKey) where
  -- What `joinAction` does to the deal, from the key and the secret that were drawn, at two readings
  -- of the clock: its own and the one of `Join` and `SetEscrowAddress`.
  unfoldable pub join_deal : ℕ → c.PrivateKey → Str → Str → Str → Deal → Result CommandError Deal
  unfolding join set_escrow_address
  join_deal now key secret secret_hash hrp deal = do
    joined ← changed (
        join now (Hex.encode_to_string (c.serialize (c.pub_key key)))
          (Hex.encode_to_string secret_hash) deal)
    addr ← wrap_err address_failed (deal_escrow_address c tx taproot joined hrp)
    ok (
        set_escrow_address now addr (record joined {
          buyer_priv_key = Hex.encode_to_string (c.serialize_priv key);
          secret = Hex.encode_to_string secret;
        }))

module _ (json : DealJson) (c : Curve) (tx : Txscript) (taproot : Taproot c.PublicKey) where
  -- The token as it was parsed, the key and the secret as they were drawn, and the directory as it was
  -- opened, each with its failure.
  unfoldable pub join_action :
      (Str → Str)
      → ℕ
      → ℕ
      → Option JoinToken
      → Option c.PrivateKey
      → Option Str
      → Str
      → Option Disk
      → Result CommandError Disk
  unfolding new_file_store join_deal
  join_action sha256 started now parsed drawn random hrp opened = do
    disk ← wrap_err store_failed (new_file_store opened)
    token ← or_err bad_token parsed
    key ← or_err key_failed drawn
    (secret, secret_hash) ← wrap_err secret_failed (generate_secret sha256 random)
    deal ←
        join_deal c tx taproot now key secret secret_hash hrp
          (local_deal started token (load json token.deal_id disk))
    wrap_err store_failed (save json deal disk)
