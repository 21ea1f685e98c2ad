-- ===== src/Recovery.antt =====
-- pkg/escrow/recovery.go: recovery kits, without `EscrowAddress` (see `Recovery.Address`).
-- The JSON text of a kit (encoding/json through the struct's tags) and base58check of
-- btcsuite/btcd are the parameter `Codec`.
pub mod Kits
pub mod Check
pub mod Address
use ark_escrow.Base.{
  ℕ, Str, lit, Bool, true, false, ◌||◌, ◌&&◌, Option, none, some, not, [], ◌∷◌, ◌++◌,
}
use ark_escrow.Base.{if◌then◌else◌, ◌==◌, leb, ltb, str_eq, length, take, drop, is_empty}
use ark_escrow.Base.{Result, ok, err, ◌>>=◌, ◌>>◌, require, wrap_err, or_err}
use ark_escrow.Hex
use ark_escrow.Curve.{Curve}
use ark_escrow.Deal.{Deal, other}
use ark_escrow.Params.{EscrowParams, ParamsError, escrow_params}

pub record RecoveryKit : Type 0 where
  pub role : Str
  pub priv_key : Str
  pub secret : Str
  pub seller_pub_key : Str
  pub buyer_pub_key : Str
  pub oracle_pub_key : Str
  pub secret_hash : Str
  pub timeout_blocks : ℕ  -- uint32
  pub fund_tx_id : Str
  pub fund_vout : ℕ  -- uint32
  pub amount : ℕ  -- uint64
  pub network_hrp : Str

pub data KitError : Type 0 where
  buyer_key_not_available seller_key_not_available : KitError

abbrev pub default_hrp : Str
default_hrp = lit "ert"

unfoldable pub recovery_kit_for_buyer : Deal → Result KitError RecoveryKit
recovery_kit_for_buyer deal = do
  require (not (is_empty deal.buyer_priv_key)) buyer_key_not_available
  ok (record {
    role = lit "buyer";
    priv_key = deal.buyer_priv_key;
    secret = deal.secret;
    seller_pub_key = deal.seller_pub_key;
    buyer_pub_key = deal.buyer_pub_key;
    oracle_pub_key = deal.oracle_pub_key;
    secret_hash = deal.secret_hash;
    timeout_blocks = deal.timeout_blocks;
    fund_tx_id = deal.fund_tx_id;
    fund_vout = deal.fund_vout;
    amount = deal.amount;
    network_hrp = default_hrp;
  })

unfoldable pub recovery_kit_for_seller : Deal → Result KitError RecoveryKit
recovery_kit_for_seller deal = do
  require (not (is_empty deal.seller_priv_key)) seller_key_not_available
  ok (record {
    role = lit "seller";
    priv_key = deal.seller_priv_key;
    secret = [];
    seller_pub_key = deal.seller_pub_key;
    buyer_pub_key = deal.buyer_pub_key;
    oracle_pub_key = deal.oracle_pub_key;
    secret_hash = deal.secret_hash;
    timeout_blocks = deal.timeout_blocks;
    fund_tx_id = deal.fund_tx_id;
    fund_vout = deal.fund_vout;
    amount = deal.amount;
    network_hrp = default_hrp;
  })

-- json.Marshal and json.Unmarshal at `RecoveryKit`, base58.CheckEncode and CheckDecode.
pub record Codec : Type 0 where
  pub marshal : RecoveryKit → Option Str
  pub unmarshal : Str → Option RecoveryKit
  pub check_encode : Str → ℕ → Str
  pub check_decode : Str → Option (Str × ℕ)

abbrev pub recovery_hrp : Str
recovery_hrp = lit "arkescrow"

abbrev pub recovery_kit_version : ℕ
recovery_kit_version = 0x42

pub data DecodeError : Type 0 where
  missing_prefix bad_base58 bad_json : DecodeError
  unexpected_version : ℕ → DecodeError

module _ (codec : Codec) where
  -- `none` is the error of json.Marshal.
  pub encode : RecoveryKit → Option Str
  encode r = elim (codec.marshal r) [
    | none ↦ none
    | some bytes ↦ some (recovery_hrp ++ codec.check_encode bytes recovery_kit_version)
  ]

  pub decode_recovery_kit : Str → Result DecodeError RecoveryKit
  decode_recovery_kit s = do
    require
        (not (
          leb (length s) (length recovery_hrp)
          || not (str_eq (take (length recovery_hrp) s) recovery_hrp)))
        missing_prefix
    (bytes, version) ← or_err bad_base58 (codec.check_decode (drop (length recovery_hrp) s))
    require (version == recovery_kit_version) (unexpected_version version)
    or_err bad_json (codec.unmarshal bytes)

-- The deal that `RecoveryKit.EscrowParams` fills: the other fields are zero.
abbrev deal_of_kit : RecoveryKit → Deal
deal_of_kit r = record {
  id = [];
  state = other [];
  title = [];
  amount = 0;
  created_at = 0;
  updated_at = 0;
  seller_pub_key = r.seller_pub_key;
  buyer_pub_key = r.buyer_pub_key;
  oracle_pub_key = r.oracle_pub_key;
  secret_hash = r.secret_hash;
  timeout_blocks = r.timeout_blocks;
  escrow_address = [];
  fund_tx_id = [];
  fund_vout = 0;
  claim_tx_id = [];
  seller_priv_key = [];
  buyer_priv_key = [];
  secret = [];
}

pub data ValidateError : Type 0 where
  invalid_role priv_key_required invalid_priv_key pub_keys_required : ValidateError
  secret_hash_required timeout_required amount_required : ValidateError
  invalid_pub_key key_mismatch : ValidateError

-- `for i := range derivedX`: false at the first byte that differs. The lengths are equal here; an
-- index past the end of `expected` would panic.
bytes_match : Str → Str → Bool
bytes_match [] expected = true
bytes_match (b ∷ bs) [] = false
bytes_match (b ∷ bs) (e ∷ es) = b == e && bytes_match bs es

-- `if len(expectedPubBytes) == 33 { expectedPubBytes = expectedPubBytes[1:] }`
unfoldable pub strip_prefix : Str → Str
strip_prefix b = if length b == 33 then drop 1 b else b

unfoldable pub expected_pub_hex : RecoveryKit → Str
expected_pub_hex r = if str_eq r.role (lit "seller") then r.seller_pub_key else r.buyer_pub_key

module _ (c : Curve) where
  unfoldable pub kit_escrow_params : RecoveryKit → Result ParamsError (EscrowParams c.PublicKey)
  kit_escrow_params r = escrow_params c (deal_of_kit r)

  unfoldable pub validate : RecoveryKit → Result ValidateError (Unit {0})
  unfolding bytes_match
  validate r = do
    require (str_eq r.role (lit "buyer") || str_eq r.role (lit "seller")) invalid_role
    require (not (is_empty r.priv_key)) priv_key_required
    priv_bytes ← or_err invalid_priv_key (Hex.decode_string r.priv_key)
    require (length priv_bytes == 32) invalid_priv_key
    require
        (not (is_empty r.seller_pub_key || is_empty r.buyer_pub_key || is_empty r.oracle_pub_key))
        pub_keys_required
    require (not (is_empty r.secret_hash)) secret_hash_required
    require (not (r.timeout_blocks == 0)) timeout_required
    require (not (r.amount == 0)) amount_required
    let derived_x = c.serialize (c.pub_key (c.priv_key_from_bytes priv_bytes))
    expected ← or_err invalid_pub_key (Hex.decode_string (expected_pub_hex r))
    require (length derived_x == length (strip_prefix expected)) key_mismatch
    require (bytes_match derived_x (strip_prefix expected)) key_mismatch
