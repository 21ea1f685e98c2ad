-- ===== src/Params.antt =====
-- `Deal.EscrowParams` and `decodePubKey` of pkg/escrow/deal.go, and `EscrowParams` of
-- pkg/escrow/escrow.go: from the texts of a deal to keys, hash and timeout.
pub mod Laws
use ark_escrow.Base.{ℕ, Str, Bool, true, false, ◌||◌, Option, none, some, if◌then◌else◌, ◌==◌}
use ark_escrow.Base.{Result, ok, err, ◌>>=◌, ◌>>◌, require, wrap_err, or_err, not, length, is_empty}
use ark_escrow.Hex
use ark_escrow.Curve.{Curve}
use ark_escrow.Deal.{Deal}
use ark_escrow.Script.Locktime.{RelativeLocktime, block}

-- A pointer to a key may be nil.
pub record EscrowParams (Key : Type 0) : Type 0 where
  pub seller_pub_key : Option Key
  pub buyer_pub_key : Option Key
  pub oracle_pub_key : Option Key
  pub secret_hash : Str  -- 32 bytes
  pub timeout : RelativeLocktime

pub data KeyError : Type 0 where
  bad_hex no_key : KeyError
  unexpected_length : ℕ → KeyError

pub data ParamsError : Type 0 where
  missing_fields : ParamsError
  invalid_seller invalid_buyer invalid_oracle : KeyError → ParamsError
  invalid_secret_hash : ParamsError
  secret_hash_length : ℕ → ParamsError

module _ (c : Curve) where
  unfoldable pub decode_pub_key : Str → Result KeyError c.PublicKey
  decode_pub_key hex_str = do
    b ← or_err bad_hex (Hex.decode_string hex_str)
    if length b == 32
        then or_err no_key (c.parse_x_only b)
        else if length b == 33
        then or_err no_key (c.parse_compressed b)
        else err (unexpected_length (length b))

  unfoldable pub escrow_params : Deal → Result ParamsError (EscrowParams c.PublicKey)
  escrow_params d = do
    require
        (not (
          is_empty d.seller_pub_key
          || is_empty d.buyer_pub_key
          || is_empty d.oracle_pub_key
          || is_empty d.secret_hash))
        missing_fields
    seller ← wrap_err invalid_seller (decode_pub_key d.seller_pub_key)
    buyer ← wrap_err invalid_buyer (decode_pub_key d.buyer_pub_key)
    oracle ← wrap_err invalid_oracle (decode_pub_key d.oracle_pub_key)
    hash ← or_err invalid_secret_hash (Hex.decode_string d.secret_hash)
    require (length hash == 32) (secret_hash_length (length hash))
    ok (record {
      seller_pub_key = some seller;
      buyer_pub_key = some buyer;
      oracle_pub_key = some oracle;
      secret_hash = hash;
      timeout = record { type = block; value = d.timeout_blocks };
    })
