-- ===== src/Escrow.antt =====
-- pkg/escrow/escrow.go: the four leaves of an escrow. SHA-256 and the random source are parameters.
pub mod Elements
pub mod Leaves
pub mod Preimages
pub mod Spending
pub mod Address
pub mod Decoding
use ark_escrow.Base.{
  ℕ, Str, Option, none, some, List, [], ◌∷◌, get_elem?, Result, ok, err, ◌>>=◌, or_err,
}
use ark_escrow.Curve.{Curve}
use ark_escrow.Params.{EscrowParams}
use ark_escrow.Script.Txscript.{Txscript, Item, op, push}
use ark_escrow.Script.Closure.{
  Closure, multisig_closure, csv_closure, condition_closure, checksig, MultisigClosure,
  CsvMultisigClosure, ConditionMultisigClosure,
}

abbrev pub default_timeout_blocks : ℕ
default_timeout_blocks = 144

pub data EscrowError : Type 0 where
  keys_missing condition_failed random_failed : EscrowError

pub record EscrowScript (Key : Type 0) : Type 0 where
  pub params : EscrowParams Key
  pub closures : List (Closure Key)

-- The 32 bytes that the random source gives, or its error, to the secret and its hash.
unfoldable pub generate_secret : (Str → Str) → Option Str → Result EscrowError (Str × Str)
generate_secret sha256 random = do secret ← or_err random_failed random; ok (secret, sha256 secret)

-- `OP_SHA256 <hash> OP_EQUAL`
abbrev pub hash_condition : Txscript → Str → List Item
hash_condition tx hash = op tx.op_sha256 ∷ push hash ∷ op tx.op_equal ∷ []

abbrev pub single : {Key : Type 0} → Key → MultisigClosure Key
single key = record { pub_keys = key ∷ []; type = checksig }

abbrev pub pair : {Key : Type 0} → Key → Key → MultisigClosure Key
pair first second = record { pub_keys = first ∷ second ∷ []; type = checksig }

module _ {Key : Type 0} where
  -- The three keys, unless one of the pointers is nil.
  unfoldable pub three_keys : EscrowParams Key → Result EscrowError (Key × Key × Key)
  three_keys params = do
    seller ← or_err keys_missing params.seller_pub_key
    buyer ← or_err keys_missing params.buyer_pub_key
    oracle ← or_err keys_missing params.oracle_pub_key
    ok (seller, buyer, oracle)

  unfoldable pub new_escrow_script :
      Txscript → EscrowParams Key → Result EscrowError (EscrowScript Key)
  unfolding three_keys
  new_escrow_script tx params = do
    (seller, buyer, oracle) ← three_keys params
    condition ← or_err condition_failed (tx.build (hash_condition tx params.secret_hash))
    ok (record {
      params = params;
      closures =
          condition_closure (record { multisig = single seller; condition = condition })
          ∷ csv_closure (record { multisig = single buyer; locktime = params.timeout })
          ∷ multisig_closure (pair oracle seller)
          ∷ multisig_closure (pair oracle buyer)
          ∷ [];
    })

  -- The type assertions `.(*script.…)`; `none` is the panic.
  abbrev pub as_condition : Option (Closure Key) → Option (ConditionMultisigClosure Key)
  as_condition (some (condition_closure f)) = some f
  as_condition _ = none

  abbrev pub as_csv : Option (Closure Key) → Option (CsvMultisigClosure Key)
  as_csv (some (csv_closure f)) = some f
  as_csv _ = none

  abbrev pub as_multisig : Option (Closure Key) → Option (MultisigClosure Key)
  as_multisig (some (multisig_closure f)) = some f
  as_multisig _ = none

  unfoldable pub release_closure : EscrowScript Key → Option (ConditionMultisigClosure Key)
  release_closure e = as_condition (get_elem? e.closures 0)

  unfoldable pub timeout_closure : EscrowScript Key → Option (CsvMultisigClosure Key)
  timeout_closure e = as_csv (get_elem? e.closures 1)

  unfoldable pub dispute_seller_closure : EscrowScript Key → Option (MultisigClosure Key)
  dispute_seller_closure e = as_multisig (get_elem? e.closures 2)

  unfoldable pub dispute_buyer_closure : EscrowScript Key → Option (MultisigClosure Key)
  dispute_buyer_closure e = as_multisig (get_elem? e.closures 3)
