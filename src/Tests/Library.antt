-- ===== src/Tests/Library.antt =====
-- Small concrete versions of the curve, the tapscript trees and the PSETs.
use ark_escrow.Base.{
  ℕ, zero, suc, ◌%◌, ◌≡◌, refl, arith, Bool, true, false, Str, Option, none, some,
}
use ark_escrow.Base.{List, [], ◌∷◌, ◌++◌}
use ark_escrow.Curve.{Curve, IsCurve}
use ark_escrow.Escrow.Elements.{Taproot}
use ark_escrow.Swap.Pset.{Psetv2, IsPsetv2}

abbrev pub zeros : ℕ → Str
zeros zero = []
zeros (suc n) = 0 ∷ zeros n

abbrev pub first_byte : Str → Option ℕ
first_byte [] = none
first_byte (b ∷ s) = some b

abbrev pub second_byte : Str → Option ℕ
second_byte [] = none
second_byte (b ∷ s) = first_byte s

abbrev pub secret_byte : Bool → ℕ
secret_byte false = 0
secret_byte true = 1

abbrev pub secret_of : Str → Bool
secret_of [] = false
secret_of (zero ∷ s) = false
secret_of (suc b ∷ s) = true

abbrev pub public_of : Bool → ℕ
public_of false = 5
public_of true = 7

abbrev pub curve : Curve
curve = record {
  PublicKey = ℕ;
  PrivateKey = Bool;
  parse_x_only = first_byte;
  parse_compressed = second_byte;
  serialize = λ (k : ℕ). k % 256 ∷ zeros 31;
  priv_key_from_bytes = secret_of;
  serialize_priv = λ k. secret_byte k ∷ zeros 31;
  pub_key = public_of;
}

pub curve-IsCurve : IsCurve curve
curve-IsCurve = record {
  length-serialize = λ k. refl;
  serialize-IsBytes = λ k. ground arith;
  parse_x_only-serialize = λ k. (k % 256, refl, ground arith);
  length-serialize_priv = λ k. refl;
  serialize_priv-IsBytes = λ k. ground arith;
  priv_key_from_bytes-serialize_priv = secrets;
}
  where
    secrets : (k : Bool) → secret_of (secret_byte k ∷ zeros 31) ≡ k
    secrets false = refl
    secrets true = refl

abbrev pub taproot : Taproot ℕ
taproot = record {
  Tree = List Str;
  Proof = Str;
  assemble = λ leaves. leaves;
  root_hash = λ tree. [];
  output_key = λ internal root. 9;
  leaf_proof = λ tree leaf. some leaf;
  control_block = λ proof internal. some (0xc4 ∷ []);
}

abbrev pub psets : Psetv2 curve
psets = record {
  ControlBlock = Str;
  parse_control_block = some;
  asset_hash_to_bytes = some;
  value_to_bytes = λ n. some (n ∷ []);
  new_pset = λ inputs outputs locktime. some (record {
    inputs = inputs;
    outputs = outputs;
    locktime = locktime;
    witness_utxo = none;
    tap_leaf_script = [];
    tap_internal_key = [];
    tap_script_sig = [];
    final_script_witness = [];
  });
  add_in_witness_utxo = λ utxo p. some (record p { witness_utxo = some utxo });
  add_in_tap_leaf_script =
      λ leaf cb p. some (record p { tap_leaf_script = p.tap_leaf_script ++ (leaf, cb) ∷ [] });
  add_in_tap_internal_key = λ key p. some (record p { tap_internal_key = key });
  new_hash_from_str = some;
  tap_hash = λ leaf. leaf;
  hash_for_witness_v1 = λ p utxo genesis leaf_hash. some [];
  sign = λ key hash. some (1 ∷ []);
  extract = λ p. some p.final_script_witness;
}

pub psets-IsPsetv2 : IsPsetv2 curve psets
psets-IsPsetv2 = record {
  new_pset_eq = λ inputs outputs locktime p h. ground arith;
  add_in_witness_utxo_eq = λ utxo p p' h. ground arith;
  add_in_tap_leaf_script_eq = λ leaf cb p p' h. ground arith;
  add_in_tap_internal_key_eq = λ key p p' h. ground arith;
}
