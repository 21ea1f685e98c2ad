-- ===== src/Tests/Claims.antt =====
-- The theorems on pkg/escrow/escrow.go and pkg/escrow/swap/escrow_claim.go at concrete keys.
use ark_escrow.Base.{
  ℕ, ◌≡◌, refl, arith, Bool, true, false, Str, lit, none, some, List, [], ◌∷◌, ◌++◌, map, ok,
  str_eq,
}
use ark_escrow.Hex
use ark_escrow.Script.Closure.{
  Closure, signature_of, witness, csv_closure, multisig_closure, script,
}
use ark_escrow.Escrow.Decoding.RoundTrip.{decode_closure-leaves}
use ark_escrow.Script.Closure.Decode.{decode_closure}
use ark_escrow.Escrow.{new_escrow_script, pair, single}
use ark_escrow.Swap.Claim.Closures.{witness-escrow_witness}
use ark_escrow.Escrow.Leaves.{
  params_of, escrow_of, hash_leaf, timeout_leaf, pair_leaf, leaf_scripts-new_escrow_script,
  script-multisig_closure,
}
use ark_escrow.Escrow.Elements.{
  leaf_scripts, unspendable_key, elements_leaf_script, elements_tap_tree, elements_address,
  elements_p2tr_script,
}
use ark_escrow.Escrow.Address.{address_to_output_script-elements_address}
use ark_escrow.Bech32.Address.{address_to_output_script}
use ark_escrow.Bech32.Runes.{runes}
use ark_escrow.Bech32.Convert.{convert_bits}
use ark_escrow.Bech32.Polymod.{bech32m_polymod}
use ark_escrow.Swap.Pset.{Network, Pset, TapScriptSig, sign_keys, build_pset, sign_tapscript_input}
use ark_escrow.Swap.Claim.{ClaimEscrowConfig, claim_pset, finalize_escrow_witness, escrow_witness}
use ark_escrow.Script.Locktime.{bip68_sequence, block}
use ark_escrow.Swap.Claim.Stacks.{Signed, Accepts}
use ark_escrow.Swap.Claim.Spends.{Finalizes, finalize-release, finalize-timeout, finalize-dispute}
use ark_escrow.Swap.Claim.Amounts.{Pays, claim_pset-Pays}
use ark_escrow.Tests.Library.{
  curve, curve-IsCurve, taproot, psets, psets-IsPsetv2, zeros, public_of,
}
use ark_escrow.Tests.Txscript.{txscript, txscript-IsTxscript}
use ark_escrow.Tests.Interpreter.{vm, vm-IsInterpreter, toy_hash}

abbrev hash : Str
hash = 3 ∷ zeros 31

leaves_example :
    (new_escrow_script txscript (params_of 5 7 9 hash 144)
      ≡ ok (escrow_of curve txscript curve-IsCurve txscript-IsTxscript 5 7 9 hash 144))
    × (leaf_scripts curve txscript 0
          (escrow_of curve txscript curve-IsCurve txscript-IsTxscript 5 7 9 hash 144).closures
        ≡ ok (
            hash_leaf curve hash 5
            ∷ timeout_leaf curve txscript 144 7
            ∷ pair_leaf curve 9 5
            ∷ pair_leaf curve 9 7
            ∷ []))
leaves_example =
    leaf_scripts-new_escrow_script curve txscript curve-IsCurve txscript-IsTxscript 5 7 9 hash 144
      refl

-- A timeout of 90 blocks comes back as one of 10.
decode_leaves_example :
    map (decode_closure curve txscript) (
      hash_leaf curve hash 5
      ∷ timeout_leaf curve txscript 90 7
      ∷ pair_leaf curve 9 5
      ∷ pair_leaf curve 9 7
      ∷ [])
    ≡ map ok (escrow_of curve txscript curve-IsCurve txscript-IsTxscript 5 7 9 hash 10).closures
decode_leaves_example =
    decode_closure-leaves curve txscript curve-IsCurve txscript-IsTxscript 5 7 9 5 7 9 hash 90
      (refl, refl) (refl, refl) (refl, refl) refl (omega arith) (omega arith)

-- The oracle's leaf for the seller, byte by byte.
pair_bytes :
    script curve txscript (multisig_closure (pair 9 5))
    ≡ ok (0x20 ∷ 9 ∷ (zeros 31 ++ 0xad ∷ 0x20 ∷ 5 ∷ (zeros 31 ++ 0xac ∷ [])))
pair_bytes = script-multisig_closure curve txscript curve-IsCurve txscript-IsTxscript 9 5

abbrev empty_pset : Pset Str
empty_pset = record {
  inputs = [];
  outputs = [];
  locktime = 0;
  witness_utxo = none;
  tap_leaf_script = [];
  tap_internal_key = [];
  tap_script_sig = [];
  final_script_witness = [];
}

abbrev signature : Bool → Str → Str → TapScriptSig
signature key sig leaf_hash = record {
  pub_key = curve.serialize (public_of key);
  signature = sig;
  leaf_hash = leaf_hash;
}

abbrev one_signed : Pset Str
one_signed = record empty_pset { tap_script_sig = signature true (1 ∷ []) [] ∷ [] }

abbrev two_signed : Pset Str
two_signed = record empty_pset {
  tap_script_sig = signature true (1 ∷ []) [] ∷ signature false (1 ∷ []) [] ∷ [];
}

accepts : Accepts curve psets vm []
unfolding str_eq
accepts key sig h = ground arith

one-Signed : Signed curve psets [] [] (some true ∷ []) one_signed
unfolding sign_keys
one-Signed = (empty_pset, refl, refl)

two-Signed : Signed curve psets [] [] (some true ∷ some false ∷ []) two_signed
unfolding sign_keys
two-Signed = (empty_pset, refl, refl)

release_example :
    Finalizes curve psets vm txscript curve-IsCurve vm-IsInterpreter one_signed 0
      (some true ∷ [])
      (some (3 ∷ 4 ∷ []))
      (hash_leaf curve hash 7)
      (0xc4 ∷ [])
      (str_eq hash (toy_hash (3 ∷ 4 ∷ [])))
release_example =
    finalize-release curve psets vm txscript curve-IsCurve vm-IsInterpreter [] [] hash (3 ∷ 4 ∷ [])
      (0xc4 ∷ []) true one_signed accepts one-Signed refl (omega arith)

timeout_example :
    Finalizes curve psets vm txscript curve-IsCurve vm-IsInterpreter one_signed 1
      (some true ∷ [])
      none
      (timeout_leaf curve txscript 144 7)
      (0xc4 ∷ [])
      true
timeout_example =
    finalize-timeout curve psets vm txscript curve-IsCurve vm-IsInterpreter [] [] (0xc4 ∷ []) none
      144 true one_signed accepts one-Signed

dispute_example :
    Finalizes curve psets vm txscript curve-IsCurve vm-IsInterpreter two_signed 3
      (some true ∷ some false ∷ [])
      none
      (pair_leaf curve 7 5)
      (0xc4 ∷ [])
      true
dispute_example =
    finalize-dispute curve psets vm txscript curve-IsCurve vm-IsInterpreter [] [] (0xc4 ∷ []) none 1
      true false two_signed accepts two-Signed (omega arith)

abbrev closures : List (Closure ℕ)
closures = multisig_closure (pair 9 5) ∷ []

tree_built : elements_tap_tree curve txscript taproot closures ≡ ok (9, pair_leaf curve 9 5 ∷ [])
unfolding elements_tap_tree leaf_scripts
tree_built = rw pair_bytes refl

address_example :
    (addr : Str) × (elements_address curve txscript taproot closures (lit "ert") ≡ ok addr)
    × (address_to_output_script addr ≡ ok (0x51 ∷ 0x20 ∷ 9 ∷ zeros 31))
    × (elements_p2tr_script curve txscript taproot closures ≡ ok (0x51 ∷ 0x20 ∷ 9 ∷ zeros 31))
address_example =
    address_to_output_script-elements_address curve txscript curve-IsCurve txscript-IsTxscript
      taproot closures (lit "ert") 9 ((pair_leaf curve 9 5) ∷ []) tree_built

abbrev cfg : ClaimEscrowConfig curve
cfg = record {
  escrow_script = some (escrow_of curve txscript curve-IsCurve txscript-IsTxscript 5 7 9 hash 144);
  fund_tx_id = lit "f00d";
  fund_vout = 1;
  amount = 10000;
  leaf = 2;
  signing_keys = some true ∷ some false ∷ [];
  preimage = none;
  dest_address = lit "ert1pqurs3vqnjf";
  fee = 0;
  network = none;
}

abbrev regtest : Network
regtest = record { asset_id = 2 ∷ []; genesis_block_hash = 1 ∷ [] }

claimed : (p : Pset Str) × (claim_pset curve txscript taproot psets regtest cfg ≡ ok p)
unfolding claim_pset elements_leaf_script elements_p2tr_script address_to_output_script convert_bits
    runes bech32m_polymod script leaf_scripts build_pset sign_tapscript_input
    finalize_escrow_witness str_eq bip68_sequence unspendable_key signature_of Hex.encode_to_string
claimed = (_, refl)

claim_pset_example : Pays curve txscript taproot psets regtest cfg claimed.0
claim_pset_example =
    claim_pset-Pays curve txscript taproot psets psets-IsPsetv2 regtest cfg claimed.0 claimed.1

abbrev sigs : List (Str × Str)
sigs =
    (Hex.encode_to_string (curve.serialize 7), 1 ∷ [])
    ∷ (Hex.encode_to_string (curve.serialize 5), 2 ∷ [])
    ∷ []

abbrev dispute_stack : List Str
dispute_stack = (2 ∷ []) ∷ (1 ∷ []) ∷ pair_leaf curve 7 5 ∷ (0xc4 ∷ []) ∷ []

abbrev timeout_stack : List Str
timeout_stack = (2 ∷ []) ∷ timeout_leaf curve txscript 144 5 ∷ (0xc4 ∷ []) ∷ []

oracle_found : signature_of (Hex.encode_to_string (curve.serialize 7)) sigs ≡ some (1 ∷ [])
unfolding signature_of Hex.encode_to_string str_eq
oracle_found = refl

winner_found : signature_of (Hex.encode_to_string (curve.serialize 5)) sigs ≡ some (2 ∷ [])
unfolding signature_of Hex.encode_to_string str_eq
winner_found = refl

witnesses_example :
    (witness curve txscript (multisig_closure (pair 7 5)) (0xc4 ∷ []) sigs ≡ ok dispute_stack)
    × (escrow_witness curve sigs 2
          (some true ∷ some false ∷ [])
          none
          (pair_leaf curve 7 5)
          (0xc4 ∷ [])
        ≡ ok dispute_stack)
    × (witness curve txscript
          (csv_closure
            (record { multisig = single 5; locktime = record { type = block; value = 144 } }))
          (0xc4 ∷ [])
          sigs
        ≡ ok timeout_stack)
    × (escrow_witness curve sigs 1
          (some false ∷ [])
          none
          (timeout_leaf curve txscript 144 5)
          (0xc4 ∷ [])
        ≡ ok timeout_stack)
witnesses_example =
    witness-escrow_witness curve txscript curve-IsCurve txscript-IsTxscript sigs true false 144 none
      (1 ∷ []) (2 ∷ []) (0xc4 ∷ []) oracle_found winner_found
