-- ===== src/Swap/Claim/Spends.antt =====
-- `finalizeEscrowWitness` of pkg/escrow/swap/escrow_claim.go after `signTapscriptInput`: the final
-- witness of a claim is made, and the network runs it.
use ark_escrow.Base.{ℕ, suc, ◌≤◌, Str, ◌≡◌, refl, arith, sym, Bool, true, Option, some}
use ark_escrow.Base.{List, [], ◌∷◌, ◌++◌, length, str_eq, str_eq_refl, Bool-cases, inl, inr}
use ark_escrow.Base.{◌==◌, ◌||◌, ◌<◌, ok, >>=-eq-ok, or_err}
use ark_escrow.Hex
use ark_escrow.Curve.{Curve, IsCurve}
use ark_escrow.Script.Txscript.{Txscript}
use ark_escrow.Script.Interpreter.{Interpreter, IsInterpreter, run_witness}
use ark_escrow.Script.Closure.{signature_of}
use ark_escrow.Escrow.Leaves.{hash_leaf, timeout_leaf, pair_leaf}
use ark_escrow.Swap.Witness.{serialize_witness}
use ark_escrow.Swap.Pset.{Pset, Psetv2, PsetError, TapScriptSig, sign_keys, set_witness}
use ark_escrow.Swap.Claim.{collect_sigs, get_sig, escrow_witness, finalize_escrow_witness}
use ark_escrow.Swap.Claim.Stacks.{
  Accepts, Signed, Signed-valid, release_items, timeout_items, dispute_items,
}

module _ (c : Curve) (lib : Psetv2 c) where
  abbrev hex_of : c.PrivateKey → Str
  hex_of key = Hex.encode_to_string (c.serialize (c.pub_key key))

  -- The map of signatures after one key, and after two, has signed.
  sigs_one :
      (sighash leaf_hash : Str) (key : c.PrivateKey) (q : Pset lib.ControlBlock)
      → Signed c lib sighash leaf_hash (some key ∷ []) q
      → (sig : Str) × (collect_sigs q.tap_script_sig [] ≡ (hex_of key, sig) ∷ [])
  unfolding collect_sigs sign_keys
  sigs_one sighash leaf_hash key q (p, fresh, h) =
      let (sig, e, h') = >>=-eq-ok (or_err PsetError.sign_failed (lib.sign key sighash)) _ h in
      let made : p.tap_script_sig
            ++ record {
              pub_key = c.serialize (c.pub_key key);
              signature = sig;
              leaf_hash = leaf_hash;
            }
              ∷ []
          ≡ q.tap_script_sig =
        ground arith in
      (sig, rw (sym made, fresh) refl)

  sigs_two :
      (sighash leaf_hash : Str) (first second : c.PrivateKey) (q : Pset lib.ControlBlock)
      → Signed c lib sighash leaf_hash (some first ∷ some second ∷ []) q
      → (sig sig' : Str) × (collect_sigs q.tap_script_sig []
          ≡ (hex_of second, sig') ∷ (hex_of first, sig) ∷ [])
  unfolding collect_sigs sign_keys
  sigs_two sighash leaf_hash first second q (p, fresh, h) =
      let (sig, e, h') = >>=-eq-ok (or_err PsetError.sign_failed (lib.sign first sighash)) _ h in
      let (sig', e', h'') =
        >>=-eq-ok (or_err PsetError.sign_failed (lib.sign second sighash)) _ h' in
      let entry : c.PrivateKey → Str → TapScriptSig = λ key s. record {
        pub_key = c.serialize (c.pub_key key);
        signature = s;
        leaf_hash = leaf_hash;
      } in
      let made : (p.tap_script_sig ++ entry first sig ∷ []) ++ entry second sig' ∷ []
          ≡ q.tap_script_sig =
        ground arith in
      (sig, sig', rw (sym made, fresh) refl)

  found :
      (m : List (Str × Str)) (key : c.PrivateKey) (sig : Str)
      → signature_of (hex_of key) m ≡ some sig
      → get_sig c m (some (some key)) ≡ ok sig
  unfolding get_sig
  found m key sig e = ground arith

  signature_of-here :
      (name sig : Str) (m : List (Str × Str)) → signature_of name ((name, sig) ∷ m) ≡ some sig
  unfolding signature_of
  signature_of-here name sig m = ground (arith, str_eq_refl name)

  signature_of-next :
      (name other sig sig' : Str)
      → (s : Str) × (signature_of name ((other, sig') ∷ (name, sig) ∷ []) ≡ some s)
  unfolding signature_of
  signature_of-next name other sig sig' = elim (Bool-cases (str_eq other name)) [
    | inl e ↦ (sig', ground arith)
    | inr e ↦ (sig, ground (arith, str_eq_refl name))
  ]

  finalized :
      (p : Pset lib.ControlBlock) (leaf : ℕ) (keys : List (Option c.PrivateKey))
      (preimage : Option Str) (script control_block : Str) (items : List Str)
      → escrow_witness c (collect_sigs p.tap_script_sig []) leaf keys preimage script control_block
        ≡ ok items
      → finalize_escrow_witness c lib p leaf keys preimage script control_block
        ≡ ok (set_witness c lib (serialize_witness items) p)
  unfolding finalize_escrow_witness
  finalized p leaf keys preimage script control_block items e = rw e

module _ (c : Curve) (lib : Psetv2 c) (vm : Interpreter) (tx : Txscript) (curve : IsCurve c)
    (rules : IsInterpreter tx vm) where
  -- The PSET is finalised, with a witness that the network runs to this result.
  abbrev pub Finalizes :
      Pset lib.ControlBlock
      → ℕ
      → List (Option c.PrivateKey)
      → Option Str
      → Str
      → Str
      → Bool
      → Type 0
  Finalizes p leaf keys preimage script control_block b =
      (items : List Str) × (finalize_escrow_witness c lib p leaf keys preimage script control_block
        ≡ ok (set_witness c lib (serialize_witness items) p))
      × (run_witness vm items ≡ b)

  -- The seller alone: once its key has signed, the release is finalised, and the network runs its
  -- witness, for a preimage of at most 520 bytes, with success exactly if the preimage has the escrow's hash.
  pub finalize-release :
      (sighash leaf_hash hash preimage control_block : Str) (seller : c.PrivateKey)
      (p : Pset lib.ControlBlock)
      → Accepts c lib vm sighash
      → Signed c lib sighash leaf_hash (some seller ∷ []) p
      → length hash ≡ 32
      → length preimage ≤ 520
      → Finalizes p 0
          (some seller ∷ [])
          (some preimage)
          (hash_leaf c hash (c.pub_key seller))
          control_block
          (str_eq hash (vm.sha256 preimage))
  unfolding escrow_witness
  finalize-release sighash leaf_hash hash preimage control_block seller p accepts signed size
        short =
      let keys : List (Option c.PrivateKey) = some seller ∷ [] in
      let leaf = hash_leaf c hash (c.pub_key seller) in
      let m = collect_sigs p.tap_script_sig [] in
      let (sig, map) = sigs_one c lib sighash leaf_hash seller p signed in
      let got : get_sig c m (some (some seller)) ≡ ok sig =
        found c lib m seller sig (rw map (signature_of-here c lib (hex_of c lib seller) sig [])) in
      let items = sig ∷ preimage ∷ leaf ∷ control_block ∷ [] in
      let written : escrow_witness c m 0 keys (some preimage) leaf control_block ≡ ok items =
        rw got refl in
      (
        items,
        finalized c lib p 0 keys (some preimage) leaf control_block items written,
        release_items c lib vm curve tx rules m keys seller preimage hash control_block items
            (Signed-valid c lib vm curve sighash leaf_hash keys p accepts signed) refl size short
            written,
      )

  -- The buyer alone: once its key has signed, the refund is finalised, and the network runs its
  -- witness with success exactly if the input's sequence has reached the escrow's timeout.
  pub finalize-timeout :
      (sighash leaf_hash control_block : Str) (preimage : Option Str) (n : ℕ) (buyer : c.PrivateKey)
      (p : Pset lib.ControlBlock)
      → Accepts c lib vm sighash
      → Signed c lib sighash leaf_hash (some buyer ∷ []) p
      → Finalizes p 1
          (some buyer ∷ [])
          preimage
          (timeout_leaf c tx n (c.pub_key buyer))
          control_block
          (vm.sequence_reached n)
  unfolding escrow_witness
  finalize-timeout sighash leaf_hash control_block preimage n buyer p accepts signed =
      let keys : List (Option c.PrivateKey) = some buyer ∷ [] in
      let leaf = timeout_leaf c tx n (c.pub_key buyer) in
      let m = collect_sigs p.tap_script_sig [] in
      let (sig, map) = sigs_one c lib sighash leaf_hash buyer p signed in
      let got : get_sig c m (some (some buyer)) ≡ ok sig =
        found c lib m buyer sig (rw map (signature_of-here c lib (hex_of c lib buyer) sig [])) in
      let items = sig ∷ leaf ∷ control_block ∷ [] in
      let written : escrow_witness c m 1 keys preimage leaf control_block ≡ ok items =
        rw got refl in
      (
        items,
        finalized c lib p 1 keys preimage leaf control_block items written,
        timeout_items c lib vm curve tx rules m keys buyer preimage n control_block items
            (Signed-valid c lib vm curve sighash leaf_hash keys p accepts signed) refl written,
      )

  -- The oracle with the winner of a dispute: once their keys have signed, in this order, the claim
  -- is finalised through either dispute leaf, and the network runs its witness with success.
  pub finalize-dispute :
      (sighash leaf_hash control_block : Str) (preimage : Option Str) (leaf : ℕ)
      (oracle winner : c.PrivateKey) (p : Pset lib.ControlBlock)
      → Accepts c lib vm sighash
      → Signed c lib sighash leaf_hash (some oracle ∷ some winner ∷ []) p
      → leaf < 2
      → Finalizes p
          (suc (suc leaf))
          (some oracle ∷ some winner ∷ [])
          preimage
          (pair_leaf c (c.pub_key oracle) (c.pub_key winner))
          control_block
          true
  unfolding escrow_witness
  finalize-dispute sighash leaf_hash control_block preimage leaf oracle winner p accepts signed
        few =
      let keys : List (Option c.PrivateKey) = some oracle ∷ some winner ∷ [] in
      let script = pair_leaf c (c.pub_key oracle) (c.pub_key winner) in
      let m = collect_sigs p.tap_script_sig [] in
      let (sig, sig', map) = sigs_two c lib sighash leaf_hash oracle winner p signed in
      let (oracle_sig, e) =
        signature_of-next c lib (hex_of c lib oracle) (hex_of c lib winner) sig sig' in
      let got : get_sig c m (some (some oracle)) ≡ ok oracle_sig =
        found c lib m oracle oracle_sig (rw map e) in
      let got' : get_sig c m (some (some winner)) ≡ ok sig' =
        found c lib m winner sig' (rw map (signature_of-here c lib (hex_of c lib winner) sig' _)) in
      let items = sig' ∷ oracle_sig ∷ script ∷ control_block ∷ [] in
      let known : (suc (suc leaf) == 2 || suc (suc leaf) == 3) ≡ true = ground arith in
      let written : escrow_witness c m (suc (suc leaf)) keys preimage script control_block
          ≡ ok items =
        rw (known, got, got') refl in
      (
        items,
        finalized c lib p (suc (suc leaf)) keys preimage script control_block items written,
        dispute_items c lib vm curve tx rules m leaf keys oracle winner preimage control_block items
            (Signed-valid c lib vm curve sighash leaf_hash keys p accepts signed) refl refl written,
      )
