-- ===== src/Swap/Claim/Stacks.antt =====
-- The witnesses of pkg/escrow/swap/escrow_claim.go against the leaves of pkg/escrow/escrow.go: what the
-- interpreter of the network makes of them.
use ark_escrow.Base.{ℕ, suc, ◌≤◌, Str, ◌≡◌, refl, arith, ap, sym, ◌∙◌, true, Option, none, some}
use ark_escrow.Base.{
  List, [], ◌∷◌, length, All, All-append, IsBytes, str_eq, str_eq→eq, get_elem?, Bool-cases, inl,
  inr,
}
use ark_escrow.Base.{subst, ◌==◌, ◌||◌, not, ltb, ok, >>=-eq-ok, or_err, require, Option-cases}
use ark_escrow.Hex
use ark_escrow.Curve.{Curve, IsCurve}
use ark_escrow.Script.Txscript.{Txscript}
use ark_escrow.Script.Interpreter.{Interpreter, IsInterpreter, run_witness}
use ark_escrow.Script.Closure.{signature_of}
use ark_escrow.Escrow.Leaves.{hash_leaf, timeout_leaf, pair_leaf}
use ark_escrow.Escrow.Spending.{execute-hash_leaf, execute-timeout_leaf, execute-pair_leaf}
use ark_escrow.Swap.Pset.{Pset, Psetv2, PsetError, TapScriptSig, sign_keys}
use ark_escrow.Swap.Claim.{ClaimError, collect_sigs, get_sig, escrow_witness}

encode-injective :
    (s t : Str) → IsBytes s → IsBytes t → Hex.encode_to_string s ≡ Hex.encode_to_string t → s ≡ t
encode-injective s t p q e = ground (
  arith,
  Hex.decode_string-encode_to_string s p,
  Hex.decode_string-encode_to_string t q,
  ap Hex.decode_string e,
)

module _ (vm : Interpreter) where
  abbrev pub IsValidSig : TapScriptSig → Type 0
  IsValidSig t = IsBytes t.pub_key × (vm.check_sig t.pub_key t.signature ≡ true)

  abbrev pub IsValidEntry : Str × Str → Type 0
  IsValidEntry entry =
      (key : Str) × IsBytes key
      × (entry.0 ≡ Hex.encode_to_string key)
      × (vm.check_sig key entry.1 ≡ true)

  collect_sigs-valid :
      (ts : List TapScriptSig) (m : List (Str × Str))
      → All IsValidSig ts
      → All IsValidEntry m
      → All IsValidEntry (collect_sigs ts m)
  unfolding collect_sigs
  collect_sigs-valid [] m h hm = hm
  collect_sigs-valid (t ∷ ts) m ((bytes, valid), h) hm =
      collect_sigs-valid ts ((Hex.encode_to_string t.pub_key, t.signature) ∷ m) h
        ((t.pub_key, bytes, refl, valid), hm)

  signature_of-valid :
      (key sig : Str) (m : List (Str × Str))
      → IsBytes key
      → All IsValidEntry m
      → signature_of (Hex.encode_to_string key) m ≡ some sig
      → vm.check_sig key sig ≡ true
  unfolding signature_of
  signature_of-valid key sig [] bytes hm h = ground arith
  signature_of-valid key sig ((name, s) ∷ m) bytes ((other, bytes', named, valid), hm) h =
      elim (Bool-cases (str_eq name (Hex.encode_to_string key))) [
        | inl e ↦
            let same = encode-injective other key bytes' bytes (sym named ∙ str_eq→eq _ _ e) in
            let taken : s ≡ sig = ground arith in
            ap (λ k. vm.check_sig k sig) (sym same) ∙ ap (vm.check_sig other) (sym taken) ∙ valid
        | inr e ↦ signature_of-valid key sig m bytes hm (ground arith)
      ]

module _ (c : Curve) (lib : Psetv2 c) where
  -- The signatures of a PSET that was just signed.
  abbrev pub Signed : Str → Str → List (Option c.PrivateKey) → Pset lib.ControlBlock → Type 0
  Signed sighash leaf_hash keys q =
      (p : Pset lib.ControlBlock) × (p.tap_script_sig ≡ [])
      × (sign_keys c lib sighash leaf_hash keys p ≡ ok q)

module _ (c : Curve) (lib : Psetv2 c) (vm : Interpreter) where
  -- The network takes every signature of this hash.
  abbrev pub Accepts : Str → Type 0
  Accepts sighash =
      (key : c.PrivateKey) (sig : Str)
      → lib.sign key sighash ≡ some sig
      → vm.check_sig (c.serialize (c.pub_key key)) sig ≡ true

module _ (c : Curve) (lib : Psetv2 c) (vm : Interpreter) (curve : IsCurve c) where
  signed : (e : PsetError) (o : Option Str) (sig : Str) → or_err e o ≡ ok sig → o ≡ some sig
  signed e none sig h = ground arith
  signed e (some s) sig h = ground arith

  sign_keys-valid :
      (sighash leaf_hash : Str) (keys : List (Option c.PrivateKey)) (p q : Pset lib.ControlBlock)
      → Accepts c lib vm sighash
      → All (IsValidSig vm) p.tap_script_sig
      → sign_keys c lib sighash leaf_hash keys p ≡ ok q
      → All (IsValidSig vm) q.tap_script_sig
  unfolding sign_keys
  sign_keys-valid sighash leaf_hash [] p q accepts hp h =
      let same : p ≡ q = ground arith in subst (λ q. All (IsValidSig vm) q.tap_script_sig) same hp
  sign_keys-valid sighash leaf_hash (none ∷ keys) p q accepts hp h =
      sign_keys-valid sighash leaf_hash keys p q accepts hp h
  sign_keys-valid sighash leaf_hash (some key ∷ keys) p q accepts hp h =
      let (sig, e, h') = >>=-eq-ok (or_err PsetError.sign_failed (lib.sign key sighash)) _ h in
      let valid = accepts key sig (signed _ _ sig e) in
      sign_keys-valid sighash leaf_hash keys _ q accepts
        (All-append (IsValidSig vm) p.tap_script_sig _ hp
          ((curve.serialize-IsBytes (c.pub_key key), valid), tt))
        h'

  get_sig-valid :
      (key : c.PrivateKey) (sig : Str) (m : List (Str × Str))
      → All (IsValidEntry vm) m
      → get_sig c m (some (some key)) ≡ ok sig
      → vm.check_sig (c.serialize (c.pub_key key)) sig ≡ true
  unfolding get_sig
  get_sig-valid key sig m hm h =
      let name = Hex.encode_to_string (c.serialize (c.pub_key key)) in
      signature_of-valid vm (c.serialize (c.pub_key key)) sig m
        (curve.serialize-IsBytes (c.pub_key key)) hm
        (elim (Option-cases (signature_of name m)) [
          | inl e ↦ ground arith
          | inr (s, e) ↦ ground arith
        ])

  pub Signed-valid :
      (sighash leaf_hash : Str) (keys : List (Option c.PrivateKey)) (q : Pset lib.ControlBlock)
      → Accepts c lib vm sighash
      → Signed c lib sighash leaf_hash keys q
      → All (IsValidEntry vm) (collect_sigs q.tap_script_sig [])
  Signed-valid sighash leaf_hash keys q accepts (p, fresh, h) =
      collect_sigs-valid vm q.tap_script_sig []
        (sign_keys-valid sighash leaf_hash keys p q accepts
          (subst (λ ts. All (IsValidSig vm) ts) (sym fresh) tt) h)
        tt

  module _ (tx : Txscript) (rules : IsInterpreter tx vm) where
    pub release_items :
        (m : List (Str × Str)) (keys : List (Option c.PrivateKey)) (seller : c.PrivateKey)
        (preimage hash control_block : Str) (items : List Str)
        → All (IsValidEntry vm) m
        → get_elem? keys 0 ≡ some (some seller)
        → length hash ≡ 32
        → length preimage ≤ 520
        → escrow_witness c m 0 keys
            (some preimage)
            (hash_leaf c hash (c.pub_key seller))
            control_block
          ≡ ok items
        → run_witness vm items ≡ str_eq hash (vm.sha256 preimage)
    unfolding escrow_witness
    release_items m keys seller preimage hash control_block items hm first size short h =
        let (sig, e, h') = >>=-eq-ok (get_sig c m (get_elem? keys 0)) _ h in
        let leaf = hash_leaf c hash (c.pub_key seller) in
        let made : (sig ∷ preimage ∷ leaf ∷ control_block ∷ []) ≡ items = ground arith in
        let valid = get_sig-valid seller sig m hm (ap (get_sig c m) (sym first) ∙ e) in
        subst (λ items. run_witness vm items ≡ str_eq hash (vm.sha256 preimage)) made
          (execute-hash_leaf c tx vm curve rules (c.pub_key seller) hash sig preimage size short
            ∙ rw valid (ground arith))

    pub timeout_items :
        (m : List (Str × Str)) (keys : List (Option c.PrivateKey)) (buyer : c.PrivateKey)
        (preimage : Option Str) (n : ℕ) (control_block : Str) (items : List Str)
        → All (IsValidEntry vm) m
        → get_elem? keys 0 ≡ some (some buyer)
        → escrow_witness c m 1 keys preimage (timeout_leaf c tx n (c.pub_key buyer)) control_block
          ≡ ok items
        → run_witness vm items ≡ vm.sequence_reached n
    unfolding escrow_witness
    timeout_items m keys buyer preimage n control_block items hm first h =
        let (sig, e, h') = >>=-eq-ok (get_sig c m (get_elem? keys 0)) _ h in
        let leaf = timeout_leaf c tx n (c.pub_key buyer) in
        let made : (sig ∷ leaf ∷ control_block ∷ []) ≡ items = ground arith in
        let valid = get_sig-valid buyer sig m hm (ap (get_sig c m) (sym first) ∙ e) in
        subst (λ items. run_witness vm items ≡ vm.sequence_reached n) made
          (execute-timeout_leaf c tx vm curve rules (c.pub_key buyer) n sig
            ∙ rw valid (ground arith))

    pub dispute_items :
        (m : List (Str × Str)) (leaf : ℕ) (keys : List (Option c.PrivateKey))
        (oracle winner : c.PrivateKey) (preimage : Option Str) (control_block : Str)
        (items : List Str)
        → All (IsValidEntry vm) m
        → get_elem? keys 0 ≡ some (some oracle)
        → get_elem? keys 1 ≡ some (some winner)
        → escrow_witness c m
            (suc (suc leaf))
            keys
            preimage
            (pair_leaf c (c.pub_key oracle) (c.pub_key winner))
            control_block
          ≡ ok items
        → run_witness vm items ≡ true
    unfolding escrow_witness
    dispute_items m leaf keys oracle winner preimage control_block items hm first second h =
        let (_, e0, h0) =
          >>=-eq-ok
            (require ((suc (suc leaf)) == 2 || (suc (suc leaf)) == 3)
              (ClaimError.invalid_leaf (suc (suc leaf))))
            _ h in
        let (_, e1, h1) =
          >>=-eq-ok (require (not (ltb (length keys) 2)) ClaimError.two_keys_required) _ h0 in
        let (oracle_sig, e2, h2) = >>=-eq-ok (get_sig c m (get_elem? keys 0)) _ h1 in
        let (winner_sig, e3, h3) = >>=-eq-ok (get_sig c m (get_elem? keys 1)) _ h2 in
        let script = pair_leaf c (c.pub_key oracle) (c.pub_key winner) in
        let made : (winner_sig ∷ oracle_sig ∷ script ∷ control_block ∷ []) ≡ items = ground arith in
        let valid = get_sig-valid oracle oracle_sig m hm (ap (get_sig c m) (sym first) ∙ e2) in
        let valid' = get_sig-valid winner winner_sig m hm (ap (get_sig c m) (sym second) ∙ e3) in
        subst (λ items. run_witness vm items ≡ true) made
          (execute-pair_leaf c tx vm curve rules (c.pub_key oracle) (c.pub_key winner) oracle_sig
              winner_sig
            ∙ rw (valid, valid') refl)
