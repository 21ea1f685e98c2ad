-- ===== src/Swap/Pset/Transaction.antt =====
-- What the PSETs of pkg/escrow/swap/tx.go spend and pay, from `buildPSET` to the signatures.
use ark_escrow.Base.{ℕ, Str, ◌≡◌, arith, Option, none, some, List, [], ◌∷◌}
use ark_escrow.Base.{Result, ok, err, get_elem?, >>=-eq-ok, or_err, wrap_err}
use ark_escrow.Curve.{Curve}
use ark_escrow.Escrow.Elements.{unspendable_key}
use ark_escrow.Swap.Pset.{
  Network, Pset, Psetv2, IsPsetv2, PsetError, build_pset, sign_tapscript_input, sign_keys,
}

pub wrap_err-eq-ok :
    {E F A : Type 0} (f : E → F) (m : Result E A) {a : A} → wrap_err f m ≡ ok a → m ≡ ok a
wrap_err-eq-ok f (ok x) h = ground arith
wrap_err-eq-ok f (err e) h = ground arith

module _ (c : Curve) (lib : Psetv2 c) where
  -- Two PSETs that differ in their signatures and their witness only.
  abbrev pub SameTx : Pset lib.ControlBlock → Pset lib.ControlBlock → Type 0
  SameTx p q = (q.inputs ≡ p.inputs) × (q.outputs ≡ p.outputs) × (q.witness_utxo ≡ p.witness_utxo)

  sign_keys-SameTx :
      (sighash leaf_hash : Str) (keys : List (Option c.PrivateKey)) (p q : Pset lib.ControlBlock)
      → sign_keys c lib sighash leaf_hash keys p ≡ ok q
      → SameTx p q
  unfolding sign_keys
  sign_keys-SameTx sighash leaf_hash [] p q h = (ground arith, ground arith, ground arith)
  sign_keys-SameTx sighash leaf_hash (none ∷ keys) p q h =
      sign_keys-SameTx sighash leaf_hash keys p q h
  sign_keys-SameTx sighash leaf_hash (some key ∷ keys) p q h =
      let (sig, e, h') = >>=-eq-ok (or_err PsetError.sign_failed (lib.sign key sighash)) _ h in
      sign_keys-SameTx sighash leaf_hash keys _ q h'

  or_err-eq-ok :
      {A : Type 0} (e : PsetError) (o : Option A) (a : A) → or_err e o ≡ ok a → o ≡ some a
  or_err-eq-ok e none a h = ground arith
  or_err-eq-ok e (some x) a h = ground arith

  pub build_pset-Pays :
      (laws : IsPsetv2 c lib) (txid : Str) (vout sequence input_amount output_amount fee : ℕ)
      (prevout dest leaf control_block : Str) (net : Network) (p : Pset lib.ControlBlock)
      → build_pset c lib txid vout sequence input_amount output_amount fee prevout dest leaf
          control_block net
        ≡ ok p
      → (p.inputs ≡ record { txid = txid; tx_index = vout; sequence = sequence } ∷ [])
        × (p.outputs
            ≡ record { asset = net.asset_id; amount = output_amount; script = some dest }
              ∷ record { asset = net.asset_id; amount = fee; script = none }
              ∷ [])
        × (p.tap_script_sig ≡ [])
  unfolding build_pset
  build_pset-Pays laws txid vout sequence input_amount output_amount fee prevout dest leaf
        control_block net p h =
      let (p0, e0, h0) =
        >>=-eq-ok
          (or_err PsetError.new_failed (
            lib.new_pset (record { txid = txid; tx_index = vout; sequence = sequence } ∷ [])
              (record { asset = net.asset_id; amount = output_amount; script = some dest }
                ∷ record { asset = net.asset_id; amount = fee; script = none }
                ∷ [])
              0))
          _ h in
      let (asset, e1, h1) =
        >>=-eq-ok (or_err PsetError.bad_asset (lib.asset_hash_to_bytes net.asset_id)) _ h0 in
      let (value, e2, h2) =
        >>=-eq-ok (or_err PsetError.bad_value (lib.value_to_bytes input_amount)) _ h1 in
      let (p1, e3, h3) =
        >>=-eq-ok
          (or_err PsetError.utxo_failed (
            lib.add_in_witness_utxo (record { asset = asset; value = value; script = prevout }) p0))
          _ h2 in
      let (cb, e4, h4) =
        >>=-eq-ok (or_err PsetError.bad_control_block (lib.parse_control_block control_block)) _
          h3 in
      let (p2, e5, h5) =
        >>=-eq-ok (or_err PsetError.leaf_script_failed (lib.add_in_tap_leaf_script leaf cb p1)) _
          h4 in
      let (key, e6, h6) =
        >>=-eq-ok (or_err PsetError.no_unspendable_key (unspendable_key c)) _ h5 in
      let (i0, o0, s0) = laws.new_pset_eq _ _ _ p0 (or_err-eq-ok _ _ p0 e0) in
      let (i1, o1, s1, u1) = laws.add_in_witness_utxo_eq _ p0 p1 (or_err-eq-ok _ _ p1 e3) in
      let (i2, o2, s2, u2, l2) =
        laws.add_in_tap_leaf_script_eq _ _ p1 p2 (or_err-eq-ok _ _ p2 e5) in
      let (i3, o3, s3, u3, l3) = laws.add_in_tap_internal_key_eq _ p2 p (or_err-eq-ok _ _ p h6) in
      (rw (i3, i2, i1) i0, rw (o3, o2, o1) o0, rw (s3, s2, s1) s0)

  pub sign_tapscript_input-SameTx :
      (p q : Pset lib.ControlBlock) (keys : List (Option c.PrivateKey)) (net : Network)
      → sign_tapscript_input c lib p keys net ≡ ok q
      → SameTx p q
  unfolding sign_tapscript_input
  sign_tapscript_input-SameTx p q keys net h =
      let (utxo, e0, h0) = >>=-eq-ok (or_err PsetError.no_witness_utxo p.witness_utxo) _ h in
      let (genesis, e1, h1) =
        >>=-eq-ok (or_err PsetError.bad_genesis_hash (lib.new_hash_from_str net.genesis_block_hash))
          _ h0 in
      let (leaf, e2, h2) =
        >>=-eq-ok (or_err PsetError.no_tap_leaf_script (get_elem? p.tap_leaf_script 0)) _ h1 in
      let (sighash, e3, h3) =
        >>=-eq-ok
          (or_err PsetError.unsigned_tx_failed
            (lib.hash_for_witness_v1 p utxo genesis (lib.tap_hash leaf.0)))
          _ h2 in
      sign_keys-SameTx sighash (lib.tap_hash leaf.0) keys p q h3
