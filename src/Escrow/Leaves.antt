-- ===== src/Escrow/Leaves.antt =====
-- The bytes of the leaves that `NewEscrowScript` of pkg/escrow/escrow.go makes.
use ark_escrow.Base.{ℕ, Str, ◌≡◌, refl, arith, some, [], ◌∷◌, ◌++◌, length}
use ark_escrow.Base.{length-append, append_assoc, ok, ◌∙◌}
use ark_escrow.Curve.{Curve, IsCurve}
use ark_escrow.Params.{EscrowParams}
use ark_escrow.Script.Txscript.{Txscript, IsTxscript}
use ark_escrow.Script.Locktime.{block}
use ark_escrow.Script.Closure.{script, condition_closure, csv_closure, multisig_closure}
use ark_escrow.Script.Closure.Scripts.{pair_script, csv_single_script, condition_single_script}
use ark_escrow.Escrow.{EscrowScript, new_escrow_script, hash_condition, single, pair}
use ark_escrow.Escrow.Elements.{leaf_scripts}

-- The parameters of an escrow whose keys are all there, with a timeout in blocks.
abbrev pub params_of : {Key : Type 0} → Key → Key → Key → Str → ℕ → EscrowParams Key
params_of seller buyer oracle hash n = record {
  seller_pub_key = some seller;
  buyer_pub_key = some buyer;
  oracle_pub_key = some oracle;
  secret_hash = hash;
  timeout = record { type = block; value = n };
}

-- `OP_SHA256 <hash> OP_EQUAL`
abbrev pub condition_bytes : Str → Str
condition_bytes hash = 0xa8 ∷ 0x20 ∷ (hash ++ 0x87 ∷ [])

module _ (tx : Txscript) (laws : IsTxscript tx) where
  pub build-hash_condition :
      (hash : Str)
      → length hash ≡ 32
      → tx.build (hash_condition tx hash) ≡ some (condition_bytes hash)
  build-hash_condition hash size =
      let pushed = laws.data_push_32 hash size in
      rw
        (laws.builds (hash_condition tx hash)
          (rw pushed (omega (arith, length-append hash (tx.op_equal ∷ []), size))))
        (rw (pushed, laws.op_data_32, laws.op_sha256, laws.op_equal))

module _ (c : Curve) where
  -- `OP_SHA256 <hash> OP_EQUAL OP_VERIFY <key> OP_CHECKSIG`
  abbrev pub hash_leaf : Str → c.PublicKey → Str
  hash_leaf hash key = 0xa8 ∷ 0x20 ∷ (hash ++ (0x87 ∷ 0x69 ∷ 0x20 ∷ (c.serialize key ++ 0xac ∷ [])))

  -- `<first> OP_CHECKSIGVERIFY <second> OP_CHECKSIG`
  abbrev pub pair_leaf : c.PublicKey → c.PublicKey → Str
  pair_leaf first second =
      0x20 ∷ (c.serialize first ++ (0xad ∷ 0x20 ∷ (c.serialize second ++ 0xac ∷ [])))

module _ (c : Curve) (tx : Txscript) where
  -- `<n> OP_CHECKSEQUENCEVERIFY OP_DROP <key> OP_CHECKSIG`
  abbrev pub timeout_leaf : ℕ → c.PublicKey → Str
  timeout_leaf n key = tx.int_push n ++ (0xb2 ∷ 0x75 ∷ 0x20 ∷ (c.serialize key ++ 0xac ∷ []))

module _ (c : Curve) (tx : Txscript) (curve : IsCurve c) (laws : IsTxscript tx) where
  pub script-condition_closure :
      (key : c.PublicKey) (hash : Str)
      → length hash ≡ 32
      → script c tx
          (condition_closure (record { multisig = single key; condition = condition_bytes hash }))
        ≡ ok (hash_leaf c hash key)
  unfolding script
  script-condition_closure key hash size =
      condition_single_script c tx curve laws key (condition_bytes hash)
        (omega (arith, length-append hash (0x87 ∷ []), size))
      ∙ rw (laws.op_verify, laws.op_data_32, laws.op_checksig, append_assoc)

  pub script-csv_closure :
      (key : c.PublicKey) (n : ℕ)
      → script c tx (
          csv_closure
            (record { multisig = single key; locktime = record { type = block; value = n } }))
        ≡ ok (timeout_leaf c tx n key)
  unfolding script
  script-csv_closure key n =
      csv_single_script c tx curve laws key n
      ∙ rw (
        laws.op_checksequenceverify, laws.op_drop, laws.op_data_32, laws.op_checksig, append_assoc,
      )

  pub script-multisig_closure :
      (first second : c.PublicKey)
      → script c tx (multisig_closure (pair first second)) ≡ ok (pair_leaf c first second)
  unfolding script
  script-multisig_closure first second =
      pair_script c tx curve laws first second
      ∙ rw (laws.op_checksigverify, laws.op_data_32, laws.op_checksig)

  abbrev pub escrow_of :
      c.PublicKey → c.PublicKey → c.PublicKey → Str → ℕ → EscrowScript c.PublicKey
  escrow_of seller buyer oracle hash n = record {
    params = params_of seller buyer oracle hash n;
    closures =
        condition_closure (record { multisig = single seller; condition = condition_bytes hash })
        ∷ csv_closure
            (record { multisig = single buyer; locktime = record { type = block; value = n } })
        ∷ multisig_closure (pair oracle seller)
        ∷ multisig_closure (pair oracle buyer)
        ∷ [];
  }

  -- With three keys, a hash of 32 bytes and a timeout in blocks the escrow is made, and its four
  -- leaves are, in this order: the seller with a preimage of the hash, the buyer after the
  -- timeout, the oracle with the seller, the oracle with the buyer.
  pub leaf_scripts-new_escrow_script :
      (seller buyer oracle : c.PublicKey) (hash : Str) (n : ℕ)
      → length hash ≡ 32
      → (new_escrow_script tx (params_of seller buyer oracle hash n)
          ≡ ok (escrow_of seller buyer oracle hash n))
        × (leaf_scripts c tx 0 (escrow_of seller buyer oracle hash n).closures
            ≡ ok (
                hash_leaf c hash seller
                ∷ timeout_leaf c tx n buyer
                ∷ pair_leaf c oracle seller
                ∷ pair_leaf c oracle buyer
                ∷ []))
  unfolding new_escrow_script leaf_scripts
  leaf_scripts-new_escrow_script seller buyer oracle hash n size = (
    rw (build-hash_condition tx laws hash size) refl,
    rw (
      script-condition_closure seller hash size,
      script-csv_closure buyer n,
      script-multisig_closure oracle seller,
      script-multisig_closure oracle buyer,
    ),
  )
