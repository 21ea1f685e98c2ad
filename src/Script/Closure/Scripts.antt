-- ===== src/Script/Closure/Scripts.antt =====
-- The bytes of the leaf scripts that internal/script/closure.go builds.
use ark_escrow.Base.{ℕ, ◌≤◌, ◌≡◌, arith, [], ◌∷◌, ◌++◌, Str, length}
use ark_escrow.Base.{length-append, append-nil, ok}
use ark_escrow.Curve.{Curve, IsCurve}
use ark_escrow.Script.Txscript.{Txscript, IsTxscript, op, ops, push, int}
use ark_escrow.Script.Locktime.{block, bip68_sequence}
use ark_escrow.Script.Closure.{checksig, multisig_script, csv_script, condition_script}

module _ (c : Curve) (tx : Txscript) (curve : IsCurve c) (laws : IsTxscript tx) where
  -- OP_DATA_32 and an x-only key.
  abbrev pub key_push : c.PublicKey → Str
  key_push key = tx.op_data_32 ∷ c.serialize key

  push-key : (key : c.PublicKey) → tx.data_push (c.serialize key) ≡ key_push key
  push-key key = laws.data_push_32 (c.serialize key) (curve.length-serialize key)

  -- `<key> OP_CHECKSIG`
  pub single_script :
      (key : c.PublicKey)
      → multisig_script c tx (record { pub_keys = key ∷ []; type = checksig })
        ≡ ok (key_push key ++ tx.op_checksig ∷ [])
  unfolding multisig_script
  single_script key =
      rw
        (laws.builds (push (c.serialize key) ∷ op tx.op_checksig ∷ []) (
          rw (push-key key) (
            omega (
              arith,
              length-append (c.serialize key) (tx.op_checksig ∷ []),
              curve.length-serialize key,
            ))))
        (rw (push-key key))

  -- `<first> OP_CHECKSIGVERIFY <second> OP_CHECKSIG`
  pub pair_script :
      (first second : c.PublicKey)
      → multisig_script c tx (record { pub_keys = first ∷ second ∷ []; type = checksig })
        ≡ ok (key_push first ++ (tx.op_checksigverify ∷ (key_push second ++ tx.op_checksig ∷ [])))
  unfolding multisig_script
  pair_script first second =
      rw
        (laws.builds
          (push (c.serialize first)
            ∷ op tx.op_checksigverify
            ∷ push (c.serialize second)
            ∷ op tx.op_checksig
            ∷ [])
          (rw (push-key first, push-key second)
            (omega (
              arith,
              length-append (c.serialize first) (
                  tx.op_checksigverify
                  ∷ tx.op_data_32
                  ∷ (c.serialize second ++ tx.op_checksig ∷ [])),
              length-append (c.serialize second) (tx.op_checksig ∷ []),
              curve.length-serialize first,
              curve.length-serialize second,
            ))))
        (rw (push-key first, push-key second))

  -- `<n> OP_CHECKSEQUENCEVERIFY OP_DROP <key> OP_CHECKSIG`
  pub csv_single_script :
      (key : c.PublicKey) (n : ℕ)
      → csv_script c tx (record {
        multisig = record { pub_keys = key ∷ []; type = checksig };
        locktime = record { type = block; value = n };
      })
        ≡ ok (
            (tx.int_push n ++ tx.op_checksequenceverify ∷ tx.op_drop ∷ [])
            ++ (key_push key ++ tx.op_checksig ∷ []))
  unfolding csv_script bip68_sequence
  csv_single_script key n = rw (
    laws.blocks_sequence n,
    laws.builds (int n ∷ ops (tx.op_checksequenceverify ∷ tx.op_drop ∷ []) ∷ []) (
        omega (
          arith,
          length-append (tx.int_push n) (tx.op_checksequenceverify ∷ tx.op_drop ∷ []),
          laws.length-int_push n,
        )),
    single_script key,
  )

  -- `<condition> OP_VERIFY <key> OP_CHECKSIG`
  pub condition_single_script :
      (key : c.PublicKey) (condition : Str)
      → length condition ≤ 1000
      → condition_script c tx (record {
        multisig = record { pub_keys = key ∷ []; type = checksig };
        condition = condition;
      })
        ≡ ok (condition ++ (tx.op_verify ∷ (key_push key ++ tx.op_checksig ∷ [])))
  unfolding condition_script
  condition_single_script key condition short =
      let multisig = key_push key ++ tx.op_checksig ∷ [] in
      rw (
        single_script key,
        laws.builds (ops condition ∷ op tx.op_verify ∷ ops multisig ∷ []) (
            rw append-nil (
              omega (
                arith,
                length-append condition (tx.op_verify ∷ multisig),
                length-append (c.serialize key) (tx.op_checksig ∷ []),
                curve.length-serialize key,
              ))),
        append-nil,
      )
