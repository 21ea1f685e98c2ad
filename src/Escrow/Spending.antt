-- ===== src/Escrow/Spending.antt =====
-- Who can spend an escrow: what the interpreter makes of the leaves of pkg/escrow/escrow.go on the
-- stacks that the witnesses of pkg/escrow/swap/escrow_claim.go leave.
use ark_escrow.Base.{ℕ, Str, ◌≡◌, ◌≤◌, refl, arith, true, false, ◌&&◌, [], ◌∷◌, ◌++◌, length}
use ark_escrow.Base.{str_eq}
use ark_escrow.Curve.{Curve, IsCurve}
use ark_escrow.Script.Txscript.{Txscript}
use ark_escrow.Script.Interpreter.{Interpreter, IsInterpreter}
use ark_escrow.Escrow.Leaves.{hash_leaf, timeout_leaf, pair_leaf}

module _ (c : Curve) (tx : Txscript) (vm : Interpreter) (curve : IsCurve c)
    (rules : IsInterpreter tx vm) where
  -- `<key> OP_CHECKSIG` at the end of a script, over the signature alone.
  last_checksig :
      (key : c.PublicKey) (sig : Str)
      → vm.execute (0x20 ∷ (c.serialize key ++ 0xac ∷ [])) (sig ∷ [])
        ≡ vm.check_sig (c.serialize key) sig
  last_checksig key [] = rw (
    rules.push_32 (c.serialize key) (0xac ∷ []) ([] ∷ []) (curve.length-serialize key),
    rules.empty_sig (c.serialize key) [] [] (curve.length-serialize key),
    rules.finish false,
    rules.empty_invalid (c.serialize key),
  )
  last_checksig key (b ∷ sig) =
      rw
        (
          rules.push_32 (c.serialize key) (0xac ∷ []) ((b ∷ sig) ∷ []) (curve.length-serialize key),
          rules.checksig (c.serialize key) (b ∷ sig) [] [] (curve.length-serialize key) refl,
          rules.finish true,
        )
        (ground arith)

  pub execute-hash_leaf :
      (key : c.PublicKey) (hash sig preimage : Str)
      → length hash ≡ 32
      → length preimage ≤ 520
      → vm.execute (hash_leaf c hash key) (preimage ∷ sig ∷ [])
        ≡ (str_eq hash (vm.sha256 preimage) && vm.check_sig (c.serialize key) sig)
  execute-hash_leaf key hash sig preimage size short =
      let rest = 0x20 ∷ (c.serialize key ++ 0xac ∷ []) in
      rw (
        rules.sha preimage (0x20 ∷ (hash ++ (0x87 ∷ 0x69 ∷ rest))) (sig ∷ []) short,
        rules.push_32 hash (0x87 ∷ 0x69 ∷ rest) (vm.sha256 preimage ∷ sig ∷ []) size,
        rules.equal hash (vm.sha256 preimage) (0x69 ∷ rest) (sig ∷ []),
        rules.verify (str_eq hash (vm.sha256 preimage)) rest (sig ∷ []),
        last_checksig key sig,
      )

  pub execute-timeout_leaf :
      (key : c.PublicKey) (n : ℕ) (sig : Str)
      → vm.execute (timeout_leaf c tx n key) (sig ∷ [])
        ≡ (vm.sequence_reached n && vm.check_sig (c.serialize key) sig)
  execute-timeout_leaf key n sig =
      let rest = 0x20 ∷ (c.serialize key ++ 0xac ∷ []) in
      rw (
        rules.push_number n (0xb2 ∷ 0x75 ∷ rest) (sig ∷ []),
        rules.check_sequence n (0x75 ∷ rest) (sig ∷ []),
        rules.drop (vm.number n) rest (sig ∷ []),
        last_checksig key sig,
      )

  pub execute-pair_leaf :
      (first second : c.PublicKey) (first_sig second_sig : Str)
      → vm.execute (pair_leaf c first second) (first_sig ∷ second_sig ∷ []) ≡ (
          vm.check_sig (c.serialize first) first_sig
          && vm.check_sig (c.serialize second) second_sig)
  execute-pair_leaf first second first_sig second_sig =
      let rest = 0x20 ∷ (c.serialize second ++ 0xac ∷ []) in
      rw (
        rules.push_32 (c.serialize first) (0xad ∷ rest) (first_sig ∷ second_sig ∷ [])
            (curve.length-serialize first),
        rules.checksig_verify (c.serialize first) first_sig rest (second_sig ∷ [])
            (curve.length-serialize first),
        last_checksig second second_sig,
      )
