-- ===== src/Escrow/Preimages.antt =====
-- The condition of the release leaf, which pkg/escrow/escrow.go builds, under `EvaluateScriptToBool` of
-- internal/script/script.go.
use ark_escrow.Base.{
  ℕ, suc, ◌⊎◌, ◌≤◌, ◌≡◌, refl, arith, Str, str_eq, length, length-append, none, some, List, [], ◌∷◌,
  ◌++◌, ok, err, if◌then◌else◌, true, false, ◌∙◌, Bool-cases, inl, inr,
}
use ark_escrow.Script.Txscript.{Txscript, IsTxscript, token}
use ark_escrow.Script.Condition.{
  Engine, IsEngine, Parses, ends, goes_on, stack_left, left, eval_false, find_forbidden, member_of,
  forbidden_opcodes, evaluate_script_to_bool,
}
use ark_escrow.Escrow.{hash_condition}
use ark_escrow.Escrow.Leaves.{condition_bytes, build-hash_condition}

module _ (tx : Txscript) (laws : IsTxscript tx) where
  sha_token :
      (hash : Str)
      → tx.next_token (condition_bytes hash) ≡ token 0xa8 [] (0x20 ∷ (hash ++ 0x87 ∷ []))
  sha_token hash = laws.next_token-op 0xa8 (0x20 ∷ (hash ++ 0x87 ∷ [])) (omega arith) (omega arith)

  push_token :
      (hash : Str)
      → length hash ≡ 32
      → tx.next_token (0x20 ∷ (hash ++ 0x87 ∷ [])) ≡ token 0x20 hash (0x87 ∷ [])
  push_token hash size =
      rw (← size)
        (laws.next_token-push hash (0x87 ∷ []) (omega (arith, size)) (omega (arith, size)))

  equal_token : tx.next_token (0x87 ∷ []) ≡ token 0x87 [] []
  equal_token = laws.next_token-op 0x87 [] (omega arith) (omega arith)

  condition-Parses : (hash : Str) → length hash ≡ 32 → Parses tx (condition_bytes hash)
  condition-Parses hash size = goes_on _ _ _ _ (sha_token hash) (
      goes_on _ _ _ _ (push_token hash size)
        (goes_on _ _ _ _ equal_token (ends _ laws.next_token-nil)))

  module _ (engine : Engine) (vm : IsEngine tx engine) where
    goes_on_allowed :
        (fuel o : ℕ) (s d rest : Str)
        → tx.next_token s ≡ token o d rest
        → member_of o (forbidden_opcodes tx engine) ≡ false
        → find_forbidden tx engine (suc fuel) s ≡ find_forbidden tx engine fuel rest
    unfolding find_forbidden
    goes_on_allowed fuel o s d rest next allowed = rw (next, allowed, find_forbidden) refl

    end_allowed : (fuel : ℕ) → find_forbidden tx engine (suc fuel) [] ≡ none
    unfolding find_forbidden
    end_allowed fuel = rw (laws.next_token-nil, find_forbidden) refl

    -- An opcode of the condition.
    is_allowed :
        (o : ℕ)
        → (o ≡ 0xa8) ⊎ ((o ≡ 0x20) ⊎ (o ≡ 0x87))
        → member_of o (forbidden_opcodes tx engine) ≡ false
    is_allowed o which =
        rw
          (
            vm.op_checkmultisig, laws.op_checksig, laws.op_checksigverify, laws.op_checksigadd,
            vm.op_checkmultisigverify, vm.op_checklocktimeverify, laws.op_checksequenceverify,
          )
          (ground arith)

    none_forbidden :
        (hash : Str)
        → length hash ≡ 32
        → find_forbidden tx engine (length (condition_bytes hash)) (condition_bytes hash) ≡ none
    none_forbidden hash size =
        let fuel : length (condition_bytes hash) ≡ 35 =
          omega (arith, size, length-append hash (0x87 ∷ [])) in
        rw fuel (
          goes_on_allowed 34 0xa8 _ _ _ (sha_token hash) (is_allowed 0xa8 (inl refl))
          ∙ goes_on_allowed 33 0x20 _ _ _ (push_token hash size) (is_allowed 0x20 (inr (inl refl)))
          ∙ goes_on_allowed 32 0x87 _ _ _ equal_token (is_allowed 0x87 (inr (inr refl)))
          ∙ end_allowed 31)

    hash_run :
        (hash x : Str) (stack : List Str)
        → length hash ≡ 32
        → length x ≤ 520
        → engine.execute (condition_bytes hash) (x ∷ stack)
          ≡ (if str_eq hash (engine.sha256 x) then left stack else eval_false)
    hash_run hash x stack size short =
        vm.sha x (0x20 ∷ (hash ++ 0x87 ∷ [])) stack short
        ∙ vm.push_32 hash (0x87 ∷ []) (engine.sha256 x ∷ stack) size
        ∙ vm.equal hash (engine.sha256 x) [] stack
        ∙ vm.finish (str_eq hash (engine.sha256 x)) stack

    taken : (hash : Str) → length hash ≡ 32 → engine.takes (condition_bytes hash) ≡ true
    taken hash size =
        vm.takes (condition_bytes hash) refl (omega (arith, size, length-append hash (0x87 ∷ [])))
          (condition-Parses hash size)

    -- The script that the program builds as the condition of a hash of 32 bytes evaluates, at a preimage of at most
    -- 520 bytes, to whether it hashes to that hash; with a further element below it on the stack it evaluates to false if
    -- it does not, and is refused for the element left on the stack if it does.
    pub evaluate_script_to_bool-hash_condition :
        (hash x y condition : Str)
        → length hash ≡ 32
        → length x ≤ 520
        → tx.build (hash_condition tx hash) ≡ some condition
        → (evaluate_script_to_bool tx engine condition (x ∷ [])
            ≡ ok (str_eq hash (engine.sha256 x)))
          × (evaluate_script_to_bool tx engine condition (y ∷ x ∷ [])
              ≡ (if str_eq hash (engine.sha256 x) then err (stack_left 1) else ok false))
    unfolding evaluate_script_to_bool
    evaluate_script_to_bool-hash_condition hash x y condition size short built =
        let same : condition_bytes hash ≡ condition =
          ground (arith, build-hash_condition tx laws hash size) in
        let quiet = none_forbidden hash size in
        let starts = taken hash size in
        let one = hash_run hash x [] size short in
        let two = hash_run hash x (y ∷ []) size short in
        rw (← same) (
          rw (quiet, starts)
            (elim (Bool-cases (str_eq hash (engine.sha256 x))) [
              | inl e ↦ rw (one, two, e) (refl, refl)
              | inr e ↦ rw (one, two, e) (refl, refl)
            ]))
