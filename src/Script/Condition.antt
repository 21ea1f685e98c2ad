-- ===== src/Script/Condition.antt =====
-- `EvaluateScriptToBool` of internal/script/script.go, over the script engine of btcd as a parameter.
use ark_escrow.Base.{
  ℕ, zero, suc, ◌≤◌, ◌==◌, ◌≡◌, Bool, true, false, if◌then◌else◌, Str, str_eq, length, Option, none,
  some, List, [], ◌∷◌, ◌++◌, Result, ok, err, ◌>>◌, require, reverse, is_empty,
}
use ark_escrow.Script.Txscript.{Txscript, at_end, token}
use ark_escrow.Script.Interpreter.{truth}

-- Execute, then GetStack: the error ErrEvalFalse, another error, or the stack that is left, its top first.
pub data Execution : Type 0 where
  eval_false failed : Execution
  left : List Str → Execution

-- The opcodes that only this function names, whether NewEngine takes a script for the transaction of
-- one input and one output, and Execute at a stack, its top first.
pub record Engine : Type 0 where
  pub op_checkmultisig : ℕ
  pub op_checkmultisigverify : ℕ
  pub op_checklocktimeverify : ℕ
  pub sha256 : Str → Str
  pub takes : Str → Bool
  pub execute : Str → List Str → Execution

pub data ConditionError : Type 0 where
  forbidden : ℕ → ConditionError
  engine_failed execution_failed : ConditionError
  stack_left : ℕ → ConditionError

abbrev pub member_of : ℕ → List ℕ → Bool
member_of o [] = false
member_of o (p ∷ ps) = if o == p then true else member_of o ps

module _ (tx : Txscript) (engine : Engine) where
  abbrev pub forbidden_opcodes : List ℕ
  forbidden_opcodes =
      engine.op_checkmultisig ∷ tx.op_checksig ∷ tx.op_checksigverify ∷ tx.op_checksigadd
      ∷ engine.op_checkmultisigverify ∷ engine.op_checklocktimeverify ∷ tx.op_checksequenceverify
      ∷ []

  -- The loop over the tokens, on as much fuel as the script has bytes: the first forbidden opcode.
  unfoldable pub find_forbidden : ℕ → Str → Option ℕ
  find_forbidden zero rest = none
  find_forbidden (suc fuel) rest = elim (tx.next_token rest) [
    | token opcode pushed after ↦
        let later = find_forbidden fuel after in
        if member_of opcode forbidden_opcodes then some opcode else later
    | _ ↦ none
  ]

  abbrev pub allowed : Option ℕ → Result ConditionError (Unit {0})
  allowed none = ok tt
  allowed (some opcode) = err (forbidden opcode)

  abbrev pub truth_of : Execution → Result ConditionError Bool
  truth_of eval_false = ok false
  truth_of failed = err execution_failed
  truth_of (left []) = ok true
  truth_of (left (x ∷ stack)) = err (stack_left (length (x ∷ stack)))

  -- The witness has its top last.
  unfoldable pub evaluate_script_to_bool : Str → List Str → Result ConditionError Bool
  unfolding find_forbidden
  evaluate_script_to_bool script witness = do
    allowed (find_forbidden (length script) script)
    require (engine.takes script) engine_failed
    truth_of (engine.execute script (reverse witness))

-- A script that the tokenizer reads to its end.
pub data Parses (tx : Txscript) : Str → Type 0 where
  ends : (s : Str) → tx.next_token s ≡ at_end → Parses tx s
  goes_on :
      (s rest d : Str) (o : ℕ) → tx.next_token s ≡ token o d rest → Parses tx rest → Parses tx s

-- The documented behaviour: the opcodes' values; a script that parses, of at most 10,000 bytes and
-- not empty, is taken; and the three opcodes of a hash condition, one step at a time.
pub record IsEngine (tx : Txscript) (engine : Engine) : Type 0 where
  pub op_checkmultisig : engine.op_checkmultisig ≡ 0xae
  pub op_checkmultisigverify : engine.op_checkmultisigverify ≡ 0xaf
  pub op_checklocktimeverify : engine.op_checklocktimeverify ≡ 0xb1
  pub takes :
      (s : Str) → is_empty s ≡ false → length s ≤ 10000 → Parses tx s → engine.takes s ≡ true
  pub finish :
      (b : Bool) (stack : List Str)
      → engine.execute [] (truth b ∷ stack) ≡ (if b then left stack else eval_false)
  pub push_32 :
      (d rest : Str) (stack : List Str)
      → length d ≡ 32
      → engine.execute (0x20 ∷ (d ++ rest)) stack ≡ engine.execute rest (d ∷ stack)
  pub sha :
      (x rest : Str) (stack : List Str)
      → length x ≤ 520
      → engine.execute (0xa8 ∷ rest) (x ∷ stack) ≡ engine.execute rest (engine.sha256 x ∷ stack)
  pub equal :
      (x y rest : Str) (stack : List Str)
      → engine.execute (0x87 ∷ rest) (x ∷ y ∷ stack)
        ≡ engine.execute rest (truth (str_eq x y) ∷ stack)
