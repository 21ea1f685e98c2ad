-- ===== src/Tests/Engine.antt =====
-- A small concrete script engine, and the theorem on the condition of the release leaf at it.
use ark_escrow.Base.{
  ℕ, ◌<◌, ◌≡◌, refl, arith, ap, sym, ◌∙◌, Bool, true, false, ◌&&◌, not, leb, Str, List, [], ◌∷◌,
  ◌++◌, length, append_assoc, is_empty, ok, str_eq, if◌then◌else◌, err,
}
use ark_escrow.Script.Interpreter.{truth}
use ark_escrow.Script.Condition.{
  Execution, eval_false, failed, left, Engine, IsEngine, evaluate_script_to_bool, stack_left,
}
use ark_escrow.Escrow.Preimages.{evaluate_script_to_bool-hash_condition}
use ark_escrow.Tests.Library.{zeros}
use ark_escrow.Tests.Txscript.{txscript, txscript-IsTxscript}
use ark_escrow.Tests.Interpreter.{Mode, ready, pushing, State, halt, go, step, is_true, toy_hash}

abbrev result : Mode → List Str → Execution
result ready (x ∷ st) = if is_true x then left st else eval_false
result _ _ = failed

abbrev run : State → Str → Execution
run halt s = failed
run (go m st) [] = result m st
run (go m st) (o ∷ s) = run (step m o st) s

abbrev engine : Engine
engine = record {
  op_checkmultisig = 0xae;
  op_checkmultisigverify = 0xaf;
  op_checklocktimeverify = 0xb1;
  sha256 = toy_hash;
  takes = λ s. not (is_empty s) && leb (length s) 10000;
  execute = λ s st. run (go ready st) s;
}

run-pushing :
    (d acc rest : Str) (st : List Str)
    → 0 < length d
    → run (go (pushing (length d) acc) st) (d ++ rest) ≡ run (go ready ((acc ++ d) ∷ st)) rest
run-pushing [] acc rest st h = absurd (omega arith)
run-pushing (b ∷ []) acc rest st h = refl
run-pushing (b ∷ b' ∷ d) acc rest st h =
    run-pushing (b' ∷ d) (acc ++ b ∷ []) rest st (omega arith)
    ∙ ap (λ l. run (go ready (l ∷ st)) rest) (append_assoc acc (b ∷ []) (b' ∷ d))

push_32 :
    (d rest : Str) (st : List Str)
    → length d ≡ 32
    → run (go ready st) (0x20 ∷ (d ++ rest)) ≡ run (go ready (d ∷ st)) rest
push_32 d rest st size =
    ap (λ (n : ℕ). run (go (pushing n []) st) (d ++ rest)) (sym size)
    ∙ run-pushing d [] rest st (omega (arith, size))

sha :
    (x rest : Str) (st : List Str)
    → run (go ready (x ∷ st)) (0xa8 ∷ rest) ≡ run (go ready (toy_hash x ∷ st)) rest
sha x rest [] = refl
sha x rest (y ∷ st) = refl

finish :
    (b : Bool) (st : List Str)
    → run (go ready (truth b ∷ st)) [] ≡ (if b then left st else eval_false)
finish true st = refl
finish false st = refl

engine-IsEngine : IsEngine txscript engine
engine-IsEngine = record {
  op_checkmultisig = refl;
  op_checkmultisigverify = refl;
  op_checklocktimeverify = refl;
  takes = λ s full short parses. ground arith;
  finish = finish;
  push_32 = push_32;
  sha = λ x rest st short. sha x rest st;
  equal = λ x y rest st. refl;
}

condition_works :
    evaluate_script_to_bool txscript engine
      (0xa8 ∷ 0x20 ∷ ((3 ∷ zeros 31) ++ 0x87 ∷ []))
      ((3 ∷ 4 ∷ []) ∷ [])
    ≡ ok true
unfolding evaluate_script_to_bool str_eq
condition_works = refl

condition_example :
    (evaluate_script_to_bool txscript engine
        (0xa8 ∷ 0x20 ∷ ((3 ∷ zeros 31) ++ 0x87 ∷ []))
        ((3 ∷ 4 ∷ []) ∷ [])
      ≡ ok (str_eq (3 ∷ zeros 31) (toy_hash (3 ∷ 4 ∷ []))))
    × (evaluate_script_to_bool txscript engine
          (0xa8 ∷ 0x20 ∷ ((3 ∷ zeros 31) ++ 0x87 ∷ []))
          ((9 ∷ []) ∷ (3 ∷ 4 ∷ []) ∷ [])
        ≡ (if str_eq (3 ∷ zeros 31) (toy_hash (3 ∷ 4 ∷ [])) then err (stack_left 1) else ok false))
condition_example =
    evaluate_script_to_bool-hash_condition txscript txscript-IsTxscript engine engine-IsEngine
      (3 ∷ zeros 31) (3 ∷ 4 ∷ []) (9 ∷ []) (0xa8 ∷ 0x20 ∷ ((3 ∷ zeros 31) ++ 0x87 ∷ [])) refl
      (omega arith) refl
