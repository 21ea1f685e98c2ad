-- ===== src/Script/Interpreter.antt =====
-- The script interpreter of the network (BIP 341, 342, 112), which is not part of the repository:
-- what it makes of the opcodes in the leaves that the program builds, at elements of at most 520
-- bytes where it reads one from the witness. The transaction that spends
-- is fixed: `check_sig` is a valid signature of it, `sequence_reached` the comparison of
-- OP_CHECKSEQUENCEVERIFY with its input.
use ark_escrow.Base.{
  ℕ, Str, ◌≡◌, ◌≤◌, Bool, true, false, ◌&&◌, List, [], ◌∷◌, ◌++◌, length, str_eq, is_empty, reverse,
}
use ark_escrow.Base.{if◌then◌else◌}
use ark_escrow.Script.Txscript.{Txscript}

pub record Interpreter : Type 0 where
  pub sha256 : Str → Str
  pub check_sig : Str → Str → Bool
  pub sequence_reached : ℕ → Bool
  -- a script at a stack, whose top is the head, runs to its end and leaves one true value
  pub execute : Str → List Str → Bool
  -- the bytes of a number on the stack
  pub number : ℕ → Str

abbrev pub truth : Bool → Str
truth b = if b then 1 ∷ [] else []

pub record IsInterpreter (tx : Txscript) (vm : Interpreter) : Type 0 where
  pub finish : (b : Bool) → vm.execute [] (truth b ∷ []) ≡ b
  pub leftover : (x y : Str) (stack : List Str) → vm.execute [] (x ∷ y ∷ stack) ≡ false
  pub push_32 :
      (d rest : Str) (stack : List Str)
      → length d ≡ 32
      → vm.execute (0x20 ∷ (d ++ rest)) stack ≡ vm.execute rest (d ∷ stack)
  pub push_number :
      (n : ℕ) (rest : Str) (stack : List Str)
      → vm.execute (tx.int_push n ++ rest) stack ≡ vm.execute rest (vm.number n ∷ stack)
  pub sha :
      (x rest : Str) (stack : List Str)
      → length x ≤ 520
      → vm.execute (0xa8 ∷ rest) (x ∷ stack) ≡ vm.execute rest (vm.sha256 x ∷ stack)
  pub equal :
      (x y rest : Str) (stack : List Str)
      → vm.execute (0x87 ∷ rest) (x ∷ y ∷ stack) ≡ vm.execute rest (truth (str_eq x y) ∷ stack)
  pub verify :
      (b : Bool) (rest : Str) (stack : List Str)
      → vm.execute (0x69 ∷ rest) (truth b ∷ stack) ≡ (b && vm.execute rest stack)
  pub drop :
      (x rest : Str) (stack : List Str)
      → vm.execute (0x75 ∷ rest) (x ∷ stack) ≡ vm.execute rest stack
  pub check_sequence :
      (n : ℕ) (rest : Str) (stack : List Str)
      → vm.execute (0xb2 ∷ rest) (vm.number n ∷ stack)
        ≡ (vm.sequence_reached n && vm.execute rest (vm.number n ∷ stack))
  -- An empty signature is false; any other that is not valid fails the script.
  pub empty_sig :
      (key rest : Str) (stack : List Str)
      → length key ≡ 32
      → vm.execute (0xac ∷ rest) (key ∷ [] ∷ stack) ≡ vm.execute rest (truth false ∷ stack)
  pub checksig :
      (key sig rest : Str) (stack : List Str)
      → length key ≡ 32
      → is_empty sig ≡ false
      → vm.execute (0xac ∷ rest) (key ∷ sig ∷ stack)
        ≡ (vm.check_sig key sig && vm.execute rest (truth true ∷ stack))
  pub checksig_verify :
      (key sig rest : Str) (stack : List Str)
      → length key ≡ 32
      → vm.execute (0xad ∷ rest) (key ∷ sig ∷ stack)
        ≡ (vm.check_sig key sig && vm.execute rest stack)
  pub empty_invalid : (key : Str) → vm.check_sig key [] ≡ false

-- A witness ends with the script of the leaf and the control block; the stack of the script is what
-- comes before them, its top last.
abbrev pub run_reversed : Interpreter → List Str → Bool
run_reversed vm (control_block ∷ leaf ∷ stack) = vm.execute leaf stack
run_reversed vm _ = false

abbrev pub run_witness : Interpreter → List Str → Bool
run_witness vm items = run_reversed vm (reverse items)
