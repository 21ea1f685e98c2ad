-- ===== src/Tests/Interpreter.antt =====
-- A small concrete interpreter: the opcodes of the leaves, byte by byte.
use ark_escrow.Base.{
  ℕ, zero, suc, ◌+◌, ◌-◌, ◌*◌, ◌<◌, ◌≤◌, ◌≡◌, refl, arith, ap, sym, ◌∙◌, Bool, true, false, Str,
}
use ark_escrow.Base.{
  List, [], ◌∷◌, ◌++◌, length, leb, ◌==◌, ◌&&◌, not, if◌then◌else◌, str_eq, is_empty,
}
use ark_escrow.Tests.Library.{zeros}
use ark_escrow.Base.{append_assoc, Bool-cases, inl, inr}
use ark_escrow.Script.Interpreter.{Interpreter, IsInterpreter, truth}
use ark_escrow.Tests.Txscript.{txscript, five_bytes, push_number}

-- Between opcodes, or in a push: the bytes still to come and those that came.
pub data Mode : Type 0 where
  ready : Mode
  pushing : ℕ → Str → Mode

pub data State : Type 0 where
  halt : State
  go : Mode → List Str → State

abbrev pub is_true : Str → Bool
is_true [] = false
is_true (b ∷ s) = not (b == 0)

-- A hash of 32 bytes that keeps the first.
abbrev pub toy_hash : Str → Str
toy_hash [] = 0 ∷ zeros 31
toy_hash (b ∷ s) = b ∷ zeros 31

abbrev pub toy_check : Str → Str → Bool
toy_check key sig = str_eq sig (1 ∷ [])

-- Up to 1000 of any unit.
abbrev pub toy_reached : Str → Bool
toy_reached [] = true
toy_reached (a ∷ []) = true
toy_reached (a ∷ b ∷ s) = leb (a + 256 * b) 1000

abbrev when : Bool → State → State
when true s = s
when false s = halt

abbrev checked : Str → Str → State → State → State
checked key sig empty valid = if is_empty sig then empty else when (toy_check key sig) valid

abbrev one : ℕ → List Str → State
one o [] = halt
one o (x ∷ st) =
    if o == 0xa8
    then go ready (toy_hash x ∷ st)
    else if o == 0x69
    then when (is_true x) (go ready st)
    else if o == 0x75
    then go ready st
    else if o == 0xb2
    then when (toy_reached x) (go ready (x ∷ st))
    else halt

abbrev two : ℕ → List Str → State
two o (x ∷ y ∷ st) =
    if o == 0x87
    then go ready (truth (str_eq x y) ∷ st)
    else if o == 0xac
    then checked x y (go ready ([] ∷ st)) (go ready (truth true ∷ st))
    else if o == 0xad
    then when (toy_check x y) (go ready st)
    else one o (x ∷ y ∷ st)
two o st = one o st

abbrev pub step : Mode → ℕ → List Str → State
step (pushing zero acc) o st = halt
step (pushing (suc zero) acc) o st = go ready ((acc ++ o ∷ []) ∷ st)
step (pushing (suc (suc n)) acc) o st = go (pushing (suc n) (acc ++ o ∷ [])) st
step ready o st =
    if o == 0
    then go ready ([] ∷ st)
    else if leb o 75
    then go (pushing o []) st
    else if leb 0x51 o && leb o 0x60
    then go ready (((o - 0x50) ∷ []) ∷ st)
    else two o st

abbrev result : Mode → List Str → Bool
result ready (x ∷ []) = is_true x
result _ _ = false

abbrev run : State → Str → Bool
run halt s = false
run (go m st) [] = result m st
run (go m st) (o ∷ s) = run (step m o st) s

abbrev number_of : ℕ → Str
number_of n = if n == 0 then [] else if leb n 16 then n ∷ [] else five_bytes n

abbrev pub vm : Interpreter
vm = record {
  sha256 = toy_hash;
  check_sig = toy_check;
  sequence_reached = λ n. toy_reached (number_of n);
  execute = λ s st. run (go ready st) s;
  number = number_of;
}

run-halt : (s : Str) → run halt s ≡ false
run-halt s = refl

run-when : (b : Bool) (x : State) (s : Str) → run (when b x) s ≡ (b && run x s)
run-when true x s = refl
run-when false x s = refl

run-pushing :
    (d acc rest : Str) (st : List Str)
    → 0 < length d
    → run (go (pushing (length d) acc) st) (d ++ rest) ≡ run (go ready ((acc ++ d) ∷ st)) rest
run-pushing [] acc rest st h = absurd (omega arith)
run-pushing (b ∷ []) acc rest st h = refl
run-pushing (b ∷ b' ∷ d) acc rest st h =
    run-pushing (b' ∷ d) (acc ++ b ∷ []) rest st (omega arith)
    ∙ ap (λ l. run (go ready (l ∷ st)) rest) (append_assoc acc (b ∷ []) (b' ∷ d))

push_32 :
    (d rest : Str) (st : List Str)
    → length d ≡ 32
    → run (go ready st) (0x20 ∷ (d ++ rest)) ≡ run (go ready (d ∷ st)) rest
push_32 d rest st size =
    ap (λ (n : ℕ). run (go (pushing n []) st) (d ++ rest)) (sym size)
    ∙ run-pushing d [] rest st (omega (arith, size))

small_step :
    (n : ℕ) (st : List Str) → 0 < n → n ≤ 16 → step ready (0x50 + n) st ≡ go ready ((n ∷ []) ∷ st)
small_step n st pos small = ground arith

push-number :
    (n : ℕ) (rest : Str) (st : List Str)
    → run (go ready st) (push_number n ++ rest) ≡ run (go ready (number_of n ∷ st)) rest
push-number n rest st = elim (Bool-cases (n == 0)) [
  | inl e ↦ rw e refl
  | inr e ↦ elim (Bool-cases (leb n 16)) [
    | inl small ↦
        rw (e, small) (ap (λ s. run s rest) (small_step n st (ground arith) (ground arith)))
    | inr large ↦ rw (e, large) refl
  ]
]

check_sequence :
    (n : ℕ) (rest : Str) (st : List Str)
    → run (go ready (number_of n ∷ st)) (0xb2 ∷ rest)
      ≡ (toy_reached (number_of n) && run (go ready (number_of n ∷ st)) rest)
check_sequence n rest [] = run-when (toy_reached (number_of n)) (go ready (number_of n ∷ [])) rest
check_sequence n rest (x ∷ st) =
    run-when (toy_reached (number_of n)) (go ready (number_of n ∷ x ∷ st)) rest

checksig :
    (key sig rest : Str) (st : List Str)
    → is_empty sig ≡ false
    → run (go ready (key ∷ sig ∷ st)) (0xac ∷ rest)
      ≡ (toy_check key sig && run (go ready (truth true ∷ st)) rest)
checksig key [] rest st h = ground arith
checksig key (b ∷ sig) rest st h =
    run-when (toy_check key (b ∷ sig)) (go ready (truth true ∷ st)) rest

finish : (b : Bool) → run (go ready (truth b ∷ [])) [] ≡ b
finish true = refl
finish false = refl

verify :
    (b : Bool) (rest : Str) (st : List Str)
    → run (go ready (truth b ∷ st)) (0x69 ∷ rest) ≡ (b && run (go ready st) rest)
verify true rest [] = refl
verify true rest (x ∷ st) = refl
verify false rest [] = refl
verify false rest (x ∷ st) = refl

sha :
    (x rest : Str) (st : List Str)
    → run (go ready (x ∷ st)) (0xa8 ∷ rest) ≡ run (go ready (toy_hash x ∷ st)) rest
sha x rest [] = refl
sha x rest (y ∷ st) = refl

drop_top :
    (x rest : Str) (st : List Str) → run (go ready (x ∷ st)) (0x75 ∷ rest) ≡ run (go ready st) rest
drop_top x rest [] = refl
drop_top x rest (y ∷ st) = refl

pub vm-IsInterpreter : IsInterpreter txscript vm
unfolding str_eq
vm-IsInterpreter = record {
  finish = finish;
  leftover = λ x y st. refl;
  push_32 = push_32;
  push_number = push-number;
  sha = λ x rest st short. sha x rest st;
  equal = λ x y rest st. refl;
  verify = verify;
  drop = drop_top;
  check_sequence = check_sequence;
  empty_sig = λ key rest st size. refl;
  checksig = λ key sig rest st size h. checksig key sig rest st h;
  checksig_verify = λ key sig rest st size. run-when (toy_check key sig) (go ready st) rest;
  empty_invalid = λ key. refl;
}
