-- ===== src/Bits/Digits.antt =====
-- The lowest digit of `bit_xor`, `bit_or` and `bit_and`, and the rest: one equation for each,
-- drawn from the recursion on binary digits that the native operations stand for.
use Prim.Native.Nat.{min, max, differ, digits, bit_and-bitwise, bit_or-bitwise, bit_xor-bitwise}
use ark_escrow.Base.{
  ℕ, zero, suc, ◌+◌, ◌*◌, ◌/◌, ◌%◌, ◌≤◌, ◌<◌, bit_and, bit_or, bit_xor, ◌≡◌, refl, arith,
}

-- Any count of rounds that is at least the first number gives the same digits.
rounds :
    (z : ℕ → ℕ) (f : ℕ → ℕ → ℕ) (n m a b : ℕ) → a ≤ n → a ≤ m → digits z f n a b ≡ digits z f m a b
rounds z f zero zero zero b p q = refl
rounds z f zero zero (suc a) b p q = absurd (omega arith)
rounds z f zero (suc m) zero b p q = refl
rounds z f zero (suc m) (suc a) b p q = absurd (omega arith)
rounds z f (suc n) zero zero b p q = refl
rounds z f (suc n) zero (suc a) b p q = absurd (omega arith)
rounds z f (suc n) (suc m) zero b p q = refl
rounds z f (suc n) (suc m) (suc a) b p q =
    omega (arith, rounds z f n m (suc a / 2) (b / 2) (omega arith) (omega arith))

-- Two digits differ if their sum is odd.
differ_digits : (x y : ℕ) → x < 2 → y < 2 → differ x y ≡ (x + y) % 2
differ_digits zero y p q = omega arith
differ_digits (suc zero) zero p q = refl
differ_digits (suc zero) (suc zero) p q = refl
differ_digits (suc zero) (suc (suc y)) p q = absurd (omega arith)
differ_digits (suc (suc x)) y p q = absurd (omega arith)

pub bit_xor_lem : (a b : ℕ) → bit_xor a b ≡ 2 * bit_xor (a / 2) (b / 2) + (a + b) % 2
bit_xor_lem zero b = omega (arith, bit_xor-bitwise 0 b, bit_xor-bitwise 0 (b / 2))
bit_xor_lem (suc a) b = omega (
  arith,
  bit_xor-bitwise (suc a) b,
  bit_xor-bitwise (suc a / 2) (b / 2),
  rounds (λ b. b) differ a (suc a / 2) (suc a / 2) (b / 2) (omega arith) (omega arith),
  differ_digits (suc a % 2) (b % 2) (omega arith) (omega arith),
)

pub bit_or_lem : (a b : ℕ) → bit_or a b ≡ 2 * bit_or (a / 2) (b / 2) + max (a % 2) (b % 2)
bit_or_lem zero b = omega (arith, bit_or-bitwise 0 b, bit_or-bitwise 0 (b / 2))
bit_or_lem (suc a) b = omega (
  arith,
  bit_or-bitwise (suc a) b,
  bit_or-bitwise (suc a / 2) (b / 2),
  rounds (λ b. b) max a (suc a / 2) (suc a / 2) (b / 2) (omega arith) (omega arith),
)

pub bit_and_lem : (a b : ℕ) → bit_and a b ≡ 2 * bit_and (a / 2) (b / 2) + min (a % 2) (b % 2)
bit_and_lem zero b = omega (arith, bit_and-bitwise 0 b, bit_and-bitwise 0 (b / 2))
bit_and_lem (suc a) b = omega (
  arith,
  bit_and-bitwise (suc a) b,
  bit_and-bitwise (suc a / 2) (b / 2),
  rounds (λ b. zero) min a (suc a / 2) (suc a / 2) (b / 2) (omega arith) (omega arith),
)
