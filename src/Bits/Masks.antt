-- ===== src/Bits/Masks.antt =====
-- `x & (1<<k - 1)` is a remainder, and `q<<k | r` of disjoint fields is a sum, at every width.
use native.Mathlib.Nat.{pow-suc, one-le-pow, div-add-mod, mod-lt, mul-le-mul_right, mod-eq_of_lt}
use native.Mathlib.Nat.{add-mul-mod_self_left}
use ark_escrow.Base.{ℕ, zero, suc, ◌+◌, ◌-◌, ◌*◌, ◌/◌, ◌%◌, ◌^◌, ◌≤◌, ◌<◌, bit_and, bit_or, ◌≡◌}
use ark_escrow.Base.{refl, arith, ap, sym, ◌∙◌}
use ark_escrow.Bits.Digits.{bit_and_lem, bit_or_lem}
use ark_escrow.Bits.Xor.{shl_suc, shr_suc, mask_suc, pow_add}

or_zero_below : (n a : ℕ) → a ≤ n → bit_or a 0 ≡ a
or_zero_below zero zero h = refl
or_zero_below zero (suc a) h = absurd (omega arith)
or_zero_below (suc n) a h = omega (arith, bit_or_lem a 0, or_zero_below n (a / 2) (omega arith))

and_zero_below : (n a : ℕ) → a ≤ n → bit_and a 0 ≡ 0
and_zero_below zero zero h = refl
and_zero_below zero (suc a) h = absurd (omega arith)
and_zero_below (suc n) a h = omega (arith, bit_and_lem a 0, and_zero_below n (a / 2) (omega arith))

pub or_fields : (k q r : ℕ) → r < 2 ^ k → bit_or (q * 2 ^ k) r ≡ q * 2 ^ k + r
or_fields zero q r h = ground (arith, or_zero_below q q)
or_fields (suc k) q r h = ground (
  arith,
  pow-suc 2 k,
  shl_suc k q,
  bit_or_lem (q * 2 ^ suc k) r,
  or_fields k q (r / 2) (omega (arith, pow-suc 2 k)),
)

pub and_mask : (k a : ℕ) → bit_and a (2 ^ k - 1) ≡ a % 2 ^ k
and_mask zero a = ground (arith, and_zero_below a a)
and_mask (suc k) a = ground (
  arith,
  pow-suc 2 k,
  one-le-pow k 2,
  mask_suc k a,
  bit_and_lem a (2 ^ suc k - 1),
  and_mask k (a / 2),
)

-- A shift to the left in a word of `m + n` bits keeps the lowest `m`.
pub shl-mod : (m n a : ℕ) → a * 2 ^ n % 2 ^ (m + n) ≡ a % 2 ^ m * 2 ^ n
shl-mod m n a =
    let low = a % 2 ^ m in
    let bound : low * 2 ^ n < 2 ^ (m + n) = omega (
      arith,
      pow_add m n,
      mul-le-mul_right (2 ^ n) (mod-lt a (one-le-pow m 2 (omega arith))),
      one-le-pow n 2,
    ) in
    let parts : a * 2 ^ n ≡ low * 2 ^ n + 2 ^ (m + n) * (a / 2 ^ m) = omega (
      arith,
      ap (λ (t : ℕ). t * 2 ^ n) (div-add-mod a (2 ^ m)),
      ap (λ (t : ℕ). t * (a / 2 ^ m)) (pow_add m n),
    ) in
    ap (λ (t : ℕ). t % 2 ^ (m + n)) parts
    ∙ add-mul-mod_self_left (low * 2 ^ n) (2 ^ (m + n)) (a / 2 ^ m)
    ∙ mod-eq_of_lt bound

-- The remainder of a remainder by a smaller power.
pub mod-mod_pow : (w n a : ℕ) → w ≤ n → a % 2 ^ n % 2 ^ w ≡ a % 2 ^ w
mod-mod_pow w n a h =
    let high : ℕ = 2 ^ (n - w) * (a / 2 ^ n) in
    let width : n - w + w ≡ n = omega arith in
    let power : 2 ^ n ≡ 2 ^ w * 2 ^ (n - w) =
      ap (λ (t : ℕ). 2 ^ t) (sym width) ∙ pow_add (n - w) w in
    let parts : a % 2 ^ n + 2 ^ w * high ≡ a =
      omega (arith, div-add-mod a (2 ^ n), ap (λ (t : ℕ). t * (a / 2 ^ n)) power) in
    sym (add-mul-mod_self_left (a % 2 ^ n) (2 ^ w) high) ∙ ap (λ (t : ℕ). t % 2 ^ w) parts

-- One digit alone.
pub and_bit : (k a : ℕ) → bit_and a (2 ^ k) ≡ a / 2 ^ k % 2 * 2 ^ k
and_bit zero a = ground (arith, bit_and_lem a 1, and_zero_below (a / 2) (a / 2))
and_bit (suc k) a = ground (
  arith,
  pow-suc 2 k,
  shr_suc k a,
  shl_suc k (a / 2 / 2 ^ k % 2),
  bit_and_lem a (2 ^ suc k),
  and_bit k (a / 2),
)
