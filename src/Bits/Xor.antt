-- ===== src/Bits/Xor.antt =====
-- The laws of exclusive or, and how it meets shifts, remainders and bounds.
use native.Mathlib.Nat.{pow-suc, pow-succ', div-div-eq-div-mul, div-add-mod, suc-add}
use ark_escrow.Base.{ℕ, zero, suc, ◌+◌, ◌*◌, ◌/◌, ◌%◌, ◌^◌, ◌≤◌, ◌<◌, bit_xor, ◌≡◌, refl, arith}
use ark_escrow.Base.{ap, sym, ◌∙◌}
use ark_escrow.Bits.Digits.{bit_xor_lem}

pub xor_half : (a b : ℕ) → bit_xor a b / 2 ≡ bit_xor (a / 2) (b / 2)
xor_half a b = omega (arith, bit_xor_lem a b)

pub xor_low : (a b : ℕ) → bit_xor a b % 2 ≡ (a + b) % 2
xor_low a b = omega (arith, bit_xor_lem a b)

-- Each law by halving; `n` bounds the numbers.
self_below : (n a : ℕ) → a ≤ n → bit_xor a a ≡ 0
self_below zero zero h = refl
self_below zero (suc a) h = absurd (omega arith)
self_below (suc n) a h = omega (arith, bit_xor_lem a a, self_below n (a / 2) (omega arith))

pub xor_self : (a : ℕ) → bit_xor a a ≡ 0
xor_self a = self_below a a (omega arith)

zero_below : (n a : ℕ) → a ≤ n → bit_xor a 0 ≡ a
zero_below zero zero h = refl
zero_below zero (suc a) h = absurd (omega arith)
zero_below (suc n) a h = omega (arith, bit_xor_lem a 0, zero_below n (a / 2) (omega arith))

pub xor-zero : (a : ℕ) → bit_xor a 0 ≡ a
xor-zero a = zero_below a a (omega arith)

comm_below : (n a b : ℕ) → a ≤ n → b ≤ n → bit_xor a b ≡ bit_xor b a
comm_below zero zero zero h k = refl
comm_below zero zero (suc b) h k = absurd (omega arith)
comm_below zero (suc a) b h k = absurd (omega arith)
comm_below (suc n) a b h k = omega (
  arith,
  bit_xor_lem a b,
  bit_xor_lem b a,
  comm_below n (a / 2) (b / 2) (omega arith) (omega arith),
)

pub xor_comm : (a b : ℕ) → bit_xor a b ≡ bit_xor b a
xor_comm a b = comm_below (a + b) a b (omega arith) (omega arith)

assoc_below :
    (n a b c : ℕ) → a ≤ n → b ≤ n → c ≤ n → bit_xor (bit_xor a b) c ≡ bit_xor a (bit_xor b c)
assoc_below zero zero zero zero h k l = refl
assoc_below zero zero zero (suc c) h k l = absurd (omega arith)
assoc_below zero zero (suc b) c h k l = absurd (omega arith)
assoc_below zero (suc a) b c h k l = absurd (omega arith)
assoc_below (suc n) a b c h k l =
    bit_xor_lem (bit_xor a b) c
    ∙ rw
        (
          xor_half a b,
          assoc_below n (a / 2) (b / 2) (c / 2) (omega arith) (omega arith) (omega arith),
        )
        (omega (
          arith,
          bit_xor_lem a (bit_xor b c),
          ap (bit_xor (a / 2)) (xor_half b c),
          xor_low a b,
          xor_low b c,
        ))

pub xor_assoc : (a b c : ℕ) → bit_xor (bit_xor a b) c ≡ bit_xor a (bit_xor b c)
xor_assoc a b c = assoc_below (a + b + c) a b c (omega arith) (omega arith) (omega arith)

pub xor_cancel : (a b : ℕ) → bit_xor a (bit_xor a b) ≡ b
xor_cancel a b = sym (xor_assoc a a b) ∙ rw (xor_self a, xor_comm 0 b) (xor-zero b)

pub xor-lt : (k a b : ℕ) → a < 2 ^ k → b < 2 ^ k → bit_xor a b < 2 ^ k
xor-lt zero zero zero h l = omega arith
xor-lt zero zero (suc b) h l = absurd (omega arith)
xor-lt zero (suc a) b h l = absurd (omega arith)
xor-lt (suc k) a b h l = omega (
  arith,
  pow-suc 2 k,
  bit_xor_lem a b,
  xor-lt k (a / 2) (b / 2) (omega (arith, pow-suc 2 k)) (omega (arith, pow-suc 2 k)),
)

pub pow_add : (m k : ℕ) → 2 ^ (m + k) ≡ 2 ^ k * 2 ^ m
pow_add zero k = ground arith
pow_add (suc m) k =
    rw suc-add
      (omega (arith, pow-suc 2 (m + k), pow_add m k, ap (λ (t : ℕ). 2 ^ k * t) (pow-suc 2 m)))

pub shr_suc : (k a : ℕ) → a / 2 ^ suc k ≡ a / 2 / 2 ^ k
shr_suc k a = rw (pow-succ' 2 k, div-div-eq-div-mul)

pub shl_suc : (k a : ℕ) → a * 2 ^ suc k ≡ 2 * (a * 2 ^ k)
shl_suc k a = omega (arith, ap (λ (t : ℕ). a * t) (pow-suc 2 k))

pub mask_suc : (k a : ℕ) → a % 2 ^ suc k ≡ 2 * (a / 2 % 2 ^ k) + a % 2
mask_suc k a = omega (
  arith,
  pow-suc 2 k,
  div-add-mod a (2 ^ suc k),
  div-add-mod (a / 2) (2 ^ k),
  shr_suc k a,
  ap (λ (t : ℕ). t * 2 ^ suc k) (shr_suc k a),
  shl_suc k (a / 2 / 2 ^ k),
)

-- Shifts go through exclusive or.
pub xor_shr : (k a b : ℕ) → bit_xor a b / 2 ^ k ≡ bit_xor (a / 2 ^ k) (b / 2 ^ k)
xor_shr zero a b = ground arith
xor_shr (suc k) a b =
    rw (shr_suc k (bit_xor a b), shr_suc k a, shr_suc k b, xor_half) (xor_shr k (a / 2) (b / 2))

pub xor_shl : (k a b : ℕ) → bit_xor (a * 2 ^ k) (b * 2 ^ k) ≡ bit_xor a b * 2 ^ k
xor_shl zero a b = ground arith
xor_shl (suc k) a b = ground (
  arith,
  shl_suc k a,
  shl_suc k b,
  shl_suc k (bit_xor a b),
  bit_xor_lem (a * 2 ^ suc k) (b * 2 ^ suc k),
  xor_shl k a b,
)

pub xor_mask : (k a b : ℕ) → bit_xor a b % 2 ^ k ≡ bit_xor (a % 2 ^ k) (b % 2 ^ k)
xor_mask zero a b = ground arith
xor_mask (suc k) a b = ground (
  arith,
  mask_suc k a,
  mask_suc k b,
  mask_suc k (bit_xor a b),
  xor_half a b,
  xor_low a b,
  bit_xor_lem (a % 2 ^ suc k) (b % 2 ^ suc k),
  xor_mask k (a / 2) (b / 2),
)

-- Without a common digit it is the sum.
pub xor_fields : (k q r : ℕ) → r < 2 ^ k → bit_xor (q * 2 ^ k) r ≡ q * 2 ^ k + r
xor_fields zero q r h = ground (arith, xor-zero q)
xor_fields (suc k) q r h = ground (
  arith,
  pow-suc 2 k,
  shl_suc k q,
  bit_xor_lem (q * 2 ^ suc k) r,
  xor_fields k q (r / 2) (omega (arith, pow-suc 2 k)),
)
