-- ===== src/Bits/Stream.antt =====
-- A number as its binary digits, highest first, and a list of numbers of one width as one stream of
-- digits: the meaning by which a change of base is stated.
use native.Mathlib.Nat.{pow-suc, div-div-eq-div-mul, div-add-mod, add-mul-div_left, one-le-pow}
use native.Mathlib.Nat.{zero-add, suc-add, zero-div, mod-lt, le_refl, div-lt_iff_lt-mul}
use mathlib.Core.Path.{ap₂}
use ark_escrow.Bits.Xor.{pow_add}
use ark_escrow.Base.{
  ℕ, zero, suc, ◌+◌, ◌-◌, ◌*◌, ◌/◌, ◌%◌, ◌^◌, ◌≤◌, ◌<◌, ◌≡◌, refl, arith, ap, ◌∙◌,
}
use ark_escrow.Base.{List, [], ◌∷◌, ◌++◌, All, append_assoc, sym, length, length-append}

unfoldable pub digits_be : ℕ → ℕ → List ℕ
digits_be zero v = []
digits_be (suc w) v = v / 2 ^ w % 2 ∷ digits_be w v

unfoldable pub stream : ℕ → List ℕ → List ℕ
stream w [] = []
stream w (v ∷ vs) = digits_be w v ++ stream w vs

pub digits_be-add : (w u q : ℕ) → digits_be w (u + 2 ^ w * q) ≡ digits_be w u
unfolding digits_be
digits_be-add zero u q = refl
digits_be-add (suc w) u q =
    let wider : 2 ^ suc w * q ≡ 2 ^ w * (2 * q) =
      omega (arith, ap (λ (t : ℕ). t * q) (pow-suc 2 w)) in
    rw wider (
      ground (
        arith,
        add-mul-div_left u (2 * q) (one-le-pow w 2 (omega arith)),
        digits_be-add w u (2 * q),
      ))

pub digits_be-mod : (w n v : ℕ) → w ≤ n → digits_be w (v % 2 ^ n) ≡ digits_be w v
digits_be-mod w n v h =
    let high : ℕ = 2 ^ (n - w) * (v / 2 ^ n) in
    let width : n - w + w ≡ n = omega arith in
    let power : 2 ^ n ≡ 2 ^ w * 2 ^ (n - w) =
      ap (λ (t : ℕ). 2 ^ t) (sym width) ∙ pow_add (n - w) w in
    let parts : v % 2 ^ n + 2 ^ w * high ≡ v =
      omega (arith, div-add-mod v (2 ^ n), ap (λ (t : ℕ). t * (v / 2 ^ n)) power) in
    sym (digits_be-add w (v % 2 ^ n) high) ∙ ap (digits_be w) parts

pub digits_be-split : (m k v : ℕ) → digits_be (m + k) v ≡ digits_be m (v / 2 ^ k) ++ digits_be k v
unfolding digits_be
digits_be-split zero k v = rw zero-add
digits_be-split (suc m) k v =
    rw suc-add
      (ground (arith, digits_be-split m k v, pow_add m k, div-div-eq-div-mul v (2 ^ k) (2 ^ m)))

pub digits_be-injective :
    (w a b : ℕ) (s t : List ℕ)
    → a < 2 ^ w
    → b < 2 ^ w
    → digits_be w a ++ s ≡ digits_be w b ++ t
    → (a ≡ b) × (s ≡ t)
unfolding digits_be
digits_be-injective zero a b s t p q h = (omega arith, h)
digits_be-injective (suc w) a b s t p q h =
    let head : a / 2 ^ w % 2 ≡ b / 2 ^ w % 2 = cc in
    let tail : digits_be w a ++ s ≡ digits_be w b ++ t = cc in
    let low : 0 < 2 ^ w = one-le-pow w 2 (omega arith) in
    let rest =
      digits_be-injective w (a % 2 ^ w) (b % 2 ^ w) s t (mod-lt a low) (mod-lt b low)
        (rw (digits_be-mod w w a (le_refl w), digits_be-mod w w b (le_refl w)) tail) in
    let a_high =
      (div-lt_iff_lt-mul {k = 2 ^ w} {x = a} {y = 2} low).1 (omega (arith, pow-suc 2 w)) in
    let b_high =
      (div-lt_iff_lt-mul {k = 2 ^ w} {x = b} {y = 2} low).1 (omega (arith, pow-suc 2 w)) in
    let same : a / 2 ^ w ≡ b / 2 ^ w = omega arith in
    (
      omega (
        arith,
        rest.0,
        div-add-mod a (2 ^ w),
        div-add-mod b (2 ^ w),
        ap (λ (t : ℕ). 2 ^ w * t) same,
      ),
      rest.1,
    )

pub length-digits_be : (w v : ℕ) → length (digits_be w v) ≡ w
unfolding digits_be
length-digits_be zero v = refl
length-digits_be (suc w) v = omega (arith, length-digits_be w v)

pub stream-append : (w : ℕ) (xs ys : List ℕ) → stream w (xs ++ ys) ≡ stream w xs ++ stream w ys
unfolding stream
stream-append w [] ys = refl
stream-append w (x ∷ xs) ys = rw (stream-append w xs ys, append_assoc)

stream_grows : (w v : ℕ) (more rest : List ℕ) → w ≤ length ((digits_be w v ++ more) ++ rest)
stream_grows w v more rest = omega (
  arith,
  length-append (digits_be w v ++ more) rest,
  length-append (digits_be w v) more,
  length-digits_be w v,
)

-- Numbers of one width can be read back from their stream, up to a rest that is shorter than one.
pub stream-injective :
    (w : ℕ) (xs ys r s : List ℕ)
    → All (λ x. x < 2 ^ w) xs
    → All (λ y. y < 2 ^ w) ys
    → length r < w
    → length s < w
    → stream w xs ++ r ≡ stream w ys ++ s
    → (xs ≡ ys) × (r ≡ s)
unfolding stream
stream-injective w [] [] r s hx hy lr ls e = (refl, e)
stream-injective w [] (y ∷ ys) r s hx hy lr ls e =
    absurd (omega (arith, ap (length {0}) e, stream_grows w y (stream w ys) s))
stream-injective w (x ∷ xs) [] r s hx hy lr ls e =
    absurd (omega (arith, ap (length {0}) e, stream_grows w x (stream w xs) r))
stream-injective w (x ∷ xs) (y ∷ ys) r s hx hy lr ls e =
    let (same, rest) = digits_be-injective w x y (stream w xs ++ r) (stream w ys ++ s) hx.0 hy.0 (
      sym (append_assoc (digits_be w x) (stream w xs) r)
      ∙ e
      ∙ append_assoc (digits_be w y) (stream w ys) s) in
    let (sames, rests) = stream-injective w xs ys r s hx.1 hy.1 lr ls rest in
    (ap₂ ◌∷◌ same sames, rests)

-- Zeros, as padding.
abbrev pub replicate : ℕ → ℕ → List ℕ
replicate zero a = []
replicate (suc n) a = a ∷ replicate n a

pub length-replicate : (n a : ℕ) → length (replicate n a) ≡ n
length-replicate zero a = refl
length-replicate (suc n) a = omega (arith, length-replicate n a)

pub digits_be-zero : (w : ℕ) → digits_be w 0 ≡ replicate w 0
unfolding digits_be
digits_be-zero zero = refl
digits_be-zero (suc w) = ground (arith, digits_be-zero w, zero-div (2 ^ w))
