-- ===== src/Bech32/Address/Checksum.antt =====
-- The six checksum values that `bech32mEncode` appends are the ones that `DecodeBech32` accepts.
use native.Mathlib.Nat.{div-div-eq-div-mul}
use ark_escrow.Base.{ℕ, zero, suc, ◌+◌, ◌*◌, ◌/◌, ◌%◌, ◌^◌, ◌≤◌, ◌<◌, bit_and, bit_xor}
use ark_escrow.Base.{List, [], ◌∷◌, ◌++◌, ◌≡◌, arith, ap, sym, ◌∙◌, All, All-append}
use ark_escrow.Bits.Masks.{and_mask}
use ark_escrow.Bits.Stream.{replicate}
use ark_escrow.Bits.Xor.{xor-zero, xor-lt, xor_cancel, pow_add}
use ark_escrow.Bech32.Convert.{u8}
use ark_escrow.Bech32.Polymod.{polymod_step, polymod_from, bech32m_polymod}
use ark_escrow.Bech32.Polymod.Linear.{polymod_step-xor, polymod_from-append, polymod_from-lt}
use ark_escrow.Bech32.Address.{checksum, bech32m_const}

checksum_value : (n p : ℕ) → u8 (bit_and (p / 2 ^ (5 * n)) 31) ≡ p / 2 ^ (5 * n) % 2 ^ 5
checksum_value n p = omega (arith, and_mask 5 (p / 2 ^ (5 * n)))

-- One group fewer is five bits more.
next_group : (n p : ℕ) → p / 2 ^ (5 * suc n) ≡ p / 2 ^ (5 * n) / 2 ^ 5
next_group n p =
    let five : 5 * suc n ≡ 5 + 5 * n = omega arith in
    ap (λ (t : ℕ). p / 2 ^ t) five
    ∙ ap (λ (t : ℕ). p / t) (pow_add 5 (5 * n))
    ∙ sym (div-div-eq-div-mul p (2 ^ (5 * n)) (2 ^ 5))

div-le : (a b : ℕ) → a / b ≤ a
div-le a b = omega arith

-- Feeding the last `n` groups of `p` to a state that differs by the groups above them is feeding
-- zeros, with the difference `p` at the end.
absorb :
    (n p chk : ℕ)
    → p < 2 ^ 30
    → polymod_from (bit_xor chk (p / 2 ^ (5 * n))) (checksum n p)
      ≡ bit_xor (polymod_from chk (replicate n 0)) p
unfolding polymod_from checksum
absorb zero p chk h = ground arith
absorb (suc n) p chk h =
    let q = p / 2 ^ (5 * n) in
    let above : p / 2 ^ (5 * suc n) < 2 ^ 25 =
      omega (arith, next_group n p, div-le p (2 ^ (5 * n))) in
    let joined : p / 2 ^ (5 * suc n) * 2 ^ 5 + q % 2 ^ 5 ≡ q = omega (arith, next_group n p) in
    rw
      (
        checksum_value n p,
        polymod_step-xor chk (p / 2 ^ (5 * suc n)) (q % 2 ^ 5) above (omega arith),
        joined,
      )
      (absorb n p (polymod_step chk 0) h)

-- Appending the checksum for a constant makes that constant the checksum of the whole.
pub polymod-checksum :
    (values : List ℕ)
    → All (λ v. v < 2 ^ 30) values
    → let p = bit_xor (bech32m_polymod (values ++ 0 ∷ 0 ∷ 0 ∷ 0 ∷ 0 ∷ 0 ∷ [])) bech32m_const in
      bech32m_polymod (values ++ checksum 6 p) ≡ bech32m_const
unfolding bech32m_polymod
polymod-checksum values small =
    let zeros = replicate 6 0 in
    let m = polymod_from 1 (values ++ zeros) in
    let p = bit_xor m bech32m_const in
    let chk = polymod_from 1 values in
    let m_lt : m < 2 ^ 30 =
      polymod_from-lt 1 (values ++ zeros) (omega arith)
        (All-append _ values zeros small (omega arith)) in
    let p_lt : p < 2 ^ 30 = xor-lt 30 m bech32m_const m_lt (omega arith) in
    let nothing : p / 2 ^ (5 * 6) ≡ 0 = omega arith in
    polymod_from-append 1 values (checksum 6 p)
    ∙ ap (λ (t : ℕ). polymod_from t (checksum 6 p)) (sym (ap (bit_xor chk) nothing ∙ xor-zero chk))
    ∙ absorb 6 p chk p_lt
    ∙ ap (λ (t : ℕ). bit_xor t p) (sym (polymod_from-append 1 values zeros))
    ∙ xor_cancel m bech32m_const
