-- ===== src/Bech32/Polymod/Linear.antt =====
-- The checksum is linear over exclusive or: what is added to the state below 25 bits passes through
-- a step as itself, moved up by five.
use ark_escrow.Base.{ℕ, ◌+◌, ◌*◌, ◌/◌, ◌%◌, ◌^◌, ◌<◌, bit_and, bit_xor}
use ark_escrow.Base.{List, [], ◌∷◌, ◌++◌, ◌==◌, ◌≡◌, refl, arith, ap, sym, ◌∙◌}
use ark_escrow.Base.{Bool-cases, inl, inr, All}
use ark_escrow.Bits.Masks.{and_mask}
use ark_escrow.Bits.Xor.{
  xor_assoc, xor_comm, xor-zero, xor_shr, xor_mask, xor_shl, xor-lt, xor_fields,
}
use ark_escrow.Bech32.Convert.{u32}
use ark_escrow.Bech32.Polymod.{gen, mix, polymod_step, polymod_from}

-- Mixing the generators in commutes with adding to the state.
mix-xor : (b i : ℕ) (gs : List ℕ) (x y : ℕ) → mix b i gs (bit_xor x y) ≡ bit_xor (mix b i gs x) y
unfolding mix
mix-xor b i [] x y = refl
mix-xor b i (g ∷ gs) x y = elim (Bool-cases (bit_and (b / 2 ^ i) 1 == 1)) [
  | inr off ↦ rw off (mix-xor b (i + 1) gs x y)
  | inl on ↦ rw on (ap (mix b (i + 1) gs) swap ∙ mix-xor b (i + 1) gs (bit_xor x g) y)
]
  where
    swap : bit_xor (bit_xor x y) g ≡ bit_xor (bit_xor x g) y
    swap = xor_assoc x y g ∙ ap (bit_xor x) (xor_comm y g) ∙ sym (xor_assoc x g y)

shifted : (chk : ℕ) → u32 (bit_and chk 0x1ffffff * 2 ^ 5) ≡ chk % 2 ^ 25 * 2 ^ 5
shifted chk = omega (arith, and_mask 25 chk)

-- A step as exclusive or of the old state's part, moved up, and the new value.
abbrev pub residue : ℕ → ℕ
residue b = mix b 0 gen 0

pub polymod_step_lem :
    (chk v : ℕ)
    → v < 2 ^ 32
    → polymod_step chk v ≡ bit_xor (residue (chk / 2 ^ 25)) (bit_xor (chk % 2 ^ 25 * 2 ^ 5) v)
unfolding polymod_step
polymod_step_lem chk v h =
    let new = bit_xor (chk % 2 ^ 25 * 2 ^ 5) v in
    let low : u32 v ≡ v = omega arith in
    let start : bit_xor (u32 (bit_and chk 0x1ffffff * 2 ^ 5)) (u32 v) ≡ bit_xor 0 new =
      rw (shifted chk, low) (sym (xor_comm 0 new ∙ xor-zero new)) in
    ap (mix (chk / 2 ^ 25) 0 gen) start ∙ mix-xor (chk / 2 ^ 25) 0 gen 0 new

-- A difference below 25 bits moves up by five and takes the new value in.
pub polymod_step-xor :
    (chk d v : ℕ)
    → d < 2 ^ 25
    → v < 2 ^ 5
    → polymod_step (bit_xor chk d) v ≡ bit_xor (polymod_step chk 0) (d * 2 ^ 5 + v)
polymod_step-xor chk d v hd hv =
    let r = residue (chk / 2 ^ 25) in
    let a : ℕ = chk % 2 ^ 25 * 2 ^ 5 in
    let no_high : d / 2 ^ 25 ≡ 0 = omega arith in
    let all_low : d % 2 ^ 25 ≡ d = omega arith in
    let same_high : bit_xor chk d / 2 ^ 25 ≡ chk / 2 ^ 25 =
      xor_shr 25 chk d ∙ ap (bit_xor (chk / 2 ^ 25)) no_high ∙ xor-zero (chk / 2 ^ 25) in
    let low : bit_xor chk d % 2 ^ 25 * 2 ^ 5 ≡ bit_xor a (d * 2 ^ 5) =
      ap (λ (t : ℕ). t * 2 ^ 5) (xor_mask 25 chk d ∙ ap (bit_xor (chk % 2 ^ 25)) all_low)
      ∙ sym (xor_shl 5 (chk % 2 ^ 25) d) in
    polymod_step_lem (bit_xor chk d) v (omega arith)
    ∙ rw (same_high, low)
        (ap (bit_xor r) (xor_assoc a (d * 2 ^ 5) v) ∙ sym (xor_assoc r a (bit_xor (d * 2 ^ 5) v)))
    ∙ ap (bit_xor (bit_xor r a)) (xor_fields 5 d v hv)
    ∙ sym (
        ap (λ (t : ℕ). bit_xor t (d * 2 ^ 5 + v))
          (polymod_step_lem chk 0 (omega arith) ∙ ap (bit_xor r) (xor-zero a)))

mix-lt :
    (b i : ℕ) (gs : List ℕ) (chk : ℕ)
    → All (λ g. g < 2 ^ 30) gs
    → chk < 2 ^ 30
    → mix b i gs chk < 2 ^ 30
unfolding mix
mix-lt b i [] chk hg h = h
mix-lt b i (g ∷ gs) chk hg h = elim (Bool-cases (bit_and (b / 2 ^ i) 1 == 1)) [
  | inr off ↦ rw off (mix-lt b (i + 1) gs chk hg.1 h)
  | inl on ↦ rw on (mix-lt b (i + 1) gs (bit_xor chk g) hg.1 (xor-lt 30 chk g h hg.0))
]

pub polymod_step-lt : (chk v : ℕ) → v < 2 ^ 30 → polymod_step chk v < 2 ^ 30
unfolding polymod_step
polymod_step-lt chk v h =
    mix-lt (chk / 2 ^ 25) 0 gen (bit_xor (u32 (bit_and chk 0x1ffffff * 2 ^ 5)) (u32 v))
      (omega arith)
      (xor-lt 30 (u32 (bit_and chk 0x1ffffff * 2 ^ 5)) (u32 v) (omega (arith, shifted chk))
        (omega arith))

pub polymod_from-lt :
    (chk : ℕ) (vs : List ℕ) → chk < 2 ^ 30 → All (λ v. v < 2 ^ 30) vs → polymod_from chk vs < 2 ^ 30
unfolding polymod_from
polymod_from-lt chk [] h hv = h
polymod_from-lt chk (v ∷ vs) h hv =
    polymod_from-lt (polymod_step chk v) vs (polymod_step-lt chk v hv.0) hv.1

pub polymod_from-append :
    (chk : ℕ) (xs ys : List ℕ) → polymod_from chk (xs ++ ys) ≡ polymod_from (polymod_from chk xs) ys
unfolding polymod_from
polymod_from-append chk [] ys = refl
polymod_from-append chk (x ∷ xs) ys = polymod_from-append (polymod_step chk x) xs ys
