-- ===== src/Bech32/Polymod.antt =====
-- `bech32mPolymod` of pkg/escrow/bech32.go. Every value of `chk` is a uint32.
pub mod Linear
use ark_escrow.Base.{ℕ, zero, suc, ◌+◌, ◌*◌, ◌/◌, ◌%◌, ◌^◌, bit_and, bit_xor, Bool}
use ark_escrow.Base.{List, [], ◌∷◌, ◌==◌, ◌≡◌, refl, if◌then◌else◌}
use ark_escrow.Bech32.Convert.{u32}

abbrev pub gen : List ℕ
gen = 0x3b6a57b2 ∷ 0x26508e6d ∷ 0x1ea119fa ∷ 0x3d4233dd ∷ 0x2a1462b3 ∷ []

-- `for i := 0; i < 5; i++`: the generators from the `i`th on.
pub mix : ℕ → ℕ → List ℕ → ℕ → ℕ
mix b i [] chk = chk
mix b i (g ∷ gs) chk = mix b (i + 1) gs (if bit_and (b / 2 ^ i) 1 == 1 then bit_xor chk g else chk)

-- The body of `for _, v := range values`.
unfoldable pub polymod_step : ℕ → ℕ → ℕ
unfolding mix
polymod_step chk v =
    let b = chk / 2 ^ 25 in mix b 0 gen (bit_xor (u32 (bit_and chk 0x1ffffff * 2 ^ 5)) (u32 v))

unfoldable pub polymod_from : ℕ → List ℕ → ℕ
polymod_from chk [] = chk
polymod_from chk (v ∷ vs) = polymod_from (polymod_step chk v) vs

unfoldable pub bech32m_polymod : List ℕ → ℕ
unfolding polymod_from polymod_step
bech32m_polymod values = polymod_from 1 values
