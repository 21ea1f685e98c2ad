-- ===== src/Bech32/Convert.antt =====
-- `ConvertBits` of pkg/escrow/bech32.go. `acc` is a uint32, so the shift to the left drops the
-- digits above 32; `bits` stays below `from_bits + to_bits`.
pub mod Streams
pub mod RoundTrip
use ark_escrow.Base.{ℕ, zero, suc, ◌+◌, ◌-◌, ◌*◌, ◌/◌, ◌%◌, ◌^◌, bit_and, bit_or, Bool, true, false}
use ark_escrow.Base.{
  List, [], ◌∷◌, ◌++◌, Result, ok, err, leb, ltb, ◌==◌, ◌≡◌, refl, if◌then◌else◌, ◌||◌, not,
}

abbrev pub u32 : ℕ → ℕ
u32 n = n % 2 ^ 32

abbrev pub u8 : ℕ → ℕ
u8 n = n % 2 ^ 8

-- `uint32((1 << toBits) - 1)`
abbrev pub max_value : ℕ → ℕ
max_value to_bits = u32 (u32 (2 ^ to_bits) + 2 ^ 32 - 1)

-- `byte((acc>>bits)&maxv)`
pub group : ℕ → ℕ → ℕ → ℕ
group to_bits acc bits = u8 (bit_and (acc / 2 ^ bits) (max_value to_bits))

-- `for bits >= toBits`: the groups appended to `ret`, and the bits left. Each round takes `to_bits`
-- of the bits, so `bits` rounds of fuel are enough where `to_bits` is not 0.
pub drain : ℕ → ℕ → ℕ → ℕ → List ℕ × ℕ
drain zero to_bits acc bits = ([], bits)
drain (suc fuel) to_bits acc bits = elim (leb to_bits bits) [
  | true ↦
      let (ret, left) = drain fuel to_bits acc (bits - to_bits) in
      (group to_bits acc (bits - to_bits) ∷ ret, left)
  | false ↦ ([], bits)
]

pub record Converted : Type 0 where
  pub ret : List ℕ
  pub acc : ℕ
  pub bits : ℕ

-- `acc = (acc << fromBits) | uint32(val)`
pub push : ℕ → ℕ → ℕ → ℕ
push from_bits acc val = bit_or (u32 (acc * 2 ^ from_bits)) (u32 val)

-- `for _, val := range data`
pub convert_loop : ℕ → ℕ → List ℕ → ℕ → ℕ → Converted
convert_loop from_bits to_bits [] acc bits = record { ret = []; acc = acc; bits = bits }
convert_loop from_bits to_bits (val ∷ data_left) acc bits =
    let acc' = push from_bits acc val in
    let (ret, bits') = drain (bits + from_bits) to_bits acc' (bits + from_bits) in
    let rest = convert_loop from_bits to_bits data_left acc' bits' in
    record rest { ret = ret ++ rest.ret }

pub data ConvertError : Type 0 where
  invalid_padding : ConvertError

-- `(acc << (toBits - bits)) & maxv`
pub padding : ℕ → ℕ → ℕ → ℕ
padding to_bits acc bits = bit_and (u32 (acc * 2 ^ (to_bits - bits))) (max_value to_bits)

pub finish : ℕ → ℕ → Bool → Converted → Result ConvertError (List ℕ)
finish from_bits to_bits true c =
    ok (if ltb 0 c.bits then c.ret ++ u8 (padding to_bits c.acc c.bits) ∷ [] else c.ret)
finish from_bits to_bits false c =
    if leb from_bits c.bits || not (padding to_bits c.acc c.bits == 0)
    then err invalid_padding
    else ok c.ret

unfoldable pub convert_bits : List ℕ → ℕ → ℕ → Bool → Result ConvertError (List ℕ)
unfolding finish convert_loop drain push group padding
convert_bits values from_bits to_bits pad =
    finish from_bits to_bits pad (convert_loop from_bits to_bits values 0 0)
