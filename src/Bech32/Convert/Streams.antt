-- ===== src/Bech32/Convert/Streams.antt =====
-- What `ConvertBits` means: the stream of binary digits is kept.
use native.Mathlib.Nat.{pow-le-pow_right, one-le-pow, mod-lt, le_refl, div-eq_of_lt, add-zero}
use native.Mathlib.Nat.{mul-add-div_right}
use mathlib.Core.Path.{subst}
use ark_escrow.Base.{
  ℕ, zero, suc, ◌+◌, ◌-◌, ◌*◌, ◌/◌, ◌%◌, ◌^◌, ◌≤◌, ◌<◌, ◌≡◌, refl, arith, ap, sym,
}
use ark_escrow.Base.{
  ◌∙◌, List, [], ◌∷◌, ◌++◌, All, All-append, append_assoc, append-nil, leb, true, false,
}
use ark_escrow.Base.{Bool-cases, inl, inr, leb→le}
use ark_escrow.Bits.Masks.{or_fields, and_mask, shl-mod, mod-mod_pow}
use ark_escrow.Bits.Stream.{digits_be, digits_be-mod, digits_be-split, digits_be-add, stream}
use ark_escrow.Bits.Stream.{stream-append}
use ark_escrow.Bech32.Convert.{u32, max_value, group, drain, push, Converted, convert_loop, padding}

pub two_pow_le : (w : ℕ) → w ≤ 8 → 2 ^ w ≤ 256
two_pow_le w h = pow-le-pow_right {n = 2} (omega arith) h

max_value_lem : (w : ℕ) → w ≤ 8 → max_value w ≡ 2 ^ w - 1
max_value_lem w h = omega (arith, two_pow_le w h, one-le-pow w 2)

-- A group is the digits of the accumulator above the lowest `bits`.
group_lem : (w acc bits : ℕ) → w ≤ 8 → group w acc bits ≡ acc / 2 ^ bits % 2 ^ w
unfolding group
group_lem w acc bits h =
    rw (max_value_lem w h, and_mask w (acc / 2 ^ bits))
      (omega (arith, two_pow_le w h, mod-lt (acc / 2 ^ bits) (one-le-pow w 2 (omega arith))))

group-lt : (w acc bits : ℕ) → w ≤ 8 → group w acc bits < 2 ^ w
group-lt w acc bits h =
    rw (group_lem w acc bits h) (mod-lt (acc / 2 ^ bits) (one-le-pow w 2 (omega arith)))

module _ (fuel w acc bits : ℕ) where
  drain_more :
      leb w bits ≡ true
      → drain (suc fuel) w acc bits ≡ (
        group w acc (bits - w) ∷ (drain fuel w acc (bits - w)).0,
        (drain fuel w acc (bits - w)).1,
      )
  unfolding drain
  drain_more more = rw (more, drain)

  drain_done : leb w bits ≡ false → drain (suc fuel) w acc bits ≡ ([], bits)
  unfolding drain
  drain_done no_more = rw (no_more, drain)

-- The groups taken and the bits left are the bits that were there.
pub drain-stream :
    (fuel w acc bits : ℕ)
    → w ≤ 8
    → stream w (drain fuel w acc bits).0 ++ digits_be (drain fuel w acc bits).1 acc
      ≡ digits_be bits acc
unfolding stream
drain-stream zero w acc bits h = unfold drain in refl
drain-stream (suc fuel) w acc bits h = elim (Bool-cases (leb w bits)) [
  | inr no_more ↦ rw (drain_done fuel w acc bits no_more)
  | inl more ↦
      let width : w + (bits - w) ≡ bits = omega (arith, leb→le w bits more) in
      rw
        (
          drain_more fuel w acc bits more,
          append_assoc,
          drain-stream fuel w acc (bits - w) h,
          group_lem w acc (bits - w) h,
          digits_be-mod w w (acc / 2 ^ (bits - w)) (le_refl w),
        )
        (sym (digits_be-split w (bits - w) acc) ∙ ap (λ (n : ℕ). digits_be n acc) width)
]

-- With as much fuel as there are bits, and groups of one bit at least, the loop ends with fewer bits
-- than a group.
pub drain-lt : (fuel w acc bits : ℕ) → 0 < w → bits ≤ fuel → (drain fuel w acc bits).1 < w
unfolding drain
drain-lt zero w acc bits pos h = omega arith
drain-lt (suc fuel) w acc bits pos h = ground (arith, drain-lt fuel w acc (bits - w))

pub drain-All : (fuel w acc bits : ℕ) → w ≤ 8 → All (λ x. x < 2 ^ w) (drain fuel w acc bits).0
drain-All zero w acc bits h = unfold drain in tt
drain-All (suc fuel) w acc bits h = elim (Bool-cases (leb w bits)) [
  | inr no_more ↦
      subst (λ (d : List ℕ × ℕ). All (λ x. x < 2 ^ w) d.0)
        (sym (drain_done fuel w acc bits no_more)) tt
  | inl more ↦
      subst (λ (d : List ℕ × ℕ). All (λ x. x < 2 ^ w) d.0) (sym (drain_more fuel w acc bits more))
        (group-lt w acc (bits - w) h, drain-All fuel w acc (bits - w) h)
]

push_lem : (n acc val : ℕ) → n ≤ 8 → val < 2 ^ n → push n acc val ≡ acc % 2 ^ (32 - n) * 2 ^ n + val
unfolding push
push_lem n acc val h fits =
    let width : 32 - n + n ≡ 32 = omega arith in
    let shifted : u32 (acc * 2 ^ n) ≡ acc % 2 ^ (32 - n) * 2 ^ n =
      ap (λ (t : ℕ). acc * 2 ^ n % 2 ^ t) (sym width) ∙ shl-mod (32 - n) n acc in
    let small : u32 val ≡ val = omega (arith, two_pow_le n h) in
    rw (shifted, small) (or_fields n (acc % 2 ^ (32 - n)) val fits)

push-digits :
    (n acc val bits : ℕ)
    → n ≤ 8
    → bits + n ≤ 32
    → val < 2 ^ n
    → digits_be (bits + n) (push n acc val) ≡ digits_be bits acc ++ digits_be n val
push-digits n acc val bits h room fits =
    let low = acc % 2 ^ (32 - n) in
    let swapped : low * 2 ^ n + val ≡ val + 2 ^ n * low = omega arith in
    rw
      (
        push_lem n acc val h fits,
        digits_be-split bits n (low * 2 ^ n + val),
        mul-add-div_right {m = 2 ^ n} (one-le-pow n 2 (omega arith)) low val,
        div-eq_of_lt fits,
        add-zero,
        digits_be-mod bits (32 - n) acc (omega arith),
      )
      (ap (λ (l : List ℕ). digits_be bits acc ++ l)
        (ap (digits_be n) swapped ∙ digits_be-add n val low))

-- Over the whole input: the bits that were waiting and those of the input are the groups of the
-- output and the bits left, of which there are fewer than a group.
pub record Keeps (n w : ℕ) (before values : List ℕ) (c : Converted) : Type 0 where
  pub same : stream w c.ret ++ digits_be c.bits c.acc ≡ before ++ stream n values
  pub left : c.bits < w
  pub range : All (λ x. x < 2 ^ w) c.ret

pub convert_loop-Keeps :
    (n w : ℕ) (values : List ℕ) (acc bits : ℕ)
    → n ≤ 8
    → 0 < w
    → w ≤ 8
    → bits < w
    → All (λ x. x < 2 ^ n) values
    → Keeps n w (digits_be bits acc) values (convert_loop n w values acc bits)
unfolding convert_loop stream
convert_loop-Keeps n w [] acc bits hn pos hw h fits = record {
  same = sym (append-nil (digits_be bits acc));
  left = h;
  range = tt;
}
convert_loop-Keeps n w (val ∷ values) acc bits hn pos hw h fits =
    let acc' = push n acc val in
    let (ret, left) = drain (bits + n) w acc' (bits + n) in
    let left_lt : left < w = drain-lt (bits + n) w acc' (bits + n) pos (omega arith) in
    let rest = convert_loop-Keeps n w values acc' left hn pos hw left_lt fits.1 in
    record {
      same =
          rw
            (
              stream-append w ret (convert_loop n w values acc' left).ret,
              append_assoc (stream w ret),
              rest.same,
              ← append_assoc (stream w ret) (digits_be left acc') (stream n values),
              drain-stream (bits + n) w acc' (bits + n) hw,
              push-digits n acc val bits hn (omega arith) fits.0,
            )
            (append_assoc (digits_be bits acc) (digits_be n val) (stream n values));
      left = rest.left;
      range = All-append _ ret _ (drain-All (bits + n) w acc' (bits + n) hw) rest.range;
    }

-- The padded last group: the bits left, moved up.
pub padding_lem :
    (w acc bits : ℕ) → w ≤ 8 → bits ≤ w → padding w acc bits ≡ acc % 2 ^ bits * 2 ^ (w - bits)
unfolding padding
padding_lem w acc bits h le =
    let width : bits + (w - bits) ≡ w = omega arith in
    rw (max_value_lem w h, and_mask w (u32 (acc * 2 ^ (w - bits))))
      (mod-mod_pow w 32 (acc * 2 ^ (w - bits)) (omega arith)
        ∙ ap (λ (t : ℕ). acc * 2 ^ (w - bits) % 2 ^ t) (sym width)
        ∙ shl-mod bits (w - bits) acc)
