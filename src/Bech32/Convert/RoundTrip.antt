-- ===== src/Bech32/Convert/RoundTrip.antt =====
-- `ConvertBits` from bytes to groups of five and back.
use native.Mathlib.Nat.{one-le-pow, mod-lt, mul-lt-mul_of_pos_right, mul_comm, le_refl}
use native.Mathlib.Nat.{mul-div_cancel, mul-mod_left}
use mathlib.Core.Path.{subst}
use ark_escrow.Bits.Xor.{pow_add}
use ark_escrow.Base.{ℕ, ◌+◌, ◌-◌, ◌*◌, ◌%◌, ◌^◌, ◌≤◌, ◌<◌, ◌≡◌, refl, arith, ap, sym}
use ark_escrow.Base.{◌∙◌, List, [], ◌∷◌, ◌++◌, All, All-append, append_assoc, append-nil, ltb, true}
use ark_escrow.Base.{false, Bool-cases, inl, inr, ltb→lt, ok, length}
use ark_escrow.Base.{IsBytes}
use ark_escrow.Bits.Stream.{digits_be, digits_be-split, digits_be-zero, digits_be-mod, stream}
use ark_escrow.Bits.Stream.{stream-append, stream-injective, length-digits_be, length-replicate}
use ark_escrow.Bits.Stream.{replicate, digits_be-injective}
use ark_escrow.Bech32.Convert.{u8, Converted, convert_loop, padding, finish, convert_bits}
use ark_escrow.Bech32.Convert.Streams.{Keeps, convert_loop-Keeps, padding_lem, two_pow_le}

padding-lt : (w acc bits : ℕ) → w ≤ 8 → bits ≤ w → padding w acc bits < 2 ^ w
padding-lt w acc bits h le =
    let width : bits + (w - bits) ≡ w = omega arith in
    rw (padding_lem w acc bits h le) (
      subst (λ (t : ℕ). acc % 2 ^ bits * 2 ^ (w - bits) < 2 ^ t) width
        (rw (pow_add bits (w - bits), mul_comm (2 ^ (w - bits)) (2 ^ bits))
          (mul-lt-mul_of_pos_right (mod-lt acc (one-le-pow bits 2 (omega arith)))
            (one-le-pow (w - bits) 2 (omega arith)))))

-- The padded group is the bits left, then zeros.
padding-digits :
    (w acc bits : ℕ)
    → w ≤ 8
    → bits ≤ w
    → digits_be w (padding w acc bits) ≡ digits_be bits acc ++ replicate (w - bits) 0
padding-digits w acc bits h le =
    let width : bits + (w - bits) ≡ w = omega arith in
    let low : ℕ = acc % 2 ^ bits in
    let moved : ℕ = low * 2 ^ (w - bits) in
    ap (digits_be w) (padding_lem w acc bits h le)
    ∙ ap (λ (t : ℕ). digits_be t moved) (sym width)
    ∙ digits_be-split bits (w - bits) moved
    ∙ rw
        (
          mul-div_cancel low {n = 2 ^ (w - bits)} (one-le-pow (w - bits) 2 (omega arith)),
          digits_be-mod bits bits acc (le_refl bits),
          ← digits_be-mod (w - bits) (w - bits) moved (le_refl (w - bits)),
          mul-mod_left low (2 ^ (w - bits)),
          digits_be-zero (w - bits),
        )
        refl

-- With padding, the output is the input's stream and fewer zeros than a group.
pub record Padded (n w : ℕ) (values out : List ℕ) : Type 0 where
  pub zeros : ℕ
  pub few : zeros < w
  pub same : stream w out ≡ stream n values ++ replicate zeros 0
  pub range : All (λ x. x < 2 ^ w) out

finish-Padded :
    (n w : ℕ) (values : List ℕ) (c : Converted)
    → w ≤ 8
    → Keeps n w [] values c
    → (out : List ℕ) × (finish n w true c ≡ ok out) × Padded n w values out
unfolding finish stream digits_be
finish-Padded n w values c h k = elim (Bool-cases (ltb 0 c.bits)) [
  | inr none_left ↦
      let empty : c.bits ≡ 0 = ground arith in
      (
        c.ret,
        rw none_left,
        record {
          zeros = 0;
          few = omega (arith, k.left);
          same =
              sym (append-nil (stream w c.ret))
              ∙ ap (λ (t : ℕ). stream w c.ret ++ digits_be t c.acc) (sym empty)
              ∙ k.same
              ∙ sym (append-nil (stream n values));
          range = k.range;
        },
      )
  | inl some_left ↦
      let last : ℕ = padding w c.acc c.bits in
      let in_range : last < 2 ^ w = padding-lt w c.acc c.bits h (omega (arith, k.left)) in
      let small : u8 last ≡ last = omega (arith, two_pow_le w h) in
      (
        c.ret ++ last ∷ [],
        rw (some_left, small),
        record {
          zeros = w - c.bits;
          few = ground (arith, ltb→lt 0 c.bits some_left, k.left);
          same = rw (
            stream-append w c.ret (last ∷ []),
            append-nil (digits_be w last),
            padding-digits w c.acc c.bits h (omega (arith, k.left)),
            ← append_assoc (stream w c.ret) (digits_be c.bits c.acc) (replicate (w - c.bits) 0),
            k.same,
          );
          range = All-append _ c.ret _ k.range (in_range, tt);
        },
      )
]

-- Without padding, bits left over that are fewer than an input group and all zero are dropped.
finish_zeros :
    (n w : ℕ) (c : Converted)
    → w ≤ 8
    → c.bits < n
    → c.bits ≤ w
    → digits_be c.bits c.acc ≡ replicate c.bits 0
    → finish n w false c ≡ ok c.ret
unfolding finish
finish_zeros n w c hw few le zeros =
    let pos = one-le-pow c.bits 2 (omega arith) in
    let none_left : c.acc % 2 ^ c.bits ≡ 0 =
      (digits_be-injective c.bits (c.acc % 2 ^ c.bits) 0 [] [] (mod-lt c.acc pos) pos (
        rw (digits_be-mod c.bits c.bits c.acc (le_refl c.bits), digits_be-zero c.bits, zeros))).0 in
    ground (arith, padding_lem w c.acc c.bits hw le, ap (λ (t : ℕ). t * 2 ^ (w - c.bits)) none_left)

from_start :
    (n w : ℕ) (values : List ℕ)
    → n ≤ 8
    → 0 < w
    → w ≤ 8
    → All (λ x. x < 2 ^ n) values
    → Keeps n w [] values (convert_loop n w values 0 0)
unfolding digits_be
from_start n w values hn pos hw fits = convert_loop-Keeps n w values 0 0 hn pos hw pos fits

-- Back from `w` to `n`, the padding is recognised and dropped.
unpad :
    (n w : ℕ) (values out : List ℕ)
    → w ≤ n
    → n ≤ 8
    → 0 < w
    → All (λ x. x < 2 ^ n) values
    → Padded n w values out
    → finish w n false (convert_loop w n out 0 0) ≡ ok values
unpad n w values out wn hn pos fits p =
    let c = convert_loop w n out 0 0 in
    let back = from_start w n out (omega arith) (omega arith) hn p.range in
    let (same, rest) =
      stream-injective n c.ret values (digits_be c.bits c.acc) (replicate p.zeros 0) back.range fits
        (rw (length-digits_be c.bits c.acc) back.left)
        (rw (length-replicate p.zeros 0) (omega (arith, p.few))) (back.same ∙ p.same) in
    let as_many : c.bits ≡ p.zeros =
      sym (length-digits_be c.bits c.acc) ∙ ap (length {0}) rest ∙ length-replicate p.zeros 0 in
    finish_zeros w n c hn (omega (arith, p.few)) (omega (arith, back.left))
      (rest ∙ ap (λ (t : ℕ). replicate t 0) (sym as_many))
    ∙ ap ok same

-- Regrouping bytes into fives with padding succeeds with values below 32, and regrouping those into
-- bytes without padding gives the bytes back.
pub convert_bits-convert_bits :
    (values : List ℕ)
    → IsBytes values
    → (fives : List ℕ) × (convert_bits values 8 5 true ≡ ok fives)
      × All (λ x. x < 32) fives
      × (convert_bits fives 5 8 false ≡ ok values)
unfolding convert_bits
convert_bits-convert_bits values bytes =
    let there = from_start 8 5 values (omega arith) (omega arith) (omega arith) bytes in
    let (fives, done, p) =
      finish-Padded 8 5 values (convert_loop 8 5 values 0 0) (omega arith) there in
    (fives, done, p.range, unpad 8 5 values fives (omega arith) (omega arith) (omega arith) bytes p)
