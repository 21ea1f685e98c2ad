-- ===== src/Swap/Clients/Amount.antt =====
-- The amount of `SendToAddress` in pkg/escrow/swap/htlc.go: satoshis as a decimal number of bitcoin.
use native.Mathlib.Nat.{mul_assoc}
use native.Mathlib.Numerals.{unary_clauses}
use ark_escrow.Base.{
  ℕ, zero, suc, ◌+◌, ◌-◌, ◌*◌, ◌/◌, ◌%◌, ◌^◌, ◌<◌, ◌≡◌, refl, ap, ◌∙◌, append_assoc, append-nil,
  sym, Bool-cases, inl, inr, arith, Str, Bool, true, false, Option, some, none, [], ◌∷◌, ◌++◌,
  if◌then◌else◌, ltb, leb, ◌==◌, ◌&&◌,
}

abbrev digit : ℕ → ℕ
digit n = b'0' + n % 10

-- `%0nd`: n digits, with zeros in front.
unfoldable pub padded : ℕ → ℕ → Str
padded zero n = []
padded (suc width) n = padded width (n / 10) ++ digit n ∷ []

-- `%d`, of at most as many digits as there is fuel.
unfoldable pub decimal : ℕ → ℕ → Str
decimal zero n = []
decimal (suc fuel) n =
    let front = decimal fuel (n / 10) in if ltb n 10 then digit n ∷ [] else front ++ digit n ∷ []

-- `fmt.Sprintf("%d.%08d", amountSats/1e8, amountSats%uint64(1e8))`; a uint64 has at most 20 digits.
unfoldable pub amount_text : ℕ → Str
amount_text amount = decimal 20 (amount / 100_000_000) ++ b'.' ∷ padded 8 (amount % 100_000_000)

abbrev is_digit : ℕ → Bool
is_digit c = leb b'0' c && leb c b'9'

-- A decimal number of bitcoin in satoshis, read digit by digit: the digits before the point, and
-- eight after it.
unfoldable pub read_fraction : ℕ → Str → ℕ → Option ℕ
read_fraction zero [] n = some n
read_fraction zero (c ∷ s) n = none
read_fraction (suc places) [] n = none
read_fraction (suc places) (c ∷ s) n =
    let rest = read_fraction places s (n * 10 + (c - b'0')) in if is_digit c then rest else none

unfoldable pub read_amount : Str → ℕ → Option ℕ
unfolding read_fraction
read_amount [] n = none
read_amount (c ∷ s) n =
    let rest = read_amount s (n * 10 + (c - b'0')) in
    if c == b'.' then read_fraction 8 s n else if is_digit c then rest else none

read_fraction-digit :
    (places n before : ℕ) (s : Str)
    → read_fraction (suc places) (digit n ∷ s) before
      ≡ read_fraction places s (before * 10 + n % 10)
unfolding read_fraction
read_fraction-digit places n before s =
    let shown : is_digit (digit n) ≡ true = ground arith in
    let back : digit n - b'0' ≡ n % 10 = omega arith in rw (shown, back) refl

read_amount-digit :
    (n before : ℕ) (s : Str)
    → read_amount (digit n ∷ s) before ≡ read_amount s (before * 10 + n % 10)
unfolding read_amount
read_amount-digit n before s =
    let shown : is_digit (digit n) ≡ true = ground arith in
    let no_point : (digit n == b'.') ≡ false = ground arith in
    let back : digit n - b'0' ≡ n % 10 = omega arith in rw (shown, no_point, back) refl

read_fraction-padded :
    (width places n before : ℕ) (s : Str)
    → n < 10 ^ width
    → read_fraction (width + places) (padded width n ++ s) before
      ≡ read_fraction places s (before * 10 ^ width + n)
unfolding read_fraction padded
read_fraction-padded zero places n before s h =
    let places_same : 0 + places ≡ places = omega arith in
    let same : before ≡ before * 1 + n = omega (arith, h) in
    rw places_same (ap (read_fraction places s) same)
read_fraction-padded (suc width) places n before s h =
    let power : 10 ^ suc width ≡ 10 ^ width * 10 = simp unary_clauses refl in
    let below : n / 10 < 10 ^ width = omega (arith, h, power) in
    let shift : suc width + places ≡ width + suc places = omega arith in
    let ih = read_fraction-padded width (suc places) (n / 10) before (digit n ∷ s) below in
    let value : (before * 10 ^ width + n / 10) * 10 + n % 10 ≡ before * 10 ^ suc width + n =
      omega (arith, ap (λ (t : ℕ). before * t) power, mul_assoc before (10 ^ width) 10) in
    rw (append_assoc, shift)
      (ih
        ∙ read_fraction-digit places n (before * 10 ^ width + n / 10) s
        ∙ ap (read_fraction places s) value)

read_amount-decimal :
    (fuel n : ℕ) (s : Str) → n < 10 ^ fuel → read_amount (decimal fuel n ++ s) 0 ≡ read_amount s n
unfolding read_amount decimal
read_amount-decimal zero n s h = let same : 0 ≡ n = omega (arith, h) in ap (read_amount s) same
read_amount-decimal (suc fuel) n s h =
    let power : 10 ^ suc fuel ≡ 10 ^ fuel * 10 = simp unary_clauses refl in
    let below : n / 10 < 10 ^ fuel = omega (arith, h, power) in
    let ih = read_amount-decimal fuel (n / 10) (digit n ∷ s) below in
    elim (Bool-cases (ltb n 10)) [
      | inl e ↦
          let value : 0 * 10 + n % 10 ≡ n = ground arith in
          rw e (read_amount-digit n 0 s ∙ ap (read_amount s) value)
      | inr e ↦
          let value : n / 10 * 10 + n % 10 ≡ n = omega arith in
          rw (e, append_assoc) (ih ∙ read_amount-digit n (n / 10) s ∙ ap (read_amount s) value)
    ]

read_amount-point :
    (n before : ℕ)
    → n < 10 ^ 8
    → read_amount (b'.' ∷ padded 8 n) before ≡ some (before * 10 ^ 8 + n)
unfolding read_amount read_fraction
read_amount-point n before h =
    ap (λ (s : Str). read_fraction 8 s before) (sym (append-nil (padded 8 n)))
    ∙ read_fraction-padded 8 0 n before [] h

-- The text of an amount, read as a number of bitcoin with eight places, is the amount, for every
-- uint64.
pub read_amount-amount_text :
    (amount : ℕ) → amount < 2 ^ 64 → read_amount (amount_text amount) 0 ≡ some amount
unfolding amount_text
read_amount-amount_text amount h =
    let whole = amount / 100_000_000 in
    let rest = amount % 100_000_000 in
    let value : whole * 100_000_000 + rest ≡ amount = omega arith in
    read_amount-decimal 20 whole (b'.' ∷ padded 8 rest) (omega (arith, h))
    ∙ read_amount-point rest whole (omega arith)
    ∙ ap (λ (n : ℕ). some n) value
