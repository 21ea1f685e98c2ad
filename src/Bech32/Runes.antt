-- ===== src/Bech32/Runes.antt =====
-- Go's `range` over a string: the code points of UTF-8 with the bytes that each takes, where a byte
-- that begins no valid encoding is U+FFFD and one byte long.
use ark_escrow.Base.{ℕ, zero, suc, ◌+◌, ◌-◌, ◌*◌, ◌%◌, ◌<◌, ◌≡◌, refl, Bool, ◌&&◌}
use ark_escrow.Base.{List, [], ◌∷◌, All, Str, ltb, leb, ◌==◌, if◌then◌else◌, lt→ltb, map}

abbrev between : ℕ → ℕ → ℕ → Bool
between lo hi b = leb lo b && leb b hi

abbrev is_continuation : ℕ → Bool
is_continuation = between 0x80 0xbf

abbrev rune_error : ℕ × ℕ
rune_error = (0xfffd, 1)

-- Two, three and four bytes; overlong forms and surrogates are errors.
decode_long : ℕ → Str → ℕ × ℕ
decode_long b0 (b1 ∷ b2 ∷ b3 ∷ rest) =
    if between 0xc2 0xdf b0 && is_continuation b1
    then (b0 % 32 * 64 + b1 % 64, 2)
    else if between 0xe0 0xef b0
        && between (if b0 == 0xe0 then 0xa0 else 0x80) (if b0 == 0xed then 0x9f else 0xbf) b1
        && is_continuation b2
    then (b0 % 16 * 4096 + b1 % 64 * 64 + b2 % 64, 3)
    else if between 0xf0 0xf4 b0
        && between (if b0 == 0xf0 then 0x90 else 0x80) (if b0 == 0xf4 then 0x8f else 0xbf) b1
        && is_continuation b2
        && is_continuation b3
    then (b0 % 8 * 262144 + b1 % 64 * 4096 + b2 % 64 * 64 + b3 % 64, 4)
    else rune_error
decode_long b0 (b1 ∷ b2 ∷ []) =
    if between 0xc2 0xdf b0 && is_continuation b1
    then (b0 % 32 * 64 + b1 % 64, 2)
    else if between 0xe0 0xef b0
        && between (if b0 == 0xe0 then 0xa0 else 0x80) (if b0 == 0xed then 0x9f else 0xbf) b1
        && is_continuation b2
    then (b0 % 16 * 4096 + b1 % 64 * 64 + b2 % 64, 3)
    else rune_error
decode_long b0 (b1 ∷ []) =
    if between 0xc2 0xdf b0 && is_continuation b1 then (b0 % 32 * 64 + b1 % 64, 2) else rune_error
decode_long b0 [] = rune_error

decode_rune : ℕ → Str → ℕ × ℕ
unfolding decode_long
decode_rune b rest = if ltb b 0x80 then (b, 1) else decode_long b rest

-- The first number counts the bytes of the last rune that are still to be passed over.
pub runes_from : ℕ → Str → List (ℕ × ℕ)
unfolding decode_rune
runes_from skip [] = []
runes_from (suc skip) (b ∷ s) = runes_from skip s
runes_from zero (b ∷ s) =
    let (rune, width) = decode_rune b s in (rune, width) ∷ runes_from (width - 1) s

unfoldable pub runes : Str → List (ℕ × ℕ)
unfolding runes_from
runes s = runes_from 0 s

abbrev pub IsAscii : Str → Type 0
IsAscii = All (λ b. b < 128)

-- A text of ASCII is its own runes.
pub runes-ascii : (s : Str) → IsAscii s → runes s ≡ map (λ b. (b, 1)) s
unfolding runes
runes-ascii [] h = refl
runes-ascii (b ∷ s) h = rw (lt→ltb b 128 h.0) (rw (runes-ascii s h.1))
