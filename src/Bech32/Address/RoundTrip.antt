-- ===== src/Bech32/Address/RoundTrip.antt =====
-- `DecodeBech32` reads back what `EncodeBech32m` writes, and what `AddressToOutputScript` makes of it.
use ark_escrow.Base.{ℕ, zero, suc, ◌+◌, ◌-◌, ◌*◌, ◌/◌, ◌^◌, ◌<◌, bit_and, bit_xor, map}
use ark_escrow.Base.{
  List, [], ◌∷◌, ◌++◌, ◌≡◌, refl, arith, ap, sym, ◌∙◌, All, All-append, append_assoc,
}
use ark_escrow.Base.{length, length-append, take, take-length_append, get_elem?, Option, none, some}
use ark_escrow.Base.{Bool, true, false, ◌&&◌, not, ltb, ◌==◌, ◌≢◌, all_below, all_below→, IsBytes}
use ark_escrow.Base.{Str, ok, All-map}
use ark_escrow.Bits.Masks.{and_mask}
use ark_escrow.Bech32.Convert.{u8, convert_bits}
use ark_escrow.Bech32.Convert.RoundTrip.{convert_bits-convert_bits}
use ark_escrow.Bech32.Runes.{runes, IsAscii, runes-ascii}
use ark_escrow.Bech32.Polymod.{bech32m_polymod}
use ark_escrow.Bech32.Address.{
  bech32_charset, bech32m_const, hrp_expand, checksum, to_chars, bech32m_encode, encode_bech32m,
  split_last, char_index, from_chars, decode_bech32, address_to_output_script,
}
use ark_escrow.Bech32.Address.Checksum.{polymod-checksum}

-- What the decoder needs of a character.
abbrev is_good : ℕ → ℕ → Bool
is_good d c =
    ltb c 128
    && not (c == b'1')
    && elim (char_index bech32_charset 0 c) [ none ↦ false | some j ↦ j == d ]

abbrev has_good_char : ℕ → Bool
has_good_char d = elim (get_elem? bech32_charset d) [ none ↦ false | some c ↦ is_good d c ]

charset_table : all_below 32 has_good_char ≡ true
unfolding all_below char_index
charset_table = refl

-- Each value below 32 has a character of ASCII other than '1', at which the search gives it back.
pub record CharOf (d : ℕ) : Type 0 where
  pub char : ℕ
  pub encodes : get_elem? bech32_charset d ≡ some char
  pub ascii : char < 128
  pub not_one : char ≢ b'1'
  pub decodes : char_index bech32_charset 0 char ≡ some d

char_of : (d : ℕ) → d < 32 → CharOf d
char_of d h =
    split (get_elem? bech32_charset d) refl (all_below→ 32 has_good_char d charset_table h)
  where
    split :
        (o : Option ℕ)
        → get_elem? bech32_charset d ≡ o
        → elim o as (λ x. Bool) [ none ↦ false | some c ↦ is_good d c ] ≡ true
        → CharOf d
    split none e t = cc
    split (some c) e t = record {
      char = c;
      encodes = e;
      ascii = ground arith;
      not_one = ground arith;
      decodes = ground arith;
    }

-- The text of values below 32, and what the decoder makes of it.
pub record Written (ds : List ℕ) : Type 0 where
  pub text : Str
  pub written : to_chars ds ≡ some text
  pub ascii : IsAscii text
  pub no_one : All (λ c. c ≢ b'1') text
  pub same_length : length text ≡ length ds
  pub read : from_chars (map (λ b. (b, 1)) text) ≡ ok ds

write : (ds : List ℕ) → All (λ d. d < 32) ds → Written ds
unfolding to_chars from_chars
write [] h = record {
  text = [];
  written = refl;
  ascii = tt;
  no_one = tt;
  same_length = refl;
  read = refl;
}
write (d ∷ ds) h =
    let c = char_of d h.0 in
    let rest = write ds h.1 in
    record {
      text = c.char ∷ rest.text;
      written = rw (c.encodes, rest.written);
      ascii = (c.ascii, rest.ascii);
      no_one = (c.not_one, rest.no_one);
      same_length = ap suc rest.same_length;
      read = rw (c.decodes, rest.read);
    }

split_last-none : (s : Str) → All (λ c. c ≢ b'1') s → split_last s ≡ none
unfolding split_last
split_last-none [] h = refl
split_last-none (c ∷ s) h = ground (arith, split_last-none s h.1)

split_last_lem :
    (hrp s : Str) → All (λ c. c ≢ b'1') s → split_last (hrp ++ b'1' ∷ s) ≡ some (hrp, s)
unfolding split_last
split_last_lem [] s h = rw (split_last-none s h)
split_last_lem (c ∷ hrp) s h = rw (split_last_lem hrp s h)

expand-lt : (hrp : Str) → All (λ v. v < 2 ^ 30) (hrp_expand hrp)
unfolding hrp_expand
expand-lt hrp = All-append _ _ _ (upper (runes hrp)) (omega arith, lower (runes hrp))
  where
    upper : (rs : List (ℕ × ℕ)) → All (λ v. v < 2 ^ 30) (map (λ (c : ℕ × ℕ). u8 (c.0 / 2 ^ 5)) rs)
    upper [] = tt
    upper (r ∷ rs) = (omega arith, upper rs)

    lower :
        (rs : List (ℕ × ℕ)) → All (λ v. v < 2 ^ 30) (map (λ (c : ℕ × ℕ). u8 (bit_and c.0 31)) rs)
    lower [] = tt
    lower (r ∷ rs) = (omega arith, lower rs)

checksum-lt : (n p : ℕ) → All (λ d. d < 32) (checksum n p)
unfolding checksum
checksum-lt zero p = tt
checksum-lt (suc n) p = (omega (arith, and_mask 5 (p / 2 ^ (5 * n))), checksum-lt n p)

length-checksum : (n p : ℕ) → length (checksum n p) ≡ n
unfolding checksum
length-checksum zero p = refl
length-checksum (suc n) p = ap suc (length-checksum n p)

-- A text of a payload and six values that check is read as the payload.
decode_written :
    (hrp : Str) (version : ℕ) (fives program cs : List ℕ) (w : Written ((version ∷ fives) ++ cs))
    → length cs ≡ 6
    → bech32m_polymod (hrp_expand hrp ++ ((version ∷ fives) ++ cs)) ≡ bech32m_const
    → convert_bits fives 5 8 false ≡ ok program
    → decode_bech32 (hrp ++ b'1' ∷ w.text) ≡ ok (version, program)
unfolding decode_bech32
decode_written hrp version fives program cs w six checks back =
    let payload = version ∷ fives in
    let size : length w.text ≡ length payload + 6 =
      omega (arith, w.same_length, length-append payload cs) in
    let long : ltb (length w.text) 6 ≡ false = ground arith in
    let count : length (payload ++ cs) - 6 ≡ length payload =
      omega (arith, length-append payload cs) in
    let taken : take (length (payload ++ cs) - 6) (payload ++ cs) ≡ payload =
      ap (λ (t : ℕ). take t (payload ++ cs)) count ∙ take-length_append payload cs in
    rw (
      split_last_lem hrp w.text w.no_one,
      runes-ascii w.text w.ascii,
      long,
      w.read,
      checks,
      taken,
      back,
    )

module _ (hrp : Str) (fives program : List ℕ) (small : All (λ d. d < 32) fives) where
  abbrev payload : List ℕ
  payload = 1 ∷ fives

  abbrev polymod : ℕ
  polymod =
      bit_xor (bech32m_polymod (hrp_expand hrp ++ payload ++ 0 ∷ 0 ∷ 0 ∷ 0 ∷ 0 ∷ 0 ∷ []))
        bech32m_const

  payload-lt : All (λ d. d < 32) payload
  payload-lt = (omega arith, small)

  checks : bech32m_polymod (hrp_expand hrp ++ (payload ++ checksum 6 polymod)) ≡ bech32m_const
  checks =
      ap bech32m_polymod (sym (append_assoc (hrp_expand hrp) payload (checksum 6 polymod)))
      ∙ polymod-checksum (hrp_expand hrp ++ payload) (
          All-append _ (hrp_expand hrp) payload (expand-lt hrp)
            (All-map _ _ (λ a (h : a < 32). omega arith) payload payload-lt))

  text : Written (payload ++ checksum 6 polymod)
  text =
      write (payload ++ checksum 6 polymod)
        (All-append _ payload (checksum 6 polymod) payload-lt (checksum-lt 6 polymod))

  encode_written : bech32m_encode hrp payload ≡ some (hrp ++ b'1' ∷ text.text)
  unfolding bech32m_encode
  encode_written = rw text.written

  read_back :
      convert_bits fives 5 8 false ≡ ok program
      → decode_bech32 (hrp ++ b'1' ∷ text.text) ≡ ok (1, program)
  read_back back =
      decode_written hrp 1 fives program (checksum 6 polymod) text (length-checksum 6 polymod)
        checks back

-- Every program of bytes, under every human-readable part, is encoded as an address which decodes
-- to version 1 and that program.
pub decode_bech32-encode_bech32m :
    (hrp : Str) (program : List ℕ)
    → IsBytes program
    → (addr : Str) × (encode_bech32m hrp program ≡ ok addr) × (decode_bech32 addr ≡ ok (1, program))
unfolding encode_bech32m
decode_bech32-encode_bech32m hrp program bytes =
    let (fives, there, small, back) = convert_bits-convert_bits program bytes in
    (
      hrp ++ b'1' ∷ (text hrp fives program small).text,
      rw (there, encode_written hrp fives program small),
      read_back hrp fives program small back,
    )

-- The output script of an address that was made from a program of fewer than 256 bytes pushes
-- version 1 and that program: OP_1, the length, the bytes.
pub address_to_output_script-encode_bech32m :
    (hrp : Str) (program : List ℕ)
    → IsBytes program
    → length program < 256
    → (addr : Str) × (encode_bech32m hrp program ≡ ok addr)
      × (address_to_output_script addr ≡ ok (0x51 ∷ length program ∷ program))
unfolding address_to_output_script
address_to_output_script-encode_bech32m hrp program bytes short =
    let (addr, written, read) = decode_bech32-encode_bech32m hrp program bytes in
    let fits : u8 (length program) ≡ length program = omega arith in
    (addr, written, rw (read, fits))
