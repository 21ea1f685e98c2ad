-- ===== src/Escrow/Decoding.antt =====
-- `DecodeClosure` of internal/script at the leaves of an escrow.
pub mod RoundTrip
use ark_escrow.Base.{
  ℕ, zero, suc, ◌+◌, ◌-◌, ◌<◌, ◌≤◌, ◌^◌, ◌==◌, ◌||◌, ◌&&◌, leb, if◌then◌else◌, Str, ◌≡◌, refl,
  arith, ap, sym, ◌∙◌,
}
use ark_escrow.Base.{
  Bool, true, false, Option, none, some, List, [], ◌∷◌, ◌++◌, length, length-append, ok, Result,
  str_eq_refl, subst,
}
use ark_escrow.Curve.{Curve, IsCurve}
use ark_escrow.Script.Txscript.{Txscript, IsTxscript, token}
use ark_escrow.Script.Locktime.{block}
use ark_escrow.Script.Locktime.RoundTrip.{decode-number_bytes}
use ark_escrow.Script.Closure.{
  MultisigClosure, multisig_closure, csv_closure, condition_closure, checksig, multisig_script,
  condition_script,
}
use ark_escrow.Script.Closure.Decode.{
  rebuilt_multisig, end_checksig, checksig_loop, decode_checksig, decode_checksig_add,
  checksig_add_loop, decode_multisig, expect, csv_prefix, decode_csv, condition_prefix,
  rebuilt_condition, decode_condition, decode_closure,
}
use ark_escrow.Script.Closure.Scripts.{single_script, pair_script}
use ark_escrow.Escrow.{single, pair}
use ark_escrow.Escrow.Leaves.{
  hash_leaf, timeout_leaf, pair_leaf, condition_bytes, script-multisig_closure, script-csv_closure,
  script-condition_closure,
}

module _ (c : Curve) where
  -- A key as it is parsed back: with the same serialization.
  abbrev pub IsParsed : c.PublicKey → c.PublicKey → Type 0
  IsParsed k k' = (c.parse_x_only (c.serialize k) ≡ some k') × (c.serialize k' ≡ c.serialize k)

module _ (c : Curve) (tx : Txscript) (curve : IsCurve c) (laws : IsTxscript tx) where
  next_token-32 :
      (d rest : Str) → length d ≡ 32 → tx.next_token (0x20 ∷ (d ++ rest)) ≡ token 0x20 d rest
  next_token-32 d rest size =
      subst (λ (n : ℕ). tx.next_token (n ∷ (d ++ rest)) ≡ token n d rest) size
        (laws.next_token-push d rest (omega (arith, size)) (omega (arith, size)))

  next_token-key :
      (k : c.PublicKey) (rest : Str)
      → tx.next_token (0x20 ∷ (c.serialize k ++ rest)) ≡ token 0x20 (c.serialize k) rest
  next_token-key k rest = next_token-32 (c.serialize k) rest (curve.length-serialize k)

  rebuilt_same :
      (script : Str) (f : MultisigClosure c.PublicKey)
      → multisig_script c tx f ≡ ok script
      → rebuilt_multisig c tx script f ≡ ok (some f)
  unfolding rebuilt_multisig
  rebuilt_same script f e = rw (e, str_eq_refl script) refl

  -- `<key> OP_CHECKSIG` at the end of a script.
  loop_last :
      (script : Str) (n : ℕ) (k k' : c.PublicKey) (keys : List c.PublicKey)
      → c.parse_x_only (c.serialize k) ≡ some k'
      → checksig_loop c tx script (suc n) (0x20 ∷ (c.serialize k ++ 0xac ∷ [])) keys
        ≡ end_checksig c tx script 0xac (keys ++ k' ∷ [])
  unfolding checksig_loop
  loop_last script n k k' keys e = ground (
    arith,
    next_token-key k (0xac ∷ []),
    laws.op_data_32,
    laws.next_token-op 0xac [],
    laws.op_checksigverify,
  )

  -- `<key> OP_CHECKSIGVERIFY` before more keys.
  loop_more :
      (script rest : Str) (n : ℕ) (k k' : c.PublicKey) (keys : List c.PublicKey)
      → c.parse_x_only (c.serialize k) ≡ some k'
      → checksig_loop c tx script (suc n) (0x20 ∷ (c.serialize k ++ 0xad ∷ rest)) keys
        ≡ checksig_loop c tx script n rest (keys ++ k' ∷ [])
  unfolding checksig_loop
  loop_more script rest n k k' keys e = ground (
    arith,
    next_token-key k (0xad ∷ rest),
    laws.op_data_32,
    laws.next_token-op 0xad rest,
    laws.op_checksigverify,
  )

  end_checksig-rebuilt :
      (script : Str) (k : c.PublicKey) (keys : List c.PublicKey)
      → multisig_script c tx (record { pub_keys = k ∷ keys; type = checksig }) ≡ ok script
      → end_checksig c tx script 0xac (k ∷ keys)
        ≡ ok (some (record { pub_keys = k ∷ keys; type = checksig }))
  unfolding end_checksig
  end_checksig-rebuilt script k keys e = ground (
    arith,
    laws.op_checksig,
    rebuilt_same script (record { pub_keys = k ∷ keys; type = checksig }) e,
  )

  decode_multisig-checksig :
      (o : ℕ) (s : Str) (f : MultisigClosure c.PublicKey)
      → decode_checksig c tx (o ∷ s) ≡ ok (some f)
      → decode_multisig c tx (o ∷ s) ≡ ok (some f)
  unfolding decode_multisig
  decode_multisig-checksig o s f e = rw e refl

  decode_multisig-single :
      (k k' : c.PublicKey)
      → IsParsed c k k'
      → decode_multisig c tx (0x20 ∷ (c.serialize k ++ 0xac ∷ [])) ≡ ok (some (single k'))
  decode_multisig-single k k' (parses, same) =
      let script = 0x20 ∷ (c.serialize k ++ 0xac ∷ []) in
      let written : multisig_script c tx (single k') ≡ ok script =
        single_script c tx curve laws k' ∙ rw (laws.op_data_32, laws.op_checksig, same) refl in
      decode_multisig-checksig 0x20 (c.serialize k ++ 0xac ∷ []) (single k') (
        unfold decode_checksig in
        loop_last script (length (c.serialize k ++ 0xac ∷ [])) k k' [] parses
        ∙ end_checksig-rebuilt script k' [] written)

  decode_multisig-pair :
      (k l k' l' : c.PublicKey)
      → IsParsed c k k'
      → IsParsed c l l'
      → decode_multisig c tx (pair_leaf c k l) ≡ ok (some (pair k' l'))
  decode_multisig-pair k l k' l' (parses, same) (parses', same') =
      let rest = 0x20 ∷ (c.serialize l ++ 0xac ∷ []) in
      let written : multisig_script c tx (pair k' l') ≡ ok (pair_leaf c k l) =
        pair_script c tx curve laws k' l'
        ∙ rw (laws.op_data_32, laws.op_checksig, laws.op_checksigverify, same, same') refl in
      let size : length (c.serialize k ++ 0xad ∷ rest) ≡ suc (32 + length rest) =
        omega (arith, length-append (c.serialize k) (0xad ∷ rest), curve.length-serialize k) in
      decode_multisig-checksig 0x20 (c.serialize k ++ 0xad ∷ rest) (pair k' l') (
        unfold decode_checksig in
        loop_more (pair_leaf c k l) rest (length (c.serialize k ++ 0xad ∷ rest)) k k' [] parses
        ∙ ap (λ (n : ℕ). checksig_loop c tx (pair_leaf c k l) n rest (k' ∷ [])) size
        ∙ loop_last (pair_leaf c k l) (32 + length rest) l l' (k' ∷ []) parses'
        ∙ end_checksig-rebuilt (pair_leaf c k l) k' (l' ∷ []) written)

  csv_prefix-pair : (k l : c.PublicKey) → csv_prefix c tx (pair_leaf c k l) ≡ none
  unfolding csv_prefix
  csv_prefix-pair k l =
      let rest = 0x20 ∷ (c.serialize l ++ 0xac ∷ []) in
      ground (
        arith,
        next_token-key k (0xad ∷ rest),
        laws.next_token-op 0xad rest,
        laws.op_checksequenceverify,
      )

  csv_prefix-hash :
      (hash rest : Str) → length hash ≡ 32 → csv_prefix c tx (0xa8 ∷ 0x20 ∷ (hash ++ rest)) ≡ none
  unfolding csv_prefix
  csv_prefix-hash hash rest size = ground (
    arith,
    laws.next_token-op 0xa8 (0x20 ∷ (hash ++ rest)),
    next_token-32 hash rest size,
    laws.op_checksequenceverify,
  )

  csv_prefix-timeout :
      (n : ℕ) (sub_script : Str)
      → 16 < n
      → n < 2 ^ 32
      → csv_prefix c tx (tx.int_push n ++ (0xb2 ∷ 0x75 ∷ sub_script))
        ≡ some (laws.number_bytes n, sub_script)
  unfolding csv_prefix
  csv_prefix-timeout n sub_script low high =
      let number = laws.number_bytes n in
      let size = laws.length-number_bytes n low high in
      rw (laws.int_push-large n low high) (
        ground (
          arith,
          laws.next_token-push number (0xb2 ∷ 0x75 ∷ sub_script),
          size,
          laws.small_ints (length number),
          laws.op_1,
          laws.op_16,
          laws.next_token-op 0xb2 (0x75 ∷ sub_script),
          laws.next_token-op 0x75 sub_script,
          laws.op_checksequenceverify,
          laws.op_drop,
        ))

  decode_csv-none :
      (o : ℕ) (s : Str) → csv_prefix c tx (o ∷ s) ≡ none → decode_csv c tx (o ∷ s) ≡ ok none
  unfolding decode_csv
  decode_csv-none o s e = rw e refl

  decode_multisig-none : (s : Str) → decode_multisig c tx (0xa8 ∷ s) ≡ ok none
  unfolding decode_multisig decode_checksig decode_checksig_add checksig_loop checksig_add_loop
  decode_multisig-none s = ground (
    arith,
    laws.next_token-op 0xa8 s,
    laws.op_data_32,
    laws.small_ints 0xa8,
    laws.op_1,
    laws.op_16,
  )

  condition_prefix-hash :
      (hash sub_script : Str) (n : ℕ)
      → length hash ≡ 32
      → condition_prefix c tx
          (suc (suc (suc (suc n))))
          (0xa8 ∷ 0x20 ∷ (hash ++ (0x87 ∷ 0x69 ∷ sub_script)))
        ≡ (0xa8 ∷ 0x20 ∷ (hash ++ 0x87 ∷ []), sub_script)
  unfolding condition_prefix
  condition_prefix-hash hash sub_script n size = ground (
    arith,
    laws.next_token-op 0xa8 (0x20 ∷ (hash ++ (0x87 ∷ 0x69 ∷ sub_script))),
    next_token-32 hash (0x87 ∷ 0x69 ∷ sub_script) size,
    laws.next_token-op 0x87 (0x69 ∷ sub_script),
    laws.next_token-op 0x69 sub_script,
    laws.op_verify,
  )
