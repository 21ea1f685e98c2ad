-- ===== src/Escrow/Decoding/RoundTrip.antt =====
-- `DecodeClosure` of internal/script/script.go at the three kinds of leaves of an escrow.
use ark_escrow.Base.{
  ℕ, suc, ◌+◌, ◌-◌, ◌<◌, ◌^◌, ◌&&◌, leb, if◌then◌else◌, Str, map, ◌≡◌, refl, arith, ap, ◌∙◌,
}
use ark_escrow.Base.{some, none, [], ◌∷◌, ◌++◌, length, length-append, ok, str_eq_refl, subst}
use ark_escrow.Curve.{Curve, IsCurve}
use ark_escrow.Script.Txscript.{Txscript, IsTxscript}
use ark_escrow.Script.Locktime.{block}
use ark_escrow.Script.Locktime.RoundTrip.{decode-number_bytes}
use ark_escrow.Script.Locktime.{bip68_decode_sequence_from_bytes}
use ark_escrow.Script.Closure.{
  MultisigClosure, Closure, multisig_closure, csv_closure, condition_closure, condition_script,
  script,
}
use ark_escrow.Script.Closure.Decode.{
  csv_prefix, decode_multisig, decode_csv, condition_prefix, rebuilt_condition, decode_condition,
  decode_closure,
}
use ark_escrow.Escrow.{single, pair}
use ark_escrow.Escrow.Leaves.{
  hash_leaf, timeout_leaf, pair_leaf, condition_bytes, escrow_of, script-condition_closure,
}
use ark_escrow.Escrow.Decoding.{
  IsParsed, decode_multisig-single, decode_multisig-pair, csv_prefix-pair, csv_prefix-hash,
  csv_prefix-timeout, decode_csv-none, decode_multisig-none, condition_prefix-hash,
}

-- A timeout as it is decoded: 81 to 96 blocks are taken for 1 to 16.
abbrev pub decoded_timeout : ℕ → ℕ
decoded_timeout n = if leb 81 n && leb n 96 then n - 80 else n

module _ (c : Curve) (tx : Txscript) (curve : IsCurve c) (laws : IsTxscript tx) where
  decode_closure-csv :
      (o : ℕ) (s : Str) (f : Closure c.PublicKey)
      → decode_csv c tx (o ∷ s) ≡ ok (some f)
      → decode_closure c tx (o ∷ s) ≡ ok f
  unfolding decode_closure
  decode_closure-csv o s f e = rw e refl

  decode_closure-multisig :
      (o : ℕ) (s : Str) (f : MultisigClosure c.PublicKey)
      → decode_csv c tx (o ∷ s) ≡ ok none
      → decode_multisig c tx (o ∷ s) ≡ ok (some f)
      → decode_closure c tx (o ∷ s) ≡ ok (multisig_closure f)
  unfolding decode_closure
  decode_closure-multisig o s f e e' = rw (e, e') refl

  decode_closure-condition :
      (o : ℕ) (s : Str) (f : Closure c.PublicKey)
      → decode_csv c tx (o ∷ s) ≡ ok none
      → decode_multisig c tx (o ∷ s) ≡ ok none
      → decode_condition c tx (o ∷ s) ≡ ok (some f)
      → decode_closure c tx (o ∷ s) ≡ ok f
  unfolding decode_closure
  decode_closure-condition o s f e e' e'' = rw (e, e', e'') refl

  -- If two keys can be parsed back from their serialization, the script of two keys is decoded to
  -- the closure that checks the signatures of both, in their order.
  pub decode_closure-pair_leaf :
      (k l k' l' : c.PublicKey)
      → IsParsed c k k'
      → IsParsed c l l'
      → decode_closure c tx (pair_leaf c k l) ≡ ok (multisig_closure (pair k' l'))
  decode_closure-pair_leaf k l k' l' p p' =
      let rest = c.serialize k ++ (0xad ∷ 0x20 ∷ (c.serialize l ++ 0xac ∷ [])) in
      decode_closure-multisig 0x20 rest (pair k' l')
        (decode_csv-none c tx curve laws 0x20 rest (csv_prefix-pair c tx curve laws k l))
        (decode_multisig-pair c tx curve laws k l k' l' p p')

  decode_csv-some :
      (o n : ℕ) (s sequence sub_script : Str) (m : MultisigClosure c.PublicKey)
      → csv_prefix c tx (o ∷ s) ≡ some (sequence, sub_script)
      → bip68_decode_sequence_from_bytes tx sequence ≡ ok (record { type = block; value = n })
      → decode_multisig c tx sub_script ≡ ok (some m)
      → decode_csv c tx (o ∷ s)
        ≡ ok (
            some (
              csv_closure (record { multisig = m; locktime = record { type = block; value = n } })))
  unfolding decode_csv
  decode_csv-some o n s sequence sub_script m e e' e'' = rw (e, e', e'') refl

  -- If a key can be parsed back from its serialization, the script with a timeout of 17 to
  -- 2 ^ 22 - 1 blocks is decoded to the closure of that key and that timeout, except that a timeout of 81 to
  -- 96 blocks is decoded as one of 1 to 16.
  pub decode_closure-timeout_leaf :
      (n : ℕ) (k k' : c.PublicKey)
      → IsParsed c k k'
      → 16 < n
      → n < 2 ^ 22
      → decode_closure c tx (timeout_leaf c tx n k)
        ≡ ok (
            csv_closure (record {
              multisig = single k';
              locktime = record { type = block; value = decoded_timeout n };
            }))
  decode_closure-timeout_leaf n k k' p low high =
      let wide : n < 2 ^ 32 = omega (arith, high) in
      let number = laws.number_bytes n in
      let key = 0x20 ∷ (c.serialize k ++ 0xac ∷ []) in
      let pushed = laws.int_push-large n low wide in
      rw pushed (
        decode_closure-csv (length number) (number ++ (0xb2 ∷ 0x75 ∷ key)) _ (
          decode_csv-some (length number) _ (number ++ (0xb2 ∷ 0x75 ∷ key)) number key (single k')
            (subst (λ (s : Str). csv_prefix c tx (s ++ (0xb2 ∷ 0x75 ∷ key)) ≡ some (number, key))
              pushed (csv_prefix-timeout c tx curve laws n key low wide))
            (decode-number_bytes tx laws n low high)
            (decode_multisig-single c tx curve laws k k' p)))

  rebuilt_condition-same :
      (bytes condition : Str) (m : MultisigClosure c.PublicKey)
      → condition_script c tx (record { multisig = m; condition = condition }) ≡ ok bytes
      → rebuilt_condition c tx bytes condition (some m)
        ≡ ok (some (condition_closure (record { multisig = m; condition = condition })))
  unfolding rebuilt_condition
  rebuilt_condition-same bytes condition m e = rw (e, str_eq_refl bytes) refl

  decode_condition-some :
      (o : ℕ) (s condition sub_script : Str) (m : MultisigClosure c.PublicKey)
      → condition_prefix c tx (length (o ∷ s)) (o ∷ s) ≡ (condition, sub_script)
      → decode_multisig c tx sub_script ≡ ok (some m)
      → condition_script c tx (record { multisig = m; condition = condition }) ≡ ok (o ∷ s)
      → decode_condition c tx (o ∷ s)
        ≡ ok (some (condition_closure (record { multisig = m; condition = condition })))
  unfolding decode_condition
  decode_condition-some o s condition sub_script m e e' e'' =
      rw (ap (λ (p : Str × Str). decode_multisig c tx p.1) e ∙ e', ap (λ (p : Str × Str). p.0) e)
        (rebuilt_condition-same (o ∷ s) condition m e'')

  -- If a key can be parsed back from its serialization, the script with a hash of 32 bytes is decoded to
  -- the closure of that key, with the check of the preimage as its condition.
  pub decode_closure-hash_leaf :
      (hash : Str) (k k' : c.PublicKey)
      → IsParsed c k k'
      → length hash ≡ 32
      → decode_closure c tx (hash_leaf c hash k)
        ≡ ok (condition_closure (record { multisig = single k'; condition = condition_bytes hash }))
  decode_closure-hash_leaf hash k k' p size =
      let key = 0x20 ∷ (c.serialize k ++ 0xac ∷ []) in
      let tail = hash ++ (0x87 ∷ 0x69 ∷ key) in
      let rest = 0x20 ∷ tail in
      let long : length (0xa8 ∷ rest) ≡ suc (suc (suc (suc (32 + length key)))) =
        omega (arith, length-append hash (0x87 ∷ 0x69 ∷ key), size) in
      let written : condition_script c tx
            (record { multisig = single k'; condition = condition_bytes hash })
          ≡ ok (0xa8 ∷ rest) =
        unfold script in
        script-condition_closure c tx curve laws k' hash size
        ∙ ap (λ (s : Str). ok (0xa8 ∷ 0x20 ∷ (hash ++ (0x87 ∷ 0x69 ∷ 0x20 ∷ (s ++ 0xac ∷ [])))))
            p.1 in
      decode_closure-condition 0xa8 rest _
        (decode_csv-none c tx curve laws 0xa8 rest
          (csv_prefix-hash c tx curve laws hash (0x87 ∷ 0x69 ∷ key) size))
        (decode_multisig-none c tx curve laws rest)
        (decode_condition-some 0xa8 rest (condition_bytes hash) key (single k')
          (ap (λ (n : ℕ). condition_prefix c tx n (0xa8 ∷ rest)) long
            ∙ condition_prefix-hash c tx curve laws hash key (32 + length key) size)
          (decode_multisig-single c tx curve laws k k' p) written)

  -- If the hash has 32 bytes, the three keys can be parsed back from their serializations and the timeout is
  -- 17 to 2 ^ 22 - 1 blocks, the four leaves of an escrow are decoded to its four closures, with
  -- the keys that are parsed back, but that a timeout of 81 to 96 blocks is decoded as 1 to 16.
  pub decode_closure-leaves :
      (seller buyer oracle seller' buyer' oracle' : c.PublicKey) (hash : Str) (n : ℕ)
      → IsParsed c seller seller'
      → IsParsed c buyer buyer'
      → IsParsed c oracle oracle'
      → length hash ≡ 32
      → 16 < n
      → n < 2 ^ 22
      → map (decode_closure c tx) (
          hash_leaf c hash seller
          ∷ timeout_leaf c tx n buyer
          ∷ pair_leaf c oracle seller
          ∷ pair_leaf c oracle buyer
          ∷ [])
        ≡ map ok
            (escrow_of c tx curve laws seller' buyer' oracle' hash (decoded_timeout n)).closures
  decode_closure-leaves seller buyer oracle seller' buyer' oracle' hash n ps pb po size low high =
      rw
        (
          decode_closure-hash_leaf hash seller seller' ps size,
          decode_closure-timeout_leaf n buyer buyer' pb low high,
          decode_closure-pair_leaf oracle seller oracle' seller' po ps,
          decode_closure-pair_leaf oracle buyer oracle' buyer' po pb,
        )
        refl
