-- ===== src/Recovery/Check.antt =====
-- What `Validate` of pkg/escrow/recovery.go accepts.
use ark_escrow.Base.{Str, lit, true, some, ◌≡◌, refl, arith, ◌≢◌, [], ◌∷◌}
use ark_escrow.Base.{ok, length, str_eq_iff, ◌⊎◌, inl, inr, ◌↔◌}
use ark_escrow.Base.{Option-cases}
use ark_escrow.Hex
use ark_escrow.Curve.{Curve}
use ark_escrow.Recovery.{RecoveryKit, bytes_match, validate, strip_prefix, expected_pub_hex}

bytes_match→eq : (s t : Str) → length s ≡ length t → bytes_match s t ≡ true → s ≡ t
unfolding bytes_match
bytes_match→eq [] [] e h = refl
bytes_match→eq [] (b ∷ t) e h = absurd (omega arith)
bytes_match→eq (a ∷ s) [] e h = absurd (omega arith)
bytes_match→eq (a ∷ s) (b ∷ t) e h = ground (arith, bytes_match→eq s t)

bytes_match_refl : (s : Str) → bytes_match s s ≡ true
unfolding bytes_match
bytes_match_refl [] = refl
bytes_match_refl (a ∷ s) = ground (arith, bytes_match_refl s)

module _ (c : Curve) where
  -- A kit with every field that a claim needs, and the private key of its role.
  pub record IsComplete (r : RecoveryKit) : Type 0 where
    pub role : (r.role ≡ lit "buyer") ⊎ (r.role ≡ lit "seller")
    pub priv_bytes : Str
    pub priv_reads : Hex.decode_string r.priv_key ≡ some priv_bytes
    pub priv_size : length priv_bytes ≡ 32
    pub seller : r.seller_pub_key ≢ []
    pub buyer : r.buyer_pub_key ≢ []
    pub oracle : r.oracle_pub_key ≢ []
    pub hash : r.secret_hash ≢ []
    pub timeout : r.timeout_blocks ≢ 0
    pub amount : r.amount ≢ 0
    pub key_bytes : Str
    pub key_reads : Hex.decode_string (expected_pub_hex r) ≡ some key_bytes
    pub key_matches :
        strip_prefix key_bytes ≡ c.serialize (c.pub_key (c.priv_key_from_bytes priv_bytes))

  validate→IsComplete : (r : RecoveryKit) → validate c r ≡ ok tt → IsComplete r
  unfolding validate
  validate→IsComplete r h = elim (Option-cases (Hex.decode_string r.priv_key)) [
    | inl e1 ↦ ground arith
    | inr (priv, e1) ↦ elim (Option-cases (Hex.decode_string (expected_pub_hex r))) [
      | inl e2 ↦ ground arith
      | inr (key, e2) ↦ record {
        role = ground (arith, str_eq_iff r.role (lit "buyer"), str_eq_iff r.role (lit "seller"));
        priv_bytes = priv;
        priv_reads = e1;
        priv_size = ground arith;
        seller = ground arith;
        buyer = ground arith;
        oracle = ground arith;
        hash = ground arith;
        timeout = ground arith;
        amount = ground arith;
        key_bytes = key;
        key_reads = e2;
        key_matches = ground (
          arith,
          bytes_match→eq (c.serialize (c.pub_key (c.priv_key_from_bytes priv))) (strip_prefix key),
        );
      }
    ]
  ]

  IsComplete→validate : (r : RecoveryKit) → IsComplete r → validate c r ≡ ok tt
  unfolding validate
  IsComplete→validate r h = ground (
    arith,
    str_eq_iff r.role (lit "buyer"),
    str_eq_iff r.role (lit "seller"),
    Hex.decode_string-nil,
    bytes_match_refl (c.serialize (c.pub_key (c.priv_key_from_bytes h.priv_bytes))),
  )

  -- `Validate` accepts a kit exactly if the role is buyer or seller, the private key is 32 bytes of
  -- hexadecimal, keys, hash, timeout and amount are there, and the public key of the role, less the
  -- prefix of a compressed key, is the x-only key of that private key.
  pub validate_iff : (r : RecoveryKit) → (validate c r ≡ ok tt) ↔ IsComplete r
  validate_iff r = (validate→IsComplete r, IsComplete→validate r)
