-- ===== src/Params/Laws.antt =====
-- When the texts of a deal (pkg/escrow/deal.go, `EscrowParams`) give escrow parameters.
use ark_escrow.Base.{Str, false, some, ◌≡◌, refl, arith}
use ark_escrow.Base.{ok, length, is_empty}
use ark_escrow.Base.{IsBytes, Result-cases, inl, inr, false, ap}
use mathlib.Core.Option
use ark_escrow.Hex
use ark_escrow.Curve.{Curve, IsCurve}
use ark_escrow.Deal.{Deal}
use ark_escrow.Script.Locktime.{block}
use ark_escrow.Params.{EscrowParams, decode_pub_key, escrow_params}

module _ (c : Curve) where
  -- A deal whose texts can be read.
  pub record Reads (d : Deal) (p : EscrowParams c.PublicKey) : Type 0 where
    pub seller : c.PublicKey
    pub buyer : c.PublicKey
    pub oracle : c.PublicKey
    pub seller_reads : decode_pub_key c d.seller_pub_key ≡ ok seller
    pub buyer_reads : decode_pub_key c d.buyer_pub_key ≡ ok buyer
    pub oracle_reads : decode_pub_key c d.oracle_pub_key ≡ ok oracle
    pub seller_field : p.seller_pub_key ≡ some seller
    pub buyer_field : p.buyer_pub_key ≡ some buyer
    pub oracle_field : p.oracle_pub_key ≡ some oracle
    pub hash_reads : Hex.decode_string d.secret_hash ≡ some p.secret_hash
    pub hash_size : length p.secret_hash ≡ 32
    pub timeout_field : p.timeout ≡ record { type = block; value = d.timeout_blocks }

  -- Parameters come only from three keys that can be read, none of them nil, and 32 bytes of hash,
  -- with the deal's timeout as a number of blocks.
  pub escrow_params-Reads :
      (d : Deal) (p : EscrowParams c.PublicKey) → escrow_params c d ≡ ok p → Reads d p
  unfolding escrow_params
  escrow_params-Reads d p h = elim (Result-cases (decode_pub_key c d.seller_pub_key)) [
    | inr (_, e1) ↦ ground arith
    | inl (seller, e1) ↦ elim (Result-cases (decode_pub_key c d.buyer_pub_key)) [
      | inr (_, e2) ↦ ground arith
      | inl (buyer, e2) ↦ elim (Result-cases (decode_pub_key c d.oracle_pub_key)) [
        | inr (_, e3) ↦ ground arith
        | inl (oracle, e3) ↦ record {
          seller = seller;
          buyer = buyer;
          oracle = oracle;
          seller_reads = e1;
          buyer_reads = e2;
          oracle_reads = e3;
          seller_field = ground arith;
          buyer_field = ground arith;
          oracle_field = ground arith;
          hash_reads = ground arith;
          hash_size = ground arith;
          timeout_field = ground arith;
        }
      ]
    ]
  ]

  -- The hexadecimal text of a serialized key, as `create` and `join` write it.
  abbrev pub key_text : c.PublicKey → Str
  key_text k = Hex.encode_to_string (c.serialize k)

  key_text-not-empty : IsCurve c → (k : c.PublicKey) → is_empty (key_text k) ≡ false
  key_text-not-empty laws k =
      ground (arith, laws.length-serialize k, Hex.length-encode_to_string (c.serialize k))

  pub decode_pub_key-key_text :
      IsCurve c
      → (k : c.PublicKey)
      → (k' : c.PublicKey) × (decode_pub_key c (key_text k) ≡ ok k')
        × (c.serialize k' ≡ c.serialize k)
  unfolding decode_pub_key
  decode_pub_key-key_text laws k =
      let (k', parses, same) = laws.parse_x_only-serialize k in
      (
        k',
        ground (
          arith,
          parses,
          Hex.decode_string-encode_to_string (c.serialize k) (laws.serialize-IsBytes k),
          laws.length-serialize k,
        ),
        same,
      )

  -- A deal whose texts come from keys and a hash of 32 bytes gives parameters, with keys that have
  -- the same x coordinates and that hash.
  pub escrow_params_of_keys :
      IsCurve c
      → (d : Deal) (seller buyer oracle : c.PublicKey) (hash : Str)
      → d.seller_pub_key ≡ key_text seller
      → d.buyer_pub_key ≡ key_text buyer
      → d.oracle_pub_key ≡ key_text oracle
      → d.secret_hash ≡ Hex.encode_to_string hash
      → length hash ≡ 32
      → IsBytes hash
      → (p : EscrowParams c.PublicKey) × (escrow_params c d ≡ ok p)
        × (Option.map c.serialize p.seller_pub_key ≡ some (c.serialize seller))
        × (Option.map c.serialize p.buyer_pub_key ≡ some (c.serialize buyer))
        × (Option.map c.serialize p.oracle_pub_key ≡ some (c.serialize oracle))
        × (p.secret_hash ≡ hash)
        × (p.timeout ≡ record { type = block; value = d.timeout_blocks })
  unfolding escrow_params
  escrow_params_of_keys laws d seller buyer oracle hash e1 e2 e3 e4 size bytes =
      let (s, s_reads, s_same) = decode_pub_key-key_text laws seller in
      let (b, b_reads, b_same) = decode_pub_key-key_text laws buyer in
      let (o, o_reads, o_same) = decode_pub_key-key_text laws oracle in
      let hash_reads = Hex.decode_string-encode_to_string hash bytes in
      (
        record {
          seller_pub_key = some s;
          buyer_pub_key = some b;
          oracle_pub_key = some o;
          secret_hash = hash;
          timeout = record { type = block; value = d.timeout_blocks };
        },
        ground (
          arith,
          key_text-not-empty laws seller,
          key_text-not-empty laws buyer,
          key_text-not-empty laws oracle,
          Hex.length-encode_to_string hash,
        ),
        ap some s_same,
        ap some b_same,
        ap some o_same,
        refl,
        refl,
      )
