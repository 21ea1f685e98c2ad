-- ===== src/Command/Creating.antt =====
-- `createAction` of cmd/escrow/commands.go.
use ark_escrow.Base.{
  ℕ, false, ◌%◌, ◌^◌, Str, Option, some, none, [], ok, or_err, wrap_err, require, is_empty, not,
  ◌≡◌, refl, arith,
}
use ark_escrow.Hex
use ark_escrow.Hex.{decode_string-encode_to_string}
use ark_escrow.Curve.{Curve, IsCurve}
use ark_escrow.Deal.{Deal, created, new_deal, generate_deal_id}
use ark_escrow.Store.{DealJson, mkdir_failed, save}
use ark_escrow.Command.{
  CommandError, left_by, store_failed, key_failed, oracle_missing, draw_failed, parse_priv_key,
}
use ark_escrow.Command.World.{World, Env, Action, ◌>>=◌, ◌>>◌, try, writes}

pub record CreateFlags : Type 0 where
  pub title : Str
  pub amount : ℕ  -- uint64
  pub timeout : ℕ  -- uint64
  pub oracle_pub_key : Str

module _ (json : DealJson) (c : Curve) where
  -- The key and the bytes of the id as they were drawn.
  unfoldable pub create_action :
      Env → ℕ → Option c.PrivateKey → Option Str → CreateFlags → Action CommandError (Unit {0})
  create_action env now drawn random flags = do
    try (require env.directory_made (store_failed mkdir_failed))
    try (require (not (is_empty flags.oracle_pub_key)) oracle_missing)
    key ← try (or_err key_failed drawn)
    let seller_pub_key = Hex.encode_to_string (c.serialize (c.pub_key key))
    deal ← try (
        or_err draw_failed (
          new_deal random now flags.title flags.amount seller_pub_key flags.oracle_pub_key
            (flags.timeout % 2 ^ 32)))
    let kept = record deal { seller_priv_key = Hex.encode_to_string (c.serialize_priv key) }
    writes left_by (λ disk. wrap_err store_failed (save json kept disk))

parse_priv_key-text :
    (c : Curve) (curve : IsCurve c) (key : c.PrivateKey)
    → parse_priv_key c (Hex.encode_to_string (c.serialize_priv key)) ≡ ok key
unfolding parse_priv_key
parse_priv_key-text c curve key =
    rw
      (
        decode_string-encode_to_string (c.serialize_priv key) (curve.serialize_priv-IsBytes key),
        curve.length-serialize_priv key,
        curve.priv_key_from_bytes-serialize_priv key,
      )
      refl

module _ (json : DealJson) (c : Curve) (curve : IsCurve c) where
  -- What a successful `createAction` did.
  pub record Created (now : ℕ) (drawn : Option c.PrivateKey) (flags : CreateFlags)
      (before after : World) : Type 0 where
    pub deal : Deal
    pub key : c.PrivateKey
    pub drew : drawn ≡ some key
    pub is_created : deal.state ≡ created
    pub same_title : deal.title ≡ flags.title
    pub same_amount : deal.amount ≡ flags.amount
    pub same_oracle : deal.oracle_pub_key ≡ flags.oracle_pub_key
    pub has_oracle : is_empty flags.oracle_pub_key ≡ false
    pub wraps : deal.timeout_blocks ≡ flags.timeout % 2 ^ 32
    pub public_text : deal.seller_pub_key ≡ Hex.encode_to_string (c.serialize (c.pub_key key))
    pub private_reads : parse_priv_key c deal.seller_priv_key ≡ ok key
    pub saves : save json deal before.disk ≡ ok after.disk
    pub same_log : after.log ≡ before.log

  -- If `createAction` succeeds, it saved a deal in the state created with the title, the amount and the
  -- oracle of its flags, the timeout modulo 2 ^ 32 and the public key that was drawn, and its private
  -- key is read back by the later commands; nothing is asked of the services.
  pub create_action-Created :
      (env : Env) (now : ℕ) (drawn : Option c.PrivateKey) (random : Option Str)
      (flags : CreateFlags) (w w' : World)
      → create_action json c env now drawn random flags w ≡ (ok tt, w')
      → Created now drawn flags w w'
  unfolding create_action new_deal generate_deal_id
  create_action-Created env now none random flags w w' done = ground arith
  create_action-Created env now (some key) none flags w w' done = ground arith
  create_action-Created env now (some key) (some b) flags w w' done =
      let deal : Deal = record {
        id = Hex.encode_to_string b;
        state = created;
        title = flags.title;
        amount = flags.amount;
        created_at = now;
        updated_at = now;
        seller_pub_key = Hex.encode_to_string (c.serialize (c.pub_key key));
        buyer_pub_key = [];
        oracle_pub_key = flags.oracle_pub_key;
        secret_hash = [];
        timeout_blocks = flags.timeout % 2 ^ 32;
        escrow_address = [];
        fund_tx_id = [];
        fund_vout = 0;
        claim_tx_id = [];
        seller_priv_key = Hex.encode_to_string (c.serialize_priv key);
        buyer_priv_key = [];
        secret = [];
      } in
      record {
        deal = deal;
        key = key;
        drew = refl;
        is_created = refl;
        same_title = refl;
        same_amount = refl;
        same_oracle = refl;
        has_oracle = ground arith;
        wraps = refl;
        public_text = refl;
        private_reads = parse_priv_key-text c curve key;
        saves = ground arith;
        same_log = ground arith;
      }
