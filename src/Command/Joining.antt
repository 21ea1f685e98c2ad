-- ===== src/Command/Joining.antt =====
-- `joinAction` of cmd/escrow/commands.go.
use ark_escrow.Base.{
  ℕ, Str, Option, some, none, ok, err, arith, refl, ◌≡◌, Result-cases, inl, inr, subst, ◌∙◌,
}
use ark_escrow.Hex
use ark_escrow.Curve.{Curve}
use ark_escrow.Script.Txscript.{Txscript}
use ark_escrow.Escrow.{generate_secret}
use ark_escrow.Escrow.Elements.{Taproot}
use ark_escrow.Recovery.Address.{EscrowAddressError, deal_escrow_address}
use ark_escrow.Deal.{Deal, JoinToken, created, joined, set_escrow_address}
use ark_escrow.Params.{escrow_params}
use ark_escrow.Store.{DealJson, load, save}
use ark_escrow.Store.Files.{Disk}
use ark_escrow.Command.{join_deal, join_action, local_deal}

module _ (c : Curve) (tx : Txscript) (taproot : Taproot c.PublicKey) where
  deal_escrow_address-private :
      (deal : Deal) (now : ℕ) (addr hrp key secret : Str)
      → deal_escrow_address c tx taproot
          (set_escrow_address now addr (record deal { buyer_priv_key = key; secret = secret }))
          hrp
        ≡ deal_escrow_address c tx taproot deal hrp
  unfolding deal_escrow_address escrow_params set_escrow_address
  deal_escrow_address-private deal now addr hrp key secret = refl

module _ (json : DealJson) (c : Curve) (tx : Txscript) (taproot : Taproot c.PublicKey) where
  -- A deal in the state created, and the same deal with a buyer and the address of its parameters.
  pub record Joins (hrp : Str) (deal deal' : Deal) : Type 0 where
    pub was_created : deal.state ≡ created
    pub now_joined : deal'.state ≡ joined
    pub same_id : deal'.id ≡ deal.id
    pub same_title : deal'.title ≡ deal.title
    pub same_amount : deal'.amount ≡ deal.amount
    pub same_seller : deal'.seller_pub_key ≡ deal.seller_pub_key
    pub same_oracle : deal'.oracle_pub_key ≡ deal.oracle_pub_key
    pub same_timeout : deal'.timeout_blocks ≡ deal.timeout_blocks
    pub derives : deal_escrow_address c tx taproot deal' hrp ≡ ok deal'.escrow_address

  -- The deal after `Join`.
  abbrev joined_by : ℕ → c.PrivateKey → Str → Deal → Deal
  joined_by now key secret_hash deal = record deal {
    buyer_pub_key = Hex.encode_to_string (c.serialize (c.pub_key key));
    secret_hash = Hex.encode_to_string secret_hash;
    state = joined;
    updated_at = now;
  }

  -- The deal that is saved: with its private texts and its address.
  abbrev with_address : ℕ → c.PrivateKey → Str → Str → Deal → Deal
  with_address now key secret addr deal = set_escrow_address now addr (record deal {
    buyer_priv_key = Hex.encode_to_string (c.serialize_priv key);
    secret = Hex.encode_to_string secret;
  })

  join_deal-failed :
      (now : ℕ) (key : c.PrivateKey) (secret secret_hash hrp : Str) (deal deal' : Deal)
      (e : EscrowAddressError)
      → deal_escrow_address c tx taproot (joined_by now key secret_hash deal) hrp ≡ err e
      → ¬ (join_deal c tx taproot now key secret secret_hash hrp deal ≡ ok deal')
  unfolding join_deal
  join_deal-failed now key secret secret_hash hrp deal deal' e failed done = ground arith

  join_deal-made :
      (now : ℕ) (key : c.PrivateKey) (secret secret_hash hrp addr : Str) (deal deal' : Deal)
      → deal_escrow_address c tx taproot (joined_by now key secret_hash deal) hrp ≡ ok addr
      → join_deal c tx taproot now key secret secret_hash hrp deal ≡ ok deal'
      → (deal.state ≡ created)
        × (with_address now key secret addr (joined_by now key secret_hash deal) ≡ deal')
  unfolding join_deal
  join_deal-made now key secret secret_hash hrp addr deal deal' derived done = ground arith

  with_address-Joins :
      (now : ℕ) (key : c.PrivateKey) (secret secret_hash hrp addr : Str) (deal : Deal)
      → deal_escrow_address c tx taproot (joined_by now key secret_hash deal) hrp ≡ ok addr
      → deal.state ≡ created
      → Joins hrp deal (with_address now key secret addr (joined_by now key secret_hash deal))
  unfolding set_escrow_address
  with_address-Joins now key secret secret_hash hrp addr deal derived was = record {
    was_created = was;
    now_joined = refl;
    same_id = refl;
    same_title = refl;
    same_amount = refl;
    same_seller = refl;
    same_oracle = refl;
    same_timeout = refl;
    derives =
        deal_escrow_address-private c tx taproot (joined_by now key secret_hash deal) now addr hrp
          (Hex.encode_to_string (c.serialize_priv key)) (Hex.encode_to_string secret)
        ∙ derived;
  }

  join_deal-Joins :
      (now : ℕ) (key : c.PrivateKey) (secret secret_hash hrp : Str) (deal deal' : Deal)
      → join_deal c tx taproot now key secret secret_hash hrp deal ≡ ok deal'
      → Joins hrp deal deal'
  join_deal-Joins now key secret secret_hash hrp deal deal' done =
      elim (Result-cases
          (deal_escrow_address c tx taproot (joined_by now key secret_hash deal) hrp))
        as (λ _. Joins hrp deal deal') [
          | inr (e, failed) ↦
              absurd (join_deal-failed now key secret secret_hash hrp deal deal' e failed done)
          | inl (addr, derived) ↦
              let made =
                join_deal-made now key secret secret_hash hrp addr deal deal' derived done in
              subst (λ (d : Deal). Joins hrp deal d) made.1
                (with_address-Joins now key secret secret_hash hrp addr deal derived made.0)
        ]

  -- What a successful `joinAction` did.
  pub record Joined (started : ℕ) (token : JoinToken) (hrp : Str) (disk disk' : Disk) : Type 0 where
    pub deal : Deal
    pub joins : Joins hrp (local_deal started token (load json token.deal_id disk)) deal
    pub saves : save json deal disk ≡ ok disk'

  -- If `joinAction` succeeds with a token, it saved a deal that is joined and has the id, title, amount,
  -- seller, oracle and timeout of the deal that the store had under the token's id, or else of the
  -- token; that deal was in the state created, and the saved escrow address is the one that the
  -- saved keys, hash and timeout give.
  pub join_action-Joined :
      (sha256 : Str → Str) (started now : ℕ) (token : JoinToken) (drawn : Option c.PrivateKey)
      (random : Option Str) (hrp : Str) (disk disk' : Disk)
      → join_action json c tx taproot sha256 started now (some token) drawn random hrp (some disk)
        ≡ ok disk'
      → Joined started token hrp disk disk'
  unfolding join_action generate_secret
  join_action-Joined sha256 started now token none random hrp disk disk' done = ground arith
  join_action-Joined sha256 started now token (some key) none hrp disk disk' done = ground arith
  join_action-Joined sha256 started now token (some key) (some secret) hrp disk disk' done =
      let deal = local_deal started token (load json token.deal_id disk) in
      elim (Result-cases (join_deal c tx taproot now key secret (sha256 secret) hrp deal)) [
        | inr (e, failed) ↦ ground arith
        | inl (deal', made) ↦ record {
          deal = deal';
          joins = join_deal-Joins now key secret (sha256 secret) hrp deal deal' made;
          saves = ground arith;
        }
      ]
