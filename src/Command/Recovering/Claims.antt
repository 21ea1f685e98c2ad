-- ===== src/Command/Recovering/Claims.antt =====
-- The claim that `recoverAction` of cmd/escrow/commands.go makes from a kit is the one that
-- `refundAction` and `releaseAction` make from the deal.
use ark_escrow.Base.{
  ℕ, ◌∷◌, Option, Str, lit, some, none, [], ok, ◌≡◌, refl, subst, ◌∙◌, str_eq, arith, inl, inr,
  Result-cases,
}
use ark_escrow.Curve.{Curve}
use ark_escrow.Script.Txscript.{Txscript}
use ark_escrow.Deal.{Deal}
use ark_escrow.Params.{EscrowParams, escrow_params}
use ark_escrow.Escrow.{EscrowScript, new_escrow_script}
use ark_escrow.Escrow.Elements.{Taproot}
use ark_escrow.Recovery.{
  RecoveryKit, kit_escrow_params, recovery_kit_for_buyer, recovery_kit_for_seller,
}
use ark_escrow.Recovery.Address.{address}
use ark_escrow.Command.{parse_priv_key, deal_script}
use ark_escrow.Command.Settle.{claim_config}
use ark_escrow.Command.Settle.Inputs.{release_inputs, leaf_release, leaf_timeout}
use ark_escrow.Command.Recovering.{kit_claim, leaf_and_preimage, secret_hex}

-- The kits of a deal with a prefix.
abbrev buyer_kit : Deal → Str → RecoveryKit
buyer_kit deal hrp = record {
  role = lit "buyer";
  priv_key = deal.buyer_priv_key;
  secret = deal.secret;
  seller_pub_key = deal.seller_pub_key;
  buyer_pub_key = deal.buyer_pub_key;
  oracle_pub_key = deal.oracle_pub_key;
  secret_hash = deal.secret_hash;
  timeout_blocks = deal.timeout_blocks;
  fund_tx_id = deal.fund_tx_id;
  fund_vout = deal.fund_vout;
  amount = deal.amount;
  network_hrp = hrp;
}

abbrev seller_kit : Deal → Str → RecoveryKit
seller_kit deal hrp = record {
  role = lit "seller";
  priv_key = deal.seller_priv_key;
  secret = [];
  seller_pub_key = deal.seller_pub_key;
  buyer_pub_key = deal.buyer_pub_key;
  oracle_pub_key = deal.oracle_pub_key;
  secret_hash = deal.secret_hash;
  timeout_blocks = deal.timeout_blocks;
  fund_tx_id = deal.fund_tx_id;
  fund_vout = deal.fund_vout;
  amount = deal.amount;
  network_hrp = hrp;
}

buyer_kit_lem :
    (deal : Deal) (kit : RecoveryKit) (hrp : Str)
    → recovery_kit_for_buyer deal ≡ ok kit
    → buyer_kit deal hrp ≡ record kit { network_hrp = hrp }
unfolding recovery_kit_for_buyer
buyer_kit_lem deal kit hrp made = ground arith

seller_kit_lem :
    (deal : Deal) (kit : RecoveryKit) (hrp : Str)
    → recovery_kit_for_seller deal ≡ ok kit
    → seller_kit deal hrp ≡ record kit { network_hrp = hrp }
unfolding recovery_kit_for_seller
seller_kit_lem deal kit hrp made = ground arith

module _ (c : Curve) (tx : Txscript) (taproot : Taproot c.PublicKey) where
  kit_claim-made :
      (kit : RecoveryKit) (es : EscrowScript c.PublicKey) (addr secret dest : Str)
      (key : c.PrivateKey) (params : EscrowParams c.PublicKey) (leaf : ℕ) (preimage : Option Str)
      → kit_escrow_params c kit ≡ ok params
      → new_escrow_script tx params ≡ ok es
      → address c tx taproot es kit.network_hrp ≡ ok addr
      → parse_priv_key c kit.priv_key ≡ ok key
      → leaf_and_preimage kit secret ≡ ok (leaf, preimage)
      → kit_claim c tx taproot kit secret dest
        ≡ ok (record {
          escrow_script = some es;
          fund_tx_id = kit.fund_tx_id;
          fund_vout = kit.fund_vout;
          amount = kit.amount;
          leaf = leaf;
          signing_keys = some key ∷ [];
          preimage = preimage;
          dest_address = dest;
          fee = 0;
          network = none;
        })
  unfolding kit_claim
  kit_claim-made kit es addr secret dest key params leaf preimage h h' h'' h3 h4 =
      rw (h, h', h'', h3, h4) refl

  deal_script-ok :
      (deal : Deal) (es : EscrowScript c.PublicKey)
      → deal_script c tx deal ≡ ok es
      → (params : EscrowParams c.PublicKey) × (escrow_params c deal ≡ ok params)
        × (new_escrow_script tx params ≡ ok es)
  unfolding deal_script
  deal_script-ok deal es h = elim (Result-cases (escrow_params c deal)) [
    | inr (e, h') ↦ ground arith
    | inl (params, h') ↦ (params, h', ground arith)
  ]

  params_buyer :
      (deal : Deal) (hrp : Str) → kit_escrow_params c (buyer_kit deal hrp) ≡ escrow_params c deal
  unfolding kit_escrow_params escrow_params
  params_buyer deal hrp = refl

  params_seller :
      (deal : Deal) (hrp : Str) → kit_escrow_params c (seller_kit deal hrp) ≡ escrow_params c deal
  unfolding kit_escrow_params escrow_params
  params_seller deal hrp = refl

  buyer_leaf :
      (deal : Deal) (hrp secret : Str)
      → leaf_and_preimage (buyer_kit deal hrp) secret ≡ ok (leaf_timeout, none)
  unfolding leaf_and_preimage str_eq
  buyer_leaf deal hrp secret = refl

  seller_leaf :
      (deal : Deal) (hrp : Str) (key : c.PrivateKey) (preimage : Str)
      → release_inputs c deal ≡ ok (key, preimage)
      → (parse_priv_key c deal.seller_priv_key ≡ ok key)
        × (leaf_and_preimage (seller_kit deal hrp) deal.secret ≡ ok (leaf_release, some preimage))
  unfolding leaf_and_preimage secret_hex release_inputs str_eq
  seller_leaf deal hrp key preimage inputs = ground arith

  -- If a deal's buyer has a key and the escrow's address under the prefix can be written, the buyer's kit makes
  -- the very claim that `refundAction` makes for the deal: its outpoint, amount and script, the
  -- timeout leaf and the buyer's key.
  pub kit_claim-refund :
      (deal : Deal) (kit : RecoveryKit) (es : EscrowScript c.PublicKey) (key : c.PrivateKey)
      (hrp addr secret dest : Str)
      → recovery_kit_for_buyer deal ≡ ok kit
      → deal_script c tx deal ≡ ok es
      → address c tx taproot es hrp ≡ ok addr
      → parse_priv_key c deal.buyer_priv_key ≡ ok key
      → kit_claim c tx taproot (record kit { network_hrp = hrp }) secret dest
        ≡ ok (claim_config c es deal leaf_timeout (some key ∷ []) none dest)
  kit_claim-refund deal kit es key hrp addr secret dest made scripted written parses =
      let found = deal_script-ok deal es scripted in
      subst
        (λ (k : RecoveryKit).
          kit_claim c tx taproot k secret dest
          ≡ ok (claim_config c es deal leaf_timeout (some key ∷ []) none dest))
        (buyer_kit_lem deal kit hrp made)
        (kit_claim-made (buyer_kit deal hrp) es addr secret dest key found.0 leaf_timeout none
          (params_buyer deal hrp ∙ found.1) found.2 written parses (buyer_leaf deal hrp secret))

  -- If a deal's seller has a key and the escrow's address under the prefix can be written, the seller's kit
  -- with the deal's secret makes the very claim that `releaseAction` makes for the deal: its outpoint, amount and script,
  -- the release leaf, the seller's key and the preimage.
  pub kit_claim-release :
      (deal : Deal) (kit : RecoveryKit) (es : EscrowScript c.PublicKey) (key : c.PrivateKey)
      (hrp addr preimage dest : Str)
      → recovery_kit_for_seller deal ≡ ok kit
      → deal_script c tx deal ≡ ok es
      → address c tx taproot es hrp ≡ ok addr
      → release_inputs c deal ≡ ok (key, preimage)
      → kit_claim c tx taproot (record kit { network_hrp = hrp }) deal.secret dest
        ≡ ok (claim_config c es deal leaf_release (some key ∷ []) (some preimage) dest)
  kit_claim-release deal kit es key hrp addr preimage dest made scripted written inputs =
      let found = deal_script-ok deal es scripted in
      let keyed = seller_leaf deal hrp key preimage inputs in
      subst
        (λ (k : RecoveryKit).
          kit_claim c tx taproot k deal.secret dest
          ≡ ok (claim_config c es deal leaf_release (some key ∷ []) (some preimage) dest))
        (seller_kit_lem deal kit hrp made)
        (kit_claim-made (seller_kit deal hrp) es addr deal.secret dest key found.0 leaf_release
          (some preimage) (params_seller deal hrp ∙ found.1) found.2 written keyed.0 keyed.1)
