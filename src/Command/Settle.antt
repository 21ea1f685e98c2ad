-- ===== src/Command/Settle.antt =====
-- `releaseAction`, `refundAction` and `disputeAction` of cmd/escrow/commands.go: a claim of the escrow,
-- a payment over Lightning, then the deal's method and its file.
pub mod Counts
pub mod Outcomes
pub mod Succeeding
pub mod Actions
pub mod Inputs
use ark_escrow.Base.{
  ℕ, Str, lit, Option, some, none, [], List, ◌∷◌, Result, ok, err, or_err, wrap_err, require,
  is_empty, not, str_eq, true, Bool, if◌then◌else◌, ◌||◌,
}
use ark_escrow.Hex
use ark_escrow.Curve.{Curve}
use ark_escrow.Script.Txscript.{Txscript}
use ark_escrow.Deal.{Deal, DealError, release, refund, dispute}
use ark_escrow.Params.{escrow_params}
use ark_escrow.Escrow.{EscrowScript, new_escrow_script}
use ark_escrow.Escrow.Elements.{Taproot}
use ark_escrow.Store.{DealJson, load, save}
use ark_escrow.Swap.Pset.{Network, Psetv2}
use ark_escrow.Swap.Claim.{ClaimEscrowConfig}
use ark_escrow.Swap.Claim.Broadcast.{claim}
use ark_escrow.Swap.Services.{Services, get_new_address, call}
use ark_escrow.Swap.Payout.{payout}
use ark_escrow.Command.{
  CommandError, store_failed, seller_key_missing, buyer_key_missing, secret_missing, invalid_secret,
  invalid_winner, invalid_seller_key, invalid_buyer_key, invalid_oracle_key, invalid_node_url,
  no_destination, params_failed, script_failed, claim_failed, payout_failed, changed, left_by,
  parse_priv_key, stored_key, deal_script, opened_deal,
}
use ark_escrow.Command.Settle.Inputs.{leaf_release, leaf_timeout, release_inputs, dispute_inputs}
use ark_escrow.Command.World.{World, Env, Action, ◌>>=◌, ◌>>◌, try, serve, reads, writes}

-- The flags of the three commands.
pub record SettleFlags : Type 0 where
  pub deal : Str
  pub invoice : Str
  pub dest_address : Str

module _ (services : Services) where
  -- `if destAddr == "" { destAddr, err = elementsd.GetNewAddress(ctx) }`
  unfoldable pub destination : Str → Action CommandError Str
  destination dest_address =
      if is_empty dest_address
      then serve (λ e. e) (call get_new_address no_destination services.new_address)
      else try (ok dest_address)

module _ (services : Services) (json : DealJson) where
  -- Step 2 of the three actions, and the deal's method and file; `finish` is the method.
  unfoldable pub pay_and_finish :
      Str → Deal → (Str → Deal → Deal × Option DealError) → Str → Action CommandError (Unit {0})
  pay_and_finish invoice deal finish id = do
    _ ← serve (payout_failed id) (payout services true invoice 0)
    settled ← try (changed (finish id deal))
    writes left_by (λ disk. wrap_err store_failed (save json settled disk))

module _ (c : Curve) where
  abbrev pub claim_config :
      EscrowScript c.PublicKey
      → Deal
      → ℕ
      → List (Option c.PrivateKey)
      → Option Str
      → Str
      → ClaimEscrowConfig c
  claim_config es deal leaf keys preimage dest = record {
    escrow_script = some es;
    fund_tx_id = deal.fund_tx_id;
    fund_vout = deal.fund_vout;
    amount = deal.amount;
    leaf = leaf;
    signing_keys = keys;
    preimage = preimage;
    dest_address = dest;
    fee = 0;
    network = none;
  }

module _ (services : Services) (json : DealJson) (c : Curve) (tx : Txscript)
    (taproot : Taproot c.PublicKey) (lib : Psetv2 c) (regtest : Network) where
  -- From the script on: step 1, then step 2.
  unfoldable pub claim_and_finish :
      Str
      → Deal
      → ℕ
      → List (Option c.PrivateKey)
      → Option Str
      → (Str → Deal → Deal × Option DealError)
      → Str
      → Action CommandError (Unit {0})
  unfolding pay_and_finish
  claim_and_finish invoice deal leaf keys preimage finish dest = do
    es ← try (deal_script c tx deal)
    id ←
        serve claim_failed
          (claim services c tx taproot lib regtest (claim_config c es deal leaf keys preimage dest))
    pay_and_finish services json invoice deal finish id

  -- What the three actions do alike, from the node's client on.
  unfoldable pub settle :
      Env
      → SettleFlags
      → Deal
      → ℕ
      → List (Option c.PrivateKey)
      → Option Str
      → (Str → Deal → Deal × Option DealError)
      → Action CommandError (Unit {0})
  unfolding destination claim_and_finish
  settle env flags deal leaf keys preimage finish = do
    try (require env.node_url_parses invalid_node_url)
    dest ← destination services flags.dest_address
    claim_and_finish flags.invoice deal leaf keys preimage finish dest

  unfoldable pub release_action : Env → ℕ → SettleFlags → Action CommandError (Unit {0})
  unfolding settle release_inputs
  release_action env now flags = do
    deal ← reads (opened_deal json env flags.deal)
    (seller_key, preimage) ← try (release_inputs c deal)
    settle env flags deal leaf_release (some seller_key ∷ []) (some preimage) (release now)

  unfoldable pub refund_action : Env → ℕ → SettleFlags → Action CommandError (Unit {0})
  unfolding settle
  refund_action env now flags = do
    deal ← reads (opened_deal json env flags.deal)
    buyer_key ← try (stored_key c buyer_key_missing invalid_buyer_key deal.buyer_priv_key)
    settle env flags deal leaf_timeout (some buyer_key ∷ []) none (refund now)

  unfoldable pub dispute_action : Env → ℕ → SettleFlags → Str → Str → Action CommandError (Unit {0})
  unfolding settle dispute_inputs
  dispute_action env now flags winner oracle_priv_key = do
    deal ← reads (opened_deal json env flags.deal)
    (oracle_key, winner_key, leaf) ← try (dispute_inputs c winner oracle_priv_key deal)
    settle env flags deal leaf (some oracle_key ∷ some winner_key ∷ []) none (dispute now)
