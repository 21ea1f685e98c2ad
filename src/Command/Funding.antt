-- ===== src/Command/Funding.antt =====
-- `fundAction` of cmd/escrow/commands.go: from a Lightning payment to a funded deal.
pub mod Ends
pub mod Outcomes
pub mod Succeeding
use ark_escrow.Base.{
  ℕ, Str, Option, some, none, [], Bool, true, or_err, wrap_err, require, is_empty, not,
}
use ark_escrow.Curve.{Curve}
use ark_escrow.Script.Txscript.{Txscript}
use ark_escrow.Deal.{Deal}
use ark_escrow.Deal
use ark_escrow.Escrow.Elements.{Taproot}
use ark_escrow.Store.{DealJson, save}
use ark_escrow.Swap.Pset.{Network, Psetv2}
use ark_escrow.Swap.Services.{Services, Log}
use ark_escrow.Swap.Htlc.Funding.{find_vout_by_address}
use ark_escrow.Swap.Fund.{FundConfig, FundResult, wait_for_payment_claim_and_settle}
use ark_escrow.Swap.Fund
use ark_escrow.Command.{
  CommandError, store_failed, key_failed, invalid_node_url, not_joined, fund_failed, swap_failed,
  vout_missing, changed, left_by, opened_deal,
}
use ark_escrow.Command.World.{Env, Action, ◌>>=◌, ◌>>◌, try, serve, reads, writes}

module _ (c : Curve) where
  -- The arguments of `Fund`; the fields that are left out are zero.
  abbrev pub fund_config : Deal → c.PrivateKey → FundConfig c
  fund_config deal key = record {
    has_lnd = true;
    has_elementsd = true;
    escrow_address = deal.escrow_address;
    service_pub_key = some (c.pub_key key);
    service_priv_key = some key;
    amount_sats = deal.amount;
    invoice_expiry = 0;
    htlc_timeout = 0;
    network_hrp = [];
  }

module _ (services : Services) (json : DealJson) where
  -- From the escrow's transaction on.
  unfoldable pub finish : ℕ → Deal → Str → Action CommandError (Unit {0})
  finish now deal tx_id = do
    vout ← serve (vout_missing tx_id) (find_vout_by_address services tx_id deal.escrow_address)
    funded ← try (changed (Deal.fund now tx_id vout deal))
    writes left_by (λ disk. wrap_err store_failed (save json funded disk))

module _ (services : Services) (json : DealJson) (c : Curve) (tx : Txscript)
    (taproot : Taproot c.PublicKey) (lib : Psetv2 c) (regtest : Network) where
  -- From the locked HTLC on.
  unfoldable pub swap_and_finish :
      ℕ
      → (Log → Bool)
      → ℕ
      → Deal
      → c.PrivateKey
      → FundResult c.PublicKey
      → Action CommandError (Unit {0})
  unfolding finish
  swap_and_finish now done fuel deal key result = do
    tx_id ← serve swap_failed (
        wait_for_payment_claim_and_settle c tx taproot services lib regtest result (some key)
          deal.escrow_address deal.amount none done fuel)
    finish services json now deal tx_id

  -- The key and the preimage as they were drawn, and the context's end and the fuel of the polling loop.
  unfoldable pub fund_action :
      (Str → Str)
      → Option c.PrivateKey
      → Option Str
      → (Log → Bool)
      → ℕ
      → Env
      → ℕ
      → Str
      → Action CommandError (Unit {0})
  unfolding swap_and_finish
  fund_action sha256 drawn random done fuel env now id = do
    deal ← reads (opened_deal json env id)
    try (require (not (is_empty deal.escrow_address)) not_joined)
    try (require env.node_url_parses invalid_node_url)
    key ← try (or_err key_failed drawn)
    result ←
        serve fund_failed (Fund.fund c tx taproot services sha256 random (fund_config c deal key))
    swap_and_finish now done fuel deal key result
