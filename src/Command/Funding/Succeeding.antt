-- ===== src/Command/Funding/Succeeding.antt =====
-- When `fundAction` of cmd/escrow/commands.go goes through.
use ark_escrow.Base.{
  ℕ, ◌<◌, Str, Bool, Option, some, none, List, ◌∷◌, ok, ◌≡◌, refl, arith, true, false, is_empty,
  ◌∙◌,
}
use ark_escrow.Curve.{Curve}
use ark_escrow.Script.Txscript.{Txscript}
use ark_escrow.Deal.{Deal, joined, funded}
use ark_escrow.Deal
use ark_escrow.Escrow.Elements.{Taproot}
use ark_escrow.Store.{DealJson, save}
use ark_escrow.Store.Files.{Disk}
use ark_escrow.Swap.Pset.{Network, Psetv2}
use ark_escrow.Swap.Services.{
  Services, Log, Vout, lookup_invoice, settle_invoice, get_raw_transaction,
}
use ark_escrow.Swap.Htlc.Funding.{vout_of, find_vout_by_address}
use ark_escrow.Swap.Fund.{FundResult, fund, claim_htlc_to_escrow, claim_and_settle}
use ark_escrow.Swap.Fund.Polling.{polled, PaidAfter, wait_for_payment_claim_and_settle-PaidAfter}
use ark_escrow.Command.{changed, opened_deal}
use ark_escrow.Command.World.{World, Env}
use ark_escrow.Command.Funding.{fund_config, finish, swap_and_finish, fund_action}

abbrev pub as_funded : ℕ → Str → ℕ → Deal → Deal
as_funded now tx_id vout deal = record deal {
  fund_tx_id = tx_id;
  fund_vout = vout;
  state = funded;
  updated_at = now;
}

fund-made :
    (now : ℕ) (tx_id : Str) (vout : ℕ) (deal : Deal)
    → deal.state ≡ joined
    → changed (Deal.fund now tx_id vout deal) ≡ ok (as_funded now tx_id vout deal)
unfolding Deal.fund
fund-made now tx_id vout deal was = ground arith

module _ (services : Services) (json : DealJson) (c : Curve) (tx : Txscript)
    (taproot : Taproot c.PublicKey) (lib : Psetv2 c) (regtest : Network) where
  claim_and_settle-settled :
      (result : FundResult c.PublicKey) (key : c.PrivateKey) (address : Str) (amount : ℕ)
      (before after : Log) (tx_id : Str)
      → claim_htlc_to_escrow c tx taproot services lib regtest result.htlc result.htlc_tx_id
          result.htlc_vout amount result.preimage
          (some key)
          address
          none
          before
        ≡ (ok tx_id, after)
      → services.settles after result.preimage ≡ some tt
      → claim_and_settle c tx taproot services lib regtest result
          (some key)
          address
          amount
          none
          before
        ≡ (ok tx_id, settle_invoice result.preimage ∷ after)
  unfolding claim_and_settle
  claim_and_settle-settled result key address amount before after tx_id claims settles =
      rw (claims, settles) refl

  module _ (env : Env) (now : ℕ) (id : Str) (w : World) (sha256 : Str → Str) (random : Option Str)
      (done : Log → Bool) where
    -- For a joined deal with an address, a node address that parses and a locked HTLC: if the invoice
    -- is accepted after some polls, the fuel exceeds them, the claim of the HTLC goes through, the
    -- settlement is then taken, the node finds the output to the escrow's address, and the deal can
    -- be saved, then `fundAction` succeeds and the deal is saved as funded at that output.
    pub fund_action-succeeds :
        (deal : Deal) (key : c.PrivateKey) (result : FundResult c.PublicKey) (log after : Log)
        (tx_id : Str) (vouts : List Vout) (vout : ℕ) (disk : Disk) (k fuel : ℕ)
        → opened_deal json env id w.disk ≡ ok deal
        → deal.state ≡ joined
        → is_empty deal.escrow_address ≡ false
        → env.node_url_parses ≡ true
        → fund c tx taproot services sha256 random (fund_config c deal key) w.log ≡ (ok result, log)
        → PaidAfter services done result.payment_hash k log
        → k < fuel
        → claim_htlc_to_escrow c tx taproot services lib regtest result.htlc result.htlc_tx_id
            result.htlc_vout deal.amount result.preimage
            (some key)
            deal.escrow_address
            none
            (lookup_invoice result.payment_hash ∷ polled services done result.payment_hash k log)
          ≡ (ok tx_id, after)
        → services.settles after result.preimage ≡ some tt
        → services.raw_transaction (settle_invoice result.preimage ∷ after) tx_id ≡ some vouts
        → vout_of deal.escrow_address vouts ≡ some vout
        → save json (as_funded now tx_id vout deal) w.disk ≡ ok disk
        → fund_action services json c tx taproot lib regtest sha256
            (some key)
            random
            done
            fuel
            env
            now
            id
            w
          ≡ (
            ok tt,
            record w {
              disk = disk;
              log = get_raw_transaction tx_id ∷ settle_invoice result.preimage ∷ after;
            },
          )
    unfolding fund_action swap_and_finish finish find_vout_by_address
    fund_action-succeeds deal key result log after tx_id vouts vout disk k fuel loaded was addressed
          parses locked paid enough claims settles found shown saves =
        let swapped =
          wait_for_payment_claim_and_settle-PaidAfter c tx taproot services lib regtest result
            (some key) deal.escrow_address deal.amount none done k fuel log paid enough
          ∙ claim_and_settle-settled result key deal.escrow_address deal.amount _ after tx_id claims
              settles in
        rw
          (
            loaded,
            addressed,
            parses,
            locked,
            swapped,
            found,
            shown,
            fund-made now tx_id vout deal was,
            saves,
          )
          refl
