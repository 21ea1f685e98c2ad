-- ===== src/Command/Funding/Ends.antt =====
-- The ends of a run of `fundAction` of cmd/escrow/commands.go.
use ark_escrow.Base.{
  ℕ, Str, false, Option, some, none, List, ◌∷◌, Result, ok, err, ◌≡◌, ◌⊎◌, is_empty,
}
use ark_escrow.Curve.{Curve}
use ark_escrow.Script.Txscript.{Txscript}
use ark_escrow.Escrow.Elements.{Taproot}
use ark_escrow.Deal.{Deal, joined, funded}
use ark_escrow.Store.{DealJson, save}
use ark_escrow.Store.Files.{Disk}
use ark_escrow.Swap.Pset.{Network, Psetv2}
use ark_escrow.Command.{CommandError, opened_deal}
use ark_escrow.Command.World.{World, Env}
use ark_escrow.Swap.Services.{
  Services, Log, Vout, settle_invoice, send_raw_transaction, lookup_invoice, get_raw_transaction,
  accepted,
}
use ark_escrow.Swap.Htlc.Funding.{vout_of}
use ark_escrow.Swap.Fund.{fund, FundResult}
use ark_escrow.Swap.Fund.Settling.{settlements, Makes, htlc_claim}
use ark_escrow.Command.Funding.{fund_config}
use ark_escrow.Store.Faults.{LeftBy}

abbrev pub as_funded : ℕ → Str → ℕ → Deal → Deal
as_funded now tx_id vout deal = record deal {
  fund_tx_id = tx_id;
  fund_vout = vout;
  state = funded;
  updated_at = now;
}

module _ (services : Services) (json : DealJson) (c : Curve) (tx : Txscript)
    (taproot : Taproot c.PublicKey) (lib : Psetv2 c) (regtest : Network) where
  -- The calls of a swap that went through, the latest first.
  abbrev pub swap_log : FundResult c.PublicKey → Str → Log → Log
  swap_log result tx_hex earlier =
      settle_invoice result.preimage
      ∷ send_raw_transaction tx_hex
      ∷ lookup_invoice result.payment_hash
      ∷ earlier

  module _ (sha256 : Str → Str) (drawn : Option c.PrivateKey) (random : Option Str) (env : Env)
      (now : ℕ) (id : Str) (w : World) where
    -- An HTLC that was locked for the deal under the key that was drawn, its accepted invoice, and its
    -- claim to the deal's escrow through leaf 0, which the node took.
    pub record Swapped (deal : Deal) (result : FundResult c.PublicKey) (earlier : Log)
        (tx_hex tx_id : Str) : Type 0 where
      pub loaded : opened_deal json env id w.disk ≡ ok deal
      pub has_address : is_empty deal.escrow_address ≡ false
      pub key : c.PrivateKey
      pub drew : drawn ≡ some key
      pub locked :
          (fund c tx taproot services sha256 random (fund_config c deal key) w.log).0 ≡ ok result
      pub makes :
          Makes c tx taproot services lib regtest
            (htlc_claim c tx taproot services lib regtest result
              (some key)
              deal.escrow_address
              deal.amount
              none)
            tx_hex
      pub is_accepted : services.invoice_state earlier result.payment_hash ≡ some accepted
      pub takes :
          services.sent_raw_transaction (lookup_invoice result.payment_hash ∷ earlier) tx_hex
          ≡ some tx_id
      pub no_settlements : settlements earlier ≡ settlements w.log

    -- How the action ends. The invoice is not settled; or its settlement was sent, and there is an
    -- error, and then the directory is as before or as a failed save of the funded deal left it; or the deal, which was joined, is saved as funded with
    -- the claim's id and the output that holds the escrow.
    pub data Outcome : Result CommandError (Unit {0}) × World → Type 0 where
      unsettled :
          (e : CommandError) (log : Log)
          → settlements log ≡ settlements w.log
          → Outcome (err e, record w { log = log })
      unsaved :
          (e : CommandError) (deal : Deal) (result : FundResult c.PublicKey) (earlier log : Log)
          (tx_hex tx_id : Str) (vout : ℕ) (left : Disk)
          → Swapped deal result earlier tx_hex tx_id
          → (log ≡ swap_log result tx_hex earlier)
            ⊎ (log ≡ get_raw_transaction tx_id ∷ swap_log result tx_hex earlier)
          → LeftBy json (as_funded now tx_id vout deal) w.disk left
          → Outcome (err e, record w { disk = left; log = log })
      saved :
          (deal : Deal) (result : FundResult c.PublicKey) (earlier : Log) (tx_hex tx_id : Str)
          (vouts : List Vout) (vout : ℕ) (disk : Disk)
          → Swapped deal result earlier tx_hex tx_id
          → services.settles
              (send_raw_transaction tx_hex ∷ lookup_invoice result.payment_hash ∷ earlier)
              result.preimage
            ≡ some tt
          → services.raw_transaction (swap_log result tx_hex earlier) tx_id ≡ some vouts
          → vout_of deal.escrow_address vouts ≡ some vout
          → deal.state ≡ joined
          → save json (as_funded now tx_id vout deal) w.disk ≡ ok disk
          → Outcome (
            ok tt,
            record w {
              disk = disk;
              log = get_raw_transaction tx_id ∷ swap_log result tx_hex earlier;
            },
          )
