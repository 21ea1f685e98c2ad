-- ===== src/Swap/Fund.antt =====
-- pkg/escrow/swap/fund.go: from a Lightning payment to a funded escrow. The polling loop runs on fuel,
-- and `done` is the test of the context at a log.
pub mod Settling
pub mod Locking
pub mod Polling
use ark_escrow.Base.{
  ℕ, zero, suc, ◌==◌, Bool, true, false, if◌then◌else◌, Str, lit, is_empty, not, ◌++◌, take,
}
use ark_escrow.Base.{Option, none, some, List, [], ◌∷◌, Result, ok, err, or_err, wrap_err, require}
use ark_escrow.Hex
use ark_escrow.Curve.{Curve}
use ark_escrow.Script.Txscript.{Txscript}
use ark_escrow.Escrow.Elements.{Taproot}
use ark_escrow.Swap.Pset.{Network, Psetv2}
use ark_escrow.Swap.Claim.{or_default}
use ark_escrow.Swap.Services.{
  get_new_address, generate_to_address, add_hold_invoice, lookup_invoice, settle_invoice,
  InvoiceState, unpaid, accepted, settled, canceled, unexpected, Services, Log, Calls, ◌>>=◌, ◌>>◌,
  return, call,
}
use ark_escrow.Swap.Htlc.{HtlcScript, HtlcError, SpendHtlcConfig}
use ark_escrow.Swap.Htlc.Funding.{create_and_fund_htlc, spend_htlc}

abbrev pub htlc_default_timeout : ℕ
htlc_default_timeout = 10

-- The clients are there or nil.
pub record FundConfig (c : Curve) : Type 0 where
  pub has_lnd : Bool
  pub has_elementsd : Bool
  pub escrow_address : Str
  pub service_pub_key : Option c.PublicKey
  pub service_priv_key : Option c.PrivateKey
  pub amount_sats : ℕ  -- uint64
  pub invoice_expiry : ℕ
  pub htlc_timeout : ℕ  -- uint32
  pub network_hrp : Str

pub record FundResult (Key : Type 0) : Type 0 where
  pub payment_request : Str
  pub preimage : Str
  pub payment_hash : Str
  pub htlc_tx_id : Str
  pub htlc_vout : ℕ
  pub htlc : HtlcScript Key

pub data FundError : Type 0 where
  clients_missing address_missing keypair_missing amount_zero random_failed : FundError
  htlc_failed : HtlcError → FundError
  no_mining_address mining_failed invoice_failed : FundError
  context_done lookup_failed : FundError
  claim_failed : HtlcError → FundError
  -- the claim's transaction, whose invoice is not settled
  settle_failed : Str → FundError
  already_settled was_canceled : FundError
  unexpected_state : Str → FundError
  out_of_fuel : FundError

-- `fmt.Errorf("…: %w", err)`
abbrev pub wrap : {E F A : Type 0} → (E → F) → Calls E A → Calls F A
wrap f m = λ log. (wrap_err f (m log).0, (m log).1)

abbrev pub or_else_number : ℕ → ℕ → ℕ
or_else_number d n = if n == 0 then d else n

module _ (c : Curve) (tx : Txscript) (taproot : Taproot c.PublicKey) (services : Services) where
  -- `int64(cfg.AmountSats)` is kept as its 64 bits: the same number for an amount below 2 ^ 63.
  unfoldable pub fund_with_htlc :
      FundConfig c → Str → Str → Calls FundError (FundResult c.PublicKey)
  fund_with_htlc cfg preimage hash = do
    result ← wrap htlc_failed (
        create_and_fund_htlc services c tx taproot cfg.service_pub_key cfg.service_pub_key hash
          cfg.amount_sats (or_else_number htlc_default_timeout cfg.htlc_timeout)
          (if is_empty cfg.network_hrp then lit "ert" else cfg.network_hrp))
    addr ← call get_new_address no_mining_address services.new_address
    _ ← call (generate_to_address 1 addr) mining_failed (λ log. services.generated log 1 addr)
    let memo = lit "escrow-fund-" ++ Hex.encode_to_string (take 8 hash)
    let expiry = or_else_number 3600 cfg.invoice_expiry
    payreq ←
        call (add_hold_invoice hash cfg.amount_sats memo expiry) invoice_failed
          (λ log. services.hold_invoice log hash cfg.amount_sats memo expiry)
    return (
        ok (record {
          payment_request = payreq;
          preimage = preimage;
          payment_hash = hash;
          htlc_tx_id = result.tx_id;
          htlc_vout = result.vout;
          htlc = result.htlc;
        }))

  -- `random` is what the random source gives for the preimage.
  unfoldable pub fund :
      (Str → Str) → Option Str → FundConfig c → Calls FundError (FundResult c.PublicKey)
  unfolding fund_with_htlc
  fund sha256 random cfg = do
    return (require cfg.has_lnd clients_missing)
    return (require cfg.has_elementsd clients_missing)
    return (require (not (is_empty cfg.escrow_address)) address_missing)
    _ ← return (or_err keypair_missing cfg.service_pub_key)
    _ ← return (or_err keypair_missing cfg.service_priv_key)
    return (require (not (cfg.amount_sats == 0)) amount_zero)
    preimage ← return (or_err random_failed random)
    fund_with_htlc cfg preimage (sha256 preimage)

  module _ (lib : Psetv2 c) (regtest : Network) where
    unfoldable pub claim_htlc_to_escrow :
        HtlcScript c.PublicKey
        → Str
        → ℕ
        → ℕ
        → Str
        → Option c.PrivateKey
        → Str
        → Option Network
        → Calls HtlcError Str
    claim_htlc_to_escrow htlc tx_id vout amount preimage signing_key escrow_address net =
        spend_htlc services c tx taproot lib regtest (record {
          htlc = some htlc;
          fund_tx_id = tx_id;
          fund_vout = vout;
          amount = amount;
          leaf_index = 0;
          signing_key = signing_key;
          dest_address = escrow_address;
          preimage = some preimage;
          network = some (or_default regtest net);
          fee = 0;
        })

    module _ (result : FundResult c.PublicKey) (signing_key : Option c.PrivateKey)
        (escrow_address : Str) (amount : ℕ) (net : Option Network) where
      -- The case "ACCEPTED": claim, then settle.
      unfoldable pub claim_and_settle : Calls FundError Str
      unfolding claim_htlc_to_escrow
      claim_and_settle = do
        escrow_tx_id ← wrap claim_failed (
            claim_htlc_to_escrow result.htlc result.htlc_tx_id result.htlc_vout amount
              result.preimage signing_key escrow_address net)
        call (settle_invoice result.preimage) (settle_failed escrow_tx_id)
            (λ log. services.settles log result.preimage)
        return (ok escrow_tx_id)

      unfoldable pub wait_for_payment_claim_and_settle : (Log → Bool) → ℕ → Calls FundError Str
      unfolding claim_and_settle
      wait_for_payment_claim_and_settle done zero = return (err out_of_fuel)
      wait_for_payment_claim_and_settle done (suc fuel) =
          let again = wait_for_payment_claim_and_settle done fuel in
          do
            (λ log. (require (not (done log)) context_done, log))
            state ←
                call (lookup_invoice result.payment_hash) lookup_failed
                  (λ log. services.invoice_state log result.payment_hash)
            elim state as (λ _. Calls FundError Str) [
              | accepted ↦ claim_and_settle
              | settled ↦ return (err already_settled)
              | canceled ↦ return (err was_canceled)
              | unpaid ↦ again
              | unexpected name ↦ return (err (unexpected_state name))
            ]
