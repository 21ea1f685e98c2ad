-- ===== src/Swap/Fund/Polling.antt =====
-- `WaitForPaymentClaimAndSettle` of pkg/escrow/swap/fund.go: the polling ends when the invoice is paid.
use ark_escrow.Base.{ℕ, zero, suc, ◌<◌, ◌≡◌, refl, arith, Bool, false, Str, Option, some, ◌∷◌}
use ark_escrow.Curve.{Curve}
use ark_escrow.Script.Txscript.{Txscript}
use ark_escrow.Escrow.Elements.{Taproot}
use ark_escrow.Swap.Pset.{Network, Psetv2}
use ark_escrow.Swap.Services.{lookup_invoice, unpaid, accepted, Services, Log}
use ark_escrow.Swap.Fund.{FundResult, claim_and_settle, wait_for_payment_claim_and_settle}

module _ (services : Services) (done : Log → Bool) (hash : Str) where
  -- The log after some polls.
  abbrev pub polled : ℕ → Log → Log
  polled zero log = log
  polled (suc k) log = polled k (lookup_invoice hash ∷ log)

  -- For so many polls the invoice is unpaid, and then it is accepted, with the context not done.
  abbrev pub PaidAfter : ℕ → Log → Type 0
  PaidAfter zero log = (done log ≡ false) × (services.invoice_state log hash ≡ some accepted)
  PaidAfter (suc k) log =
      (done log ≡ false)
      × (services.invoice_state log hash ≡ some unpaid)
      × PaidAfter k (lookup_invoice hash ∷ log)

module _ (c : Curve) (tx : Txscript) (taproot : Taproot c.PublicKey) (services : Services)
    (lib : Psetv2 c) (regtest : Network) (result : FundResult c.PublicKey)
    (key : Option c.PrivateKey) (address : Str) (amount : ℕ) (net : Option Network)
    (done : Log → Bool) where
  -- If the invoice is paid after some polls, then with more fuel than that the loop claims and
  -- settles right after the poll that finds it accepted.
  pub wait_for_payment_claim_and_settle-PaidAfter :
      (k fuel : ℕ) (log : Log)
      → PaidAfter services done result.payment_hash k log
      → k < fuel
      → wait_for_payment_claim_and_settle c tx taproot services lib regtest result key address
          amount net done fuel log
        ≡ claim_and_settle c tx taproot services lib regtest result key address amount net
            (lookup_invoice result.payment_hash ∷ polled services done result.payment_hash k log)
  unfolding wait_for_payment_claim_and_settle
  wait_for_payment_claim_and_settle-PaidAfter k zero log paid enough = absurd (omega arith)
  wait_for_payment_claim_and_settle-PaidAfter zero (suc fuel) log (e, e') enough = rw (e, e') refl
  wait_for_payment_claim_and_settle-PaidAfter (suc k) (suc fuel) log (e, e', paid) enough =
      rw (e, e')
        (wait_for_payment_claim_and_settle-PaidAfter k fuel
          (lookup_invoice result.payment_hash ∷ log) paid (omega arith))
