-- ===== src/Swap/Fund/Settling.antt =====
-- `WaitForPaymentClaimAndSettle` of pkg/escrow/swap/fund.go: the invoice is settled only after the
-- claim of the HTLC was broadcast.
use ark_escrow.Base.{ℕ, zero, suc, ◌+◌, ◌≡◌, refl, arith, ◌⊎◌, inl, inr, Bool, Str}
use ark_escrow.Base.{Option, some, [], ◌∷◌, Result, ok, err, Result-cases, Option-cases, Bool-cases}
use ark_escrow.Curve.{Curve}
use ark_escrow.Script.Txscript.{Txscript}
use ark_escrow.Escrow.Elements.{Taproot}
use ark_escrow.Swap.Pset.{Network, Pset, Psetv2, extract_failed}
use ark_escrow.Swap.Claim.{or_default}
use ark_escrow.Swap.Services.{
  Call, settle_invoice, send_raw_transaction, lookup_invoice, unpaid, accepted, settled, canceled,
  unexpected, Services, Log,
}
use ark_escrow.Swap.Htlc.{HtlcError, pset_failed, funding_failed, SpendHtlcConfig, spend_pset}
use ark_escrow.Swap.Htlc.Funding.{spend_htlc}
use ark_escrow.Swap.Fund.{
  FundResult, FundError, settle_failed, claim_and_settle, wait_for_payment_claim_and_settle,
}

abbrev is_settlement : Call → ℕ
is_settlement (settle_invoice _) = 1
is_settlement _ = 0

-- The number of settlements in a log.
unfoldable pub settlements : Log → ℕ
settlements [] = 0
settlements (c ∷ log) = is_settlement c + settlements log

module _ (c : Curve) (tx : Txscript) (taproot : Taproot c.PublicKey) (services : Services)
    (lib : Psetv2 c) where
  -- The transaction that a spending of an HTLC makes.
  pub record Makes (regtest : Network) (cfg : SpendHtlcConfig c) (tx_hex : Str) : Type 0 where
    pub pset : Pset lib.ControlBlock
    pub made : spend_pset c tx taproot lib regtest cfg ≡ ok pset
    pub extracted : lib.extract pset ≡ some tx_hex

  -- A spending of an HTLC fails without a settlement, or broadcasts the one transaction that it makes.
  spend_htlc-cases :
      (regtest : Network) (cfg : SpendHtlcConfig c) (log : Log)
      → ((e : HtlcError) × (log' : Log) × (settlements log' ≡ settlements log)
          × (spend_htlc services c tx taproot lib regtest cfg log ≡ (err e, log')))
        ⊎ ((id : Str) × (tx_hex : Str) × Makes regtest cfg tx_hex
            × (services.sent_raw_transaction log tx_hex ≡ some id)
            × (spend_htlc services c tx taproot lib regtest cfg log
                ≡ (ok id, send_raw_transaction tx_hex ∷ log)))
  unfolding spend_htlc settlements
  spend_htlc-cases regtest cfg log = elim (Result-cases (spend_pset c tx taproot lib regtest cfg)) [
    | inr (e, h) ↦ inl (e, log, refl, rw h)
    | inl (p, h) ↦ elim (Option-cases (lib.extract p)) [
      | inl h' ↦ inl (pset_failed extract_failed, log, refl, rw (h, h') refl)
      | inr (tx_hex, h') ↦ elim (Option-cases (services.sent_raw_transaction log tx_hex)) [
        | inl h'' ↦
            inl
              (funding_failed, send_raw_transaction tx_hex ∷ log, omega arith, rw (h, h', h'') refl)
        | inr (id, h'') ↦
            inr
              (id, tx_hex, record { pset = p; made = h; extracted = h' }, h'', rw (h, h', h'') refl)
      ]
    ]
  ]

  module _ (regtest : Network) (result : FundResult c.PublicKey) (key : Option c.PrivateKey)
      (address : Str) (amount : ℕ) (net : Option Network) where
    -- The claim of the locked HTLC: its outpoint, through leaf 0, with the preimage, to the address.
    abbrev pub htlc_claim : SpendHtlcConfig c
    htlc_claim = record {
      htlc = some result.htlc;
      fund_tx_id = result.htlc_tx_id;
      fund_vout = result.htlc_vout;
      amount = amount;
      leaf_index = 0;
      signing_key = key;
      dest_address = address;
      preimage = some result.preimage;
      network = some (or_default regtest net);
      fee = 0;
    }

    -- How the loop can end: without a settlement and with an error, or with one settlement, whose
    -- call comes right after the claim of an invoice that was accepted, and which may fail.
    pub data Outcome (log : Log) : Result FundError Str × Log → Type 0 where
      not_settled :
          (e : FundError) (log' : Log)
          → settlements log' ≡ settlements log
          → Outcome log (err e, log')
      settled_after_claim :
          (r : Result FundError Str) (id tx_hex : Str) (earlier : Log)
          → settlements earlier ≡ settlements log
          → services.invoice_state earlier result.payment_hash ≡ some accepted
          → Makes regtest htlc_claim tx_hex
          → services.sent_raw_transaction (lookup_invoice result.payment_hash ∷ earlier) tx_hex
            ≡ some id
          → ((r ≡ ok id)
              × (services.settles
                    (send_raw_transaction tx_hex ∷ lookup_invoice result.payment_hash ∷ earlier)
                    result.preimage
                  ≡ some tt))
            ⊎ (r ≡ err (settle_failed id))
          → Outcome log (
            r,
            settle_invoice result.preimage
                ∷ send_raw_transaction tx_hex
                ∷ lookup_invoice result.payment_hash
                ∷ earlier,
          )

    accepted-Outcome :
        (log earlier : Log)
        → settlements earlier ≡ settlements log
        → services.invoice_state earlier result.payment_hash ≡ some accepted
        → Outcome log (
            claim_and_settle c tx taproot services lib regtest result key address amount net
              (lookup_invoice result.payment_hash ∷ earlier))
    unfolding claim_and_settle settlements
    accepted-Outcome log earlier same state =
        let asked = lookup_invoice result.payment_hash ∷ earlier in
        elim (spend_htlc-cases regtest htlc_claim asked) [
          | inl (e, log', kept, h) ↦
              rw h (not_settled (FundError.claim_failed e) log' (omega (arith, kept, same)))
          | inr (id, tx_hex, makes, sent, h) ↦
              elim (Option-cases
                (services.settles (send_raw_transaction tx_hex ∷ asked) result.preimage)) [
                  | inl e ↦
                      rw (h, e)
                        (settled_after_claim (err (settle_failed id)) id tx_hex earlier same state
                          makes sent (inr refl))
                  | inr (tt, e) ↦
                      rw (h, e)
                        (settled_after_claim (ok id) id tx_hex earlier same state makes sent
                          (inl (refl, e)))
                ]
        ]

    from-Outcome :
        (done : Log → Bool) (fuel : ℕ) (log earlier : Log)
        → settlements earlier ≡ settlements log
        → Outcome log (
            wait_for_payment_claim_and_settle c tx taproot services lib regtest result key address
              amount net done fuel earlier)
    unfolding wait_for_payment_claim_and_settle settlements
    from-Outcome done zero log earlier same = not_settled _ earlier same
    from-Outcome done (suc fuel) log earlier same =
        let asked = lookup_invoice result.payment_hash ∷ earlier in
        let still : settlements asked ≡ settlements log = omega (arith, same) in
        elim (Bool-cases (done earlier)) [
          | inl e ↦ rw e (not_settled FundError.context_done earlier same)
          | inr e ↦ elim (Option-cases (services.invoice_state earlier result.payment_hash)) [
            | inl e' ↦ rw (e, e') (not_settled FundError.lookup_failed asked still)
            | inr (accepted, e') ↦ rw (e, e') (accepted-Outcome log earlier same e')
            | inr (settled, e') ↦ rw (e, e') (not_settled FundError.already_settled asked still)
            | inr (canceled, e') ↦ rw (e, e') (not_settled FundError.was_canceled asked still)
            | inr (unpaid, e') ↦ rw (e, e') (from-Outcome done fuel log asked still)
            | inr (unexpected name, e') ↦
                rw (e, e') (not_settled (FundError.unexpected_state name) asked still)
          ]
        ]

    -- The loop settles the invoice at most once, in an accepted state, and only right after the
    -- node took the transaction that spends the locked HTLC's outpoint through leaf 0, with the preimage, to
    -- the address; it succeeds only so, with that transaction's id. Every other end is an error without a settlement.
    pub wait_for_payment_claim_and_settle-Outcome :
        (done : Log → Bool) (fuel : ℕ) (log : Log)
        → Outcome log (
            wait_for_payment_claim_and_settle c tx taproot services lib regtest result key address
              amount net done fuel log)
    wait_for_payment_claim_and_settle-Outcome done fuel log = from-Outcome done fuel log log refl
