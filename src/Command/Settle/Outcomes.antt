-- ===== src/Command/Settle/Outcomes.antt =====
-- How `releaseAction`, `refundAction` and `disputeAction` of cmd/escrow/commands.go can end.
use ark_escrow.Base.{
  ℕ, Str, Option, some, ◌∷◌, List, Result, ok, err, wrap_err, ◌≡◌, refl, ap, arith, ◌⊎◌, inl, inr,
  Bool-cases, is_empty, true, false,
}
use ark_escrow.Base.{Result-cases, Option-cases}
use ark_escrow.Curve.{Curve}
use ark_escrow.Script.Txscript.{Txscript}
use ark_escrow.Deal.{Deal, DealState, DealError, funded, shipped}
use ark_escrow.Escrow.Elements.{Taproot}
use ark_escrow.Store.{DealJson, save, left_after}
use ark_escrow.Store.Faults.{LeftBy, untouched, save-LeftBy}
use ark_escrow.Escrow.{EscrowScript}
use ark_escrow.Store.Files.{Disk}
use ark_escrow.Swap.Pset.{Network, Psetv2}
use ark_escrow.Swap.Claim.{ClaimError}
use ark_escrow.Swap.Claim.Broadcast.{claim, Makes, Claims, unsent, refused, taken, claim-Claims}
use ark_escrow.Swap.Services.{Services, Log, send_raw_transaction, pay_invoice, get_new_address}
use ark_escrow.Swap.Payout.{PayoutResult, PayoutError, Paid, payout_iff}
use ark_escrow.Command.{
  CommandError, invalid_node_url, no_destination, claim_failed, changed, opened_deal, deal_script,
}
use ark_escrow.Command.World.{World, Env, go_on}
use ark_escrow.Command.Settle.{
  SettleFlags, pay_and_finish, claim_and_finish, destination, claim_config, settle,
}
use ark_escrow.Command.Settle.Counts.{claims, payments, payout-cases}

abbrev pub as_settled : ℕ → DealState → Str → Deal → Deal
as_settled now state id deal = record deal { claim_tx_id = id; state = state; updated_at = now }

-- A method that takes a funded or shipped deal to a settled state.
abbrev pub Finishes : ℕ → DealState → (Str → Deal → Deal × Option DealError) → Type 0
Finishes now state finish =
    (id : Str) (deal settled : Deal)
    → changed (finish id deal) ≡ ok settled
    → ((deal.state ≡ funded) ⊎ (deal.state ≡ shipped)) × (settled ≡ as_settled now state id deal)

module _ (services : Services) (json : DealJson) (c : Curve) (tx : Txscript)
    (taproot : Taproot c.PublicKey) (lib : Psetv2 c) (regtest : Network) where
  -- `inputs` are the command's keys and preimage.
  module _ (inputs : Deal → Result CommandError (List (Option c.PrivateKey) × Option Str))
      (env : Env) (flags : SettleFlags) (leaf now : ℕ) (state : DealState) (w : World) where
    -- The address of the flags, or the one that the node makes where they have none.
    abbrev pub PaysTo : Str → Type 0
    PaysTo dest =
        ((is_empty flags.dest_address ≡ false) × (dest ≡ flags.dest_address))
        ⊎ ((is_empty flags.dest_address ≡ true) × (services.new_address w.log ≡ some dest))

    -- The deal's outpoint and amount claimed through the leaf of the deal's escrow, to the address of the
    -- flags, or else a new one of the node: the transaction that the node took, at a log
    -- with no other claim or payment since the start.
    pub record Claimed (deal : Deal) (earlier : Log) (tx_hex id : Str) : Type 0 where
      pub loaded : opened_deal json env flags.deal w.disk ≡ ok deal
      pub es : EscrowScript c.PublicKey
      pub keys : List (Option c.PrivateKey)
      pub preimage : Option Str
      pub dest : Str
      pub given : inputs deal ≡ ok (keys, preimage)
      pub scripted : deal_script c tx deal ≡ ok es
      pub makes :
          Makes services c tx taproot lib regtest
            (claim_config c es deal leaf keys preimage dest)
            tx_hex
      pub pays_to : PaysTo dest
      pub takes : services.sent_raw_transaction earlier tx_hex ≡ some id
      pub no_claims : claims services earlier ≡ claims services w.log
      pub no_payments : payments earlier ≡ payments w.log

    -- How a settlement ends. Nothing is claimed or paid; or the escrow is claimed and there is an
    -- error, with a payment tried or without, and the directory is as before, or, after the payment, as a
    -- failed save of the settled deal left it; or the escrow is
    -- claimed, then the invoice is paid, and the deal, which was funded or shipped, is saved as settled.
    pub data Outcome : Result CommandError (Unit {0}) × World → Type 0 where
      unclaimed :
          (e : CommandError) (log : Log)
          → claims services log ≡ claims services w.log
          → payments log ≡ payments w.log
          → Outcome (err e, record w { log = log })
      unpaid :
          (e : CommandError) (deal : Deal) (earlier : Log) (tx_hex id : Str)
          → Claimed deal earlier tx_hex id
          → Outcome (err e, record w { log = send_raw_transaction tx_hex ∷ earlier })
      unsaved :
          (e : CommandError) (deal : Deal) (earlier : Log) (tx_hex id : Str) (left : Disk)
          → Claimed deal earlier tx_hex id
          → LeftBy json (as_settled now state id deal) w.disk left
          → Outcome (
            err e,
            record w {
              disk = left;
              log = pay_invoice flags.invoice 60 ∷ send_raw_transaction tx_hex ∷ earlier;
            },
          )
      settled :
          (deal : Deal) (earlier : Log) (tx_hex id : Str) (r : PayoutResult) (disk : Disk)
          → Claimed deal earlier tx_hex id
          → Paid services flags.invoice 0 (send_raw_transaction tx_hex ∷ earlier) r
          → (deal.state ≡ funded) ⊎ (deal.state ≡ shipped)
          → save json (as_settled now state id deal) w.disk ≡ ok disk
          → Outcome (
            ok tt,
            record w {
              disk = disk;
              log = pay_invoice flags.invoice 60 ∷ send_raw_transaction tx_hex ∷ earlier;
            },
          )

    module _ (finish : Str → Deal → Deal × Option DealError)
        (finishes : Finishes now state finish) where
      pay_and_finish-Outcome :
          (deal : Deal) (earlier : Log) (tx_hex id : Str)
          → Claimed deal earlier tx_hex id
          → Outcome (
              pay_and_finish services json flags.invoice deal finish id
                (record w { log = send_raw_transaction tx_hex ∷ earlier }))
      unfolding pay_and_finish
      pay_and_finish-Outcome deal earlier tx_hex id claimed =
          let log = send_raw_transaction tx_hex ∷ earlier in
          elim (payout-cases services flags.invoice log) [
            | inl (e, h) ↦ rw h (unpaid _ deal earlier tx_hex id claimed)
            | inr (err e, h) ↦ rw h (unsaved _ deal earlier tx_hex id w.disk claimed untouched)
            | inr (ok r, h) ↦ elim (Result-cases (changed (finish id deal))) [
              | inr (e, h') ↦ rw (h, h') (unsaved _ deal earlier tx_hex id w.disk claimed untouched)
              | inl (saved, h') ↦ elim (Result-cases (save json saved w.disk)) [
                | inr (e, h'') ↦
                    let done = finishes id deal saved h' in
                    rw (h, h', h'')
                      (unsaved _ deal earlier tx_hex id (left_after e w.disk) claimed (
                        save-LeftBy json (as_settled now state id deal) w.disk e
                          (rw (← done.1) h'')))
                | inl (disk, h'') ↦
                    let done = finishes id deal saved h' in
                    rw (h, h', h'')
                      (Outcome.settled deal earlier tx_hex id r disk claimed
                        ((payout_iff services flags.invoice 0 log r).0
                          (ap (λ (p : Result PayoutError PayoutResult × Log). p.0) h)).1
                        done.0 (rw (← done.1) h''))
              ]
            ]
          ]

      -- After the claim, whichever way it went.
      claimed-Outcome :
          (deal : Deal) (earlier : Log) (es : EscrowScript c.PublicKey)
          (keys : List (Option c.PrivateKey)) (preimage : Option Str) (dest : Str)
          (r : Result ClaimError Str × Log)
          → Claims services c tx taproot lib regtest
              (claim_config c es deal leaf keys preimage dest)
              earlier
              r
          → opened_deal json env flags.deal w.disk ≡ ok deal
          → inputs deal ≡ ok (keys, preimage)
          → deal_script c tx deal ≡ ok es
          → PaysTo dest
          → claims services earlier ≡ claims services w.log
          → payments earlier ≡ payments w.log
          → Outcome (
              go_on
                (wrap_err claim_failed r.0, record w { log = r.1 })
                (pay_and_finish services json flags.invoice deal finish))
      unfolding claims payments
      claimed-Outcome deal earlier es keys preimage dest r (unsent e) loaded given scripted to same
            same' =
          unclaimed _ earlier same same'
      claimed-Outcome deal earlier es keys preimage dest r (refused e tx_hex makes none_taken)
            loaded given scripted to same same' =
          unclaimed _ (send_raw_transaction tx_hex ∷ earlier) (rw none_taken (omega (arith, same)))
            (omega (arith, same'))
      claimed-Outcome deal earlier es keys preimage dest r (taken id tx_hex makes takes) loaded
            given scripted to same same' =
          pay_and_finish-Outcome deal earlier tx_hex id (record {
            loaded = loaded;
            es = es;
            keys = keys;
            preimage = preimage;
            dest = dest;
            given = given;
            scripted = scripted;
            makes = makes;
            pays_to = to;
            takes = takes;
            no_claims = same;
            no_payments = same';
          })

      claim_and_finish-Outcome :
          (deal : Deal) (keys : List (Option c.PrivateKey)) (preimage : Option Str) (dest : Str)
          (earlier : Log)
          → opened_deal json env flags.deal w.disk ≡ ok deal
          → inputs deal ≡ ok (keys, preimage)
          → PaysTo dest
          → claims services earlier ≡ claims services w.log
          → payments earlier ≡ payments w.log
          → Outcome (
              claim_and_finish services json c tx taproot lib regtest flags.invoice deal leaf keys
                preimage finish dest
                (record w { log = earlier }))
      unfolding claim_and_finish
      claim_and_finish-Outcome deal keys preimage dest earlier loaded given to same same' =
          elim (Result-cases (deal_script c tx deal)) [
            | inr (e, h) ↦ rw h (unclaimed e earlier same same')
            | inl (es, h) ↦
                let cfg = claim_config c es deal leaf keys preimage dest in
                rw h (
                  claimed-Outcome deal earlier es keys preimage dest
                    (claim services c tx taproot lib regtest cfg earlier)
                    (claim-Claims services c tx taproot lib regtest cfg earlier) loaded given h to
                    same same')
          ]

      pub settle-Outcome :
          (deal : Deal) (keys : List (Option c.PrivateKey)) (preimage : Option Str)
          → opened_deal json env flags.deal w.disk ≡ ok deal
          → inputs deal ≡ ok (keys, preimage)
          → Outcome (
              settle services json c tx taproot lib regtest env flags deal leaf keys preimage finish
                w)
      unfolding settle destination claims payments
      settle-Outcome deal keys preimage loaded given = elim (Bool-cases env.node_url_parses) [
        | inr e ↦ simp e (unclaimed invalid_node_url w.log refl refl)
        | inl e ↦ elim (Bool-cases (is_empty flags.dest_address)) [
          | inr e' ↦
              simp (e, e')
                (claim_and_finish-Outcome deal keys preimage flags.dest_address w.log loaded given
                  (inl (e', refl)) refl refl)
          | inl e' ↦ elim (Option-cases (services.new_address w.log)) [
            | inl e'' ↦
                simp (e, e', e'')
                  (unclaimed no_destination (get_new_address ∷ w.log) (omega arith) (omega arith))
            | inr (dest, e'') ↦
                simp (e, e', e'')
                  (claim_and_finish-Outcome deal keys preimage dest (get_new_address ∷ w.log) loaded
                    given (inr (e', e'')) (omega arith) (omega arith))
          ]
        ]
      ]
