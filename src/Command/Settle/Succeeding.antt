-- ===== src/Command/Settle/Succeeding.antt =====
-- When the commands release, refund and dispute of cmd/escrow/commands.go go through.
use ark_escrow.Base.{
  Result-cases, List, Option, none, inl, inr, ◌∙◌, str_eq_iff, lit, ℕ, Str, some, [], ◌∷◌, ok, ◌≡◌,
  ◌≢◌, refl, arith, ◌⊎◌, true, false, is_empty,
}
use ark_escrow.Curve.{Curve}
use ark_escrow.Script.Txscript.{Txscript}
use ark_escrow.Deal.{Deal, DealError, funded, shipped, release, refund, dispute}
use ark_escrow.Escrow.{EscrowScript}
use ark_escrow.Escrow.Elements.{Taproot}
use ark_escrow.Store.{DealJson, save}
use ark_escrow.Store.Files.{Disk}
use ark_escrow.Swap.Pset.{Network, Psetv2, extract_and_broadcast}
use ark_escrow.Swap.Claim.{claim_escrow}
use ark_escrow.Swap.Claim.Broadcast.{claim, Makes}
use ark_escrow.Swap.Services.{Services, Log, send_raw_transaction, pay_invoice}
use ark_escrow.Swap.Payout.{PayoutResult, payout, Paid}
use ark_escrow.Command.{
  changed, opened_deal, deal_script, stored_key, buyer_key_missing, invalid_buyer_key,
}
use ark_escrow.Command.World.{World, Env}
use ark_escrow.Command.Settle.{
  pay_and_finish, claim_and_finish, destination, claim_config, settle, release_action,
  refund_action, dispute_action,
}
use ark_escrow.Command.Settle.Actions.{
  inputs_of, Settlement, release_command, refund_command, dispute_command, flags_of, leaf_of,
  final_state, run_settlement,
}
use ark_escrow.Command.Settle.Inputs.{release_inputs, dispute_inputs, dispute_inputs-leaf}
use ark_escrow.Command.Settle.Outcomes.{as_settled}

payout-log :
    (services : Services) (invoice : Str) (log : Log) (r : PayoutResult)
    → invoice ≢ []
    → Paid services invoice 0 log r
    → payout services true invoice 0 log ≡ (ok r, pay_invoice invoice 60 ∷ log)
unfolding payout
payout-log services invoice log r asked paid =
    ground (arith, str_eq_iff paid.resp.status (lit "SUCCEEDED"))

-- The method of a command.
abbrev method_of : Settlement → ℕ → Str → Deal → Deal × Option DealError
method_of (release_command _) = release
method_of (refund_command _) = refund
method_of (dispute_command _ _ _) = dispute

method-made :
    (command : Settlement) (now : ℕ) (id : Str) (deal : Deal)
    → (deal.state ≡ funded) ⊎ (deal.state ≡ shipped)
    → changed (method_of command now id deal) ≡ ok (as_settled now (final_state command) id deal)
unfolding release refund dispute
method-made (release_command flags) now id deal was = ground arith
method-made (refund_command flags) now id deal was = ground arith
method-made (dispute_command flags winner oracle_key) now id deal was = ground arith

module _ (services : Services) (json : DealJson) (c : Curve) (tx : Txscript)
    (taproot : Taproot c.PublicKey) (lib : Psetv2 c) (regtest : Network) where
  claim-taken :
      (cfg : _) (log : Log) (tx_hex id : Str)
      → Makes services c tx taproot lib regtest cfg tx_hex
      → services.sent_raw_transaction log tx_hex ≡ some id
      → claim services c tx taproot lib regtest cfg log ≡ (ok id, send_raw_transaction tx_hex ∷ log)
  unfolding claim claim_escrow extract_and_broadcast
  claim-taken cfg log tx_hex id makes takes =
      rw (makes.made, makes.extracted, takes, extract_and_broadcast, claim_escrow, claim) refl

  module _ (env : Env) (now : ℕ) (w : World) (deal : Deal) (keys : List (Option c.PrivateKey))
      (preimage : Option Str) where
    run-settle :
        (command : Settlement)
        → opened_deal json env (flags_of command).deal w.disk ≡ ok deal
        → inputs_of c command deal ≡ ok (keys, preimage)
        → run_settlement services json c tx taproot lib regtest env now command w
          ≡ settle services json c tx taproot lib regtest env
              (flags_of command)
              deal
              (leaf_of command)
              keys
              preimage
              (method_of command now)
              w
    unfolding release_action refund_action dispute_action
    run-settle (release_command flags) loaded inputs = elim (Result-cases (release_inputs c deal)) [
      | inr (e, h) ↦ absurd (ground arith)
      | inl ((key, p), h) ↦
          let same : keys ≡ some key ∷ [] = ground arith in
          let same' : preimage ≡ some p = ground arith in rw (loaded, h, same, same') refl
    ]
    run-settle (refund_command flags) loaded inputs =
        elim (Result-cases (stored_key c buyer_key_missing invalid_buyer_key deal.buyer_priv_key)) [
          | inr (e, h) ↦ absurd (ground arith)
          | inl (key, h) ↦
              let same : keys ≡ some key ∷ [] = ground arith in
              let same' : preimage ≡ none = ground arith in rw (loaded, h, same, same') refl
        ]
    run-settle (dispute_command flags winner oracle_key) loaded inputs =
        elim (Result-cases (dispute_inputs c winner oracle_key deal)) [
          | inr (e, h) ↦ absurd (ground arith)
          | inl ((oracle, won, leaf), h) ↦
              let same : keys ≡ some oracle ∷ some won ∷ [] = ground arith in
              let same' : preimage ≡ none = ground arith in
              rw
                (
                  loaded,
                  h,
                  same,
                  same',
                  dispute_inputs-leaf c winner oracle_key deal oracle won leaf h,
                )
                refl
        ]

    -- For a deal that is funded or shipped, with the keys and the preimage of the command, a destination, a node
    -- address that parses, and an escrow whose claim through the command's leaf can be made: if the node
    -- takes that claim, the invoice is then paid and the deal can be saved, the release, refund or dispute
    -- succeeds, with these two calls alone, and the deal is saved with the claim's id in the final state
    -- of the command.
    pub run_settlement-succeeds :
        (command : Settlement) (es : EscrowScript c.PublicKey) (tx_hex id : Str) (r : PayoutResult)
        (disk : Disk)
        → opened_deal json env (flags_of command).deal w.disk ≡ ok deal
        → (deal.state ≡ funded) ⊎ (deal.state ≡ shipped)
        → inputs_of c command deal ≡ ok (keys, preimage)
        → env.node_url_parses ≡ true
        → is_empty (flags_of command).dest_address ≡ false
        → deal_script c tx deal ≡ ok es
        → Makes services c tx taproot lib regtest
            (claim_config c es deal (leaf_of command) keys preimage (flags_of command).dest_address)
            tx_hex
        → services.sent_raw_transaction w.log tx_hex ≡ some id
        → (flags_of command).invoice ≢ []
        → Paid services (flags_of command).invoice 0 (send_raw_transaction tx_hex ∷ w.log) r
        → save json (as_settled now (final_state command) id deal) w.disk ≡ ok disk
        → run_settlement services json c tx taproot lib regtest env now command w ≡ (
          ok tt,
          record w {
            disk = disk;
            log = pay_invoice (flags_of command).invoice 60 ∷ send_raw_transaction tx_hex ∷ w.log;
          },
        )
    unfolding settle destination claim_and_finish pay_and_finish
    run_settlement-succeeds command es tx_hex id r disk loaded was inputs parses addressed scripted
          makes takes asked paid saves =
        let cfg =
          claim_config c es deal (leaf_of command) keys preimage (flags_of command).dest_address in
        let claimed = claim-taken cfg w.log tx_hex id makes takes in
        let payed =
          payout-log services (flags_of command).invoice (send_raw_transaction tx_hex ∷ w.log) r
            asked paid in
        run-settle command loaded inputs
        ∙ rw
            (
              parses,
              addressed,
              scripted,
              claimed,
              payed,
              method-made command now id deal was,
              saves,
            )
            refl
