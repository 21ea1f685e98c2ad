-- ===== src/Swap/Claim/Broadcast.antt =====
-- `ClaimEscrow` of pkg/escrow/swap/escrow_claim.go as calls of the node.
use ark_escrow.Base.{
  Str, some, none, List, [], ◌∷◌, Result, ok, err, ◌≡◌, inl, inr, Result-cases, Option-cases,
}
use ark_escrow.Curve.{Curve}
use ark_escrow.Script.Txscript.{Txscript}
use ark_escrow.Escrow.Elements.{Taproot}
use ark_escrow.Swap.Pset.{Network, Pset, Psetv2, extract_and_broadcast}
use ark_escrow.Swap.Claim.{ClaimError, ClaimEscrowConfig, claim_pset, claim_escrow}
use ark_escrow.Swap.Services.{send_raw_transaction, Services, Log, Calls}

abbrev pub sent : List Str → Log → Log
sent [] log = log
sent (tx_hex ∷ rest) log = sent rest (send_raw_transaction tx_hex ∷ log)

module _ (services : Services) (c : Curve) (tx : Txscript) (taproot : Taproot c.PublicKey)
    (lib : Psetv2 c) where
  unfoldable pub claim : Network → ClaimEscrowConfig c → Calls ClaimError Str
  unfolding claim_escrow
  claim regtest cfg = λ log.
      let (r, transactions) =
        claim_escrow c tx taproot lib (services.sent_raw_transaction log) regtest cfg in
      (r, sent transactions log)

  -- The transaction that a claim makes.
  pub record Makes (regtest : Network) (cfg : ClaimEscrowConfig c) (tx_hex : Str) : Type 0 where
    pub pset : Pset lib.ControlBlock
    pub made : claim_pset c tx taproot lib regtest cfg ≡ ok pset
    pub extracted : lib.extract pset ≡ some tx_hex

  -- A claim fails without a call, or sends the one transaction that it makes, which the node refuses
  -- or takes.
  pub data Claims (regtest : Network) (cfg : ClaimEscrowConfig c) (log : Log)
      : Result ClaimError Str × Log → Type 0 where
    unsent : (e : ClaimError) → Claims regtest cfg log (err e, log)
    refused :
        (e : ClaimError) (tx_hex : Str)
        → Makes regtest cfg tx_hex
        → services.sent_raw_transaction log tx_hex ≡ none
        → Claims regtest cfg log (err e, send_raw_transaction tx_hex ∷ log)
    taken :
        (id tx_hex : Str)
        → Makes regtest cfg tx_hex
        → services.sent_raw_transaction log tx_hex ≡ some id
        → Claims regtest cfg log (ok id, send_raw_transaction tx_hex ∷ log)

  pub claim-Claims :
      (regtest : Network) (cfg : ClaimEscrowConfig c) (log : Log)
      → Claims regtest cfg log (claim regtest cfg log)
  unfolding claim claim_escrow extract_and_broadcast
  claim-Claims regtest cfg log = elim (Result-cases (claim_pset c tx taproot lib regtest cfg)) [
    | inr (e, h) ↦ rw (h, claim_escrow, claim) (unsent e)
    | inl (p, h) ↦ elim (Option-cases (lib.extract p)) [
      | inl h' ↦ rw (h, h', extract_and_broadcast, claim_escrow, claim) (unsent _)
      | inr (tx_hex, h') ↦
          let makes : Makes regtest cfg tx_hex = record { pset = p; made = h; extracted = h' } in
          elim (Option-cases (services.sent_raw_transaction log tx_hex)) [
            | inl h'' ↦
                rw (h, h', h'', extract_and_broadcast, claim_escrow, claim)
                  (refused _ tx_hex makes h'')
            | inr (id, h'') ↦
                rw (h, h', h'', extract_and_broadcast, claim_escrow, claim)
                  (taken id tx_hex makes h'')
          ]
    ]
  ]
