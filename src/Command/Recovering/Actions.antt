-- ===== src/Command/Recovering/Actions.antt =====
-- `recoverAction` of cmd/escrow/commands.go, over the node.
use ark_escrow.Base.{
  Str, Bool, true, false, Option, some, none, ◌∷◌, [], Result, ok, err, require, wrap_err, ◌≡◌, ◌≢◌,
  refl, subst, arith, Result-cases, Option-cases, Bool-cases, inl, inr,
}
use ark_escrow.Curve.{Curve}
use ark_escrow.Script.Txscript.{Txscript}
use ark_escrow.Escrow.Elements.{Taproot}
use ark_escrow.Recovery.{RecoveryKit, Codec, validate}
use ark_escrow.Recovery.Check.{IsComplete, validate_iff}
use ark_escrow.Swap.Pset.{Network, Psetv2}
use ark_escrow.Swap.Claim.{ClaimError, ClaimEscrowConfig}
use ark_escrow.Swap.Claim.Broadcast.{claim, Makes, Claims, unsent, refused, taken, claim-Claims}
use ark_escrow.Swap.Services.{
  Services, Log, Calls, get_tx_out, send_raw_transaction, ◌>>=◌, ◌>>◌, return, call,
}
use ark_escrow.Swap.Fund.{wrap}
use ark_escrow.Command.{CommandError, invalid_node_url, lookup_failed, already_spent, claim_failed}
use ark_escrow.Command.Settle.Counts.{claims}
use ark_escrow.Command.World.{Env}
use ark_escrow.Command.Recovering.{read_kit, checked_kit, kit_claim}

pub record RecoverFlags : Type 0 where
  pub kit : Str
  pub dest_address : Str
  pub secret : Str

abbrev is_some : Option Str → Bool
is_some none = false
is_some (some _) = true

module _ (services : Services) (codec : Codec) (c : Curve) (tx : Txscript)
    (taproot : Taproot c.PublicKey) (lib : Psetv2 c) (regtest : Network) where
  -- From the node's client on.
  unfoldable pub recover_claim : ClaimEscrowConfig c → Calls CommandError Str
  recover_claim cfg = do
    out ←
        call (get_tx_out cfg.fund_tx_id cfg.fund_vout) lookup_failed
          (λ log. services.tx_out log cfg.fund_tx_id cfg.fund_vout)
    return (require (is_some out) already_spent)
    wrap claim_failed (claim services c tx taproot lib regtest cfg)

  -- The claim's id, with the file system as it reads the name of a kit's file.
  unfoldable pub recover_action : (Str → Option Str) → Env → RecoverFlags → Calls CommandError Str
  unfolding recover_claim
  recover_action read_file env flags = do
    kit ← return (checked_kit c codec read_file flags.kit)
    return (require env.node_url_parses invalid_node_url)
    cfg ← return (kit_claim c tx taproot kit flags.secret flags.dest_address)
    recover_claim cfg

  -- How a recovery can end: with an error, and then the node took no transaction; or with the one
  -- transaction of the claim that the kit makes, of a funding output that the node had not seen spent.
  pub data Outcome (read_file : Str → Option Str) (env : Env) (flags : RecoverFlags) (log : Log)
      : Result CommandError Str × Log → Type 0 where
    failed :
        (e : CommandError) (log' : Log)
        → claims services log' ≡ claims services log
        → Outcome read_file env flags log (err e, log')
    recovered :
        (kit : RecoveryKit) (cfg : ClaimEscrowConfig c) (out tx_hex id : Str)
        → read_kit codec read_file flags.kit ≡ ok kit
        → IsComplete c kit
        → kit.fund_tx_id ≢ []
        → kit_claim c tx taproot kit flags.secret flags.dest_address ≡ ok cfg
        → services.tx_out log cfg.fund_tx_id cfg.fund_vout ≡ some (some out)
        → Makes services c tx taproot lib regtest cfg tx_hex
        → services.sent_raw_transaction (get_tx_out cfg.fund_tx_id cfg.fund_vout ∷ log) tx_hex
          ≡ some id
        → Outcome read_file env flags log
            (ok id, send_raw_transaction tx_hex ∷ get_tx_out cfg.fund_tx_id cfg.fund_vout ∷ log)

  -- A kit that passes the tests is the one that was read, with every field that a claim needs.
  checked_kit-eq :
      (read_file : Str → Option Str) (text : Str) (kit : RecoveryKit)
      → checked_kit c codec read_file text ≡ ok kit
      → (read_kit codec read_file text ≡ ok kit) × IsComplete c kit × (kit.fund_tx_id ≢ [])
  unfolding checked_kit
  checked_kit-eq read_file text kit h = elim (Result-cases (read_kit codec read_file text)) [
    | inr (e, h1) ↦ ground arith
    | inl (found, h1) ↦ elim (Result-cases (validate c found)) [
      | inr (e, h2) ↦ ground arith
      | inl (tt, h2) ↦
          let same : found ≡ kit = ground arith in
          (
            rw (← same) h1,
            subst (λ (k : RecoveryKit). IsComplete c k) same ((validate_iff c found).0 h2),
            ground arith,
          )
    ]
  ]

  claimed-Outcome :
      (read_file : Str → Option Str) (env : Env) (flags : RecoverFlags) (log : Log)
      (kit : RecoveryKit) (cfg : ClaimEscrowConfig c) (out : Str) (r : Result ClaimError Str × Log)
      → Claims services c tx taproot lib regtest cfg
          (get_tx_out cfg.fund_tx_id cfg.fund_vout ∷ log)
          r
      → checked_kit c codec read_file flags.kit ≡ ok kit
      → kit_claim c tx taproot kit flags.secret flags.dest_address ≡ ok cfg
      → services.tx_out log cfg.fund_tx_id cfg.fund_vout ≡ some (some out)
      → Outcome read_file env flags log (wrap_err claim_failed r.0, r.1)
  unfolding claims
  claimed-Outcome read_file env flags log kit cfg out r (unsent e) h h' h'' =
      failed _ _ (omega arith)
  claimed-Outcome read_file env flags log kit cfg out r (refused e tx_hex makes none_taken) h h'
        h'' =
      failed _ _ (rw none_taken (omega arith))
  claimed-Outcome read_file env flags log kit cfg out r (taken id tx_hex makes takes) h h' h'' =
      let checked = checked_kit-eq read_file flags.kit kit h in
      recovered kit cfg out tx_hex id checked.0 checked.1 checked.2 h' h'' makes takes

  -- Every run of `recoverAction` ends in one of two ways: with an error, and then the node took no
  -- transaction; or the kit that was read has a funding transaction and every field of a valid kit, its private
  -- key being that of its role's public key, the node still has its output unspent, and the node took the
  -- one transaction that the kit's claim makes, whose id is the result.
  pub recover_action-Outcome :
      (read_file : Str → Option Str) (env : Env) (flags : RecoverFlags) (log : Log)
      → Outcome read_file env flags log (recover_action read_file env flags log)
  unfolding recover_action claims
  recover_action-Outcome read_file env flags log =
      elim (Result-cases (checked_kit c codec read_file flags.kit)) [
        | inr (e, h) ↦ simp h (failed e log refl)
        | inl (kit, h) ↦ elim (Bool-cases env.node_url_parses) [
          | inr h' ↦ simp (h, h') (failed invalid_node_url log refl)
          | inl h' ↦
              elim (Result-cases (kit_claim c tx taproot kit flags.secret flags.dest_address)) [
                | inr (e, h'') ↦ simp (h, h', h'') (failed e log refl)
                | inl (cfg, h'') ↦
                    let asked = get_tx_out cfg.fund_tx_id cfg.fund_vout ∷ log in
                    elim (Option-cases (services.tx_out log cfg.fund_tx_id cfg.fund_vout)) [
                      | inl h3 ↦ simp (h, h', h'', h3) (failed lookup_failed asked (omega arith))
                      | inr (none, h3) ↦
                          simp (h, h', h'', h3) (failed already_spent asked (omega arith))
                      | inr (some out, h3) ↦
                          simp (h, h', h'', h3)
                            (claimed-Outcome read_file env flags log kit cfg out
                              (claim services c tx taproot lib regtest cfg asked)
                              (claim-Claims services c tx taproot lib regtest cfg asked) h h'' h3)
                    ]
              ]
        ]
      ]
