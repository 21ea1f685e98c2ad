-- ===== src/Command/Settle/Actions.antt =====
-- What the commands release, refund and dispute of cmd/escrow/commands.go do to the money and to the
-- deal's file.
use ark_escrow.Base.{ℕ, Str, lit, some, none, [], ◌∷◌, refl, arith, inl, inr, str_eq, if◌then◌else◌}
use ark_escrow.Base.{Result-cases, Result, ok, List, Option, ◌>>=◌}
use ark_escrow.Curve.{Curve}
use ark_escrow.Script.Txscript.{Txscript}
use ark_escrow.Deal.{Deal, DealState, released, refunded, disputed, release, refund, dispute}
use ark_escrow.Escrow.Elements.{Taproot}
use ark_escrow.Store.{DealJson}
use ark_escrow.Swap.Pset.{Network, Psetv2}
use ark_escrow.Swap.Services.{Services}
use ark_escrow.Command.{CommandError, opened_deal, stored_key, buyer_key_missing, invalid_buyer_key}
use ark_escrow.Command.World.{World, Env, Action}
use ark_escrow.Command.Settle.{SettleFlags, release_action, refund_action, dispute_action}
use ark_escrow.Command.Settle.Inputs.{release_inputs, dispute_inputs, dispute_inputs-leaf}
use ark_escrow.Command.Settle.Outcomes.{Finishes, Outcome, unclaimed, settle-Outcome}

-- The three commands with their flags; a dispute's with the winner and the oracle's key.
pub data Settlement : Type 0 where
  release_command refund_command : SettleFlags → Settlement
  dispute_command : SettleFlags → Str → Str → Settlement

abbrev pub flags_of : Settlement → SettleFlags
flags_of (release_command flags) = flags
flags_of (refund_command flags) = flags
flags_of (dispute_command flags _ _) = flags

abbrev pub leaf_of : Settlement → ℕ
leaf_of (release_command _) = 0
leaf_of (refund_command _) = 1
leaf_of (dispute_command _ winner _) = if str_eq winner (lit "seller") then 2 else 3

abbrev pub final_state : Settlement → DealState
final_state (release_command _) = released
final_state (refund_command _) = refunded
final_state (dispute_command _ _ _) = disputed

release-Finishes : (now : ℕ) → Finishes now released (release now)
unfolding release
release-Finishes now id deal settled h = ground arith

refund-Finishes : (now : ℕ) → Finishes now refunded (refund now)
unfolding refund
refund-Finishes now id deal settled h = ground arith

dispute-Finishes : (now : ℕ) → Finishes now disputed (dispute now)
unfolding dispute
dispute-Finishes now id deal settled h = ground arith

module _ (c : Curve) where
  -- The keys that a command signs with, and its preimage.
  abbrev pub inputs_of :
      Settlement → Deal → Result CommandError (List (Option c.PrivateKey) × Option Str)
  inputs_of (release_command _) deal =
      release_inputs c deal >>= λ (key, preimage). ok (some key ∷ [], some preimage)
  inputs_of (refund_command _) deal =
      stored_key c buyer_key_missing invalid_buyer_key deal.buyer_priv_key >>= λ key.
      ok (some key ∷ [], none)
  inputs_of (dispute_command _ winner oracle_key) deal =
      dispute_inputs c winner oracle_key deal >>= λ (oracle, won, leaf).
      ok (some oracle ∷ some won ∷ [], none)

module _ (services : Services) (json : DealJson) (c : Curve) (tx : Txscript)
    (taproot : Taproot c.PublicKey) (lib : Psetv2 c) (regtest : Network) where
  abbrev pub run_settlement : Env → ℕ → Settlement → Action CommandError (Unit {0})
  run_settlement env now (release_command flags) =
      release_action services json c tx taproot lib regtest env now flags
  run_settlement env now (refund_command flags) =
      refund_action services json c tx taproot lib regtest env now flags
  run_settlement env now (dispute_command flags winner oracle_key) =
      dispute_action services json c tx taproot lib regtest env now flags winner oracle_key

  pub release_action-Outcome :
      (env : Env) (now : ℕ) (flags : SettleFlags) (w : World)
      → Outcome services json c tx taproot lib regtest
          (inputs_of c (release_command flags))
          env
          flags
          0
          now
          released
          w
          (release_action services json c tx taproot lib regtest env now flags w)
  unfolding release_action
  release_action-Outcome env now flags w =
      elim (Result-cases (opened_deal json env flags.deal w.disk)) [
        | inr (e, h) ↦ simp h (unclaimed e w.log refl refl)
        | inl (deal, loaded) ↦ elim (Result-cases (release_inputs c deal)) [
          | inr (e, h) ↦ simp (loaded, h) (unclaimed e w.log refl refl)
          | inl ((key, preimage), h) ↦
              simp (loaded, h)
                (settle-Outcome services json c tx taproot lib regtest
                  (inputs_of c (release_command flags)) env flags 0 now released w (release now)
                  (release-Finishes now) deal (some key ∷ []) (some preimage) loaded (rw h refl))
        ]
      ]

  pub refund_action-Outcome :
      (env : Env) (now : ℕ) (flags : SettleFlags) (w : World)
      → Outcome services json c tx taproot lib regtest
          (inputs_of c (refund_command flags))
          env
          flags
          1
          now
          refunded
          w
          (refund_action services json c tx taproot lib regtest env now flags w)
  unfolding refund_action
  refund_action-Outcome env now flags w =
      elim (Result-cases (opened_deal json env flags.deal w.disk)) [
        | inr (e, h) ↦ simp h (unclaimed e w.log refl refl)
        | inl (deal, loaded) ↦
            elim (Result-cases
              (stored_key c buyer_key_missing invalid_buyer_key deal.buyer_priv_key)) [
                | inr (e, h) ↦ simp (loaded, h) (unclaimed e w.log refl refl)
                | inl (key, h) ↦
                    simp (loaded, h)
                      (settle-Outcome services json c tx taproot lib regtest
                        (inputs_of c (refund_command flags)) env flags 1 now refunded w (refund now)
                        (refund-Finishes now) deal (some key ∷ []) none loaded (rw h refl))
              ]
      ]

  pub dispute_action-Outcome :
      (env : Env) (now : ℕ) (flags : SettleFlags) (winner oracle_key : Str) (w : World)
      → Outcome services json c tx taproot lib regtest
          (inputs_of c (dispute_command flags winner oracle_key))
          env
          flags
          (if str_eq winner (lit "seller") then 2 else 3)
          now
          disputed
          w
          (dispute_action services json c tx taproot lib regtest env now flags winner oracle_key w)
  unfolding dispute_action
  dispute_action-Outcome env now flags winner oracle_key w =
      elim (Result-cases (opened_deal json env flags.deal w.disk)) [
        | inr (e, h) ↦ simp h (unclaimed e w.log refl refl)
        | inl (deal, loaded) ↦ elim (Result-cases (dispute_inputs c winner oracle_key deal)) [
          | inr (e, h) ↦ simp (loaded, h) (unclaimed e w.log refl refl)
          | inl ((oracle, won, leaf), h) ↦
              simp (loaded, h, dispute_inputs-leaf c winner oracle_key deal oracle won leaf h)
                (settle-Outcome services json c tx taproot lib regtest
                  (inputs_of c (dispute_command flags winner oracle_key)) env flags leaf now
                  disputed w (dispute now) (dispute-Finishes now) deal (some oracle ∷ some won ∷ [])
                  none loaded (rw h refl))
        ]
      ]

  -- Every run of a release, refund or dispute ends in one of four ways. There is an error, the node took
  -- no transaction, no payment was tried and the directory is as before. Or the node took one transaction,
  -- which claims the deal's outpoint and amount through the command's leaf of the deal's escrow, with the
  -- command's keys and preimage and to the address of its flags or else a new one of the node, and there is
  -- an error with no payment and the directory as before, or with one payment tried after the claim, and then
  -- the directory is as before, but that a failed save may have cut off the deal's own file. Or, after that
  -- claim and no other, the invoice was paid once, the deal was funded or shipped, and it is saved with the
  -- claim's id in the final state of the command.
  pub run_settlement-Outcome :
      (env : Env) (now : ℕ) (command : Settlement) (w : World)
      → Outcome services json c tx taproot lib regtest
          (inputs_of c command)
          env
          (flags_of command)
          (leaf_of command)
          now
          (final_state command)
          w
          (run_settlement env now command w)
  run_settlement-Outcome env now (release_command flags) w = release_action-Outcome env now flags w
  run_settlement-Outcome env now (refund_command flags) w = refund_action-Outcome env now flags w
  run_settlement-Outcome env now (dispute_command flags winner oracle_key) w =
      dispute_action-Outcome env now flags winner oracle_key w
