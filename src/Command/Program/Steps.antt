-- ===== src/Command/Program/Steps.antt =====
-- Each of the ten commands of cmd/escrow as a change of the directory of the deals.
use ark_escrow.Base.{some, none, ℕ, Str, Result, ok, err, ◌≡◌, refl, wrap_err}
use ark_escrow.Curve.{Curve}
use ark_escrow.Script.Txscript.{Txscript}
use ark_escrow.Deal.{released, refunded, disputed}
use ark_escrow.Escrow.Elements.{Taproot}
use ark_escrow.Recovery.{Codec}
use ark_escrow.Store.{DealJson}
use ark_escrow.Swap.Pset.{Network, Psetv2}
use ark_escrow.Swap.Services.{Services}
use ark_escrow.Command.{CommandError, opened_deal}
use ark_escrow.Command.Recovering.{recoverykit_action}
use ark_escrow.Command.Recovering.Actions.{recover_action}
use ark_escrow.Command.World.{World, Env, go_on, skip}
use ark_escrow.Command.Settle.Actions.{
  release_action-Outcome, refund_action-Outcome, dispute_action-Outcome,
}
use ark_escrow.Command.Funding.Outcomes.{fund_action-Outcome}
use ark_escrow.Command.Program.{
  CommandLine, System, create_command, join_command, fund_command, ship_command, release_command,
  refund_command, dispute_command, status_command, recoverykit_command, recover_command, run,
}
use ark_escrow.Command.Program.Changes.{
  Change, unchanged, is_released, is_refunded, is_disputed, settled-Change, ship-Change,
  fund-Change,
}
use ark_escrow.Command.Program.Additions.{Fresh, create-Change, join-Change}

disk-skip :
    {E A : Type 0} (r : Result E A) (w : World) → (go_on {E = E} (r, w) skip).1.disk ≡ w.disk
disk-skip (ok a) w = refl
disk-skip (err e) w = refl

-- A command that only prints.
reading-Change :
    {E A : Type 0} (json : DealJson) (r : Result E A) (w w' : World)
    → w'.disk ≡ w.disk
    → Change json w.disk (go_on {E = E} (r, w') skip).1.disk
reading-Change json r w w' same = rw (disk-skip r w', same) unchanged

module _ (services : Services) (json : DealJson) (codec : Codec) (system : System) (c : Curve)
    (tx : Txscript) (taproot : Taproot c.PublicKey) (lib : Psetv2 c) (regtest : Network) where
  pub run-Change :
      (env : Env) (hrp : Str) (now : ℕ) (command : CommandLine c.PrivateKey) (w : World)
      → Fresh services json c tx taproot lib regtest command w.disk
      → Change json w.disk
          (run services json codec system c tx taproot lib regtest env hrp now command w).1.disk
  unfolding run
  run-Change env hrp now (create_command drawn random flags) w fresh =
      create-Change services json c tx taproot lib regtest env now drawn random flags w fresh
  run-Change env hrp now (join_command none drawn random) w fresh =
      join-Change services json c tx taproot lib regtest system.sha256 env now none drawn random hrp
        w _ refl tt
  run-Change env hrp now (join_command (some token) drawn random) w fresh =
      join-Change services json c tx taproot lib regtest system.sha256 env now (some token) drawn
        random hrp w _ refl fresh
  run-Change env hrp now (fund_command drawn random done fuel id) w fresh =
      fund-Change services json c tx taproot lib regtest system.sha256 drawn random env now id w _ (
        fund_action-Outcome services json c tx taproot lib regtest system.sha256 drawn random env
          now id w done fuel)
  run-Change env hrp now (ship_command id) w fresh =
      ship-Change services json c tx taproot lib regtest env now id w _ refl
  run-Change env hrp now (release_command flags) w fresh =
      settled-Change services json c tx taproot lib regtest _ env flags 0 now released w _
        (release_action-Outcome services json c tx taproot lib regtest env now flags w) is_released
  run-Change env hrp now (refund_command flags) w fresh =
      settled-Change services json c tx taproot lib regtest _ env flags 1 now refunded w _
        (refund_action-Outcome services json c tx taproot lib regtest env now flags w) is_refunded
  run-Change env hrp now (dispute_command flags winner oracle_key) w fresh =
      settled-Change services json c tx taproot lib regtest _ env flags _ now disputed w _
        (dispute_action-Outcome services json c tx taproot lib regtest env now flags winner
          oracle_key w)
        is_disputed
  run-Change env hrp now (status_command id) w fresh =
      reading-Change json (opened_deal json env id w.disk) w w refl
  run-Change env hrp now (recoverykit_command id role as_json) w fresh =
      reading-Change json
        (recoverykit_action c tx taproot json codec system.indent env id role as_json hrp w.disk) w
        w refl
  run-Change env hrp now (recover_command flags) w fresh =
      let recovery =
        recover_action services codec c tx taproot lib regtest system.read_file env flags w.log in
      reading-Change json (wrap_err (λ (e : CommandError). e) recovery.0) w
        (record w { log = recovery.1 }) refl
