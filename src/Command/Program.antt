-- ===== src/Command/Program.antt =====
-- The program of cmd/escrow/main.go: its ten commands over the directory and the services, without what
-- they print.
pub mod Changes
pub mod Additions
pub mod Steps
pub mod Reach
use ark_escrow.Base.{ℕ, Str, Bool, Option, some, none, if◌then◌else◌}
use ark_escrow.Curve.{Curve}
use ark_escrow.Script.Txscript.{Txscript}
use ark_escrow.Deal.{JoinToken}
use ark_escrow.Escrow.Elements.{Taproot}
use ark_escrow.Recovery.{RecoveryKit, Codec}
use ark_escrow.Store.{DealJson}
use ark_escrow.Swap.Pset.{Network, Psetv2}
use ark_escrow.Swap.Services.{Services, Log}
use ark_escrow.Command.{CommandError, left_by, opened_deal, join_action, ship_action}
use ark_escrow.Command.World.{World, Env, Action, ◌>>=◌, ◌>>◌, serve, reads, writes, skip}
use ark_escrow.Command.Creating.{CreateFlags, create_action}
use ark_escrow.Command.Funding.{fund_action}
use ark_escrow.Command.Settle.{SettleFlags, release_action, refund_action, dispute_action}
use ark_escrow.Command.Recovering.{recoverykit_action}
use ark_escrow.Command.Recovering.Actions.{RecoverFlags, recover_action}

-- A command with its flags and with what it draws at random: a key, then the bytes of an id, a secret
-- or a preimage. A fund command has the end of its context and the fuel of its loop.
pub data CommandLine (Private : Type 0) : Type 0 where
  create_command : Option Private → Option Str → CreateFlags → CommandLine Private
  join_command : Option JoinToken → Option Private → Option Str → CommandLine Private
  fund_command : Option Private → Option Str → (Log → Bool) → ℕ → Str → CommandLine Private
  ship_command : Str → CommandLine Private
  release_command refund_command : SettleFlags → CommandLine Private
  dispute_command : SettleFlags → Str → Str → CommandLine Private
  status_command : Str → CommandLine Private
  recoverykit_command : Str → Str → Bool → CommandLine Private
  recover_command : RecoverFlags → CommandLine Private

-- Go's standard library and the file system: SHA256, os.ReadFile at the file of a kit, and the JSON
-- text of a kit.
pub record System : Type 0 where
  pub sha256 : Str → Str
  pub read_file : Str → Option Str
  pub indent : RecoveryKit → Option Str

module _ (services : Services) (json : DealJson) (codec : Codec) (system : System) (c : Curve)
    (tx : Txscript) (taproot : Taproot c.PublicKey) (lib : Psetv2 c) (regtest : Network) where
  -- One command, with the flag network-hrp and the time.
  unfoldable pub run : Env → Str → ℕ → CommandLine c.PrivateKey → Action CommandError (Unit {0})
  run env hrp now (create_command drawn random flags) =
      create_action json c env now drawn random flags
  run env hrp now (join_command token drawn random) = writes left_by (λ disk.
      join_action json c tx taproot system.sha256 now now token drawn random hrp
        (if env.directory_made then some disk else none))
  run env hrp now (fund_command drawn random done fuel id) =
      fund_action services json c tx taproot lib regtest system.sha256 drawn random done fuel env
        now id
  run env hrp now (ship_command id) =
      writes left_by
        (λ disk. ship_action json now id (if env.directory_made then some disk else none))
  run env hrp now (release_command flags) =
      release_action services json c tx taproot lib regtest env now flags
  run env hrp now (refund_command flags) =
      refund_action services json c tx taproot lib regtest env now flags
  run env hrp now (dispute_command flags winner oracle_key) =
      dispute_action services json c tx taproot lib regtest env now flags winner oracle_key
  run env hrp now (status_command id) = reads (opened_deal json env id) >>= skip
  run env hrp now (recoverykit_command id role as_json) =
      reads (recoverykit_action c tx taproot json codec system.indent env id role as_json hrp)
      >>= skip
  run env hrp now (recover_command flags) =
      serve (λ e. e)
        (recover_action services codec c tx taproot lib regtest system.read_file env flags)
      >>= skip
