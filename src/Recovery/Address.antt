-- ===== src/Recovery/Address.antt =====
-- `EscrowAddress` of pkg/escrow/recovery.go, and the address that `joinAction` of
-- cmd/escrow/commands.go stores in the deal.
use ark_escrow.Base.{Str, is_empty, if◌then◌else◌, Result, ok, ◌>>=◌, wrap_err, ◌≡◌, ◌⊎◌}
use ark_escrow.Curve.{Curve}
use ark_escrow.Script.Txscript.{Txscript}
use ark_escrow.Deal.{Deal}
use ark_escrow.Params.{ParamsError, escrow_params}
use ark_escrow.Escrow.{EscrowError, EscrowScript, new_escrow_script}
use ark_escrow.Escrow.Elements.{Taproot, ElementsError, elements_address}
use ark_escrow.Recovery.{
  RecoveryKit, recovery_kit_for_buyer, recovery_kit_for_seller, kit_escrow_params, default_hrp,
}
use ark_escrow.Recovery.Kits.{kit_escrow_params_eq}

pub data EscrowAddressError : Type 0 where
  params_failed : ParamsError → EscrowAddressError
  script_failed : EscrowError → EscrowAddressError
  elements_failed : ElementsError → EscrowAddressError

module _ (c : Curve) (tx : Txscript) (taproot : Taproot c.PublicKey) where
  -- `EscrowScript.Address`
  unfoldable pub address : EscrowScript c.PublicKey → Str → Result ElementsError Str
  address es hrp = elements_address c tx taproot es.closures hrp

  unfoldable pub deal_escrow_address : Deal → Str → Result EscrowAddressError Str
  unfolding address
  deal_escrow_address deal hrp = do
    params ← wrap_err params_failed (escrow_params c deal)
    es ← wrap_err script_failed (new_escrow_script tx params)
    wrap_err elements_failed (address es hrp)

  pub kit_escrow_address : RecoveryKit → Result EscrowAddressError Str
  unfolding address
  kit_escrow_address r = do
    params ← wrap_err params_failed (kit_escrow_params c r)
    es ← wrap_err script_failed (new_escrow_script tx params)
    wrap_err elements_failed
        (address es (if is_empty r.network_hrp then default_hrp else r.network_hrp))

  -- A kit of a deal, for either role, whose prefix is replaced by any prefix derives the address that the
  -- deal's keys, hash and timeout give under that prefix, or under "ert" for an empty one, or the same error.
  pub kit_escrow_address_eq :
      (deal : Deal) (kit : RecoveryKit) (hrp : Str)
      → (recovery_kit_for_buyer deal ≡ ok kit) ⊎ (recovery_kit_for_seller deal ≡ ok kit)
      → kit_escrow_address (record kit { network_hrp = hrp })
        ≡ deal_escrow_address deal (if is_empty hrp then default_hrp else hrp)
  unfolding kit_escrow_address deal_escrow_address kit_escrow_params
  kit_escrow_address_eq deal kit hrp made = rw (kit_escrow_params_eq c deal kit made).0
