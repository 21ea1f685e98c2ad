-- ===== src/Command/Recovering/Verified.antt =====
-- What `recoverykitAction` of cmd/escrow/commands.go reports of a deal that was joined.
use ark_escrow.Base.{
  Str, Bool, false, some, ok, refl, Option, if◌then◌else◌, is_empty, ◌≡◌, ◌⊎◌, arith, str_eq_refl,
  lit, inl, inr, str_eq_iff,
}
use ark_escrow.Curve.{Curve}
use ark_escrow.Script.Txscript.{Txscript}
use ark_escrow.Deal.{Deal}
use ark_escrow.Escrow.Elements.{Taproot}
use ark_escrow.Recovery.{
  RecoveryKit, Codec, encode, recovery_kit_for_buyer, recovery_kit_for_seller,
}
use ark_escrow.Recovery.Address.{deal_escrow_address, kit_escrow_address_eq}
use ark_escrow.Store.{DealJson}
use ark_escrow.Store.Files.{Disk}
use ark_escrow.Command.{opened_deal}
use ark_escrow.Command.World.{Env}
use ark_escrow.Command.Recovering.{verified, verification, kit_of_role, recoverykit_action}

-- The kit of a role: the buyer's for `buyer`, the seller's for `seller`.
abbrev pub MadeFor : Str → Deal → RecoveryKit → Type 0
MadeFor role deal kit =
    ((role ≡ lit "buyer") × (recovery_kit_for_buyer deal ≡ ok kit))
    ⊎ ((role ≡ lit "seller") × (recovery_kit_for_seller deal ≡ ok kit))

kit_of_role-made :
    (role : Str) (deal : Deal) (kit : RecoveryKit)
    → MadeFor role deal kit
    → kit_of_role role deal ≡ ok kit
unfolding kit_of_role
kit_of_role-made role deal kit made =
    ground (arith, str_eq_iff role (lit "buyer"), str_eq_iff role (lit "seller"))

MadeFor-either :
    (role : Str) (deal : Deal) (kit : RecoveryKit)
    → MadeFor role deal kit
    → (recovery_kit_for_buyer deal ≡ ok kit) ⊎ (recovery_kit_for_seller deal ≡ ok kit)
MadeFor-either role deal kit (inl (_, h)) = inl h
MadeFor-either role deal kit (inr (_, h)) = inr h

verification-same :
    (addr : Str) → is_empty addr ≡ false → verification addr (ok addr) ≡ verified addr
unfolding verification
verification-same addr h = rw (h, str_eq_refl addr) refl

module _ (c : Curve) (tx : Txscript) (taproot : Taproot c.PublicKey) where
  -- If a stored deal has the address that its keys, hash and timeout give under the prefix, neither of them empty,
  -- and the kit can be made and written, `recoverykitAction` writes the buyer's kit for the role `buyer` and the
  -- seller's for the role `seller`, with the prefix, and reports its address as verified.
  pub recoverykit_action-verified :
      (json : DealJson) (codec : Codec) (indent : RecoveryKit → Option Str) (env : Env)
      (id role hrp text : Str) (as_json : Bool) (disk : Disk) (deal : Deal) (kit : RecoveryKit)
      → opened_deal json env id disk ≡ ok deal
      → MadeFor role deal kit
      → (if as_json
          then indent (record kit { network_hrp = hrp })
          else encode codec (record kit { network_hrp = hrp }))
        ≡ some text
      → is_empty hrp ≡ false
      → is_empty deal.escrow_address ≡ false
      → deal_escrow_address c tx taproot deal hrp ≡ ok deal.escrow_address
      → recoverykit_action c tx taproot json codec indent env id role as_json hrp disk
        ≡ ok (text, verified deal.escrow_address)
  unfolding recoverykit_action
  recoverykit_action-verified json codec indent env id role hrp text as_json disk deal kit loaded
        made written prefixed stored derived =
      let same =
        kit_escrow_address_eq c tx taproot deal kit hrp (MadeFor-either role deal kit made) in
      rw (loaded, kit_of_role-made role deal kit made, written)
        (rw (same, prefixed, derived) (rw (verification-same deal.escrow_address stored) refl))
