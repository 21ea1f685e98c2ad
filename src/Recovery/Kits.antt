-- ===== src/Recovery/Kits.antt =====
-- What a recovery kit of pkg/escrow/recovery.go carries: the deal's escrow parameters, and itself
-- through its encoded form.
use ark_escrow.Base.{Str, some, ◌≡◌, arith, ◌++◌}
use ark_escrow.Base.{ok, length, str_eq_refl, take-length_append}
use ark_escrow.Base.{drop-length_append, length-append, ◌<◌, ◌⊎◌}
use ark_escrow.Curve.{Curve}
use ark_escrow.Deal.{Deal}
use ark_escrow.Params.{escrow_params}
use ark_escrow.Recovery.{
  RecoveryKit, Codec, recovery_kit_for_buyer, recovery_kit_for_seller, encode, decode_recovery_kit,
  recovery_hrp, recovery_kit_version, kit_escrow_params,
}

-- A kit, for either role, gives exactly the parameters that its deal gives, an error included, and
-- it names the deal's funding outpoint and amount.
pub kit_escrow_params_eq :
    (c : Curve) (d : Deal) (kit : RecoveryKit)
    → (recovery_kit_for_buyer d ≡ ok kit) ⊎ (recovery_kit_for_seller d ≡ ok kit)
    → (kit_escrow_params c kit ≡ escrow_params c d)
      × (kit.fund_tx_id ≡ d.fund_tx_id)
      × (kit.fund_vout ≡ d.fund_vout)
      × (kit.amount ≡ d.amount)
unfolding recovery_kit_for_buyer recovery_kit_for_seller kit_escrow_params escrow_params
kit_escrow_params_eq c d kit h = ground arith

-- base58check gives back what it encoded, of at least one character; at this kit JSON does too.
pub record RoundTrips (codec : Codec) (kit : RecoveryKit) (bytes : Str) : Type 0 where
  pub marshals : codec.marshal kit ≡ some bytes
  pub unmarshals : codec.unmarshal bytes ≡ some kit
  pub checks :
      codec.check_decode (codec.check_encode bytes recovery_kit_version)
      ≡ some (bytes, recovery_kit_version)
  pub not_empty : 0 < length (codec.check_encode bytes recovery_kit_version)

-- Where JSON and base58check give back the kit that they are given, `Encode` yields a text that
-- `DecodeRecoveryKit` reads as the same kit.
pub decode_recovery_kit-encode :
    (codec : Codec) (kit : RecoveryKit) (bytes : Str)
    → RoundTrips codec kit bytes
    → (s : Str) × (encode codec kit ≡ some s) × (decode_recovery_kit codec s ≡ ok kit)
unfolding encode decode_recovery_kit
decode_recovery_kit-encode codec kit bytes h =
    let body = codec.check_encode bytes recovery_kit_version in
    (
      recovery_hrp ++ body,
      ground (arith, h),
      ground (
        arith,
        h,
        length-append recovery_hrp body,
        take-length_append recovery_hrp body,
        drop-length_append recovery_hrp body,
        str_eq_refl recovery_hrp,
      ),
    )
