-- ===== src/Tests/Recoveries.antt =====
-- The theorems on the recovery of cmd/escrow at a kit of a concrete deal.
use ark_escrow.Base.{ℕ, ◌≡◌, refl, true, lit, none, some, [], ◌∷◌, ok, inl}
use ark_escrow.Hex
use ark_escrow.Recovery.{recovery_kit_for_buyer}
use ark_escrow.Recovery.Address.{address, deal_escrow_address}
use ark_escrow.Command.{deal_script, parse_priv_key}
use ark_escrow.Escrow.{EscrowScript, new_escrow_script}
use ark_escrow.Escrow.Elements.{elements_address, leaf_scripts}
use ark_escrow.Params.{escrow_params, decode_pub_key}
use ark_escrow.Script.Closure.{script}
use ark_escrow.Script.Locktime.{bip68_sequence}
use ark_escrow.Bech32.Address.{encode_bech32m}
use ark_escrow.Bech32.Convert.{convert_bits}
use ark_escrow.Bech32.Polymod.{bech32m_polymod}
use ark_escrow.Bech32.Runes.{runes}
use ark_escrow.Command.Settle.{claim_config}
use ark_escrow.Command.Settle.Inputs.{leaf_timeout}
use ark_escrow.Command.Recovering.{kit_claim, recoverykit_action, verified}
use ark_escrow.Command.Recovering.Actions as Recovering
use ark_escrow.Command.Recovering.Actions.{recover_action, recover_action-Outcome}
use ark_escrow.Command.Recovering.Claims.{kit_claim-refund}
use ark_escrow.Command.Recovering.Verified.{recoverykit_action-verified}
use ark_escrow.Tests.Library.{curve, taproot, psets}
use ark_escrow.Tests.Txscript.{txscript}
use ark_escrow.Tests.Swaps.{services, regtest}
use ark_escrow.Tests.Texts.{json}
use ark_escrow.Tests.Programs.{deal, disk, env, codec, no_file, kit_text, kit, load_works}

abbrev recover_flags : Recovering.RecoverFlags
recover_flags = record {
  kit = lit "arkescrowB{";
  dest_address = lit "ert1pqurs3vqnjf";
  secret = [];
}

recover_example :
    Recovering.Outcome services codec curve txscript taproot psets regtest no_file env recover_flags
      []
      (recover_action services codec curve txscript taproot psets regtest no_file env recover_flags
        [])
recover_example =
    recover_action-Outcome services codec curve txscript taproot psets regtest no_file env
      recover_flags []

kit_works : recovery_kit_for_buyer deal ≡ ok kit
unfolding recovery_kit_for_buyer Hex.encode_to_string
kit_works = refl

script_works :
    (es : EscrowScript ℕ) × (deal_script curve txscript deal ≡ ok es)
    × (address curve txscript taproot es (lit "ert") ≡ ok deal.escrow_address)
unfolding address deal_script escrow_params Hex.encode_to_string decode_pub_key Hex.decode_string
    new_escrow_script elements_address leaf_scripts script bip68_sequence encode_bech32m
    convert_bits bech32m_polymod runes
script_works = (_, refl, refl)

key_works : parse_priv_key curve deal.buyer_priv_key ≡ ok true
unfolding parse_priv_key Hex.encode_to_string Hex.decode_string
key_works = refl

kit_claim_example :
    kit_claim curve txscript taproot kit [] (lit "ert1pqurs3vqnjf")
    ≡ ok (
        claim_config curve script_works.0 deal leaf_timeout
          (some true ∷ [])
          none
          (lit "ert1pqurs3vqnjf"))
kit_claim_example =
    kit_claim-refund curve txscript taproot deal kit script_works.0 true (lit "ert")
      deal.escrow_address [] (lit "ert1pqurs3vqnjf") kit_works script_works.1 script_works.2
      key_works

derived : deal_escrow_address curve txscript taproot deal (lit "ert") ≡ ok deal.escrow_address
unfolding deal_escrow_address escrow_params Hex.encode_to_string decode_pub_key Hex.decode_string
    new_escrow_script elements_address leaf_scripts script bip68_sequence encode_bech32m
    convert_bits bech32m_polymod runes
derived = refl

verified_example :
    recoverykit_action curve txscript taproot json codec kit_text env
      (lit "d1")
      (lit "buyer")
      true
      (lit "ert")
      disk
    ≡ ok (lit "{buyer", verified deal.escrow_address)
verified_example =
    recoverykit_action-verified curve txscript taproot json codec kit_text env (lit "d1")
      (lit "buyer") (lit "ert") (lit "{buyer") true disk deal kit load_works (inl (refl, kit_works))
      refl refl refl derived
