-- ===== src/Tests/Releases.antt =====
-- A release of cmd/escrow that goes through, at a funded deal in a concrete directory.
use ark_escrow.Base.{ℕ, ◌≡◌, false, refl, arith, inl, Str, lit, some, [], ◌∷◌, ok, str_eq}
use ark_escrow.Hex
use ark_escrow.Deal.{released}
use ark_escrow.Params.{escrow_params, decode_pub_key}
use ark_escrow.Script.Closure.{script, signature_of}
use ark_escrow.Script.Locktime.{bip68_sequence}
use ark_escrow.Bech32.Address.{address_to_output_script}
use ark_escrow.Bech32.Convert.{convert_bits}
use ark_escrow.Bech32.Polymod.{bech32m_polymod}
use ark_escrow.Bech32.Runes.{runes}
use ark_escrow.Escrow.{EscrowScript, new_escrow_script}
use ark_escrow.Escrow.Elements.{
  leaf_scripts, elements_leaf_script, elements_p2tr_script, unspendable_key,
}
use ark_escrow.Escrow.Leaves.{escrow_of}
use ark_escrow.Store.{save}
use ark_escrow.Store.Files.{Disk, file, write_file, put, lookup}
use ark_escrow.Swap.Pset.{Pset, build_pset, sign_tapscript_input}
use ark_escrow.Swap.Claim.{ClaimEscrowConfig, claim_pset, finalize_escrow_witness}
use ark_escrow.Swap.Claim.Broadcast.{Makes}
use ark_escrow.Swap.Payout.{PayoutResult, Paid}
use ark_escrow.Swap.Services.{send_raw_transaction, pay_invoice}
use ark_escrow.Command.{deal_script, parse_priv_key}
use ark_escrow.Command.Settle.{claim_config}
use ark_escrow.Command.Settle.Inputs.{release_inputs, leaf_release}
use ark_escrow.Command.Settle.Outcomes.{as_settled}
use ark_escrow.Command.Settle.Succeeding.{run_settlement-succeeds}
use ark_escrow.Command.Settle.Actions.{inputs_of, release_command, run_settlement}
use ark_escrow.Tests.Library.{curve, curve-IsCurve, taproot, psets, zeros}
use ark_escrow.Tests.Txscript.{txscript, txscript-IsTxscript}
use ark_escrow.Tests.Swaps.{paid_services, regtest}
use ark_escrow.Tests.Texts.{json, deal_text}
use ark_escrow.Tests.Programs.{deal, disk, env, world, flags, load_works}

abbrev escrow : EscrowScript ℕ
escrow = escrow_of curve txscript curve-IsCurve txscript-IsTxscript 5 7 9 (3 ∷ zeros 31) 144

script_works : deal_script curve txscript deal ≡ ok escrow
unfolding deal_script escrow_params Hex.encode_to_string decode_pub_key Hex.decode_string
    new_escrow_script
script_works = refl

inputs_work : release_inputs curve deal ≡ ok (false, 3 ∷ [])
unfolding release_inputs parse_priv_key Hex.encode_to_string Hex.decode_string
inputs_work = refl

abbrev cfg : ClaimEscrowConfig curve
cfg =
    claim_config curve escrow deal leaf_release (some false ∷ []) (some (3 ∷ []))
      (lit "ert1pqurs3vqnjf")

made :
    (p : Pset Str) × (claim_pset curve txscript taproot psets regtest cfg ≡ ok p)
    × (tx_hex : Str) × (psets.extract p ≡ some tx_hex)
unfolding claim_pset elements_leaf_script elements_p2tr_script address_to_output_script convert_bits
    runes bech32m_polymod script leaf_scripts build_pset sign_tapscript_input
    finalize_escrow_witness str_eq bip68_sequence unspendable_key signature_of Hex.encode_to_string
made = (_, refl, _, refl)

makes : Makes paid_services curve txscript taproot psets regtest cfg made.2
makes = record { pset = made.0; made = made.1; extracted = made.3 }

abbrev payment : PayoutResult
payment = record { preimage = 3 ∷ 4 ∷ []; payment_hash = 3 ∷ [] }

paid : Paid paid_services (lit "lnbc") 0 (send_raw_transaction made.2 ∷ []) payment
unfolding Hex.decode_string
paid = record {
  resp = record { status = lit "SUCCEEDED"; preimage = lit "0304"; hash = lit "03" };
  answers = refl;
  succeeded = refl;
  preimage_reads = refl;
  hash_reads = refl;
}

abbrev released_disk : Disk
released_disk = record disk {
  entries = (lit "d1.json", file (deal_text (as_settled 2 released (lit "c0") deal))) ∷ [];
}

save_works : save json (as_settled 2 released (lit "c0") deal) disk ≡ ok released_disk
unfolding save write_file lookup put str_eq
save_works = refl

release_keys : inputs_of curve (release_command flags) deal ≡ ok (some false ∷ [], some (3 ∷ []))
release_keys = rw inputs_work refl

release_succeeds_example :
    run_settlement paid_services json curve txscript taproot psets regtest env 2
      (release_command flags)
      world
    ≡ (
      ok tt,
      record {
        disk = released_disk;
        log = pay_invoice (lit "lnbc") 60 ∷ send_raw_transaction made.2 ∷ [];
      },
    )
release_succeeds_example =
    run_settlement-succeeds paid_services json curve txscript taproot psets regtest env 2 world deal
      (some false ∷ []) (some (3 ∷ [])) (release_command flags) escrow made.2 (lit "c0") payment
      released_disk load_works (inl refl) release_keys refl refl script_works makes refl
      (ground arith) paid save_works
