-- ===== src/Tests/Fundings.antt =====
-- A funding of cmd/escrow that goes through, at a joined deal in a concrete directory.
use ark_escrow.Base.{
  ℕ, ◌≡◌, refl, arith, Str, lit, some, none, [], ◌∷◌, ok, str_eq, Bool, true, false,
}
use ark_escrow.Hex
use ark_escrow.Deal.{Deal, joined}
use ark_escrow.Script.Closure.{script, signature_of}
use ark_escrow.Script.Locktime.{bip68_sequence}
use ark_escrow.Bech32.Address.{address_to_output_script, encode_bech32m}
use ark_escrow.Bech32.Convert.{convert_bits}
use ark_escrow.Bech32.Polymod.{bech32m_polymod}
use ark_escrow.Bech32.Runes.{runes}
use ark_escrow.Escrow.Elements.{
  elements_tap_tree, leaf_scripts, elements_leaf_script, elements_p2tr_script, elements_address,
  unspendable_key,
}
use ark_escrow.Store.{load, save}
use ark_escrow.Store.Files.{Disk, file, read_file, write_file, put, lookup}
use ark_escrow.Swap.Pset.{build_pset, sign_tapscript_input, extract_and_broadcast}
use ark_escrow.Swap.Services.{
  Services, Log, accepted, lookup_invoice, settle_invoice, get_raw_transaction,
}
use ark_escrow.Swap.Htlc.{
  new_htlc_script, spend_pset, htlc_address, htlc_p2tr_script, htlc_leaf_script, htlc_sequence,
}
use ark_escrow.Swap.Htlc.Funding.{create_and_fund_htlc, spend_htlc, vout_of, find_vout_by_address}
use ark_escrow.Swap.Fund.{FundResult, fund, fund_with_htlc, claim_htlc_to_escrow}
use ark_escrow.Command.{opened_deal}
use ark_escrow.Command.World.{World}
use ark_escrow.Command.Funding.{fund_config, fund_action}
use ark_escrow.Command.Funding.Succeeding.{as_funded, fund_action-succeeds}
use ark_escrow.Tests.Library.{curve, taproot, psets, zeros}
use ark_escrow.Tests.Txscript.{txscript}
use ark_escrow.Tests.Swaps
use ark_escrow.Tests.Swaps.{regtest}
use ark_escrow.Tests.Texts.{json, deal_text, read_deal}
use ark_escrow.Tests.Programs as Programs
use ark_escrow.Tests.Programs.{env}

abbrev deal : Deal
deal = record Programs.deal { state = joined; fund_tx_id = []; fund_vout = 0 }

abbrev disk : Disk
disk = record Programs.disk { entries = (lit "d1.json", file (deal_text deal)) ∷ [] }

abbrev world : World
world = record { disk = disk; log = [] }

abbrev services : Services
services = record Swaps.services {
  raw_transaction = λ log txid. some (record { n = 1; address = deal.escrow_address } ∷ []);
  invoice_state = λ log h. some accepted;
}

abbrev never : Log → Bool
never log = false

abbrev hash : Str
hash = 3 ∷ zeros 31

swap :
    (r : FundResult ℕ) × (log : Log) × (fund curve txscript taproot services
        (λ s. s)
        (some hash)
        (fund_config curve deal true)
        []
      ≡ (ok r, log))
    × (after : Log) × (claim_htlc_to_escrow curve txscript taproot services psets regtest r.htlc
          r.htlc_tx_id r.htlc_vout 10000 r.preimage
          (some true)
          deal.escrow_address
          none
          (lookup_invoice r.payment_hash ∷ log)
        ≡ (ok (lit "c0"), after))
unfolding fund fund_with_htlc create_and_fund_htlc new_htlc_script htlc_address htlc_p2tr_script
    htlc_leaf_script elements_tap_tree elements_address elements_leaf_script elements_p2tr_script
    leaf_scripts script bip68_sequence encode_bech32m convert_bits bech32m_polymod runes
    find_vout_by_address vout_of str_eq claim_htlc_to_escrow spend_htlc spend_pset htlc_sequence
    address_to_output_script build_pset sign_tapscript_input extract_and_broadcast unspendable_key
    signature_of Hex.encode_to_string
swap = (_, _, refl, _, refl)

load_works : opened_deal json env (lit "d1") disk ≡ ok deal
unfolding opened_deal load read_file lookup str_eq read_deal deal_text Hex.encode_to_string
load_works = refl

abbrev funded_disk : Disk
funded_disk = record disk {
  entries = (lit "d1.json", file (deal_text (as_funded 2 (lit "c0") 1 deal))) ∷ [];
}

save_works : save json (as_funded 2 (lit "c0") 1 deal) disk ≡ ok funded_disk
unfolding save write_file lookup put str_eq
save_works = refl

shown : vout_of deal.escrow_address (record { n = 1; address = deal.escrow_address } ∷ []) ≡ some 1
unfolding vout_of str_eq
shown = refl

fund_succeeds_example :
    fund_action services json curve txscript taproot psets regtest
      (λ s. s)
      (some true)
      (some hash)
      never
      3
      env
      2
      (lit "d1")
      world
    ≡ (
      ok tt,
      record {
        disk = funded_disk;
        log = get_raw_transaction (lit "c0") ∷ settle_invoice swap.0.preimage ∷ swap.3;
      },
    )
fund_succeeds_example =
    fund_action-succeeds services json curve txscript taproot psets regtest env 2 (lit "d1") world
      (λ s. s) (some hash) never deal true swap.0 swap.1 swap.3 (lit "c0")
      (record { n = 1; address = deal.escrow_address } ∷ []) 1 funded_disk 0 3 load_works refl refl
      refl swap.2 (refl, refl) (omega arith) swap.4 refl refl shown save_works
