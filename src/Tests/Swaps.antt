-- ===== src/Tests/Swaps.antt =====
-- The theorems on pkg/escrow/swap/liquid_htlc.go, fund.go and tx.go at a concrete swap.
use ark_escrow.Base.{◌≢◌, str_eq}
use ark_escrow.Base.{ℕ, ◌≡◌, ◌↔◌, refl, arith, Bool, true, false, Str, lit, Option, none, some}
use ark_escrow.Base.{[], ◌∷◌, ◌++◌, ok}
use ark_escrow.Escrow.Leaves.{hash_leaf, timeout_leaf}
use ark_escrow.Escrow.Elements.{
  leaf_scripts, elements_tap_tree, elements_leaf_script, elements_p2tr_script, unspendable_key,
}
use ark_escrow.Swap.Pset.{Network, Pset, build_pset, sign_tapscript_input}
use ark_escrow.Swap.Witness.{serialize_witness}
use ark_escrow.Swap.Witness.RoundTrip.{read_witness, read_witness-serialize_witness}
use ark_escrow.Swap.Services.{Services, Log, unpaid, accepted, InvoiceState}
use ark_escrow.Swap.Htlc.{
  new_htlc_script, SpendHtlcConfig, spend_pset, htlc_p2tr_script, htlc_leaf_script, htlc_sequence,
}
use ark_escrow.Swap.Htlc.Leaves.{htlc_of, leaf_scripts-new_htlc_script}
use ark_escrow.Swap.Htlc.Spends.{Spends, spend_pset-Spends}
use ark_escrow.Hex
use ark_escrow.Script.Closure.{script, signature_of}
use ark_escrow.Script.Locktime.{bip68_sequence}
use ark_escrow.Bech32.Address.{address_to_output_script}
use ark_escrow.Bech32.Convert.{convert_bits}
use ark_escrow.Bech32.Polymod.{bech32m_polymod}
use ark_escrow.Bech32.Runes.{runes}
use ark_escrow.Swap.Payout.{payout, payout_iff, Paid}
use ark_escrow.Swap.Fund.{FundResult, wait_for_payment_claim_and_settle}
use ark_escrow.Swap.Fund.Settling.{Outcome, wait_for_payment_claim_and_settle-Outcome}
use ark_escrow.Tests.Library.{curve, curve-IsCurve, taproot, psets, psets-IsPsetv2, zeros}
use ark_escrow.Tests.Txscript.{txscript, txscript-IsTxscript}

abbrev hash : Str
hash = 3 ∷ zeros 31

-- The invoice is paid at the second poll.
abbrev state_at : Log → Option InvoiceState
state_at [] = some unpaid
state_at (c ∷ log) = some accepted

abbrev pub services : Services
services = record {
  sent_to_address = λ log address amount. some (lit "f0");
  new_address = λ log. some (lit "a0");
  generated = λ log n address. some [];
  raw_transaction = λ log txid. some [];
  sent_raw_transaction = λ log tx_hex. some (lit "c0");
  tx_out = λ log txid vout. some (some (lit "{}"));
  hold_invoice = λ log h amount memo expiry. some (lit "lnbc");
  invoice_state = λ log h. state_at log;
  settles = λ log preimage. some tt;
  payment = λ log invoice timeout. none;
}

abbrev pub regtest : Network
regtest = record { asset_id = 2 ∷ []; genesis_block_hash = 1 ∷ [] }

abbrev result : FundResult ℕ
result = record {
  payment_request = lit "lnbc";
  preimage = 3 ∷ 4 ∷ [];
  payment_hash = hash;
  htlc_tx_id = lit "f0";
  htlc_vout = 1;
  htlc = htlc_of curve txscript curve-IsCurve txscript-IsTxscript 5 7 hash 10;
}

abbrev never : Log → Bool
never log = false

outcome_example :
    Outcome curve txscript taproot services psets regtest result
      (some true)
      (lit "ert1pqurs3vqnjf")
      10000
      none
      []
      (wait_for_payment_claim_and_settle curve txscript taproot services psets regtest result
        (some true)
        (lit "ert1pqurs3vqnjf")
        10000
        none
        never
        3
        [])
outcome_example =
    wait_for_payment_claim_and_settle-Outcome curve txscript taproot services psets regtest result
      (some true) (lit "ert1pqurs3vqnjf") 10000 none never 3 []

htlc_example :
    (new_htlc_script txscript (some 5) (some 7) hash 10
      ≡ ok (htlc_of curve txscript curve-IsCurve txscript-IsTxscript 5 7 hash 10))
    × (leaf_scripts curve txscript 0
          (htlc_of curve txscript curve-IsCurve txscript-IsTxscript 5 7 hash 10).closures
        ≡ ok (hash_leaf curve hash 5 ∷ timeout_leaf curve txscript 10 7 ∷ []))
htlc_example =
    leaf_scripts-new_htlc_script curve txscript curve-IsCurve txscript-IsTxscript 5 7 hash 10 refl

read_witness_example :
    read_witness (serialize_witness ((1 ∷ 2 ∷ []) ∷ [] ∷ (3 ∷ []) ∷ []) ++ 9 ∷ [])
    ≡ some ((1 ∷ 2 ∷ []) ∷ [] ∷ (3 ∷ []) ∷ [], 9 ∷ [])
read_witness_example =
    read_witness-serialize_witness ((1 ∷ 2 ∷ []) ∷ [] ∷ (3 ∷ []) ∷ []) (9 ∷ []) (omega arith)
      (omega arith, (omega arith, (omega arith, tt)))

abbrev pub paid_services : Services
paid_services = record services {
  payment = λ log invoice timeout.
      some (record { status = lit "SUCCEEDED"; preimage = lit "0304"; hash = lit "03" });
}

payout_example :
    ((payout paid_services true (lit "lnbc") 0 []).0
      ≡ ok (record { preimage = 3 ∷ 4 ∷ []; payment_hash = 3 ∷ [] }))
    ↔ ((lit "lnbc" ≢ [])
        × Paid paid_services
            (lit "lnbc")
            0
            []
            (record { preimage = 3 ∷ 4 ∷ []; payment_hash = 3 ∷ [] }))
payout_example =
    payout_iff paid_services (lit "lnbc") 0 []
      (record { preimage = 3 ∷ 4 ∷ []; payment_hash = 3 ∷ [] })

-- An amount below the fee.
abbrev spend : SpendHtlcConfig curve
spend = record {
  htlc = some (htlc_of curve txscript curve-IsCurve txscript-IsTxscript 5 7 hash 10);
  fund_tx_id = lit "f0";
  fund_vout = 1;
  amount = 400;
  leaf_index = 0;
  signing_key = some true;
  dest_address = lit "ert1pqurs3vqnjf";
  preimage = some (3 ∷ 4 ∷ []);
  network = none;
  fee = 0;
}

spent : (p : Pset Str) × (spend_pset curve txscript taproot psets regtest spend ≡ ok p)
unfolding spend_pset htlc_p2tr_script htlc_leaf_script htlc_sequence elements_leaf_script
    elements_p2tr_script elements_tap_tree address_to_output_script convert_bits runes
    bech32m_polymod script leaf_scripts build_pset sign_tapscript_input str_eq bip68_sequence
    unspendable_key signature_of Hex.encode_to_string
spent = (_, refl)

underflow_example : Spends curve txscript taproot psets regtest spend spent.0
underflow_example =
    spend_pset-Spends curve txscript taproot psets psets-IsPsetv2 regtest spend spent.0
      (omega arith) (omega arith) spent.1
