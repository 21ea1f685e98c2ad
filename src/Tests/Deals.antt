-- ===== src/Tests/Deals.antt =====
-- The theorems on pkg/escrow/deal.go and pkg/escrow/recovery.go at concrete deals.
use ark_escrow.Base.{
  ℕ, ◌≡◌, ◌≤◌, ◌↔◌, refl, arith, inl, Str, lit, Option, none, some, List, [], ◌∷◌, ok,
}
use mathlib.Core.Option
use ark_escrow.Hex
use ark_escrow.Deal.{
  Deal, Op, created, shipped, released, join_op, fund_op, release_op, refund_op, ship_op, apply,
  new_deal, generate_deal_id,
}
use ark_escrow.Deal.Lifecycle.{run, SameSettlement, run-SameSettlement}
use ark_escrow.Deal.Diagram.{Obeys, Route, apply-Obeys, reachable_iff}
use ark_escrow.Deal.Tally.{tally, settled, settles_once}
use ark_escrow.Deal.Fields.{
  IsValid, new_deal-run-IsValid, settle_reaches, missing_calls, settle_op, by_oracle, settled_state,
}
use ark_escrow.Script.Locktime.{block}
use ark_escrow.Params.{EscrowParams, escrow_params, decode_pub_key}
use ark_escrow.Params.Laws.{escrow_params_of_keys, key_text}
use ark_escrow.Recovery.{RecoveryKit, Codec, recovery_kit_for_buyer, validate}
use ark_escrow.Recovery.Check.{IsComplete, validate_iff}
use ark_escrow.Recovery.Address.{deal_escrow_address, kit_escrow_address, kit_escrow_address_eq}
use ark_escrow.Tests.Library.{curve, curve-IsCurve, taproot, zeros}
use ark_escrow.Tests.Txscript.{txscript}

abbrev hash : Str
hash = 3 ∷ zeros 31

abbrev deal : Deal
deal = record {
  id = lit "d1";
  state = created;
  title = lit "lamp";
  amount = 10000;
  created_at = 1;
  updated_at = 1;
  seller_pub_key = key_text curve 5;
  buyer_pub_key = key_text curve 7;
  oracle_pub_key = key_text curve 9;
  secret_hash = Hex.encode_to_string hash;
  timeout_blocks = 144;
  escrow_address = [];
  fund_tx_id = [];
  fund_vout = 0;
  claim_tx_id = [];
  seller_priv_key = lit "00";
  buyer_priv_key = lit "01";
  secret = lit "03";
}

abbrev calls : List (ℕ × Op)
calls =
    (2, ship_op)
    ∷ (3, join_op (lit "02") (lit "03"))
    ∷ (4, fund_op (lit "f0") 1)
    ∷ (5, release_op (lit "c0"))
    ∷ (6, refund_op (lit "c1"))
    ∷ []

-- The release is the only settlement of these calls.
calls_release : (run deal calls).state ≡ released
unfolding run apply
calls_release = refl

reachable_example :
    ((ops : List (ℕ × Op)) × ((run deal ops).state ≡ released)) ↔ Route created released
reachable_example = reachable_iff deal released

settles_once_example :
    ((tally deal calls).joins ≤ 1)
    × ((tally deal calls).funds ≤ (tally deal calls).joins)
    × ((tally deal calls).ships ≤ (tally deal calls).funds)
    × ((tally deal calls).settlements ≤ (tally deal calls).funds)
    × (settled (run deal calls).state ≡ (tally deal calls).settlements)
settles_once_example = settles_once calls deal refl

apply-Obeys_example : Obeys ship_op deal (apply 2 ship_op deal) (some shipped)
apply-Obeys_example = apply-Obeys 2 ship_op deal

run-SameSettlement_example :
    SameSettlement (record deal { state = released }) (run (record deal { state = released }) calls)
run-SameSettlement_example = run-SameSettlement calls (record deal { state = released }) (inl refl)

new_deal_works :
    new_deal (some (0xd1 ∷ [])) 1 (lit "lamp") 10000 (lit "05") (lit "09") 144
    ≡ some (record deal {
      seller_pub_key = lit "05";
      buyer_pub_key = [];
      oracle_pub_key = lit "09";
      secret_hash = [];
      seller_priv_key = [];
      buyer_priv_key = [];
      secret = [];
    })
unfolding new_deal generate_deal_id Hex.encode_to_string
new_deal_works = refl

abbrev fresh : Deal
fresh = record deal {
  seller_pub_key = lit "05";
  buyer_pub_key = [];
  oracle_pub_key = lit "09";
  secret_hash = [];
  seller_priv_key = [];
  buyer_priv_key = [];
  secret = [];
}

new_deal-run-IsValid_example :
    IsValid (run fresh calls)
    × (fresh.state ≡ created)
    × (fresh.title ≡ lit "lamp")
    × (fresh.amount ≡ 10000)
    × (fresh.seller_pub_key ≡ lit "05")
    × (fresh.oracle_pub_key ≡ lit "09")
    × (fresh.timeout_blocks ≡ 144)
new_deal-run-IsValid_example =
    new_deal-run-IsValid (some (0xd1 ∷ [])) 1 (lit "lamp") 10000 (lit "05") (lit "09") 144 calls
      new_deal_works

settle_reaches_example :
    ((run
        (run deal (missing_calls created 2 [] [] (lit "f0") 1))
        ((2, settle_op by_oracle (lit "c2")) ∷ [])).state
      ≡ settled_state by_oracle)
    × ((run
          (run deal (missing_calls created 2 [] [] (lit "f0") 1))
          ((2, settle_op by_oracle (lit "c2")) ∷ [])).claim_tx_id
        ≡ lit "c2")
settle_reaches_example = settle_reaches deal by_oracle 2 [] [] (lit "f0") (lit "c2") 1 refl refl

of_keys_example :
    (p : EscrowParams ℕ) × (escrow_params curve deal ≡ ok p)
    × (Option.map curve.serialize p.seller_pub_key ≡ some (curve.serialize 5))
    × (Option.map curve.serialize p.buyer_pub_key ≡ some (curve.serialize 7))
    × (Option.map curve.serialize p.oracle_pub_key ≡ some (curve.serialize 9))
    × (p.secret_hash ≡ hash)
    × (p.timeout ≡ record { type = block; value = 144 })
of_keys_example =
    escrow_params_of_keys curve curve-IsCurve deal 5 7 9 hash refl refl refl refl refl (omega arith)

abbrev params : EscrowParams ℕ
params = record {
  seller_pub_key = some 5;
  buyer_pub_key = some 7;
  oracle_pub_key = some 9;
  secret_hash = hash;
  timeout = record { type = block; value = 144 };
}

params_read : escrow_params curve deal ≡ ok params
unfolding escrow_params decode_pub_key Hex.encode_to_string Hex.decode_string
params_read = refl

abbrev kit : RecoveryKit
kit = record {
  role = lit "buyer";
  priv_key = deal.buyer_priv_key;
  secret = deal.secret;
  seller_pub_key = deal.seller_pub_key;
  buyer_pub_key = deal.buyer_pub_key;
  oracle_pub_key = deal.oracle_pub_key;
  secret_hash = deal.secret_hash;
  timeout_blocks = 144;
  fund_tx_id = [];
  fund_vout = 0;
  amount = 10000;
  network_hrp = lit "ert";
}

kit_made : recovery_kit_for_buyer deal ≡ ok kit
unfolding recovery_kit_for_buyer
kit_made = refl

-- A codec for this kit alone, with the version as its check.
abbrev toy_check : Str → Option (Str × ℕ)
toy_check [] = none
toy_check (v ∷ s) = some (s, v)

abbrev codec : Codec
codec = record {
  marshal = λ k. some (0x7b ∷ []);
  unmarshal = λ s. some kit;
  check_encode = λ s v. v ∷ s;
  check_decode = toy_check;
}

validate_example : (validate curve kit ≡ ok tt) ↔ IsComplete curve kit
validate_example = validate_iff curve kit

kit_address_example :
    kit_escrow_address curve txscript taproot (record kit { network_hrp = lit "ex" })
    ≡ deal_escrow_address curve txscript taproot deal (lit "ex")
kit_address_example =
    kit_escrow_address_eq curve txscript taproot deal kit (lit "ex") (inl kit_made)
