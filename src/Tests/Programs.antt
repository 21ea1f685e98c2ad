-- ===== src/Tests/Programs.antt =====
-- The theorems on the commands of cmd/escrow at a funded deal in a concrete directory.
use ark_escrow.Base.{
  IsAscii, Result-cases, inl, inr, ℕ, ◌≡◌, refl, arith, Bool, true, false, Str, lit, Option, none,
  some, [], ◌∷◌, ok, str_eq,
}
use ark_escrow.Hex
use ark_escrow.Deal.{Deal, funded, created, released, new_deal, generate_deal_id}
use ark_escrow.Params.Laws.{key_text}
use ark_escrow.Recovery.{RecoveryKit, Codec}
use ark_escrow.Store.{load, save, path}
use ark_escrow.Store.Files.{Disk, file, read_file, write_file, put, lookup}
use ark_escrow.Swap.Services.{Log}
use ark_escrow.Command.{opened_deal}
use ark_escrow.Command.World.{World, Env}
use ark_escrow.Command.Creating.{CreateFlags, create_action, Created, create_action-Created}
use ark_escrow.Command.Settle.{SettleFlags}
use ark_escrow.Command.Settle.Outcomes as Settle
use ark_escrow.Command.Settle.Actions.{
  inputs_of, release_command, run_settlement, run_settlement-Outcome,
}
use ark_escrow.Command.Funding.{fund_action}
use ark_escrow.Command.Funding.Ends as Funding
use ark_escrow.Command.Funding.Outcomes.{fund_action-Outcome}
use ark_escrow.Command.Program.{System, run, ship_command}
use ark_escrow.Command.Program.Reach.{saved-Tidy, Tidy, Kept, finished, command_first, Session-Kept}
use ark_escrow.Tests.Library.{curve, curve-IsCurve, taproot, psets, zeros}
use ark_escrow.Tests.Txscript.{txscript}
use ark_escrow.Tests.Swaps.{services, paid_services, regtest}
use ark_escrow.Tests.Texts.{json, json-IsDealJson, deal_text, read_deal}

abbrev pub deal : Deal
deal = record {
  id = lit "d1";
  state = funded;
  title = lit "lamp";
  amount = 10000;
  created_at = 1;
  updated_at = 1;
  seller_pub_key = key_text curve 5;
  buyer_pub_key = key_text curve 7;
  oracle_pub_key = key_text curve 9;
  secret_hash = Hex.encode_to_string (3 ∷ zeros 31);
  timeout_blocks = 144;
  escrow_address = lit "ert1ppyqqqqqqqqqqqqqqqqqqqqqqqqqqqqqqqqqqqqqqqqqqqqqqqqqq7atp3w";
  fund_tx_id = lit "f0";
  fund_vout = 1;
  claim_tx_id = [];
  seller_priv_key = Hex.encode_to_string (0 ∷ zeros 31);
  buyer_priv_key = Hex.encode_to_string (1 ∷ zeros 31);
  secret = lit "03";
}

abbrev pub disk : Disk
disk = record {
  entries = (lit "d1.json", file (deal_text deal)) ∷ [];
  read_fails = λ name. false;
  write_fails = λ name. none;
  list_fails = false;
}

abbrev pub env : Env
env = record { directory_made = true; node_url_parses = true }

abbrev pub world : World
world = record { disk = disk; log = [] }

abbrev pub flags : SettleFlags
flags = record { deal = lit "d1"; invoice = lit "lnbc"; dest_address = lit "ert1pqurs3vqnjf" }

settlement_example :
    Settle.Outcome paid_services json curve txscript taproot psets regtest
      (inputs_of curve (release_command flags))
      env
      flags
      0
      2
      released
      world
      (run_settlement paid_services json curve txscript taproot psets regtest env 2
        (release_command flags)
        world)
settlement_example =
    run_settlement-Outcome paid_services json curve txscript taproot psets regtest env 2
      (release_command flags) world

abbrev never : Log → Bool
never log = false

fund_example :
    Funding.Outcome services json curve txscript taproot psets regtest
      (λ s. s)
      (some true)
      (some (3 ∷ zeros 31))
      env
      2
      (lit "d1")
      world
      (fund_action services json curve txscript taproot psets regtest
        (λ s. s)
        (some true)
        (some (3 ∷ zeros 31))
        never
        3
        env
        2
        (lit "d1")
        world)
fund_example =
    fund_action-Outcome services json curve txscript taproot psets regtest (λ s. s) (some true)
      (some (3 ∷ zeros 31)) env 2 (lit "d1") world never 3

abbrev pub kit : RecoveryKit
kit = record {
  role = lit "buyer";
  priv_key = deal.buyer_priv_key;
  secret = lit "03";
  seller_pub_key = deal.seller_pub_key;
  buyer_pub_key = deal.buyer_pub_key;
  oracle_pub_key = deal.oracle_pub_key;
  secret_hash = deal.secret_hash;
  timeout_blocks = 144;
  fund_tx_id = lit "f0";
  fund_vout = 1;
  amount = 10000;
  network_hrp = lit "ert";
}

abbrev toy_check : Str → Option (Str × ℕ)
toy_check [] = none
toy_check (v ∷ s) = some (s, v)

abbrev pub codec : Codec
codec = record {
  marshal = λ k. some (0x7b ∷ []);
  unmarshal = λ s. some kit;
  check_encode = λ s v. v ∷ s;
  check_decode = toy_check;
}

abbrev pub no_file : Str → Option Str
no_file name = none

abbrev create_flags : CreateFlags
create_flags = record {
  title = lit "lamp";
  amount = 10000;
  timeout = 144;
  oracle_pub_key = lit "09";
}

abbrev empty_world : World
empty_world = record { disk = record disk { entries = [] }; log = [] }

abbrev made_deal : Deal
made_deal = record {
  id = lit "d1";
  state = created;
  title = lit "lamp";
  amount = 10000;
  created_at = 2;
  updated_at = 2;
  seller_pub_key = Hex.encode_to_string (7 ∷ zeros 31);
  buyer_pub_key = [];
  oracle_pub_key = lit "09";
  secret_hash = [];
  timeout_blocks = 144;
  escrow_address = [];
  fund_tx_id = [];
  fund_vout = 0;
  claim_tx_id = [];
  seller_priv_key = Hex.encode_to_string (1 ∷ zeros 31);
  buyer_priv_key = [];
  secret = [];
}

abbrev created_world : World
created_world = record {
  disk = record disk { entries = (lit "d1.json", file (deal_text made_deal)) ∷ [] };
  log = [];
}

create_works :
    create_action json curve env 2 (some true) (some (0xd1 ∷ [])) create_flags empty_world
    ≡ (ok tt, created_world)
unfolding create_action new_deal generate_deal_id save Hex.encode_to_string write_file lookup put
create_works = refl

create_example :
    Created json curve curve-IsCurve 2 (some true) create_flags empty_world created_world
create_example =
    create_action-Created json curve curve-IsCurve env 2 (some true) (some (0xd1 ∷ [])) create_flags
      empty_world created_world create_works

pub load_works : opened_deal json env (lit "d1") disk ≡ ok deal
unfolding opened_deal load read_file lookup str_eq read_deal deal_text Hex.encode_to_string
load_works = refl

abbrev pub kit_text : RecoveryKit → Option Str
kit_text k = some (0x7b ∷ k.role)

abbrev system : System
system = record { sha256 = λ s. s; read_file = no_file; indent = kit_text }

abbrev empty_disk : Disk
empty_disk = record disk { entries = [] }

no_deal : (id : Str) (d : Deal) → load json id empty_disk ≡ ok d → (d.id ≡ id) × IsAscii id
unfolding load read_file lookup
no_deal id d h = elim (Result-cases (path id)) [
  | inl (p, e) ↦ ground arith
  | inr (x, e) ↦ ground arith
]

empty-Tidy : Tidy json empty_disk
empty-Tidy = record { readable = λ name. refl; whole = λ name k h. ground arith; named = no_deal }

save_works : save json deal empty_disk ≡ ok disk
unfolding save write_file lookup put
save_works = refl

disk-Tidy : Tidy json disk
disk-Tidy =
    saved-Tidy json json-IsDealJson deal empty_disk disk empty-Tidy (omega arith, (omega arith, tt))
      refl save_works

abbrev after : World
after =
    (run services json codec system curve txscript taproot psets regtest env (lit "ert") 7
      (ship_command (lit "d1")) world).1

session_example :
    Tidy json after.disk
    × ((id : Str) (d : Deal) → load json id disk ≡ ok d → Kept json disk after.disk id d)
session_example =
    Session-Kept services json codec system curve txscript taproot psets regtest env (lit "ert")
      json-IsDealJson world after
      (command_first 7 (ship_command (lit "d1")) world after tt (finished after)) disk-Tidy
