-- ===== src/Tests/Commands.antt =====
-- The theorems on cmd/escrow/commands.go at a concrete directory.
use ark_escrow.Base.{
  zero, suc, ◌≡◌, refl, Str, lit, true, false, Option, none, some, [], ◌∷◌, ok, str_eq,
}
use ark_escrow.Deal.{Deal, funded, shipped}
use ark_escrow.Store.{DealJson, load, save}
use ark_escrow.Store.Files.{Disk, file, write_file, read_file, lookup, put}
use ark_escrow.Command.{ship_action}
use ark_escrow.Hex
use ark_escrow.Escrow.{generate_secret, new_escrow_script}
use ark_escrow.Escrow.Elements.{elements_address, leaf_scripts}
use ark_escrow.Recovery.Address.{deal_escrow_address}
use ark_escrow.Params.{escrow_params, decode_pub_key}
use ark_escrow.Script.Closure.{script}
use ark_escrow.Script.Locktime.{bip68_sequence}
use ark_escrow.Bech32.Address.{encode_bech32m}
use ark_escrow.Bech32.Convert.{convert_bits}
use ark_escrow.Bech32.Polymod.{bech32m_polymod}
use ark_escrow.Bech32.Runes.{runes}
use ark_escrow.Deal.{JoinToken}
use ark_escrow.Command.{join_action}
use ark_escrow.Command.Joining.{Joined, join_action-Joined}
use ark_escrow.Tests.Library.{curve, taproot, zeros}
use ark_escrow.Tests.Txscript.{txscript}
use ark_escrow.Tests.Stores as Stores
use ark_escrow.Tests.Stores.{deal}

abbrev funded_deal : Deal
funded_deal = record deal { state = funded; updated_at = 0; id = lit "d1" }

-- The text of a deal is the time of its last change and its id; it is funded at the time 0.
read_deal : Str → Option Deal
read_deal [] = none
read_deal (zero ∷ id) = some (record funded_deal { id = id })
read_deal (suc t ∷ id) = some (record funded_deal { id = id; state = shipped; updated_at = suc t })

abbrev json : DealJson
json = record { marshal_indent = λ d. some (d.updated_at ∷ d.id); unmarshal = read_deal }

abbrev disk : Disk
disk = record {
  entries = (lit "d1.json", file (0 ∷ lit "d1")) ∷ [];
  read_fails = λ name. false;
  write_fails = λ name. none;
  list_fails = false;
}

abbrev shipped_disk : Disk
shipped_disk = record disk { entries = (lit "d1.json", file (7 ∷ lit "d1")) ∷ [] }

load_works : load json (lit "d1") disk ≡ ok funded_deal
unfolding load read_deal read_file lookup str_eq
load_works = refl

ship_works : ship_action json 7 (lit "d1") (some disk) ≡ ok shipped_disk
unfolding ship_action load save read_deal read_file lookup str_eq write_file put
ship_works = refl

abbrev token : JoinToken
token = record {
  deal_id = lit "d1";
  title = lit "lamp";
  amount = 10000;
  seller_pub_key = Hex.encode_to_string (5 ∷ zeros 31);
  oracle_pub_key = Hex.encode_to_string (9 ∷ zeros 31);
  timeout_blocks = 144;
}

abbrev no_deals : Disk
no_deals = record disk { entries = [] }

abbrev one_deal : Disk
one_deal = record disk { entries = (lit "d1.json", file (lit "d1")) ∷ [] }

join_works :
    join_action Stores.json curve txscript taproot
      (λ s. s)
      1
      2
      (some token)
      (some true)
      (some (3 ∷ zeros 31))
      (lit "ert")
      (some no_deals)
    ≡ ok one_deal
unfolding join_action load save read_file lookup str_eq write_file put generate_secret
    deal_escrow_address escrow_params Hex.encode_to_string decode_pub_key Hex.decode_string
    new_escrow_script elements_address leaf_scripts script bip68_sequence encode_bech32m
    convert_bits bech32m_polymod runes
join_works = refl

join_example : Joined Stores.json curve txscript taproot 1 token (lit "ert") no_deals one_deal
join_example =
    join_action-Joined Stores.json curve txscript taproot (λ s. s) 1 2 token (some true)
      (some (3 ∷ zeros 31)) (lit "ert") no_deals one_deal join_works
