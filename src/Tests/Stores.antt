-- ===== src/Tests/Stores.antt =====
-- The theorems on pkg/escrow/store.go at a concrete directory.
use ark_escrow.Base.{
  ◌≡◌, ◌↔◌, refl, arith, lit, false, none, some, [], ◌∷◌, ok, All, str_eq, if◌then◌else◌,
}
use ark_escrow.Deal.{Deal, created}
use ark_escrow.Store.{DealJson, save, load, list}
use ark_escrow.Store.Files.{Disk, file, directory, write_file, read_file, read_dir, lookup, put}
use ark_escrow.Store.Names.{IsPlain}
use ark_escrow.Store.Refinement.{load-save}
use ark_escrow.Store.Listing.{Loads, ids_of, list_iff, list-All}

abbrev pub deal : Deal
deal = record {
  id = lit "d1";
  state = created;
  title = lit "lamp";
  amount = 10000;
  created_at = 1;
  updated_at = 1;
  seller_pub_key = [];
  buyer_pub_key = [];
  oracle_pub_key = [];
  secret_hash = [];
  timeout_blocks = 144;
  escrow_address = [];
  fund_tx_id = [];
  fund_vout = 0;
  claim_tx_id = [];
  seller_priv_key = [];
  buyer_priv_key = [];
  secret = [];
}

-- The text of a deal is its id.
abbrev pub json : DealJson
json = record {
  marshal_indent = λ d. some d.id;
  unmarshal = λ text. some (record deal { id = text });
}

abbrev disk : Disk
disk = record {
  entries = (lit "a.json", file (lit "a")) ∷ (lit "notes", directory) ∷ [];
  read_fails = λ name. false;
  write_fails = λ name. none;
  list_fails = false;
}

abbrev saved : Disk
saved = record disk {
  entries =
      (lit "a.json", file (lit "a"))
      ∷ (lit "d1.json", file (lit "d1"))
      ∷ (lit "notes", directory)
      ∷ [];
}

save_works : save json deal disk ≡ ok saved
unfolding save write_file lookup put str_eq
save_works = refl

load_example :
    load json (lit "d1") saved
    ≡ (if str_eq (lit "d1") (lit "d1") then ok deal else load json (lit "d1") disk)
load_example =
    load-save json deal deal disk saved (lit "d1") save_works (λ text h. ground arith) refl

list_example : (list json saved ≡ ok (record deal { id = lit "a" } ∷ deal ∷ [])) ↔ (
    (false ≡ false)
    × Loads json saved (ids_of saved.entries) (record deal { id = lit "a" } ∷ deal ∷ []))
list_example = list_iff json saved (record deal { id = lit "a" } ∷ deal ∷ [])

list_works : list json saved ≡ ok (record deal { id = lit "a" } ∷ deal ∷ [])
unfolding list read_dir read_file lookup str_eq
list_works = refl

list-All_example : All (All IsPlain) (ids_of saved.entries)
list-All_example = list-All json saved (record deal { id = lit "a" } ∷ deal ∷ []) list_works
