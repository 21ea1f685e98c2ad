-- ===== src/Tests/Texts.antt =====
-- A text for deals that gives every deal back: its fields one after the other, each behind its length.
use ark_escrow.Base.{
  ℕ, zero, suc, Str, some, List, [], ◌∷◌, ◌++◌, length, take, drop, take-length_append,
  drop-length_append, ◌≡◌, refl, ap, ◌∙◌,
}
use ark_escrow.Deal.{
  Deal, DealState, created, joined, funded, shipped, released, refunded, disputed, other,
}
use ark_escrow.Store.{DealJson}
use ark_escrow.Store.Refinement.{GivesBack, IsDealJson}

pub concat : List Str → Str
concat [] = []
concat (s ∷ ss) = length s ∷ (s ++ concat ss)

pub split : ℕ → Str → List Str
split zero text = []
split (suc n) [] = []
split (suc n) (k ∷ text) = take k text ∷ split n (drop k text)

split-concat : (ss : List Str) → split (length ss) (concat ss) ≡ ss
unfolding concat split
split-concat [] = refl
split-concat (s ∷ ss) =
    rw (take-length_append s (concat ss), drop-length_append s (concat ss), split-concat ss) refl

state_text : DealState → Str
state_text created = 0 ∷ []
state_text joined = 1 ∷ []
state_text funded = 2 ∷ []
state_text shipped = 3 ∷ []
state_text released = 4 ∷ []
state_text refunded = 5 ∷ []
state_text disputed = 6 ∷ []
state_text (other name) = 7 ∷ name

read_state : Str → DealState
read_state [] = created
read_state (zero ∷ name) = created
read_state (suc zero ∷ name) = joined
read_state (suc (suc zero) ∷ name) = funded
read_state (suc (suc (suc zero)) ∷ name) = shipped
read_state (suc (suc (suc (suc zero))) ∷ name) = released
read_state (suc (suc (suc (suc (suc zero)))) ∷ name) = refunded
read_state (suc (suc (suc (suc (suc (suc zero))))) ∷ name) = disputed
read_state (suc (suc (suc (suc (suc (suc (suc n)))))) ∷ name) = other name

read_state-state_text : (s : DealState) → read_state (state_text s) ≡ s
unfolding read_state state_text
read_state-state_text created = refl
read_state-state_text joined = refl
read_state-state_text funded = refl
read_state-state_text shipped = refl
read_state-state_text released = refl
read_state-state_text refunded = refl
read_state-state_text disputed = refl
read_state-state_text (other name) = refl

abbrev fields : Deal → List Str
fields d =
    d.id
    ∷ state_text d.state
    ∷ d.title
    ∷ (d.amount ∷ [])
    ∷ (d.created_at ∷ [])
    ∷ (d.updated_at ∷ [])
    ∷ d.seller_pub_key
    ∷ d.buyer_pub_key
    ∷ d.oracle_pub_key
    ∷ d.secret_hash
    ∷ (d.timeout_blocks ∷ [])
    ∷ d.escrow_address
    ∷ d.fund_tx_id
    ∷ (d.fund_vout ∷ [])
    ∷ d.claim_tx_id
    ∷ d.seller_priv_key
    ∷ d.buyer_priv_key
    ∷ d.secret
    ∷ []

abbrev field : ℕ → List Str → Str
field i [] = []
field zero (s ∷ ss) = s
field (suc i) (s ∷ ss) = field i ss

abbrev first : Str → ℕ
first [] = 0
first (n ∷ s) = n

abbrev of_fields : List Str → Deal
of_fields ss = record {
  id = field 0 ss;
  state = read_state (field 1 ss);
  title = field 2 ss;
  amount = first (field 3 ss);
  created_at = first (field 4 ss);
  updated_at = first (field 5 ss);
  seller_pub_key = field 6 ss;
  buyer_pub_key = field 7 ss;
  oracle_pub_key = field 8 ss;
  secret_hash = field 9 ss;
  timeout_blocks = first (field 10 ss);
  escrow_address = field 11 ss;
  fund_tx_id = field 12 ss;
  fund_vout = first (field 13 ss);
  claim_tx_id = field 14 ss;
  seller_priv_key = field 15 ss;
  buyer_priv_key = field 16 ss;
  secret = field 17 ss;
}

unfoldable pub deal_text : Deal → Str
unfolding concat state_text
deal_text d = concat (fields d)

unfoldable pub read_deal : Str → Deal
unfolding split read_state
read_deal text = of_fields (split 18 text)

abbrev pub json : DealJson
json = record {
  marshal_indent = λ d. some (deal_text d);
  unmarshal = λ text. some (read_deal text);
}

read_deal-deal_text : (d : Deal) → read_deal (deal_text d) ≡ d
unfolding read_deal deal_text
read_deal-deal_text d =
    ap of_fields (split-concat (fields d)) ∙ rw (read_state-state_text d.state) refl

pub json-GivesBack : (d : Deal) → GivesBack json d d
json-GivesBack d text h =
    let same : text ≡ deal_text d = cc in
    rw same (ap (λ (x : Deal). some x) (read_deal-deal_text d))

pub json-IsDealJson : IsDealJson json
json-IsDealJson = record {
  keeps = λ d text ascii known h. (d, json-GivesBack d text h, refl, refl);
}
