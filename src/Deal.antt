-- ===== src/Deal.antt =====
-- pkg/escrow/deal.go: the deal record and the methods that move it through its life.
-- A method that mutates `*Deal` returns the new record with its error; the clock's reading,
-- `time.Now().UTC()`, and the random bytes of the id are arguments.
pub mod Lifecycle
pub mod Diagram
pub mod Fields
pub mod Tally
use ark_escrow.Base.{ℕ, Str, lit, Bool, true, false, ◌&&◌, not, Option, none, some, if◌then◌else◌}
use ark_escrow.Base.{Result, ok, err, ◌>>=◌, List, []}
use ark_escrow.Hex

-- `type DealState string`; a deal file may hold any other text.
pub data DealState : Type 0 where
  created joined funded shipped released refunded disputed : DealState
  other : Str → DealState

pub record Deal : Type 0 where
  pub id : Str
  pub state : DealState
  pub title : Str
  pub amount : ℕ  -- uint64
  pub created_at : ℕ
  pub updated_at : ℕ
  pub seller_pub_key : Str
  pub buyer_pub_key : Str
  pub oracle_pub_key : Str
  pub secret_hash : Str
  pub timeout_blocks : ℕ  -- uint32
  pub escrow_address : Str
  pub fund_tx_id : Str
  pub fund_vout : ℕ  -- uint32
  pub claim_tx_id : Str
  pub seller_priv_key : Str
  pub buyer_priv_key : Str
  pub secret : Str

pub record JoinToken : Type 0 where
  pub deal_id : Str
  pub title : Str
  pub amount : ℕ
  pub seller_pub_key : Str
  pub oracle_pub_key : Str
  pub timeout_blocks : ℕ

-- `cannot join deal in state …` and its five siblings.
pub data DealError : Type 0 where
  cannot_join cannot_fund cannot_ship cannot_release cannot_refund cannot_dispute :
      DealState → DealError

-- The random bytes, or the error of `rand.Read`.
unfoldable pub generate_deal_id : Option Str → Option Str
generate_deal_id none = none
generate_deal_id (some b) = some (Hex.encode_to_string b)

unfoldable pub new_deal : Option Str → ℕ → Str → ℕ → Str → Str → ℕ → Option Deal
new_deal random now title amount seller_pub_key oracle_pub_key timeout_blocks =
    elim (generate_deal_id random) [
      | none ↦ none
      | some id ↦ some (record {
        id = id;
        state = created;
        title = title;
        amount = amount;
        created_at = now;
        updated_at = now;
        seller_pub_key = seller_pub_key;
        buyer_pub_key = [];
        oracle_pub_key = oracle_pub_key;
        secret_hash = [];
        timeout_blocks = timeout_blocks;
        escrow_address = [];
        fund_tx_id = [];
        fund_vout = 0;
        claim_tx_id = [];
        seller_priv_key = [];
        buyer_priv_key = [];
        secret = [];
      })
    ]

pub join_token : Deal → JoinToken
join_token d = record {
  deal_id = d.id;
  title = d.title;
  amount = d.amount;
  seller_pub_key = d.seller_pub_key;
  oracle_pub_key = d.oracle_pub_key;
  timeout_blocks = d.timeout_blocks;
}

-- `d.State == DealState…`
abbrev is_created : DealState → Bool
is_created created = true
is_created _ = false

abbrev is_joined : DealState → Bool
is_joined joined = true
is_joined _ = false

abbrev is_funded : DealState → Bool
is_funded funded = true
is_funded _ = false

abbrev is_shipped : DealState → Bool
is_shipped shipped = true
is_shipped _ = false

unfoldable pub join : ℕ → Str → Str → Deal → Deal × Option DealError
join now buyer_pub_key secret_hash d =
    if not (is_created d.state) then (d, some (cannot_join d.state)) else (
      record d {
        buyer_pub_key = buyer_pub_key;
        secret_hash = secret_hash;
        state = joined;
        updated_at = now;
      },
      none,
    )

unfoldable pub set_escrow_address : ℕ → Str → Deal → Deal
set_escrow_address now addr d = record d { escrow_address = addr; updated_at = now }

unfoldable pub fund : ℕ → Str → ℕ → Deal → Deal × Option DealError
fund now txid vout d =
    if not (is_joined d.state)
    then (d, some (cannot_fund d.state))
    else (record d { fund_tx_id = txid; fund_vout = vout; state = funded; updated_at = now }, none)

unfoldable pub ship : ℕ → Deal → Deal × Option DealError
ship now d =
    if not (is_funded d.state)
    then (d, some (cannot_ship d.state))
    else (record d { state = shipped; updated_at = now }, none)

unfoldable pub release : ℕ → Str → Deal → Deal × Option DealError
release now claim_tx_id d =
    if not (is_funded d.state) && not (is_shipped d.state)
    then (d, some (cannot_release d.state))
    else (record d { claim_tx_id = claim_tx_id; state = released; updated_at = now }, none)

unfoldable pub refund : ℕ → Str → Deal → Deal × Option DealError
refund now claim_tx_id d =
    if not (is_funded d.state) && not (is_shipped d.state)
    then (d, some (cannot_refund d.state))
    else (record d { claim_tx_id = claim_tx_id; state = refunded; updated_at = now }, none)

unfoldable pub dispute : ℕ → Str → Deal → Deal × Option DealError
dispute now claim_tx_id d =
    if not (is_funded d.state) && not (is_shipped d.state)
    then (d, some (cannot_dispute d.state))
    else (record d { claim_tx_id = claim_tx_id; state = disputed; updated_at = now }, none)

-- A call of one of the methods that mutate a deal.
pub data Op : Type 0 where
  join_op : Str → Str → Op
  set_escrow_address_op : Str → Op
  fund_op : Str → ℕ → Op
  ship_op : Op
  release_op refund_op dispute_op : Str → Op

unfoldable pub apply : ℕ → Op → Deal → Deal × Option DealError
unfolding join set_escrow_address fund ship release refund dispute
apply now (join_op key hash) d = join now key hash d
apply now (set_escrow_address_op addr) d = (set_escrow_address now addr d, none)
apply now (fund_op txid vout) d = fund now txid vout d
apply now ship_op d = ship now d
apply now (release_op txid) d = release now txid d
apply now (refund_op txid) d = refund now txid d
apply now (dispute_op txid) d = dispute now txid d
