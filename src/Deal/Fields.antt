-- ===== src/Deal/Fields.antt =====
-- Which fields of a deal are set in which state: an invariant of deal.go, and that every deal can
-- be brought to each of its three outcomes.
use ark_escrow.Base.{ℕ, ◌≡◌, arith}
use ark_escrow.Base.{List, [], ◌∷◌, Option, some, Str, Bool, true, false}
use ark_escrow.Deal.{Deal, DealState, Op, apply, new_deal}
use ark_escrow.Deal.{created, joined, released, refunded, disputed, other}
use ark_escrow.Deal.{join_op, fund_op, release_op, refund_op}
use ark_escrow.Deal.{dispute_op}
use ark_escrow.Deal.Lifecycle.{run}

abbrev has_buyer : DealState → Bool
has_buyer created = false
has_buyer _ = true

abbrev has_funding : DealState → Bool
has_funding created = false
has_funding joined = false
has_funding _ = true

abbrev has_claim : DealState → Bool
has_claim released = true
has_claim refunded = true
has_claim disputed = true
has_claim _ = false

abbrev pub is_known : DealState → Bool
is_known (other _) = false
is_known _ = true

pub record IsValid (d : Deal) : Type 0 where
  pub known : is_known d.state ≡ true
  pub no_buyer : has_buyer d.state ≡ false → (d.buyer_pub_key ≡ []) × (d.secret_hash ≡ [])
  pub no_funding : has_funding d.state ≡ false → (d.fund_tx_id ≡ []) × (d.fund_vout ≡ 0)
  pub no_claim : has_claim d.state ≡ false → d.claim_tx_id ≡ []

new_deal-IsValid :
    (random : Option Str) (now : ℕ) (title : Str) (amount : ℕ) (seller oracle : Str) (timeout : ℕ)
    {d : Deal}
    → new_deal random now title amount seller oracle timeout ≡ some d
    → IsValid d
unfolding new_deal
new_deal-IsValid random now title amount seller oracle timeout h = ground arith

apply-IsValid : (now : ℕ) (op : Op) (d : Deal) → IsValid d → IsValid (apply now op d).0
unfolding apply
apply-IsValid now op d h = ground arith

run-IsValid : (ops : List (ℕ × Op)) (d : Deal) → IsValid d → IsValid (run d ops)
unfolding run
run-IsValid [] d h = h
run-IsValid ((now, op) ∷ ops) d h = run-IsValid ops (apply now op d).0 (apply-IsValid now op d h)

-- A new deal is in the state CREATED and holds title, amount, keys and timeout as given; over any calls its fields
-- agree with the state: buyer key and secret hash are unset before JOINED, the funding outpoint
-- before FUNDED, the claim transaction before a settlement, and the state is one of the seven.
pub new_deal-run-IsValid :
    (random : Option Str) (now : ℕ) (title : Str) (amount : ℕ) (seller oracle : Str) (timeout : ℕ)
    (ops : List (ℕ × Op)) {d : Deal}
    → new_deal random now title amount seller oracle timeout ≡ some d
    → IsValid (run d ops)
      × (d.state ≡ created)
      × (d.title ≡ title)
      × (d.amount ≡ amount)
      × (d.seller_pub_key ≡ seller)
      × (d.oracle_pub_key ≡ oracle)
      × (d.timeout_blocks ≡ timeout)
unfolding new_deal
new_deal-run-IsValid random now title amount seller oracle timeout ops {d} h =
    let valid =
      run-IsValid ops d (new_deal-IsValid random now title amount seller oracle timeout h) in
    (valid, ground arith, ground arith, ground arith, ground arith, ground arith, ground arith)

-- The outcome that a settling call asks for.
pub data Outcome : Type 0 where
  to_seller to_buyer by_oracle : Outcome

abbrev pub settle_op : Outcome → Str → Op
settle_op to_seller txid = release_op txid
settle_op to_buyer txid = refund_op txid
settle_op by_oracle txid = dispute_op txid

abbrev pub settled_state : Outcome → DealState
settled_state to_seller = released
settled_state to_buyer = refunded
settled_state by_oracle = disputed

-- The calls that are missing before a deal can be settled.
abbrev pub missing_calls : DealState → ℕ → Str → Str → Str → ℕ → List (ℕ × Op)
missing_calls created now key hash txid vout =
    (now, join_op key hash) ∷ (now, fund_op txid vout) ∷ []
missing_calls joined now key hash txid vout = (now, fund_op txid vout) ∷ []
missing_calls _ now key hash txid vout = []

-- From each known state that is not settled, each of the three outcomes can be reached: the join
-- and the funding that are missing, then the settlement, end in that outcome with its claim.
pub settle_reaches :
    (d : Deal) (outcome : Outcome) (now : ℕ) (key hash txid claim : Str) (vout : ℕ)
    → is_known d.state ≡ true
    → has_claim d.state ≡ false
    → let d' =
        run
          (run d (missing_calls d.state now key hash txid vout))
          ((now, settle_op outcome claim) ∷ []) in
      (d'.state ≡ settled_state outcome) × (d'.claim_tx_id ≡ claim)
unfolding run apply
settle_reaches d outcome now key hash txid claim vout k n = ground arith
