-- ===== src/Deal/Lifecycle.antt =====
-- The life of a deal over any sequence of method calls of pkg/escrow/deal.go.
use ark_escrow.Base.{ℕ, ◌≡◌, refl, arith, ◌⊎◌, List, [], ◌∷◌}
use ark_escrow.Deal.{Deal, DealState, Op, apply, released, refunded, disputed}

-- Calls with the clock's reading at each; the errors are dropped, as by a caller that goes on.
unfoldable pub run : Deal → List (ℕ × Op) → Deal
run d [] = d
run d ((now, op) ∷ ops) = run (apply now op d).0 ops

abbrev pub IsTerminal : DealState → Type 0
IsTerminal s = (s ≡ released) ⊎ (s ≡ refunded) ⊎ (s ≡ disputed)

-- What a settled deal must never lose: its outcome and both transactions.
pub record SameSettlement (d d' : Deal) : Type 0 where
  pub state : d'.state ≡ d.state
  pub claim : d'.claim_tx_id ≡ d.claim_tx_id
  pub fund : d'.fund_tx_id ≡ d.fund_tx_id
  pub vout : d'.fund_vout ≡ d.fund_vout

apply-SameSettlement :
    (now : ℕ) (op : Op) (d : Deal) → IsTerminal d.state → SameSettlement d (apply now op d).0
unfolding apply
apply-SameSettlement now op d h = ground arith

-- A released, refunded or disputed deal stays so over any calls, with the same claim and funding.
pub run-SameSettlement :
    (ops : List (ℕ × Op)) (d : Deal) → IsTerminal d.state → SameSettlement d (run d ops)
unfolding run
run-SameSettlement [] d h = record { state = refl; claim = refl; fund = refl; vout = refl }
run-SameSettlement ((now, op) ∷ ops) d h =
    let one = apply-SameSettlement now op d h in
    let rest = run-SameSettlement ops (apply now op d).0 (rw one.state h) in
    ground (arith, one, rest)

-- What the parties agreed on when the deal was created.
pub record SameTerms (d d' : Deal) : Type 0 where
  pub id : d'.id ≡ d.id
  pub title : d'.title ≡ d.title
  pub amount : d'.amount ≡ d.amount
  pub seller : d'.seller_pub_key ≡ d.seller_pub_key
  pub oracle : d'.oracle_pub_key ≡ d.oracle_pub_key
  pub timeout : d'.timeout_blocks ≡ d.timeout_blocks
  pub made : d'.created_at ≡ d.created_at

apply-SameTerms : (now : ℕ) (op : Op) (d : Deal) → SameTerms d (apply now op d).0
unfolding apply
apply-SameTerms now op d = ground arith

-- No sequence of calls changes the terms.
pub run-SameTerms : (ops : List (ℕ × Op)) (d : Deal) → SameTerms d (run d ops)
unfolding run
run-SameTerms [] d = ground arith
run-SameTerms ((now, op) ∷ ops) d =
    ground (arith, apply-SameTerms now op d, run-SameTerms ops (apply now op d).0)
