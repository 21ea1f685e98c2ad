-- ===== src/Deal/Tally.antt =====
-- How often each step of the life of a deal can be taken, over any calls of the methods of deal.go.
use ark_escrow.Base.{ℕ, ◌+◌, ◌≤◌, ◌≡◌, arith}
use ark_escrow.Base.{List, [], ◌∷◌, Option, none, some}
use ark_escrow.Deal.{Deal, DealState, DealError, Op, apply}
use ark_escrow.Deal.{created, joined, funded, shipped, released, refunded, disputed}
use ark_escrow.Deal.{join_op, set_escrow_address_op, fund_op, ship_op, release_op, refund_op}
use ark_escrow.Deal.{dispute_op}
use ark_escrow.Deal.Lifecycle.{run}

-- The calls that reported no error, by kind.
pub record Tally : Type 0 where
  pub joins : ℕ
  pub funds : ℕ
  pub ships : ℕ
  pub settlements : ℕ

abbrev count_call : Option DealError → Op → Tally → Tally
count_call (some _) op t = t
count_call none (join_op _ _) t = record t { joins = t.joins + 1 }
count_call none (set_escrow_address_op _) t = t
count_call none (fund_op _ _) t = record t { funds = t.funds + 1 }
count_call none ship_op t = record t { ships = t.ships + 1 }
count_call none (release_op _) t = record t { settlements = t.settlements + 1 }
count_call none (refund_op _) t = record t { settlements = t.settlements + 1 }
count_call none (dispute_op _) t = record t { settlements = t.settlements + 1 }

pub tally : Deal → List (ℕ × Op) → Tally
tally d [] = record { joins = 0; funds = 0; ships = 0; settlements = 0 }
tally d ((now, op) ∷ ops) = let (d', error) = apply now op d in count_call error op (tally d' ops)

-- 1 for a settled deal.
abbrev pub settled : DealState → ℕ
settled released = 1
settled refunded = 1
settled disputed = 1
settled _ = 0

-- What may still come from a state.
abbrev Room : DealState → Tally → Type 0
Room created t =
    (t.joins ≤ 1) × (t.funds ≤ t.joins) × (t.ships ≤ t.funds) × (t.settlements ≤ t.funds)
Room joined t = (t.joins ≡ 0) × (t.funds ≤ 1) × (t.ships ≤ t.funds) × (t.settlements ≤ t.funds)
Room funded t = (t.joins ≡ 0) × (t.funds ≡ 0) × (t.ships ≤ 1) × (t.settlements ≤ 1)
Room shipped t = (t.joins ≡ 0) × (t.funds ≡ 0) × (t.ships ≡ 0) × (t.settlements ≤ 1)
Room _ t = (t.joins ≡ 0) × (t.funds ≡ 0) × (t.ships ≡ 0) × (t.settlements ≡ 0)

apply-Room :
    (now : ℕ) (op : Op) (d : Deal) (t : Tally)
    → Room (apply now op d).0.state t
    → Room d.state (count_call (apply now op d).1 op t)
unfolding apply
apply-Room now op d t h = ground arith

tally-Room : (ops : List (ℕ × Op)) (d : Deal) → Room d.state (tally d ops)
unfolding tally
tally-Room [] d = ground arith
tally-Room ((now, op) ∷ ops) d =
    apply-Room now op d (tally (apply now op d).0 ops) (tally-Room ops (apply now op d).0)

apply-settled :
    (now : ℕ) (op : Op) (d : Deal) (t : Tally)
    → settled d.state + (count_call (apply now op d).1 op t).settlements
      ≡ settled (apply now op d).0.state + t.settlements
unfolding apply
apply-settled now op d t = ground arith

run-settled :
    (ops : List (ℕ × Op)) (d : Deal)
    → settled (run d ops).state ≡ settled d.state + (tally d ops).settlements
unfolding run tally
run-settled [] d = omega arith
run-settled ((now, op) ∷ ops) d =
    let d' = (apply now op d).0 in
    omega (arith, apply-settled now op d (tally d' ops), run-settled ops d')

-- Over any calls on a deal in state CREATED: at most one join is accepted, a funding only if a join
-- was, a shipping or a settlement (release, refund or dispute) only if a funding was, each at most
-- once, and the deal ends in a settled state exactly if one settlement was accepted.
pub settles_once :
    (ops : List (ℕ × Op)) (d : Deal)
    → d.state ≡ created
    → let t = tally d ops in
      (t.joins ≤ 1)
      × (t.funds ≤ t.joins)
      × (t.ships ≤ t.funds)
      × (t.settlements ≤ t.funds)
      × (settled (run d ops).state ≡ t.settlements)
settles_once ops d e = ground (arith, tally-Room ops d, run-settled ops d)
