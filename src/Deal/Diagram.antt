-- ===== src/Deal/Diagram.antt =====
-- The methods of pkg/escrow/deal.go against the state diagram of PROTOCOL.md ("Deal Lifecycle"). The
-- diagram has six edges; the guards of deal.go let three further ones through.
use ark_escrow.Base.{
  ℕ, ◌≡◌, refl, arith, ◌⊎◌, ◌↔◌, Bool, true, false, ◌||◌, List, [], ◌∷◌, Option, none, some, inl,
  inr, sym, subst,
}
use ark_escrow.Deal.{Deal, DealState, DealError, Op, apply}
use ark_escrow.Deal.{created, joined, funded, shipped, released, refunded, disputed}
use ark_escrow.Deal.{join_op, set_escrow_address_op, fund_op, ship_op, release_op, refund_op}
use ark_escrow.Deal.{dispute_op, cannot_join, cannot_fund, cannot_ship, cannot_release}
use ark_escrow.Deal.{cannot_refund, cannot_dispute}
use ark_escrow.Deal.Lifecycle.{run}

-- The edges of PROTOCOL.md.
abbrev pub documented : DealState → DealState → Bool
documented created joined = true
documented joined funded = true
documented funded shipped = true
documented shipped released = true
documented funded refunded = true
documented funded disputed = true
documented _ _ = false

-- The edges that PROTOCOL.md does not draw.
abbrev pub undocumented : DealState → DealState → Bool
undocumented funded released = true
undocumented shipped refunded = true
undocumented shipped disputed = true
undocumented _ _ = false

abbrev pub edge : DealState → DealState → Bool
edge s t = documented s t || undocumented s t

-- The state that a method asks for.
abbrev pub target : Op → Option DealState
target (join_op _ _) = some joined
target (set_escrow_address_op _) = none
target (fund_op _ _) = some funded
target ship_op = some shipped
target (release_op _) = some released
target (refund_op _) = some refunded
target (dispute_op _) = some disputed

abbrev pub refusal : Op → DealState → Option DealError
refusal (join_op _ _) s = some (cannot_join s)
refusal (set_escrow_address_op _) s = none
refusal (fund_op _ _) s = some (cannot_fund s)
refusal ship_op s = some (cannot_ship s)
refusal (release_op _) s = some (cannot_release s)
refusal (refund_op _) s = some (cannot_refund s)
refusal (dispute_op _) s = some (cannot_dispute s)

-- What a call does that asks for a state, or for none.
abbrev pub Obeys : Op → Deal → Deal × Option DealError → Option DealState → Type 0
Obeys op d result (some t) =
    ((edge d.state t ≡ true) × (result.1 ≡ none) × (result.0.state ≡ t))
    ⊎ ((edge d.state t ≡ false) × (result.1 ≡ refusal op d.state) × (result.0 ≡ d))
Obeys op d result none = (result.1 ≡ none) × (result.0.state ≡ d.state)

-- Each call in each state: a call that asks for a state gets it, without error, exactly if an edge
-- of PROTOCOL.md or one of the three further ones leads there; else it reports its own error with
-- the deal's state and changes no field. Setting the address is never refused and keeps the state.
pub apply-Obeys : (now : ℕ) (op : Op) (d : Deal) → Obeys op d (apply now op d) (target op)
unfolding apply
apply-Obeys now op d = ground arith

-- Edges one after the other.
pub data Route : DealState → DealState → Type 0 where
  here : (s : DealState) → Route s s
  along : (s t u : DealState) → edge s t ≡ true → Route t u → Route s u

apply-route :
    (now : ℕ) (op : Op) (d : Deal)
    → ((apply now op d).0.state ≡ d.state) ⊎ (edge d.state (apply now op d).0.state ≡ true)
unfolding apply
apply-route now op d = ground arith

run-Route : (ops : List (ℕ × Op)) (d : Deal) → Route d.state (run d ops).state
unfolding run
run-Route [] d = here d.state
run-Route ((now, op) ∷ ops) d =
    let rest = run-Route ops (apply now op d).0 in
    elim (apply-route now op d) [
      | inl h ↦ subst (λ (s : DealState). Route s (run (apply now op d).0 ops).state) h rest
      | inr h ↦ along d.state (apply now op d).0.state (run (apply now op d).0 ops).state h rest
    ]

-- A method that takes an edge, with empty arguments.
abbrev pub op_to : DealState → Op
op_to joined = join_op [] []
op_to funded = fund_op [] 0
op_to shipped = ship_op
op_to released = release_op []
op_to refunded = refund_op []
op_to disputed = dispute_op []
op_to _ = set_escrow_address_op []

apply-op_to : (d : Deal) (t : DealState) → edge d.state t ≡ true → (apply 0 (op_to t) d).0.state ≡ t
unfolding apply
apply-op_to d t h = ground arith

Route-calls :
    (s t : DealState) (d : Deal)
    → Route s t
    → d.state ≡ s
    → (ops : List (ℕ × Op)) × ((run d ops).state ≡ t)
unfolding run
Route-calls s t d (here _) same = ([], same)
Route-calls s t d (along _ s' _ h route) same =
    let stepped = apply-op_to d s' (subst (λ (x : DealState). edge x s' ≡ true) (sym same) h) in
    let (ops, done) = Route-calls s' t (apply 0 (op_to s') d).0 route stepped in
    ((0, op_to s') ∷ ops, done)

-- Some sequence of method calls takes a deal to a state exactly if edges of PROTOCOL.md's diagram, or
-- of the three further ones, lead there from the deal's state.
pub reachable_iff :
    (d : Deal) (t : DealState) → ((ops : List (ℕ × Op)) × ((run d ops).state ≡ t)) ↔ Route d.state t
reachable_iff d t = (
  λ (ops, h). subst (λ (x : DealState). Route d.state x) h (run-Route ops d),
  λ route. Route-calls d.state t d route refl,
)
