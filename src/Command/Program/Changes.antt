-- ===== src/Command/Program/Changes.antt =====
-- What a command of cmd/escrow can change in the directory of the deals.
use ark_escrow.Base.{
  ℕ, Str, Bool, some, none, Result, ok, err, ◌≡◌, refl, subst, arith, ◌⊎◌, inl, inr, Result-cases,
  Bool-cases, if◌then◌else◌, List, Option, true, IsAscii,
}
use ark_escrow.Curve.{Curve}
use ark_escrow.Script.Txscript.{Txscript}
use ark_escrow.Deal.{Deal, DealState, funded, shipped, released, refunded, disputed}
use ark_escrow.Escrow.Elements.{Taproot}
use ark_escrow.Store.{DealJson, StoreError, load, save}
use ark_escrow.Store.Files.{Disk}
use ark_escrow.Swap.Pset.{Network, Psetv2}
use ark_escrow.Swap.Services.{Services}
use ark_escrow.Command.{CommandError, opened_deal, ship_action, left_by}
use ark_escrow.Store.Faults.{LeftBy}
use ark_escrow.Deal.Diagram.{edge}
use ark_escrow.Deal.Fields.{is_known}
use ark_escrow.Command.World.{World, Env, written}
use ark_escrow.Command.Shipping.{ship_action-LeftBy, ship_action-Saves, ship_action-failed}
use ark_escrow.Command.Settle.{SettleFlags}
use ark_escrow.Command.Settle.Outcomes
use ark_escrow.Command.Funding.Ends as Funding

-- Nothing; what a failed save left; a new deal, created or joined, under an id in ASCII that none was
-- loaded from; or a deal taken along an edge.
pub data Change (json : DealJson) (disk : Disk) : Disk → Type 0 where
  unchanged : Change json disk disk
  left : (deal : Deal) (disk' : Disk) → LeftBy json deal disk disk' → Change json disk disk'
  added :
      (deal : Deal) (e : StoreError) (disk' : Disk)
      → load json deal.id disk ≡ err e
      → IsAscii deal.id
      → is_known deal.state ≡ true
      → save json deal disk ≡ ok disk'
      → Change json disk disk'
  moved :
      (id : Str) (deal deal' : Deal) (disk' : Disk)
      → load json id disk ≡ ok deal
      → deal'.id ≡ deal.id
      → edge deal.state deal'.state ≡ true
      → save json deal' disk ≡ ok disk'
      → Change json disk disk'

pub opened_deal-load :
    (json : DealJson) (env : Env) (id : Str) (disk : Disk) (deal : Deal)
    → opened_deal json env id disk ≡ ok deal
    → load json id disk ≡ ok deal
unfolding opened_deal
opened_deal-load json env id disk deal h = ground arith

-- The edges to a final state.
pub data Final : DealState → Type 0 where
  is_released : Final released
  is_refunded : Final refunded
  is_disputed : Final disputed

settle-edge : (s t : DealState) → Final t → (s ≡ funded) ⊎ (s ≡ shipped) → edge s t ≡ true
settle-edge s t is_released h = ground arith
settle-edge s t is_refunded h = ground arith
settle-edge s t is_disputed h = ground arith

pub Change-eq : (json : DealJson) (disk disk' : Disk) → disk' ≡ disk → Change json disk disk'
Change-eq json disk disk' h = rw h unchanged

module _ (services : Services) (json : DealJson) (c : Curve) (tx : Txscript)
    (taproot : Taproot c.PublicKey) (lib : Psetv2 c) (regtest : Network) where
  pub settled-Change :
      (inputs : Deal → Result CommandError (List (Option c.PrivateKey) × Option Str)) (env : Env)
      (flags : SettleFlags) (leaf now : ℕ) (state : DealState) (w : World)
      (r : Result CommandError (Unit {0}) × World)
      → Outcomes.Outcome services json c tx taproot lib regtest inputs env flags leaf now state w r
      → Final state
      → Change json w.disk r.1.disk
  settled-Change inputs env flags leaf now state w r (Outcomes.unclaimed e log h h') final =
      unchanged
  settled-Change inputs env flags leaf now state w r (Outcomes.unpaid e deal earlier tx_hex id h)
        final =
      unchanged
  settled-Change inputs env flags leaf now state w r
        (Outcomes.unsaved e deal earlier tx_hex id disk h torn) final =
      left (Outcomes.as_settled now state id deal) disk torn
  settled-Change inputs env flags leaf now state w r
        (Outcomes.settled deal earlier tx_hex id p disk h paid was saves) final =
      moved flags.deal deal _ disk (opened_deal-load json env flags.deal w.disk deal h.loaded) refl
        (settle-edge deal.state state final was) saves

  pub ship-Change :
      (env : Env) (now : ℕ) (id : Str) (w : World) (r : Result CommandError Disk)
      → ship_action json now id (if env.directory_made then some w.disk else none) ≡ r
      → Change json w.disk (written left_by r w).1.disk
  ship-Change env now id w (err e) done = elim (Bool-cases env.directory_made) [
    | inr h ↦ Change-eq json w.disk _ (unfold ship_action in ground arith)
    | inl h ↦
        let run =
          subst (λ (b : Bool). ship_action json now id (if b then some w.disk else none) ≡ err e) h
            done in
        elim (ship_action-LeftBy json now id w.disk e run) [
          | inl same ↦ Change-eq json w.disk _ same
          | inr (deal, torn) ↦ left deal (left_by e w.disk) torn
        ]
  ]
  ship-Change env now id w (ok disk) done = elim (Bool-cases env.directory_made) [
    | inr h ↦ unfold ship_action in ground arith
    | inl h ↦
        let run =
          subst (λ (b : Bool). ship_action json now id (if b then some w.disk else none) ≡ ok disk)
            h done in
        elim (Result-cases (load json id w.disk)) [
          | inr (e, h') ↦ absurd (ship_action-failed json now id w.disk disk e h' run)
          | inl (deal, h') ↦
              let saves = ship_action-Saves json now id w.disk disk deal h' run in
              moved id deal _ disk h' refl (rw saves.0 refl) saves.1
        ]
  ]

  pub fund-Change :
      (sha256 : Str → Str) (drawn : Option c.PrivateKey) (random : Option Str) (env : Env) (now : ℕ)
      (id : Str) (w : World) (r : Result CommandError (Unit {0}) × World)
      → Funding.Outcome services json c tx taproot lib regtest sha256 drawn random env now id w r
      → Change json w.disk r.1.disk
  fund-Change sha256 drawn random env now id w r (Funding.unsettled e log h) = unchanged
  fund-Change sha256 drawn random env now id w r
        (Funding.unsaved e deal result earlier log tx_hex tx_id vout disk h h' torn) =
      left (Funding.as_funded now tx_id vout deal) disk torn
  fund-Change sha256 drawn random env now id w r
        (Funding.saved deal result earlier tx_hex tx_id vouts vout disk h settles found shown was
          saves) =
      moved id deal _ disk (opened_deal-load json env id w.disk deal h.loaded) refl (rw was refl)
        saves
