-- ===== src/Command/Shipping.antt =====
-- `shipAction` of cmd/escrow/commands.go.
use ark_escrow.Base.{
  ℕ, Str, some, ok, err, arith, ◌≡◌, Result-cases, inl, inr, lit, false, ◌++◌, str_eq,
  if◌then◌else◌, subst, ◌∙◌, ◌⊎◌,
}
use ark_escrow.Deal.{Deal, funded, shipped, ship}
use ark_escrow.Store.{DealJson, StoreError, load, save, left_after}
use ark_escrow.Store.Files.{Disk}
use ark_escrow.Store.Refinement.{GivesBack, load-save}
use ark_escrow.Command.{CommandError, ship_action, left_by, changed}
use ark_escrow.Store.Faults.{LeftBy, save-LeftBy, load-left}

module _ (json : DealJson) where
  -- The deal that `shipAction` saves.
  abbrev pub shipped_at : ℕ → Deal → Deal
  shipped_at now deal = record deal { state = shipped; updated_at = now }

  pub ship_action-Saves :
      (now : ℕ) (id : Str) (disk disk' : Disk) (deal : Deal)
      → load json id disk ≡ ok deal
      → ship_action json now id (some disk) ≡ ok disk'
      → (deal.state ≡ funded) × (save json (shipped_at now deal) disk ≡ ok disk')
  unfolding ship_action
  ship_action-Saves now id disk disk' deal loaded done = ground arith

  pub ship_action-failed :
      (now : ℕ) (id : Str) (disk disk' : Disk) (e : StoreError)
      → load json id disk ≡ err e
      → ¬ (ship_action json now id (some disk) ≡ ok disk')
  unfolding ship_action
  ship_action-failed now id disk disk' e failed done = ground arith

  -- A run of `shipAction` that fails leaves the directory as before, or as a failed save left it.
  pub ship_action-LeftBy :
      (now : ℕ) (id : Str) (disk : Disk) (e : CommandError)
      → ship_action json now id (some disk) ≡ err e
      → (left_by e disk ≡ disk) ⊎ ((deal : Deal) × LeftBy json deal disk (left_by e disk))
  unfolding ship_action
  ship_action-LeftBy now id disk e failed = elim (Result-cases (load json id disk)) [
    | inr (e', h) ↦
        let same : left_by e disk ≡ left_after e' disk = ground arith in
        inl (same ∙ load-left json id disk e' h)
    | inl (deal, h) ↦ elim (Result-cases (changed (ship now deal))) [
      | inr (e', h') ↦ inl (unfold ship in ground arith)
      | inl (sent, h') ↦ elim (Result-cases (save json sent disk)) [
        | inl (disk', h'') ↦ ground arith
        | inr (e', h'') ↦
            let same : left_after e' disk ≡ left_by e disk = ground arith in
            inr (
              sent,
              subst (λ (d : Disk). LeftBy json sent disk d) same
                  (save-LeftBy json sent disk e' h''),
            )
      ]
    ]
  ]

  -- If `shipAction` succeeds at an id, that id held a funded deal, and afterwards the id of that deal
  -- loads the deal as shipped, and every other id loads as before, an error included, if JSON gives the
  -- shipped deal back and the system can read its file.
  pub load-ship_action :
      (now : ℕ) (id asked : Str) (disk disk' : Disk)
      → ship_action json now id (some disk) ≡ ok disk'
      → ((deal : Deal)
          → load json id disk ≡ ok deal
          → GivesBack json (shipped_at now deal) (shipped_at now deal)
            × (disk.read_fails (deal.id ++ lit ".json") ≡ false))
      → (deal : Deal) × (load json id disk ≡ ok deal)
        × (deal.state ≡ funded)
        × (load json asked disk'
            ≡ (if str_eq deal.id asked then ok (shipped_at now deal) else load json asked disk))
  load-ship_action now id asked disk disk' done fine = elim (Result-cases (load json id disk)) [
    | inr (e, failed) ↦ absurd (ship_action-failed now id disk disk' e failed done)
    | inl (deal, loaded) ↦
        let saves = ship_action-Saves now id disk disk' deal loaded done in
        let good = fine deal loaded in
        (
          deal,
          loaded,
          saves.0,
          load-save json (shipped_at now deal) (shipped_at now deal) disk disk' asked saves.1 good.0
              good.1,
        )
  ]
