-- ===== src/Command/Program/Reach.antt =====
-- Sequences of commands of cmd/escrow: what becomes of the deals in the directory.
use ark_escrow.Base.{
  ℕ, ◌≢◌, true, some, IsAscii, Str, lit, ◌++◌, false, Result, ok, ◌≡◌, refl, sym, subst, ap, ◌∙◌,
  arith, inl, inr, Bool-cases, str_eq, str_eq_iff, if◌then◌else◌,
}
use ark_escrow.Curve.{Curve}
use ark_escrow.Script.Txscript.{Txscript}
use ark_escrow.Deal.{Deal, DealState}
use ark_escrow.Deal.Diagram.{edge, Route, here, along}
use ark_escrow.Deal.Fields.{is_known}
use ark_escrow.Store.Faults.{LeftBy-eq}
use ark_escrow.Escrow.Elements.{Taproot}
use ark_escrow.Recovery.{Codec}
use ark_escrow.Store.{DealJson, StoreError, load, save}
use ark_escrow.Store.Files.{Disk, torn, write_file}
use ark_escrow.Store.Refinement.{IsDealJson, save-GivesBack, load-save}
use ark_escrow.Swap.Pset.{Network, Psetv2}
use ark_escrow.Swap.Services.{Services}
use ark_escrow.Command.World.{World, Env}
use ark_escrow.Command.Program.{CommandLine, System, run}
use ark_escrow.Command.Program.Changes.{Change, unchanged, left, added, moved}
use ark_escrow.Command.Program.Additions.{Fresh}
use ark_escrow.Command.Program.Steps.{run-Change}

Route-trans : (s t u : DealState) → Route s t → Route t u → Route s u
Route-trans s t u (here _) onward = onward
Route-trans s t u (along _ s' _ h route) onward = along s s' u h (Route-trans s' t u route onward)

edge-is_known : (s t : DealState) → edge s t ≡ true → is_known t ≡ true
edge-is_known s t h = ground arith

ok-injective : (a b : Deal) → ◌≡◌ {A = Result StoreError Deal} (ok a) (ok b) → a ≡ b
ok-injective a b h = cc

state-ok :
    (old deal : Deal) → ◌≡◌ {A = Result StoreError Deal} (ok deal) (ok old) → old.state ≡ deal.state
state-ok old deal h = cc

module _ (json : DealJson) where
  -- A directory whose files can be read, whose writes are whole or refused, and whose deal files have
  -- names in ASCII and hold the deal of their name.
  pub record Tidy (disk : Disk) : Type 0 where
    pub readable : (name : Str) → disk.read_fails name ≡ false
    pub whole : (name : Str) (k : ℕ) → disk.write_fails name ≢ some (torn k)
    pub named : (id : Str) (deal : Deal) → load json id disk ≡ ok deal → (deal.id ≡ id) × IsAscii id

  -- A deal that is there stays there, and its state moves along edges.
  abbrev pub Kept : Disk → Disk → Str → Deal → Type 0
  Kept disk disk' id deal =
      (deal' : Deal) × (load json id disk' ≡ ok deal') × Route deal.state deal'.state

  save-read_fails :
      (deal : Deal) (disk disk' : Disk)
      → save json deal disk ≡ ok disk'
      → (name : Str)
      → (disk'.read_fails name ≡ disk.read_fails name)
        × (disk'.write_fails name ≡ disk.write_fails name)
  unfolding save write_file
  save-read_fails deal disk disk' saves name = (ground arith, ground arith)

  -- What a save of a deal with an id in ASCII and a known state did to a tidy directory.
  record Saved (deal : Deal) (disk disk' : Disk) : Type 0 where
    back : Deal
    same_id : back.id ≡ deal.id
    same_state : back.state ≡ deal.state
    loads :
        (id : Str) → load json id disk' ≡ (if str_eq deal.id id then ok back else load json id disk)

  module _ (laws : IsDealJson json) where
    save-Saved :
        (deal : Deal) (disk disk' : Disk)
        → Tidy disk
        → IsAscii deal.id
        → is_known deal.state ≡ true
        → save json deal disk ≡ ok disk'
        → Saved deal disk disk'
    save-Saved deal disk disk' tidy ascii known saves =
        let (back, gives, same_id, same_state) =
          save-GivesBack json deal disk disk' laws ascii known saves in
        record {
          back = back;
          same_id = same_id;
          same_state = same_state;
          loads = λ id.
              load-save json deal back disk disk' id saves gives
                (tidy.readable (deal.id ++ lit ".json"));
        }

    pub saved-Tidy :
        (deal : Deal) (disk disk' : Disk)
        → Tidy disk
        → IsAscii deal.id
        → is_known deal.state ≡ true
        → save json deal disk ≡ ok disk'
        → Tidy disk'
    saved-Tidy deal disk disk' tidy ascii known saves =
        let s = save-Saved deal disk disk' tidy ascii known saves in
        record {
          readable = λ name. (save-read_fails deal disk disk' saves name).0 ∙ tidy.readable name;
          whole = λ name k h.
              tidy.whole name k (sym (save-read_fails deal disk disk' saves name).1 ∙ h);
          named = λ id found h. elim (Bool-cases (str_eq deal.id id)) [
            | inl e ↦
                let same : deal.id ≡ id = (str_eq_iff deal.id id).0 e in
                let read : ◌≡◌ {A = Result StoreError Deal} (ok found) (ok s.back) =
                  sym h ∙ s.loads id ∙ rw e refl in
                (
                  ap (λ (d : Deal). d.id) (ok-injective found s.back read) ∙ s.same_id ∙ same,
                  subst (λ (x : Str). IsAscii x) same ascii,
                )
            | inr e ↦ tidy.named id found (sym (s.loads id ∙ rw e refl) ∙ h)
          ];
        }

    -- The id and the state of a deal that was moved.
    moved-IsAscii :
        (id : Str) (deal deal' : Deal) (disk : Disk)
        → Tidy disk
        → load json id disk ≡ ok deal
        → deal'.id ≡ deal.id
        → IsAscii deal'.id
    moved-IsAscii id deal deal' disk tidy loaded same =
        let (named, ascii) = tidy.named id deal loaded in
        subst (λ (x : Str). IsAscii x) (sym (same ∙ named)) ascii

    Change-Tidy : (disk disk' : Disk) → Change json disk disk' → Tidy disk → Tidy disk'
    Change-Tidy disk disk' unchanged tidy = tidy
    Change-Tidy disk disk' (left deal _ broken) tidy =
        subst (λ (d : Disk). Tidy d) (sym (LeftBy-eq json deal disk disk' tidy.whole broken)) tidy
    Change-Tidy disk disk' (added deal e _ h ascii known saves) tidy =
        saved-Tidy deal disk disk' tidy ascii known saves
    Change-Tidy disk disk' (moved id deal deal' _ h same moves saves) tidy =
        saved-Tidy deal' disk disk' tidy (moved-IsAscii id deal deal' disk tidy h same)
          (edge-is_known deal.state deal'.state moves) saves

    Change-Kept :
        (disk disk' : Disk)
        → Change json disk disk'
        → Tidy disk
        → (id : Str) (deal : Deal) → load json id disk ≡ ok deal
        → Kept disk disk' id deal
    Change-Kept disk disk' unchanged tidy id deal h = (deal, h, here deal.state)
    Change-Kept disk disk' (left new _ broken) tidy id deal h = (
      deal,
      ap (λ (d : Disk). load json id d) (LeftBy-eq json new disk disk' tidy.whole broken) ∙ h,
      here deal.state,
    )
    Change-Kept disk disk' (added new e _ fresh ascii known saves) tidy id deal h =
        let s = save-Saved new disk disk' tidy ascii known saves in
        (deal, ground (arith, s.loads id, str_eq_iff new.id id), here deal.state)
    Change-Kept disk disk' (moved id' old new _ h' same moves saves) tidy id deal h =
        let ascii = moved-IsAscii id' old new disk tidy h' same in
        let s =
          save-Saved new disk disk' tidy ascii (edge-is_known old.state new.state moves) saves in
        elim (Bool-cases (str_eq new.id id)) [
          | inl e ↦
              let same_id : id ≡ id' =
                sym ((str_eq_iff new.id id).0 e) ∙ same ∙ (tidy.named id' old h').0 in
              let same_load : ◌≡◌ {A = Result StoreError Deal} (ok deal) (ok old) =
                sym h ∙ ap (λ (s : Str). load json s disk) same_id ∙ h' in
              let same_state : old.state ≡ deal.state = state-ok old deal same_load in
              (
                s.back,
                s.loads id ∙ rw e refl,
                subst (λ (x : DealState). Route deal.state x) (sym s.same_state)
                    (subst (λ (x : DealState). Route x new.state) same_state
                      (along old.state new.state new.state moves (here new.state))),
              )
          | inr e ↦ (deal, s.loads id ∙ rw e h, here deal.state)
        ]

module _ (services : Services) (json : DealJson) (codec : Codec) (system : System) (c : Curve)
    (tx : Txscript) (taproot : Taproot c.PublicKey) (lib : Psetv2 c) (regtest : Network) (env : Env)
    (hrp : Str) where
  -- Commands one after the other, at any times; a create command draws the bytes of an id under which
  -- no deal loads, and the id of a join command's token is in ASCII.
  pub data Session : World → World → Type 0 where
    finished : (w : World) → Session w w
    command_first :
        (now : ℕ) (command : CommandLine c.PrivateKey) (w w' : World)
        → Fresh services json c tx taproot lib regtest command w.disk
        → Session
            (run services json codec system c tx taproot lib regtest env hrp now command w).1
            w'
        → Session w w'

  -- Over any session that starts from a directory whose files can be read, whose writes are whole or refused,
  -- and whose deal files have names in ASCII and hold the deal of their name, every deal that is there
  -- stays there under its id, its state moves along edges of PROTOCOL.md's diagram and the three further ones of
  -- deal.go, and the directory stays so, if JSON keeps ids in ASCII and known states, each create
  -- command draws bytes of an id under which no deal loads, and the ids of the tokens are in ASCII.
  pub Session-Kept :
      IsDealJson json
      → (w w' : World) → Session w w'
      → Tidy json w.disk
      → Tidy json w'.disk
        × ((id : Str) (deal : Deal)
            → load json id w.disk ≡ ok deal
            → Kept json w.disk w'.disk id deal)
  Session-Kept laws w w' (finished _) tidy = (tidy, λ id deal h. (deal, h, here deal.state))
  Session-Kept laws w w' (command_first now command _ _ fresh rest) tidy =
      let w1 = (run services json codec system c tx taproot lib regtest env hrp now command w).1 in
      let change =
        run-Change services json codec system c tx taproot lib regtest env hrp now command w
          fresh in
      let later = Session-Kept laws w1 w' rest (Change-Tidy json laws w.disk w1.disk change tidy) in
      (
        later.0,
        λ id deal h.
            let (deal1, h1, path1) = Change-Kept json laws w.disk w1.disk change tidy id deal h in
            let (deal2, h2, path2) = later.1 id deal1 h1 in
            (deal2, h2, Route-trans deal.state deal1.state deal2.state path1 path2),
      )
