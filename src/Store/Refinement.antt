-- ===== src/Store/Refinement.antt =====
-- The file store as a map from ids to deals: what `Save` and `Load` of pkg/escrow/store.go promise.
use ark_escrow.Base.{◌≡◌, arith, ap, ◌∙◌, ◌++◌, Str, lit, false, true, IsAscii, subst}
use ark_escrow.Base.{some, ok, err, Result-cases, Option-cases, inl, inr}
use ark_escrow.Base.{str_eq, str_eq_iff, if◌then◌else◌}
use ark_escrow.Deal.{Deal}
use ark_escrow.Deal.Fields.{is_known}
use ark_escrow.Store.{DealJson, StoreError, path, save, load, from_contents}
use ark_escrow.Store.Files.{Disk, write_file, read_file, read_file-write_file}
use ark_escrow.Store.Names.{path_iff, name-injective}

module _ (json : DealJson) where
  -- The deal that JSON gives back for the text of a deal.
  abbrev pub GivesBack : Deal → Deal → Type 0
  GivesBack d d' = (text : Str) → json.marshal_indent d ≡ some text → json.unmarshal text ≡ some d'

  -- What encoding/json documents of deals: it replaces bytes that are no UTF-8, so what is in ASCII comes
  -- back as it was; a deal that has a text, with an id in ASCII and one of the seven states, is read
  -- back with that id and that state.
  pub record IsDealJson : Type 0 where
    pub keeps :
        (d : Deal) (text : Str)
        → IsAscii d.id
        → is_known d.state ≡ true
        → json.marshal_indent d ≡ some text
        → (d' : Deal) × (json.unmarshal text ≡ some d') × (d'.id ≡ d.id) × (d'.state ≡ d.state)

  -- What a save that succeeded did.
  pub record Saved (d : Deal) (disk disk' : Disk) : Type 0 where
    pub name : Str
    pub text : Str
    pub named : path d.id ≡ ok name
    pub marshals : json.marshal_indent d ≡ some text
    pub writes : write_file name text disk ≡ ok disk'

  pub save-Saved : (d : Deal) (disk disk' : Disk) → save json d disk ≡ ok disk' → Saved d disk disk'
  unfolding save
  save-Saved d disk disk' h = elim (Result-cases (path d.id)) [
    | inr (_, e1) ↦ ground arith
    | inl (name, e1) ↦ elim (Option-cases (json.marshal_indent d)) [
      | inl e2 ↦ ground arith
      | inr (text, e2) ↦ record {
        name = name;
        text = text;
        named = e1;
        marshals = e2;
        writes = ground arith;
      }
    ]
  ]

  pub save-GivesBack :
      (d : Deal) (disk disk' : Disk)
      → IsDealJson
      → IsAscii d.id
      → is_known d.state ≡ true
      → save json d disk ≡ ok disk'
      → (d' : Deal) × GivesBack d d' × (d'.id ≡ d.id) × (d'.state ≡ d.state)
  save-GivesBack d disk disk' laws ascii known h =
      let s = save-Saved d disk disk' h in
      let (d', reads, same_id, same_state) = laws.keeps d s.text ascii known s.marshals in
      (
        d',
        λ text marshals.
            let same : s.text ≡ text = ground (arith, s.marshals) in
            subst (λ (t : Str). json.unmarshal t ≡ some d') same reads,
        same_id,
        same_state,
      )

  load-eq :
      (id name : Str) (disk : Disk)
      → path id ≡ ok name
      → load json id disk ≡ from_contents json id (read_file name disk)
  unfolding load
  load-eq id name disk e = rw e

  load_bad : (id : Str) (disk : Disk) (e : StoreError) → path id ≡ err e → load json id disk ≡ err e
  unfolding load
  load_bad id disk e h = rw h

  -- After a save the deal's id loads the deal that JSON gives back for the deal's text, if it gives one
  -- back and the system can read the file of that id; every other id loads as before, an error included.
  pub load-save :
      (d d' : Deal) (disk disk' : Disk) (id : Str)
      → save json d disk ≡ ok disk'
      → GivesBack d d'
      → disk.read_fails (d.id ++ lit ".json") ≡ false
      → load json id disk' ≡ (if str_eq d.id id then ok d' else load json id disk)
  unfolding from_contents
  load-save d d' disk disk' id h trip fine =
      let s = save-Saved d disk disk' h in
      let file_name : s.name ≡ d.id ++ lit ".json" = ((path_iff d.id s.name).0 s.named).2 in
      let reads = λ (asked : Str).
        read_file-write_file s.name asked s.text disk disk' s.writes
          (ap disk.read_fails file_name ∙ fine) in
      elim (Result-cases (path id)) [
        | inr (e, bad) ↦
            ground
              (arith, load_bad id disk e bad, load_bad id disk' e bad, str_eq_iff d.id id, s.named)
        | inl (name, good) ↦ ground (
          arith,
          load-eq id name disk good,
          load-eq id name disk' good,
          reads name,
          str_eq_iff d.id id,
          str_eq_iff s.name name,
          name-injective d.id id,
          ((path_iff id name).0 good).2,
          file_name,
          trip s.text s.marshals,
        )
      ]
