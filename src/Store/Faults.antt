-- ===== src/Store/Faults.antt =====
-- What a `Save` of pkg/escrow/store.go that fails leaves behind: os.WriteFile may cut off the file.
use ark_escrow.Base.{
  ℕ, Str, take, some, ok, err, ◌≡◌, ◌≢◌, subst, refl, arith, Result-cases, Option-cases, inl, inr,
}
use ark_escrow.Deal.{Deal}
use ark_escrow.Store.{DealJson, StoreError, path, save, load, from_contents, left_after}
use ark_escrow.Store.Files.{Disk, file, directory, torn, refused, with_file, write_file, lookup}

module _ (json : DealJson) where
  -- The directory that a failed save of a deal leaves: as before, or with the deal's own file cut
  -- off, where the system tears its writes.
  pub data LeftBy (deal : Deal) (disk : Disk) : Disk → Type 0 where
    untouched : LeftBy deal disk disk
    cut_off :
        (name text : Str) (k : ℕ)
        → path deal.id ≡ ok name
        → json.marshal_indent deal ≡ some text
        → disk.write_fails name ≡ some (torn k)
        → LeftBy deal disk (with_file name (take k text) disk)

  write_file-LeftBy :
      (deal : Deal) (name text : Str) (disk left : Disk)
      → path deal.id ≡ ok name
      → json.marshal_indent deal ≡ some text
      → write_file name text disk ≡ err left
      → LeftBy deal disk left
  unfolding write_file
  write_file-LeftBy deal name text disk left named marshals h =
      elim (Option-cases (lookup name disk.entries)) [
        | inl e ↦ elim (Option-cases (disk.write_fails name)) [
          | inl e' ↦ ground arith
          | inr (refused, e') ↦ subst (λ (d : Disk). LeftBy deal disk d) (ground arith) untouched
          | inr (torn k, e') ↦
              subst (λ (d : Disk). LeftBy deal disk d) (ground arith)
                (cut_off name text k named marshals e')
        ]
        | inr (directory, e) ↦ subst (λ (d : Disk). LeftBy deal disk d) (ground arith) untouched
        | inr (file old, e) ↦ elim (Option-cases (disk.write_fails name)) [
          | inl e' ↦ ground arith
          | inr (refused, e') ↦ subst (λ (d : Disk). LeftBy deal disk d) (ground arith) untouched
          | inr (torn k, e') ↦
              subst (λ (d : Disk). LeftBy deal disk d) (ground arith)
                (cut_off name text k named marshals e')
        ]
      ]

  -- A save that fails leaves the directory as before but for the deal's own file.
  pub save-LeftBy :
      (deal : Deal) (disk : Disk) (e : StoreError)
      → save json deal disk ≡ err e
      → LeftBy deal disk (left_after e disk)
  unfolding save
  save-LeftBy deal disk e h = elim (Result-cases (path deal.id)) [
    | inr (e', named) ↦
        let same : disk ≡ left_after e disk = unfold path in ground arith in
        subst (λ (d : Disk). LeftBy deal disk d) same untouched
    | inl (name, named) ↦ elim (Option-cases (json.marshal_indent deal)) [
      | inl marshals ↦
          let same : disk ≡ left_after e disk = ground arith in
          subst (λ (d : Disk). LeftBy deal disk d) same untouched
      | inr (text, marshals) ↦ elim (Result-cases (write_file name text disk)) [
        | inl (disk', h') ↦ ground arith
        | inr (left, h') ↦
            let same : left ≡ left_after e disk = ground arith in
            subst (λ (d : Disk). LeftBy deal disk d) same
              (write_file-LeftBy deal name text disk left named marshals h')
      ]
    ]
  ]

  -- Where no write is torn, a failed save leaves the directory as before.
  pub LeftBy-eq :
      (deal : Deal) (disk left : Disk)
      → ((name : Str) (k : ℕ) → disk.write_fails name ≢ some (torn k))
      → LeftBy deal disk left
      → left ≡ disk
  LeftBy-eq deal disk left whole untouched = refl
  LeftBy-eq deal disk left whole (cut_off name text k named marshals tears) =
      absurd (whole name k tears)

  -- A load that fails writes nothing.
  pub load-left :
      (id : Str) (disk : Disk) (e : StoreError)
      → load json id disk ≡ err e
      → left_after e disk ≡ disk
  unfolding load from_contents path
  load-left id disk e h = ground arith
