-- ===== src/Store/Listing.antt =====
-- What `List` of pkg/escrow/store.go returns, and when it fails.
use ark_escrow.Base.{◌≡◌, ◌↔◌, refl, arith, List, [], ◌∷◌, Str}
use ark_escrow.Base.{false, Result, ok, Result-cases, inl, inr}
use ark_escrow.Base.{Bool-cases, if◌then◌else◌, All, ◌>>=◌}
use ark_escrow.Deal.{Deal}
use ark_escrow.Store.{DealJson, StoreError, path, load, load_all, list, is_skipped, id_of_name}
use ark_escrow.Store.Files.{Disk, Entry, read_dir}
use ark_escrow.Store.Names.{path_iff, IsPlain}

-- The ids of the entries that are neither directories nor without the extension, in order.
pub ids_of : List (Str × Entry) → List Str
ids_of [] = []
ids_of ((name, entry) ∷ entries) =
    if is_skipped name entry then ids_of entries else id_of_name name ∷ ids_of entries

module _ (json : DealJson) where
  -- The loads alone, of a list of ids.
  load_ids : List Str → Disk → Result StoreError (List Deal)
  load_ids [] disk = ok []
  load_ids (id ∷ ids) disk = do
    deal ← load json id disk
    deals ← load_ids ids disk
    ok (deal ∷ deals)

  load_all-eq :
      (entries : List (Str × Entry)) (disk : Disk)
      → load_all json entries disk ≡ load_ids (ids_of entries) disk
  unfolding load_all ids_of load_ids
  load_all-eq [] disk = refl
  load_all-eq ((name, entry) ∷ entries) disk = elim (Bool-cases (is_skipped name entry)) [
    | inl skipped ↦ rw (skipped, load_all-eq entries disk)
    | inr kept ↦ rw (kept, load_all-eq entries disk)
  ]

  -- The deals are those that `Load` gives for the ids, one for each.
  abbrev pub Loads : Disk → List Str → List Deal → Type 0
  Loads disk [] [] = Unit
  Loads disk (id ∷ ids) (d ∷ ds) = (load json id disk ≡ ok d) × Loads disk ids ds
  Loads disk _ _ = ⊥

  load_ids→Loads :
      (ids : List Str) (disk : Disk) (ds : List Deal)
      → load_ids ids disk ≡ ok ds
      → Loads disk ids ds
  unfolding load_ids
  load_ids→Loads [] disk [] h = tt
  load_ids→Loads [] disk (d ∷ ds) h = cc
  load_ids→Loads (id ∷ ids) disk [] h = ground arith
  load_ids→Loads (id ∷ ids) disk (d ∷ ds) h =
      (ground arith, load_ids→Loads ids disk ds (ground arith))

  Loads→load_ids :
      (ids : List Str) (disk : Disk) (ds : List Deal)
      → Loads disk ids ds
      → load_ids ids disk ≡ ok ds
  unfolding load_ids
  Loads→load_ids [] disk [] h = refl
  Loads→load_ids [] disk (d ∷ ds) h = absurd h
  Loads→load_ids (id ∷ ids) disk [] h = absurd h
  Loads→load_ids (id ∷ ids) disk (d ∷ ds) h = rw (h.0, Loads→load_ids ids disk ds h.1)

  -- `List` gives deals exactly if the directory can be read and every entry that is a file with the
  -- extension loads: the deals are then those that `Load` gives for the names, in their order.
  pub list_iff :
      (disk : Disk) (ds : List Deal)
      → (list json disk ≡ ok ds) ↔ ((disk.list_fails ≡ false) × Loads disk (ids_of disk.entries) ds)
  unfolding list read_dir
  list_iff disk ds = (
    λ h. (
      ground arith,
      load_ids→Loads (ids_of disk.entries) disk ds (ground (arith, load_all-eq disk.entries disk)),
    ),
    λ h.
        ground
          (arith, load_all-eq disk.entries disk, Loads→load_ids (ids_of disk.entries) disk ds h.1),
  )

  load-dotted : (id : Str) (disk : Disk) (d : Deal) → load json id disk ≡ ok d → All IsPlain id
  unfolding load
  load-dotted id disk d h = elim (Result-cases (path id)) [
    | inr (_, e) ↦ ground arith
    | inl (name, e) ↦ ((path_iff id name).0 e).1
  ]

  Loads-All :
      (ids : List Str) (disk : Disk) (ds : List Deal) → Loads disk ids ds → All (All IsPlain) ids
  Loads-All [] disk [] h = tt
  Loads-All [] disk (d ∷ ds) h = absurd h
  Loads-All (id ∷ ids) disk [] h = absurd h
  Loads-All (id ∷ ids) disk (d ∷ ds) h = (load-dotted id disk d h.0, Loads-All ids disk ds h.1)

  -- One file with the extension whose name has another dot, a slash or a backslash before it makes
  -- the whole listing fail: where `List` succeeds, every such name is plain.
  pub list-All :
      (disk : Disk) (ds : List Deal)
      → list json disk ≡ ok ds
      → All (All IsPlain) (ids_of disk.entries)
  list-All disk ds h = Loads-All (ids_of disk.entries) disk ds ((list_iff disk ds).0 h).1
