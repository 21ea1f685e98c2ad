-- ===== src/Store/Files.antt =====
-- The directory of a `FileStore` as the os package shows it: MkdirAll, WriteFile, ReadFile, ReadDir.
use ark_escrow.Base.{
  ℕ, take, Result, ok, err, ◌&&◌, Bool, true, false, Option, none, some, List, [], ◌∷◌, Str, str_eq,
  ltb,
}
use ark_escrow.Base.{if◌then◌else◌, ◌==◌, ◌||◌, ◌≡◌, refl, arith, str_eq_iff}

pub data Entry : Type 0 where
  file : Str → Entry
  directory : Entry

-- How a write fails: before the file is opened, or after it was cut off and so many bytes were written
-- (os.WriteFile truncates the file first, and a failure in between leaves it partially written).
pub data WriteFault : Type 0 where
  refused : WriteFault
  torn : ℕ → WriteFault

pub record Disk : Type 0 where
  pub entries : List (Str × Entry)
  pub read_fails : Str → Bool
  pub write_fails : Str → Option WriteFault
  pub list_fails : Bool

-- The order of names, by bytes.
str_lt : Str → Str → Bool
str_lt [] [] = false
str_lt [] (b ∷ t) = true
str_lt (a ∷ s) [] = false
str_lt (a ∷ s) (b ∷ t) = ltb a b || a == b && str_lt s t

unfoldable pub lookup : Str → List (Str × Entry) → Option Entry
lookup name [] = none
lookup name ((other, entry) ∷ entries) =
    if str_eq other name then some entry else lookup name entries

unfoldable pub put : Str → Entry → List (Str × Entry) → List (Str × Entry)
unfolding str_lt
put name entry [] = (name, entry) ∷ []
put name entry ((other, old) ∷ entries) =
    if str_eq other name
    then (name, entry) ∷ entries
    else if str_lt name other
    then (name, entry) ∷ (other, old) ∷ entries
    else (other, old) ∷ put name entry entries

pub lookup-put :
    (name asked : Str) (entry : Entry) (entries : List (Str × Entry))
    → lookup asked (put name entry entries)
      ≡ (if str_eq name asked then some entry else lookup asked entries)
unfolding lookup put
lookup-put name asked entry [] = refl
lookup-put name asked entry ((other, old) ∷ entries) = ground (
  arith,
  str_eq_iff other name,
  str_eq_iff other asked,
  str_eq_iff name asked,
  lookup-put name asked entry entries,
)

abbrev pub with_file : Str → Str → Disk → Disk
with_file name text disk = record disk { entries = put name (file text) disk.entries }

-- The directory after the write; with an error, as the failure left it. The write also fails if a
-- directory has the name.
unfoldable pub write_file : Str → Str → Disk → Result Disk Disk
write_file name text disk = elim (lookup name disk.entries) [
  | some directory ↦ err disk
  | _ ↦ elim (disk.write_fails name) [
    | none ↦ ok (with_file name text disk)
    | some refused ↦ err disk
    | some (torn k) ↦ err (with_file name (take k text) disk)
  ]
]

pub data Contents : Type 0 where
  missing unreadable : Contents
  contents : Str → Contents

unfoldable pub read_file : Str → Disk → Contents
read_file name disk = if disk.read_fails name then unreadable else elim (lookup name disk.entries) [
  | none ↦ missing
  | some directory ↦ unreadable
  | some (file text) ↦ contents text
]

unfoldable pub read_dir : Disk → Option (List (Str × Entry))
read_dir disk = if disk.list_fails then none else some disk.entries

-- A file that was written is read back, and every other name reads as before.
pub read_file-write_file :
    (name asked text : Str) (disk disk' : Disk)
    → write_file name text disk ≡ ok disk'
    → disk.read_fails name ≡ false
    → read_file asked disk' ≡ (if str_eq name asked then contents text else read_file asked disk)
unfolding write_file read_file
read_file-write_file name asked text disk disk' h fine =
    ground (arith, lookup-put name asked (file text) disk.entries, str_eq_iff name asked)
