-- ===== src/Store.antt =====
-- pkg/escrow/store.go: deals as JSON files in one directory.
-- The directory is the state: its entries in the order of os.ReadDir (by name), and which names the
-- operating system fails to read or write. The JSON text of a deal is the parameter `DealJson`.
pub mod Names
pub mod Files
pub mod Refinement
pub mod Listing
pub mod Faults
use ark_escrow.Base.{
  ℕ, zero, suc, ◌-◌, ◌||◌, Bool, true, false, Option, none, some, List, [], ◌∷◌, ◌++◌,
}
use ark_escrow.Base.{Str, lit, is_empty, not, length, take, if◌then◌else◌, str_eq, ◌==◌, reverse}
use ark_escrow.Base.{Result, ok, err, ◌>>=◌, ◌>>◌, require, or_err, wrap_err}
use ark_escrow.Deal.{Deal}
use ark_escrow.Store.Files.{Disk, Entry, file, directory, Contents, missing, unreadable, contents}
use ark_escrow.Store.Files.{write_file, read_file, read_dir}

-- json.MarshalIndent and json.Unmarshal at `Deal`.
pub record DealJson : Type 0 where
  pub marshal_indent : Deal → Option Str
  pub unmarshal : Str → Option Deal

pub data StoreError : Type 0 where
  invalid_deal_id marshal_failed : StoreError
  -- with the directory as the failed write left it
  write_failed : Disk → StoreError
  not_found : Str → StoreError
  read_failed unmarshal_failed read_dir_failed mkdir_failed : StoreError

-- The directory after an operation that failed.
abbrev pub left_after : StoreError → Disk → Disk
left_after (write_failed left) disk = left
left_after _ disk = disk

pub has_byte : ℕ → Str → Bool
has_byte c [] = false
has_byte c (x ∷ xs) = x == c || has_byte c xs

-- strings.ContainsAny, for ASCII characters.
pub contains_any : Str → Str → Bool
unfolding has_byte
contains_any [] chars = false
contains_any (c ∷ s) chars = has_byte c chars || contains_any s chars

-- The name in the directory, of the path that filepath.Join makes.
pub path : Str → Result StoreError Str
unfolding contains_any
path id =
    if is_empty id || contains_any id (lit "/\\..")
    then err invalid_deal_id
    else ok (id ++ lit ".json")

-- filepath.Ext, from the end: the text from the last dot on, if no slash comes after it.
ext_back : Str → Str → Str
ext_back [] after = []
ext_back (c ∷ before) after =
    let rest = ext_back before (c ∷ after) in
    if c == b'/' then [] else if c == b'.' then c ∷ after else rest

pub ext : Str → Str
unfolding ext_back
ext name = ext_back (reverse name) []

pub is_directory : Entry → Bool
is_directory directory = true
is_directory (file _) = false

-- `entry.IsDir() || filepath.Ext(entry.Name()) != ".json"`
abbrev pub is_skipped : Str → Entry → Bool
is_skipped name entry = is_directory entry || not (str_eq (ext name) (lit ".json"))

-- `entry.Name()[:len(entry.Name())-5]`
abbrev pub id_of_name : Str → Str
id_of_name name = take (length name - 5) name

module _ (json : DealJson) where
  unfoldable pub save : Deal → Disk → Result StoreError Disk
  unfolding path
  save deal disk = do
    p ← path deal.id
    text ← or_err marshal_failed (json.marshal_indent deal)
    wrap_err write_failed (write_file p text disk)

  pub from_contents : Str → Contents → Result StoreError Deal
  from_contents id missing = err (not_found id)
  from_contents id unreadable = err read_failed
  from_contents id (contents text) = or_err unmarshal_failed (json.unmarshal text)

  unfoldable pub load : Str → Disk → Result StoreError Deal
  unfolding path from_contents
  load id disk = do p ← path id; from_contents id (read_file p disk)

  pub load_all : List (Str × Entry) → Disk → Result StoreError (List Deal)
  unfolding load ext is_directory
  load_all [] disk = ok []
  load_all ((name, entry) ∷ entries) disk =
      let rest = load_all entries disk in
      if is_skipped name entry
      then rest
      else do deal ← load (id_of_name name) disk; deals ← rest; ok (deal ∷ deals)

  -- `List` of the Go code.
  unfoldable pub list : Disk → Result StoreError (List Deal)
  unfolding load_all
  list disk = do entries ← or_err read_dir_failed (read_dir disk); load_all entries disk

-- `NewFileStore`: the directory as it is, or made, unless os.MkdirAll fails.
unfoldable pub new_file_store : Option Disk → Result StoreError Disk
new_file_store opened = or_err mkdir_failed opened
