-- ===== src/Store/Names.antt =====
-- Which ids give a file name, and that different ids give different files.
use ark_escrow.Base.{ℕ, ◌≡◌, ◌≢◌, refl, arith, ap, sym, ◌∙◌, All, ◌↔◌}
use ark_escrow.Base.{false, [], ◌∷◌, ◌++◌, Str, lit, ok}
use ark_escrow.Base.{length-append, take, take-length_append}
use ark_escrow.Store.{path, contains_any, has_byte, id_of_name}

-- A character that would let a name leave the directory, or hide the extension.
abbrev pub IsPlain : ℕ → Type 0
IsPlain c = (c ≢ b'/') × (c ≢ b'\\') × (c ≢ b'.')

contains_any→All : (id : Str) → contains_any id (lit "/\\..") ≡ false → All IsPlain id
unfolding contains_any has_byte
contains_any→All [] h = tt
contains_any→All (c ∷ id) h = (ground arith, contains_any→All id (ground arith))

All→contains_any : (id : Str) → All IsPlain id → contains_any id (lit "/\\..") ≡ false
unfolding contains_any has_byte
All→contains_any [] h = refl
All→contains_any (c ∷ id) h = ground (arith, All→contains_any id h.1)

-- An id has a file exactly if it is not empty and holds no slash, no backslash and no dot; the file
-- is the id with its extension, so no id reaches outside the directory.
pub path_iff :
    (id name : Str)
    → (path id ≡ ok name) ↔ ((id ≢ []) × All IsPlain id × (name ≡ id ++ lit ".json"))
unfolding path
path_iff id name = (forth, back)
  where
    forth : path id ≡ ok name → (id ≢ []) × All IsPlain id × (name ≡ id ++ lit ".json")
    forth h = (ground arith, contains_any→All id (ground arith), ground arith)

    back : (id ≢ []) × All IsPlain id × (name ≡ id ++ lit ".json") → path id ≡ ok name
    back h = ground (arith, All→contains_any id h.1)

pub id_of_name-append : (id : Str) → id_of_name (id ++ lit ".json") ≡ id
id_of_name-append id =
    ap (λ (n : ℕ). take n (id ++ lit ".json")) (omega (arith, length-append id (lit ".json")))
    ∙ take-length_append id (lit ".json")

pub name-injective : (s t : Str) → s ++ lit ".json" ≡ t ++ lit ".json" → s ≡ t
name-injective s t h = sym (id_of_name-append s) ∙ ap id_of_name h ∙ id_of_name-append t
