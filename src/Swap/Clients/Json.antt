-- ===== src/Swap/Clients/Json.antt =====
-- JSON values, with the numbers that are natural ones, and how encoding/json decodes them into a struct's fields of type string, as
-- pkg/escrow/swap uses it.
use ark_escrow.Base.{
  ltb, ℕ, ◌+◌, Str, Bool, Option, some, none, List, [], ◌∷◌, if◌then◌else◌, leb, ◌&&◌, str_eq,
}

mutual
  pub data Json : Type 0 where
    null : Json
    bool : Bool → Json
    number : ℕ → Json
    text : Str → Json
    array : Elements → Json
    object : Members → Json

  pub data Elements : Type 0 where
    no_elements : Elements
    element : Json → Elements → Elements

  pub data Members : Type 0 where
    no_members : Members
    member : Str → Json → Members → Members

-- json.Marshal and json.Unmarshal; `stream` is what a json.Decoder gives, one value after the other,
-- with `none` where it fails.
pub record JsonText : Type 0 where
  pub encode : Json → Str
  pub parse : Str → Option Json
  pub stream : Str → List (Option Json)

abbrev lower : ℕ → ℕ
lower c = if leb b'A' c && leb c b'Z' then c + 32 else c

lower_all : Str → Str
lower_all [] = []
lower_all (c ∷ s) = lower c ∷ lower_all s

-- A key names a field in any case of its (ASCII) letters.
pub same_name : Str → Str → Bool
unfolding lower_all
same_name name key = str_eq (lower_all name) (lower_all key)

-- A value into a variable that holds `current`: null leaves it, and another type is an error.
abbrev pub as_text : Json → Str → Option Str
as_text null current = some current
as_text (text s) current = some s
as_text _ current = none

abbrev pub or_fail : Option Str → (Str → Option Str) → Option Str
or_fail none f = none
or_fail (some s) f = f s

-- The field of type string over the members in their order: a later member overwrites.
unfoldable pub text_member : Str → Members → Str → Option Str
unfolding same_name
text_member name no_members current = some current
text_member name (member key value rest) current =
    if same_name name key
    then or_fail (as_text value current) (text_member name rest)
    else text_member name rest current

-- A struct's field of type string; `none` is the error of Unmarshal.
unfoldable pub text_field : Str → Json → Option Str
unfolding text_member
text_field name null = some []
text_field name (object members) = text_member name members []
text_field name _ = none

-- A number below the type's limit.
abbrev as_number : ℕ → Json → ℕ → Option ℕ
as_number limit null current = some current
as_number limit (number n) current = if ltb n limit then some n else none
as_number limit _ current = none

abbrev or_none : Option ℕ → (ℕ → Option ℕ) → Option ℕ
or_none none f = none
or_none (some n) f = f n

-- A struct's field of an integer type.
unfoldable pub number_member : ℕ → Str → Members → ℕ → Option ℕ
unfolding same_name
number_member limit name no_members current = some current
number_member limit name (member key value rest) current =
    if same_name name key
    then or_none (as_number limit value current) (number_member limit name rest)
    else number_member limit name rest current

unfoldable pub number_field : ℕ → Str → Json → Option ℕ
unfolding number_member
number_field limit name null = some 0
number_field limit name (object members) = number_member limit name members 0
number_field limit name _ = none

-- A member that is kept as it is (json.RawMessage, a struct or a pointer); the inner `none` is an absent one.
unfoldable pub raw_member : Str → Members → Option Json → Option Json
unfolding same_name
raw_member name no_members current = current
raw_member name (member key value rest) current =
    raw_member name rest (if same_name name key then some value else current)

unfoldable pub raw_field : Str → Json → Option (Option Json)
unfolding raw_member
raw_field name null = some none
raw_field name (object members) = some (raw_member name members none)
raw_field name _ = none
