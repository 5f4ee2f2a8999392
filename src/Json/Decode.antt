-- ===== src/Json/Decode.antt =====
-- Decoding of a JSON tree into Go values, as json.Unmarshal does it: `null` leaves a plain field as
-- it is and makes a pointer nil, and a member that matches no field is skipped.
use iam_catalog_admin.Base.{String, Bool, [], ◌∷◌, Option, none, some, ℤ, fits_int64, if◌then◌else◌}
use iam_catalog_admin.Base.Text.{fold_eq}
use iam_catalog_admin.Json.{Json, null, bool, num, frac, str, arr, obj, members, Map}

infixl 5 ◌>>=◌
abbrev pub ◌>>=◌ {ℓ κ} : {A : Type ℓ} {B : Type κ} → Option A → (A → Option B) → Option B
none >>= k = none
some a >>= k = k a

-- The assignments to one field, in the order of the members that match its name; `none` is a
-- value of the wrong type.
unfoldable pub field {ℓ} : {A : Type ℓ} → (A → Json → Option A) → String → A → Map → Option A
unfolding fold_eq
field set name a [] = some a
field set name a ((k, v) ∷ m) = do
  b ← if fold_eq k name then set a v else some a
  field set name b m

-- Plain fields.
abbrev pub set_string : String → Json → Option String
set_string s null = some s
set_string s (str t) = some t
set_string s _ = none

abbrev pub set_bool : Bool → Json → Option Bool
set_bool b null = some b
set_bool b (bool c) = some c
set_bool b _ = none

abbrev pub int64_of : ℤ → Option ℤ
int64_of z = if fits_int64 z then some z else none

abbrev pub set_int : ℤ → Json → Option ℤ
set_int n null = some n
set_int n (num z) = int64_of z
set_int n _ = none

-- Pointer fields.
module _ {ℓ} {A : Type ℓ} where
  abbrev pub some_of : Option A → Option (Option A)
  some_of none = none
  some_of (some a) = some (some a)

abbrev pub set_string_ptr : Option String → Json → Option (Option String)
set_string_ptr p null = some none
set_string_ptr p (str t) = some (some t)
set_string_ptr p _ = none

abbrev pub set_bool_ptr : Option Bool → Json → Option (Option Bool)
set_bool_ptr p null = some none
set_bool_ptr p (bool c) = some (some c)
set_bool_ptr p _ = none

abbrev pub set_int_ptr : Option ℤ → Json → Option (Option ℤ)
set_int_ptr p null = some none
set_int_ptr p (num z) = some_of (int64_of z)
set_int_ptr p _ = none

-- A `json.RawMessage` takes the value as it stands, `null` too.
abbrev pub set_raw : Option Json → Json → Option (Option Json)
set_raw p v = some (some v)

-- The members of an object as a Go map: of equal keys the last counts.
unfoldable pub to_map : Map → Map
unfolding iam_catalog_admin.Json.get
to_map [] = []
to_map ((k, v) ∷ m) =
    let rest = to_map m in
    elim (iam_catalog_admin.Json.get k m) [ none ↦ (k, v) ∷ rest | some _ ↦ rest ]

-- The members of an object that is decoded into a map that is there already: each is put into it.
unfoldable pub put_all : Map → Map → Map
unfolding iam_catalog_admin.Json.put
put_all [] m = m
put_all ((k, v) ∷ ms) m = put_all ms (iam_catalog_admin.Json.put k v m)

-- The members of a document that is decoded into a struct; `null` decodes into no assignment.
abbrev pub struct_members : Json → Option Map
struct_members null = some []
struct_members (obj ms) = some (members ms)
struct_members _ = none
