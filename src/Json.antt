-- ===== src/Json.antt =====
-- JSON documents as trees, and the part of encoding/json that the program relies on: a decoder
-- reads an object's members in their order and assigns each to the field whose name it matches.
-- A number is an integer literal or any other literal, kept as its text. Documents with a literal
-- beyond the range of float64, which encoding/json refuses for an `any`, are left out; the rounding
-- of literals and the text of a document are not modelled.
pub mod Decode
pub mod Maps
use iam_catalog_admin.Base.{String, Bool, true, false, List, [], ◌∷◌, Option, none, some, ℤ}
use iam_catalog_admin.Base.{◌==◌, if◌then◌else◌}

mutual
  pub data Json : Type 0 where
    null : Json
    bool : Bool → Json
    num : ℤ → Json
    frac : String → Json
    str : String → Json
    arr : Items → Json
    obj : Members → Json

  pub data Items : Type 0 where
    nil : Items
    cons : Json → Items → Items

  pub data Members : Type 0 where
    end : Members
    member : String → Json → Members → Members

-- A `map[string]any` as the list of its entries, in the order that a `range` visits them.
abbrev pub Map : Type 0
Map = List (String × Json)

abbrev pub items : Items → List Json
items nil = []
items (cons v vs) = v ∷ items vs

abbrev pub members : Members → Map
members end = []
members (member k v ms) = (k, v) ∷ members ms

abbrev pub of_items : List Json → Items
of_items [] = nil
of_items (v ∷ vs) = cons v (of_items vs)

abbrev pub of_members : Map → Members
of_members [] = end
of_members ((k, v) ∷ ms) = member k v (of_members ms)

-- m[k] in Go, with the flag whether it is present.
unfoldable pub get {ℓ} : {A : Type ℓ} → String → List (String × A) → Option A
get k [] = none
get k ((j, v) ∷ m) = if j == k then some v else get k m

-- m[k] = v in Go.
unfoldable pub put {ℓ} : {A : Type ℓ} → String → A → List (String × A) → List (String × A)
put k v [] = (k, v) ∷ []
put k v ((j, w) ∷ m) = let rest = put k v m in if j == k then (k, v) ∷ m else (j, w) ∷ rest

-- delete(m, k) in Go.
unfoldable pub remove {ℓ} : {A : Type ℓ} → String → List (String × A) → List (String × A)
remove k [] = []
remove k ((j, w) ∷ m) = let rest = remove k m in if j == k then rest else (j, w) ∷ rest
