-- ===== src/Json/Maps.antt =====
-- Laws of the maps, and of documents that are written and read back.
use iam_catalog_admin.Base.{
  String, true, false, some, List, [], ◌∷◌, ◌≡◌, refl, ap, inl, inr, arith, ◌==◌, eq_iff, eq_refl,
  is_some, Bool-cases, Option-cases,
}
use iam_catalog_admin.Json.{Json, Map, get, put, items, of_items, members, of_members}
use iam_catalog_admin.Json.Decode.{to_map}

module _ {A : Type 0} where
  pub get-put : (k : String) (v : A) (m : List (String × A)) → get k (put k v m) ≡ some v
  unfolding get put
  get-put k v [] = rw (eq_refl k) refl
  get-put k v ((j, w) ∷ m) = elim (Bool-cases (j == k)) [
    | inl same ↦ rw (same, eq_refl k) refl
    | inr other ↦ rw (other, other) (get-put k v m)
  ]

  pub get-put_other :
      (j k : String) (v : A) (m : List (String × A))
      → (j == k) ≡ false
      → get k (put j v m) ≡ get k m
  unfolding get put
  get-put_other j k v [] h = rw h refl
  get-put_other j k v ((i, w) ∷ m) h = elim (Bool-cases (i == j)) [
    | inl same ↦ ground (arith, h, eq_iff i j, same)
    | inr other ↦ elim (Bool-cases (i == k)) [
      | inl found ↦ rw (other, found) refl
      | inr later ↦ rw (other, later) (get-put_other j k v m h)
    ]
  ]

  -- An entry stays when another is written.
  pub put-present :
      (j k : String) (v : A) (m : List (String × A))
      → is_some (get k m) ≡ true
      → is_some (get k (put j v m)) ≡ true
  put-present j k v m h = elim (Bool-cases (j == k)) [
    | inl same ↦ rw ((eq_iff j k).0 same, get-put k v m) refl
    | inr other ↦ rw (get-put_other j k v m other) h
  ]

pub items-of_items : (vs : List Json) → items (of_items vs) ≡ vs
items-of_items [] = refl
items-of_items (v ∷ vs) = ap (λ (l : List Json). v ∷ l) (items-of_items vs)

pub members-of_members : (m : Map) → members (of_members m) ≡ m
members-of_members [] = refl
members-of_members ((k, v) ∷ m) = ap (λ (l : Map). (k, v) ∷ l) (members-of_members m)

-- A key of an object is a key of the map that it is decoded into.
pub to_map-present :
    (k : String) (m : Map) → is_some (get k m) ≡ true → is_some (get k (to_map m)) ≡ true
unfolding get to_map
to_map-present k [] h = h
to_map-present k ((j, v) ∷ m) h = elim (Option-cases (get j m)) [
  | inl last ↦ elim (Bool-cases (j == k)) [
    | inl same ↦ rw (last, same, to_map) refl
    | inr other ↦ rw (last, other, to_map) (to_map-present k m (rw other at h))
  ]
  | inr (w, again) ↦ elim (Bool-cases (j == k)) [
    | inl same ↦
        let seen : is_some (get j m) ≡ true = rw again refl in
        rw (again, to_map) (to_map-present k m (rw ((eq_iff j k).0 same) at seen))
    | inr other ↦ rw (again, to_map) (to_map-present k m (rw other at h))
  ]
]
