-- ===== src/Postgres/Logger.antt =====
-- logger.go: the service's logger as the one that platform-pgcommon takes. `S` is what the calls of
-- the logger change, and `V` the values of fields.
mod Tests
use iam_catalog_admin.Base.{
  String, Bool, true, false, Option, none, some, List, [], ◌∷◌, ◌≡◌, ◌↔◌, refl, ◌∙◌, sym, inl, inr,
  arith, Bool-cases, ◌==◌, eq_iff, if◌then◌else◌,
}
use iam_catalog_admin.Json.{get, put}
use iam_catalog_admin.Json.Maps.{get-put, get-put_other}

module _ (S V : Type 0) where
  -- A Go map; `none` is the nil map.
  abbrev pub Fields : Type 0
  Fields = Option (List (String × V))

  pub record Logger : Type 0 where
    pub debug : String → Fields → S → S
    pub info : String → Fields → S → S
    pub warn : String → Fields → S → S
    pub error : String → Fields → S → S

  -- domain.Logger: the fields are variadic.
  pub record PoolLogger : Type 0 where
    pub debug : String → List (String × V) → S → S
    pub info : String → List (String × V) → S → S
    pub warn : String → List (String × V) → S → S
    pub error : String → List (String × V) → S → S

module _ {V : Type 0} where
  -- for _, f := range fields { m[f.Key] = f.Value }
  unfoldable pub collect : List (String × V) → List (String × V) → List (String × V)
  collect [] m = m
  collect ((key, value) ∷ fields) m = collect fields (put key value m)

  unfoldable pub fields_to_map : List (String × V) → Option (List (String × V))
  unfolding collect put
  fields_to_map [] = none
  fields_to_map (f ∷ fields) = some (collect (f ∷ fields) [])

unfoldable pub new_domain_logger : {S V : Type 0} → Logger S V → PoolLogger S V
unfolding fields_to_map
new_domain_logger l = record {
  debug = λ msg fields. l.debug msg (fields_to_map fields);
  info = λ msg fields. l.info msg (fields_to_map fields);
  warn = λ msg fields. l.warn msg (fields_to_map fields);
  error = λ msg fields. l.error msg (fields_to_map fields);
}

module _ {V : Type 0} where
  abbrev pub else_none : Option V → Option V → Option V
  else_none (some v) o = some v
  else_none none o = o

  -- The value of the last field with a key.
  abbrev pub last_value : String → List (String × V) → Option V
  last_value key [] = none
  last_value key ((j, value) ∷ fields) =
      else_none (last_value key fields) (if j == key then some value else none)

  -- m[key], which no key of the nil map has.
  abbrev pub field_of : String → Option (List (String × V)) → Option V
  field_of key none = none
  field_of key (some m) = get key m

  collect-last :
      (key : String) (fields m : List (String × V))
      → get key (collect fields m) ≡ else_none (last_value key fields) (get key m)
  unfolding collect
  collect-last key [] m = refl
  collect-last key ((j, value) ∷ fields) m =
      collect-last key fields (put j value m) ∙ written (last_value key fields)
    where
      written :
          (o : Option V)
          → else_none o (get key (put j value m))
            ≡ else_none (else_none o (if j == key then some value else none)) (get key m)
      written (some v) = refl
      written none = elim (Bool-cases (j == key)) [
        | inl same ↦ rw (same, (eq_iff j key).0 same, get-put key value m) refl
        | inr other ↦ rw (other, get-put_other j key value m other) refl
      ]

  else_none-none : (o : Option V) → else_none o none ≡ o
  else_none-none none = refl
  else_none-none (some v) = refl

  -- The map that the logger is given has, for each key, the value of the last field with it, and no
  -- other keys; it is nil exactly if there are no fields.
  pub field_of-fields_to_map :
      (fields : List (String × V))
      → ((key : String) → field_of key (fields_to_map fields) ≡ last_value key fields)
        × ((fields_to_map fields ≡ none) ↔ (fields ≡ []))
  unfolding fields_to_map get
  field_of-fields_to_map [] = (λ key. refl, (λ h. refl, λ h. refl))
  field_of-fields_to_map (f ∷ fields) = (
    λ key. collect-last key (f ∷ fields) [] ∙ else_none-none (last_value key (f ∷ fields)),
    (λ h. cc, λ h. cc),
  )
