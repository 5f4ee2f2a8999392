-- ===== src/Postgres/Statement.antt =====
-- The UPDATE statements that the repositories build: a SET list of columns with the placeholders of
-- their values, and the arguments, of which $1 is the key and $2 the expected record version.
use iam_catalog_admin.Base.{
  ℕ, zero, suc, String, Bool, Option, none, some, ℤ, List, [], ◌∷◌, ◌++◌, length, any, ◌==◌,
}
use iam_catalog_admin.Json.{Map}

pub data Arg : Type 0 where
  uuid : ℕ → Arg
  text : String → Arg
  bool : Bool → Arg
  int : ℤ → Arg
  nullable_int : Option ℤ → Arg
  jsonb : Map → Arg

pub record Update : Type 0 where
  pub sets : List (String × ℕ)
  pub args : List Arg

-- args = append(args, v); the column's placeholder is $len(args).
unfoldable pub set_column : String → Arg → Update → Update
set_column column v u =
    let args = u.args ++ v ∷ [] in
    record { sets = u.sets ++ (column, length args) ∷ []; args = args }

-- The value of the placeholder $n.
unfoldable pub placeholder : List Arg → ℕ → Option Arg
placeholder [] n = none
placeholder (v ∷ vs) zero = none
placeholder (v ∷ vs) (suc zero) = some v
placeholder (v ∷ vs) (suc (suc n)) = placeholder vs (suc n)

-- BEFORE UPDATE OF column
unfoldable pub mentions : String → Update → Bool
mentions column u = any (λ s. s.0 == column) u.sets
