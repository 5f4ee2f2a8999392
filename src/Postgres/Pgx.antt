-- ===== src/Postgres/Pgx.antt =====
-- What the repositories use of pgx and platform-pgcommon, and what they rely on there.
use iam_catalog_admin.Base.{ℕ, String, Bool, true, false, Option, none, some, ◌≡◌, ◌≢◌, ◌==◌, ℤ}
use iam_catalog_admin.Base.{List, [], ◌∷◌}
use iam_catalog_admin.Base.Text.{has_nul}
use iam_catalog_admin.Json.{Map}
use iam_catalog_admin.Postgres.Statement.{Arg, text, jsonb}
use iam_catalog_admin.Domain.Errors.{Error, pg, no_rows, is_domain, PgError}
use iam_catalog_admin.Exec.{Result, ok, err, Exec}
use iam_catalog_admin.World.{World}

pub record Pgx : Type 1 where
  -- The error that the connection gives to a transaction's n-th statement, if it fails there.
  pub wire : World → ℕ → Option Error
  -- pgcommon.RunInTx
  pub run_in_tx : (A : Type 0) → Exec World A → Exec World A
  -- The database's collation, for ORDER BY.
  pub collate : String → String → Bool
  -- The error for a number that is no 32-bit integer, where the column has type int.
  pub int4_error : ℤ → Option Error
  -- The server's error for a text that it cannot hold, one with U+0000 above all; for a jsonb value
  -- with such a text; and for a text that is too long for the index of departments' codes.
  pub text_error : String → Option PgError
  pub jsonb_error : Map → Option PgError
  pub index_error : String → Option PgError
  -- Equality of jsonb values.
  pub jsonb_eq : Map → Map → Bool
  -- uuid.New
  pub new_uuid : World → ℕ
  -- err.Error()
  pub error_text : Error → String
  pub is_pg_error : Error → Bool
  pub is_unique_violation : Error → Bool
  pub is_check_violation : Error → Bool
  pub constraint_name : Error → String
  pub is_connection_exception : Error → Bool
  pub is_insufficient_resources : Error → Bool

-- A transaction that is rolled back restores the tables, and not what is outside the database.
abbrev pub roll_back : World → World → World
roll_back before after = record after { departments = before.departments; plans = before.plans }

-- The ways in which RunInTx can end: the callback's result is committed; the callback fails, and its
-- error is passed on; the transaction cannot begin; it cannot be committed; it is committed, but the
-- acknowledgement is lost, so that the caller sees an error.
pub data TxRun {A : Type 0} (fn : Exec World A) (w : World) (r : Result A × World) : Type 0 where
  committed : (a : A) → (fn w).0 ≡ ok a → r ≡ fn w → TxRun fn w r
  rolled_back : (e : Error) → (fn w).0 ≡ err e → r ≡ (err e, roll_back w (fn w).1) → TxRun fn w r
  no_begin : (e : Error) → is_domain e ≡ false → r ≡ (err e, w) → TxRun fn w r
  no_commit : (e : Error) → is_domain e ≡ false → r ≡ (err e, roll_back w (fn w).1) → TxRun fn w r
  no_answer :
      (a : A) (e : Error)
      → (fn w).0 ≡ ok a
      → is_domain e ≡ false
      → r ≡ (err e, (fn w).1)
      → TxRun fn w r

-- The documented behaviour of RunInTx and of the error classifiers.
pub record IsPgx (p : Pgx) : Type 1 where
  pub tx_run : (A : Type 0) (fn : Exec World A) (w : World) → TxRun fn w (p.run_in_tx A fn w)
  pub wire_domain : (w : World) (n : ℕ) (e : Error) → p.wire w n ≡ some e → is_domain e ≡ false
  pub int4_domain : (z : ℤ) (e : Error) → p.int4_error z ≡ some e → is_domain e ≡ false
  pub int4_found : (z : ℤ) (e : Error) → p.int4_error z ≡ some e → e ≢ no_rows
  pub text_plain : (s : String) → has_nul s ≡ false → p.text_error s ≡ none
  pub jsonb_refl : (m : Map) → p.jsonb_eq m m ≡ true
  pub pg_error : (e : PgError) → p.is_pg_error (pg e) ≡ true
  pub unique_violation : (e : PgError) → p.is_unique_violation (pg e) ≡ (e.sqlstate == "23505")
  pub check_violation : (e : PgError) → p.is_check_violation (pg e) ≡ (e.sqlstate == "23514")
  pub constraint : (e : PgError) → p.constraint_name (pg e) ≡ e.constraint

-- A transaction's n-th statement, unless the connection fails at it.
abbrev pub statement : Pgx → {A : Type 0} → ℕ → Exec World A → Exec World A
statement p n m w = elim (p.wire w n) [ some e ↦ (err e, w) | none ↦ m w ]

-- The server's error for the first argument that it cannot hold.
abbrev pub input_error : Pgx → List Arg → Option PgError
input_error p [] = none
input_error p (text s ∷ args) = elim (p.text_error s) [
  | some x ↦ some x
  | none ↦ input_error p args
]
input_error p (jsonb m ∷ args) = elim (p.jsonb_error m) [
  | some x ↦ some x
  | none ↦ input_error p args
]
input_error p (v ∷ args) = input_error p args

-- A statement with arguments that the server reads before it looks at a row.
abbrev pub with_input : {A : Type 0} → Option PgError → Exec World A → Exec World A
with_input (some x) m w = (err (pg x), w)
with_input none m w = m w
