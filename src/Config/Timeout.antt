-- ===== src/Config/Timeout.antt =====
-- What ApplyStatementTimeout of db.go makes of a DSN.
use iam_catalog_admin.Base.{
  ℕ, String, Bool, true, false, not, ◌&&◌, ◌||◌, Option, none, some, ◌≡◌, refl, inl, inr, arith,
  Bool-cases, ltb, ◌/◌, if◌then◌else◌,
}
use Prim.Native.String.{◌++◌, [], ◌∷◌}
use text.Mathlib.Text.{starts_with}
use text.Mathlib.TextLemmas.{nil-append, cons-append, append_assoc, append-nil}
use text.Mathlib.TextPositions.{starts_with-append}
use iam_catalog_admin.Base.Text.{is_empty, contains}
use iam_catalog_admin.Config.Dsn.{Library, apply_statement_timeout, with_timeout, option_text}

contains-starts_with : (s t : String) → starts_with s t ≡ true → contains s t ≡ true
unfolding contains
contains-starts_with [] t h = h
contains-starts_with (c ∷ s) t h = rw h refl

contains-append : (a b t : String) → contains b t ≡ true → contains (a ++ b) t ≡ true
unfolding contains
contains-append [] b t h = rw (nil-append b) h
contains-append (c ∷ a) b t h =
    rw (cons-append c a b, contains-append a b t h) (or_true (starts_with (c ∷ (a ++ b)) t))
  where
    or_true : (x : Bool) → x || true ≡ true
    or_true true = refl
    or_true false = refl

starts_with-itself : (s : String) → starts_with s s ≡ true
starts_with-itself s = rw (append-nil s) at (starts_with-append s [])

abbrev option_name : String
option_name = "statement_timeout"

contains-option :
    (n : String) → contains ("options=-c%20statement_timeout%3D" ++ n) option_name ≡ true
contains-option n =
    rw (append_assoc "options=-c%20" "statement_timeout%3D" n, append_assoc option_name "%3D" n)
      (contains-append "options=-c%20" (option_name ++ ("%3D" ++ n)) option_name (
        contains-starts_with (option_name ++ ("%3D" ++ n)) option_name
          (starts_with-append option_name ("%3D" ++ n))))

-- A timeout that is longer than none.
abbrev pub is_set : Option ℕ → Bool
is_set none = false
is_set (some d) = ltb 0 d

-- The DSN is the start of the result, which is the same when the timeout is applied once more, and
-- mentions a statement timeout if the DSN does or gets one.
abbrev pub IsTimed : Bool → String → String → String → Type 0
IsTimed sets dsn once twice =
    (twice ≡ once)
    × (starts_with once dsn ≡ true)
    × (contains once option_name ≡ (contains dsn option_name || sets))

or_false : (b : Bool) → b ≡ b || false
or_false true = refl
or_false false = refl

module _ (option : String → String)
    (mentioned : (dsn : String) → contains (dsn ++ option dsn) option_name ≡ true) where
  abbrev extend : Bool → String → String
  extend sets dsn =
      if sets then if contains dsn option_name then dsn else dsn ++ option dsn else dsn

  extend-IsTimed :
      (sets : Bool) (dsn : String)
      → IsTimed sets dsn (extend sets dsn) (extend sets (extend sets dsn))
  extend-IsTimed false dsn = (refl, starts_with-itself dsn, or_false (contains dsn option_name))
  extend-IsTimed true dsn = elim (Bool-cases (contains dsn option_name)) [
    | inl has ↦ rw (has, has) (refl, starts_with-itself dsn, refl)
    | inr lacks ↦ rw (lacks, mentioned dsn) (refl, starts_with-append dsn (option dsn), refl)
  ]

module _ (l : Library) where
  mentioned : (d : ℕ) (dsn : String) → contains (dsn ++ option_text l dsn d) option_name ≡ true
  mentioned d dsn = contains-append dsn (option_text l dsn d) option_name (
      contains-append (if contains dsn "?" then "&" else "?")
        ("options=-c%20statement_timeout%3D" ++ l.decimal (d / 1000000)) option_name
        (contains-option (l.decimal (d / 1000000))))

  with_timeout-IsTimed :
      (o : Option ℕ) (dsn : String)
      → IsTimed (is_set o) dsn (with_timeout l dsn o) (with_timeout l (with_timeout l dsn o) o)
  with_timeout-IsTimed none dsn =
      (refl, starts_with-itself dsn, or_false (contains dsn option_name))
  with_timeout-IsTimed (some d) dsn =
      extend-IsTimed (λ x. option_text l x d) (mentioned d) (ltb 0 d) dsn

  same_dsn :
      (timeout dsn : String)
      → is_empty dsn || is_empty timeout ≡ true
      → apply_statement_timeout l timeout dsn ≡ dsn
  unfolding apply_statement_timeout
  same_dsn timeout dsn h = ground (arith, h)

  timed_dsn :
      (timeout dsn : String)
      → is_empty dsn || is_empty timeout ≡ false
      → apply_statement_timeout l timeout dsn ≡ with_timeout l dsn (l.parse_duration timeout)
  unfolding apply_statement_timeout
  timed_dsn timeout dsn h = ground (arith, h)

  given-append : (a b : String) → is_empty a ≡ false → is_empty (a ++ b) ≡ false
  given-append [] b h = cc
  given-append (c ∷ a) b h = rw (cons-append c a b) refl

  with_timeout-given :
      (o : Option ℕ) (dsn : String) → is_empty dsn ≡ false → is_empty (with_timeout l dsn o) ≡ false
  with_timeout-given none dsn h = h
  with_timeout-given (some d) dsn h = elim (Bool-cases (ltb 0 d)) [
    | inr zero ↦ rw zero h
    | inl long ↦ elim (Bool-cases (contains dsn option_name)) [
      | inl has ↦ rw (long, has) h
      | inr lacks ↦ rw (long, lacks) (given-append dsn (option_text l dsn d) h)
    ]
  ]

  -- Applying PG_STATEMENT_TIMEOUT to a DSN that has it already changes nothing; the DSN stays as the
  -- start of the result; and the result mentions a statement timeout exactly if the DSN did, or it is
  -- not empty and the variable is a positive duration.
  pub apply_statement_timeout-IsTimed :
      (timeout dsn : String)
      → let once = apply_statement_timeout l timeout dsn in
        IsTimed
          (not (is_empty dsn) && not (is_empty timeout) && is_set (l.parse_duration timeout))
          dsn
          once
          (apply_statement_timeout l timeout once)
  unfolding apply_statement_timeout
  apply_statement_timeout-IsTimed timeout dsn =
      elim (Bool-cases (is_empty dsn || is_empty timeout)) [
        | inl off ↦
            rw (same_dsn timeout dsn off, same_dsn timeout dsn off)
              (refl, starts_with-itself dsn, ground (arith, off))
        | inr on ↦
            let o = l.parse_duration timeout in
            let given : is_empty dsn ≡ false = ground (arith, on) in
            let set : is_empty timeout ≡ false = ground (arith, on) in
            let again =
              timed_dsn timeout (with_timeout l dsn o) (rw (with_timeout-given o dsn given) set) in
            rw (timed_dsn timeout dsn on, again, given, set) (with_timeout-IsTimed o dsn)
      ]
