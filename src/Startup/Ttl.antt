-- ===== src/Startup/Ttl.antt =====
-- The lifetime of cache entries that main gives to both services.
use iam_catalog_admin.Base.{
  ℕ, zero, suc, ◌*◌, ◌≤◌, ◌<◌, String, true, false, ◌∙◌, Option, none, some, ℤ, pos, negsuc, ◌≡◌,
  refl, inl, inr, arith, Bool-cases, fits_int64, if◌then◌else◌,
}
use iam_catalog_admin.Config.{Env, env_or, seconds, catalog_ttl}
use iam_catalog_admin.Postgres.Pgx.{Pgx}
use iam_catalog_admin.Service.Department as Departments
use iam_catalog_admin.Service.Department.{is_pos}
use iam_catalog_admin.Service.Plan as Plans
use iam_catalog_admin.Valkey.{Client}
use iam_catalog_admin.Startup.{wired}

-- The default of both services, 60 s.
abbrev default_ttl : ℤ
default_ttl = pos 60000000000

-- The setting in nanoseconds if it is a positive number of seconds, and the default otherwise.
abbrev pub expected_ttl : Option ℤ → ℤ
expected_ttl none = default_ttl
expected_ttl (some (pos zero)) = default_ttl
expected_ttl (some (pos (suc n))) = pos (suc n * 1000000000)
expected_ttl (some (negsuc n)) = default_ttl

-- A number of seconds that a time.Duration can hold.
abbrev pub FitsDuration : Option ℤ → Type 0
FitsDuration none = Unit
FitsDuration (some (pos n)) = n ≤ 9223372036
FitsDuration (some (negsuc n)) = n < 9223372036

-- The duration that main makes of the setting.
abbrev duration : Option ℤ → ℤ
duration none = seconds (pos 60)
duration (some n) = seconds n

-- What WithCacheTTL leaves of a duration.
abbrev or_default_ttl : ℤ → ℤ
or_default_ttl d = if is_pos d then d else default_ttl

seconds-pos : (n : ℕ) → n ≤ 9223372036 → seconds (pos n) ≡ pos (n * 1000000000)
unfolding seconds
seconds-pos n h = ground arith

seconds-negsuc : (n : ℕ) → n < 9223372036 → is_pos (seconds (negsuc n)) ≡ false
unfolding seconds
seconds-negsuc n h = ground arith

seconds-fits : (z : ℤ) → fits_int64 (seconds z) ≡ true
unfolding seconds
seconds-fits (pos n) = ground arith
seconds-fits (negsuc n) = ground arith

or_default_ttl-expected :
    (o : Option ℤ) → FitsDuration o → or_default_ttl (duration o) ≡ expected_ttl o
or_default_ttl-expected none h = rw (seconds-pos 60 (omega arith)) refl
or_default_ttl-expected (some (pos zero)) h = rw (seconds-pos 0 (omega arith)) refl
or_default_ttl-expected (some (pos (suc n))) h = rw (seconds-pos (suc n) h) (ground arith)
or_default_ttl-expected (some (negsuc n)) h = rw (seconds-negsuc n h, or_default_ttl) refl

duration-fits : (o : Option ℤ) → fits_int64 (duration o) ≡ true
duration-fits none = seconds-fits (pos 60)
duration-fits (some z) = seconds-fits z

-- A lifetime that is set: positive, and an int64.
pub record IsLifetime (ttl : ℤ) : Type 0 where
  pub positive : is_pos ttl ≡ true
  pub fits : fits_int64 ttl ≡ true

or_default_ttl-IsLifetime : (d : ℤ) → fits_int64 d ≡ true → IsLifetime (or_default_ttl d)
or_default_ttl-IsLifetime d h = elim (Bool-cases (is_pos d)) [
  | inl given ↦ rw (given, or_default_ttl) (record { positive = given; fits = h })
  | inr ignored ↦ rw (ignored, or_default_ttl) (record { positive = refl; fits = refl })
]

module _ (p : Pgx) (client : Client) (atoi : String → Option ℤ) (env : Env) where
  abbrev setting : Option ℤ
  setting = atoi (env_or env "CATALOG_TTL_SECONDS" "60")

  catalog_ttl-duration : catalog_ttl atoi env ≡ duration setting
  unfolding catalog_ttl
  catalog_ttl-duration = refl

  departments_ttl :
      (wired p client atoi env).departments.cache_ttl ≡ or_default_ttl (catalog_ttl atoi env)
  unfolding wired Departments.with_cache_ttl Departments.new_department_service
  departments_ttl = elim (Bool-cases (is_pos (catalog_ttl atoi env))) [
    | inl given ↦ rw given refl
    | inr ignored ↦ rw ignored refl
  ]

  plans_ttl : (wired p client atoi env).plans.cache_ttl ≡ or_default_ttl (catalog_ttl atoi env)
  unfolding wired Plans.with_cache_ttl Plans.new_plan_service
  plans_ttl = elim (Bool-cases (is_pos (catalog_ttl atoi env))) [
    | inl given ↦ rw given refl
    | inr ignored ↦ rw ignored refl
  ]

  -- Whatever CATALOG_TTL_SECONDS is, out of range included, the lifetime that both services have for
  -- cache entries is positive and an int64.
  pub wired-IsLifetime :
      IsLifetime (wired p client atoi env).departments.cache_ttl
      × IsLifetime (wired p client atoi env).plans.cache_ttl
  wired-IsLifetime =
      let fits : fits_int64 (catalog_ttl atoi env) ≡ true =
        rw catalog_ttl-duration (duration-fits setting) in
      let set = or_default_ttl-IsLifetime (catalog_ttl atoi env) fits in
      (rw departments_ttl set, rw plans_ttl set)

  -- If CATALOG_TTL_SECONDS, 60 if it is not set, is no number or one of at most 9223372036 seconds
  -- either way, then both services give cache entries that many seconds if it is a positive number,
  -- and 60 seconds otherwise.
  pub wired-expected_ttl :
      FitsDuration (atoi (env_or env "CATALOG_TTL_SECONDS" "60"))
      → ((wired p client atoi env).departments.cache_ttl
          ≡ expected_ttl (atoi (env_or env "CATALOG_TTL_SECONDS" "60")))
        × ((wired p client atoi env).plans.cache_ttl
            ≡ expected_ttl (atoi (env_or env "CATALOG_TTL_SECONDS" "60")))
  wired-expected_ttl h =
      let same : or_default_ttl (catalog_ttl atoi env) ≡ expected_ttl setting =
        rw catalog_ttl-duration (or_default_ttl-expected setting h) in
      (departments_ttl ∙ same, plans_ttl ∙ same)
