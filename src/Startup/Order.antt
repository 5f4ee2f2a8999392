-- ===== src/Startup/Order.antt =====
-- The order of events of a run of main.
use iam_catalog_admin.Base.{
  String, Bool, true, false, Option, none, some, List, [], ◌∷◌, ◌≡◌, refl, any, if◌then◌else◌,
}
use iam_catalog_admin.Config.{required_env_errors, postgres_config_errors}
use iam_catalog_admin.Metrics.{Package, register}
use iam_catalog_admin.Startup.{
  Event, pool_opened, migration_begun, migrated, cache_opened, api_serving, metrics_serving,
  api_budget_begun, metrics_budget_begun, metrics_budget_cancelled, api_budget_cancelled,
  cache_closed, migration_cancelled, pool_closed, returned, panicked, Process, Host, app_env, dsn,
  migration_dsn, main, with_required_env, with_logger, with_metrics, with_postgres_config,
  with_pool, with_migrations,
}

abbrev pub is_serving : Event → Bool
is_serving (api_serving addr failure) = true
is_serving (metrics_serving addr failure) = true
is_serving _ = false

abbrev pub is_migrated : Event → Bool
is_migrated (migrated d) = true
is_migrated _ = false

-- No event of the second kind stands before the first of the first kind.
unfoldable pub comes_first : (Event → Bool) → (Event → Bool) → List Event → Bool
comes_first a b [] = true
comes_first a b (e ∷ es) =
    let later = comes_first a b es in if a e then true else if b e then false else later

-- The resources that are held for a time.
pub data Resource : Type 0 where
  pool migration_context cache api_budget metrics_budget : Resource

abbrev pub same_resource : Resource → Resource → Bool
same_resource pool pool = true
same_resource migration_context migration_context = true
same_resource cache cache = true
same_resource api_budget api_budget = true
same_resource metrics_budget metrics_budget = true
same_resource _ _ = false

pub data Use : Type 0 where
  opens closes : Resource → Use
  neither : Use

abbrev pub use_of : Event → Use
use_of (pool_opened d) = opens pool
use_of migration_begun = opens migration_context
use_of (cache_opened addr) = opens cache
use_of api_budget_begun = opens api_budget
use_of metrics_budget_begun = opens metrics_budget
use_of metrics_budget_cancelled = closes metrics_budget
use_of api_budget_cancelled = closes api_budget
use_of cache_closed = closes cache
use_of migration_cancelled = closes migration_context
use_of pool_closed = closes pool
use_of _ = neither

abbrev pop : Resource → List Resource → Option (List Resource)
pop r [] = none
pop r (q ∷ held) = if same_resource r q then some held else none

-- The resources held after an event; `none` if it closes one that was not the last opened.
abbrev pub apply : Use → List Resource → Option (List Resource)
apply (opens r) held = some (r ∷ held)
apply (closes r) held = pop r held
apply neither held = some held

-- The resources held after a trace.
unfoldable pub held_after : List Event → List Resource → Option (List Resource)
held_after [] held = some held
held_after (e ∷ es) held = elim (apply (use_of e) held) [
  | none ↦ none
  | some held' ↦ held_after es held'
]

-- A run that ended before anything was opened, or one with a pool, or a full one.
data Run (h : Host) (x : Process) : Type 0 where
  refused :
      (trace : List Event) (message : String)
      → any is_serving trace ≡ false
      → comes_first is_migrated is_serving trace ≡ true
      → held_after trace [] ≡ some []
      → x.trace ≡ trace
      → x.ending ≡ panicked message
      → Run h x
  complete :
      required_env_errors h.env (app_env h) ≡ []
      → h.new_logger (app_env h) ≡ none
      → postgres_config_errors (app_env h) (dsn h) h.config_warnings ≡ []
      → h.new_pool (dsn h) ≡ none
      → h.run_migrations (migration_dsn h) ≡ none
      → x ≡ with_migrations h none
      → Run h x

module _ (h : Host) where
  -- What each check, if it passes, adds to what is known of a complete run.
  with_migrations-Run :
      required_env_errors h.env (app_env h) ≡ []
      → h.new_logger (app_env h) ≡ none
      → postgres_config_errors (app_env h) (dsn h) h.config_warnings ≡ []
      → h.new_pool (dsn h) ≡ none
      → (o : Option String) → h.run_migrations (migration_dsn h) ≡ o
      → Run h (with_migrations h o)
  unfolding any comes_first held_after
  with_migrations-Run env logger config pool_ok none e = complete env logger config pool_ok e refl
  with_migrations-Run env logger config pool_ok (some m) e = refused _ _ refl refl refl refl refl

  with_pool-Run :
      required_env_errors h.env (app_env h) ≡ []
      → h.new_logger (app_env h) ≡ none
      → postgres_config_errors (app_env h) (dsn h) h.config_warnings ≡ []
      → (o : Option String) → h.new_pool (dsn h) ≡ o
      → Run h (with_pool h o)
  unfolding any comes_first held_after
  with_pool-Run env logger config none e =
      with_migrations-Run env logger config e (h.run_migrations (migration_dsn h)) refl
  with_pool-Run env logger config (some m) e = refused _ _ refl refl refl refl refl

  with_postgres_config-Run :
      required_env_errors h.env (app_env h) ≡ []
      → h.new_logger (app_env h) ≡ none
      → (missing : List String)
      → postgres_config_errors (app_env h) (dsn h) h.config_warnings ≡ missing
      → Run h (with_postgres_config h missing)
  unfolding any comes_first held_after
  with_postgres_config-Run env logger [] e = with_pool-Run env logger e (h.new_pool (dsn h)) refl
  with_postgres_config-Run env logger (m ∷ missing) e = refused _ _ refl refl refl refl refl

  with_metrics-Run :
      required_env_errors h.env (app_env h) ≡ []
      → h.new_logger (app_env h) ≡ none
      → (o : Option (Package h.prometheus)) → Run h (with_metrics h o)
  unfolding any comes_first held_after
  with_metrics-Run env logger none = refused _ _ refl refl refl refl refl
  with_metrics-Run env logger (some m) = with_postgres_config-Run env logger _ refl

  with_logger-Run :
      required_env_errors h.env (app_env h) ≡ []
      → (o : Option String) → h.new_logger (app_env h) ≡ o
      → Run h (with_logger h o)
  unfolding any comes_first held_after
  with_logger-Run env none e =
      with_metrics-Run env e (register h.prometheus h.metrics_labels h.metrics)
  with_logger-Run env (some m) e = refused _ _ refl refl refl refl refl

  with_required_env-Run :
      (missing : List String)
      → required_env_errors h.env (app_env h) ≡ missing
      → Run h (with_required_env h missing)
  unfolding any comes_first held_after
  with_required_env-Run [] e = with_logger-Run e (h.new_logger (app_env h)) refl
  with_required_env-Run (m ∷ missing) e = refused _ _ refl refl refl refl refl

  main-Run : Run h (main h)
  unfolding main
  main-Run = with_required_env-Run _ refl

-- What a run says in which a server starts.
abbrev IsChecked : Host → Process → Type 0
IsChecked h x =
    (required_env_errors h.env (app_env h) ≡ [])
    × (postgres_config_errors (app_env h) (dsn h) h.config_warnings ≡ [])
    × (h.new_pool (dsn h) ≡ none)
    × (h.run_migrations (migration_dsn h) ≡ none)
    × (x.ending ≡ returned)

module _ {h : Host} where
  Run-migrates_first : (x : Process) → Run h x → comes_first is_migrated is_serving x.trace ≡ true
  unfolding comes_first
  Run-migrates_first x (refused trace message idle first held e end) = rw e first
  Run-migrates_first x (complete env logger config pool_ok done e) = rw e refl

  Run-releases : (x : Process) → Run h x → held_after x.trace [] ≡ some []
  unfolding held_after
  Run-releases x (refused trace message idle first held e end) = rw e held
  Run-releases x (complete env logger config pool_ok done e) = rw e refl

  Run-IsChecked : (x : Process) → Run h x → any is_serving x.trace ≡ true → IsChecked h x
  Run-IsChecked x (refused trace message idle first held e end) serves =
      let quiet : any is_serving x.trace ≡ false = rw e idle in cc
  Run-IsChecked x (complete env logger config pool_ok done e) serves =
      (env, config, pool_ok, done, rw e refl)

module _ (h : Host) where
  -- In no run of main does a server start before the migrations are applied.
  pub main-migrates_first : comes_first is_migrated is_serving (main h).trace ≡ true
  main-migrates_first = Run-migrates_first (main h) (main-Run h)

  -- Every run of main, whether it returns or panics, closes the pool, the migration context, the
  -- cache and both shutdown budgets that it opened, each once and the last opened first.
  pub main-releases : held_after (main h).trace [] ≡ some []
  main-releases = Run-releases (main h) (main-Run h)

  -- If a server starts in a run of main, then the required variables and the Postgres settings
  -- passed their checks, the pool was opened, the migrations succeeded, and the run returns.
  pub main-serves_checked :
      any is_serving (main h).trace ≡ true
      → (required_env_errors h.env (app_env h) ≡ [])
        × (postgres_config_errors (app_env h) (dsn h) h.config_warnings ≡ [])
        × (h.new_pool (dsn h) ≡ none)
        × (h.run_migrations (migration_dsn h) ≡ none)
        × ((main h).ending ≡ returned)
  main-serves_checked serves = Run-IsChecked (main h) (main-Run h) serves

  -- If no check, no registration and no connection fails, then main starts its servers and returns
  -- after the signal.
  pub main-serves :
      (m : Package h.prometheus)
      → required_env_errors h.env (app_env h) ≡ []
      → h.new_logger (app_env h) ≡ none
      → register h.prometheus h.metrics_labels h.metrics ≡ some m
      → postgres_config_errors (app_env h) (dsn h) h.config_warnings ≡ []
      → h.new_pool (dsn h) ≡ none
      → h.run_migrations (migration_dsn h) ≡ none
      → (any is_serving (main h).trace ≡ true) × ((main h).ending ≡ returned)
  unfolding main any
  main-serves m env logger metrics config pool_ok done =
      let served : main h ≡ with_migrations h none =
        rw
          (
            env, logger, metrics, config, pool_ok, done, main, with_required_env, with_logger,
            with_metrics, with_postgres_config, with_pool,
          )
          refl in
      (rw served refl, rw served refl)
