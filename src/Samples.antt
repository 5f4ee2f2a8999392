-- ===== src/Samples.antt =====
-- Instances of the interfaces that the program is given, and data, for the tests.
use Prim.Native.String as NativeString
use text.Mathlib.Text.{starts_with}
use iam_catalog_admin.Http.Outcomes.{IsSqlstate, is_server}
use iam_catalog_admin.Base.{
  ℕ, zero, suc, String, Bool, true, false, Option, none, some, ℤ, pos, negsuc, List, [], ◌∷◌, ◌≡◌,
  refl, sym, arith, ◌==◌, ◌≢◌, eq_iff, ltb, if◌then◌else◌,
}
use Prim.Native.String.{[], ◌∷◌}
use iam_catalog_admin.Base.Text.{has_nul, is_empty}
use iam_catalog_admin.Json.{get, put}
use iam_catalog_admin.Domain.{Department, Plan}
use iam_catalog_admin.Domain.Errors.{
  domain, redis_nil, canceled, deadline_exceeded, max_bytes, PgError, Error, pg, other, no_rows,
  is_domain,
}
use iam_catalog_admin.Exec.{Result, ok, err, Exec}
use iam_catalog_admin.World.{World}
use iam_catalog_admin.Port.{Cache}
use iam_catalog_admin.Postgres.Pgx.{Pgx, IsPgx, TxRun, committed, rolled_back, roll_back}
use iam_catalog_admin.Postgres.Undisturbed.{IsUndisturbed, ended}
use iam_catalog_admin.Postgres.Schema.Invariant.{IsCatalog}
use iam_catalog_admin.Postgres.PlanSchema.{is_tenant_plan, is_branding_level, plan_checks}
use iam_catalog_admin.Postgres.PlanSchema.Invariant.{IsPlanTable}
use iam_catalog_admin.Service.Department.Cached.{IsCache}
use iam_catalog_admin.Postgres.Department.{department_repository}
use iam_catalog_admin.Postgres.Plan.{plan_repository}
use iam_catalog_admin.Service.Codec.{Codec, IsCodec}
use iam_catalog_admin.Service.Department.{DepartmentService}
use iam_catalog_admin.Http.Context.{PlatformContext, Request, no_body}
use iam_catalog_admin.Http.Bind.{Gin, accepted}
use iam_catalog_admin.Http.Router.{Services}

-- A transaction that begins and commits.
abbrev end_tx : {A : Type 0} → World → Result A × World → Result A × World
end_tx before (ok a, w) = (ok a, w)
end_tx before (err e, w) = (err e, roll_back before w)

abbrev sqlstate_is : String → Error → Bool
sqlstate_is s (pg e) = e.sqlstate == s
sqlstate_is s e = false

abbrev is_pg : Error → Bool
is_pg (pg e) = true
is_pg e = false

abbrev class_is : String → Error → Bool
class_is s (pg e) = starts_with e.sqlstate s
class_is s e = false

abbrev error_text : Error → String
error_text (pg e) =
    NativeString.◌++◌ e.message (NativeString.◌++◌ " (SQLSTATE " (NativeString.◌++◌ e.sqlstate ")"))
error_text e = ""

abbrev constraint_of : Error → String
constraint_of (pg e) = e.constraint
constraint_of e = ""

abbrev int4 : ℤ → Option Error
int4 (pos n) = if ltb n 2147483648 then none else some (other "greater than maximum value for int4")
int4 (negsuc n) = if ltb n 2147483648 then none else some (other "less than minimum value for int4")

abbrev no_text : String → Option PgError
no_text s =
    if has_nul s
    then some (record { sqlstate = "22021"; constraint = ""; message = "invalid byte sequence" })
    else none

-- A connection that never fails.
abbrev pub pgx : Pgx
pgx = record {
  wire = λ w n. none;
  run_in_tx = λ A fn w. end_tx w (fn w);
  collate = λ a b. true;
  int4_error = int4;
  text_error = no_text;
  jsonb_error = λ m. none;
  index_error = λ s. none;
  jsonb_eq = λ a b. true;
  new_uuid = λ w. w.now;
  error_text = error_text;
  is_pg_error = is_pg;
  is_unique_violation = sqlstate_is "23505";
  is_check_violation = sqlstate_is "23514";
  constraint_name = constraint_of;
  is_connection_exception = class_is "08";
  is_insufficient_resources = class_is "53";
}

run : (A : Type 0) (fn : Exec World A) (w : World) → TxRun fn w (end_tx w (fn w))
run A fn w = go (fn w) refl
  where
    go : (x : Result A × World) → fn w ≡ x → TxRun fn w (end_tx w x)
    go (ok a, w') e = committed a (λ i. (e i).0) (λ i. (sym e) i)
    go (err x, w') e = rolled_back x (λ i. (e i).0) (λ i. (err x, roll_back w ((sym e) i).1))

int4-domain : (z : ℤ) (e : Error) → int4 z ≡ some e → is_domain e ≡ false
int4-domain (pos n) e h = ground arith
int4-domain (negsuc n) e h = ground arith

int4-found : (z : ℤ) (e : Error) → int4 z ≡ some e → e ≢ no_rows
int4-found (pos n) e h = ground arith
int4-found (negsuc n) e h = ground arith

pub pgx-IsPgx : IsPgx pgx
pgx-IsPgx = record {
  tx_run = run;
  wire_domain = λ w n e h. cc;
  int4_domain = int4-domain;
  int4_found = int4-found;
  text_plain = λ s h. rw (h, no_text) refl;
  jsonb_refl = λ m. refl;
  pg_error = λ e. refl;
  unique_violation = λ e. refl;
  check_violation = λ e. refl;
  constraint = λ e. refl;
}

is_pg-server : (e : Error) → is_pg e ≡ is_server e
is_pg-server (pg x) = refl
is_pg-server (domain x) = refl
is_pg-server no_rows = refl
is_pg-server redis_nil = refl
is_pg-server canceled = refl
is_pg-server deadline_exceeded = refl
is_pg-server max_bytes = refl
is_pg-server (other x) = refl

class_is-server : (s : String) (e : Error) → is_server e ≡ false → class_is s e ≡ false
class_is-server s (pg x) h = cc
class_is-server s (domain x) h = refl
class_is-server s no_rows h = refl
class_is-server s redis_nil h = refl
class_is-server s canceled h = refl
class_is-server s deadline_exceeded h = refl
class_is-server s max_bytes h = refl
class_is-server s (other x) h = refl

pub pgx-IsSqlstate : IsSqlstate pgx
pgx-IsSqlstate = record {
  server = is_pg-server;
  connection = λ e. refl;
  resources = λ e. refl;
  connection_only = class_is-server "08";
  resources_only = class_is-server "53";
}

pub pgx-IsUndisturbed : IsUndisturbed pgx
pgx-IsUndisturbed = record { sent = λ w n. refl; ends = λ A fn w. go w (fn w) }
  where
    go : {A : Type 0} (w : World) (x : Result A × World) → end_tx w x ≡ ended w x
    go w (ok a, w') = refl
    go w (err e, w') = refl

abbrev pub department : ℕ → String → String → Bool → Department
department id code name is_system = record {
  id = id;
  code = code;
  name = name;
  is_system = is_system;
  is_active = true;
  record_version = pos 1;
  created_at = 5;
  updated_at = 5;
}

abbrev pub finance : Department
finance = department 7 "FINANCE" "Finance" true

abbrev pub support : Department
support = department 8 "SUPPORT" "Support" false

abbrev pub starter : Plan
starter = record {
  code = "starter";
  display_name = "Starter";
  workflow_template_limit = some (pos 5);
  tender_limit = some (pos 10);
  trial_duration_days = pos 30;
  sso_enabled = false;
  custom_branding = "none";
  feature_set = [];
  record_version = pos 1;
  created_at = 5;
  updated_at = 5;
}

abbrev pub world : World
world = record {
  departments = finance ∷ support ∷ [];
  plans = starter ∷ [];
  cache = [];
  metrics = [];
  now = 9;
}

-- A cache that always works, and one that is down.
abbrev pub working : Cache
working = record {
  get = λ k w. (ok (get k w.cache), w);
  set = λ k b ttl w. (ok tt, record w { cache = put k b w.cache });
  delete = λ ks w. (ok tt, record w { cache = [] });
  health = λ w. (ok tt, w);
}

-- The texts of identifiers and times, in unary.
abbrev pub unary : ℕ → String
unary zero = []
unary (suc n) = "1" ∷ unary n

abbrev pub of_unary : String → ℕ
of_unary [] = 0
of_unary (c ∷ s) = suc (of_unary s)

abbrev pub codec : Codec
codec = record {
  uuid_text = unary;
  parse_uuid = λ s. some (of_unary s);
  time_text = unary;
  parse_time = λ s. some (of_unary s);
  rfc3339 = unary;
}

of_unary-unary : (n : ℕ) → some (of_unary (unary n)) ≡ some n
of_unary-unary zero = refl
of_unary-unary (suc n) = ground (arith, of_unary-unary n)

pub codec-IsCodec : IsCodec codec
codec-IsCodec = record {
  parse_uuid-uuid_text = of_unary-unary;
  parse_time-time_text = of_unary-unary;
}

-- A caller whom the gateway has authenticated, with the given roles.
abbrev pub caller : List String → PlatformContext
caller roles = record { user_id = "1"; tenant_id = "11"; roles = roles; client_ip = "10.0.0.1" }

abbrev pub gin : List String → Gin
gin roles = record {
  protect = λ r. accepted (some (caller roles));
  required = λ s. if is_empty s then false else true;
}

-- A request without a body to a route template.
abbrev pub request : String → String → String → Request
request method route id = record {
  method = method;
  route = route;
  path = route;
  id = id;
  active_only = "";
  content_length = pos 0;
  content_type = "";
  body = no_body;
  user_agent = "test";
  authorization = "";
  trace_id = "";
  context_request_id = "";
  header_request_id = "";
  response_request_id = "";
}

abbrev pub departments_service : DepartmentService
departments_service = record {
  repo = department_repository pgx;
  cache = some working;
  cache_ttl = pos 60000000000;
}

abbrev pub services : Services
services = record {
  departments = departments_service;
  plans = record { repo = plan_repository pgx; cache = some working; cache_ttl = pos 60000000000 };
}

text_ne : (a b : String) → (a == b) ≡ false → a ≢ b
text_ne a b h e = ground (arith, eq_iff a b)

pub world-IsCatalog : IsCatalog world.departments
world-IsCatalog = (
  record { system_active = λ e. refl; has_code = refl; has_name = refl; positive = refl },
  ((omega arith, text_ne "FINANCE" "SUPPORT" refl), tt),
  (record { system_active = λ e. refl; has_code = refl; has_name = refl; positive = refl }, tt, tt),
)

pub world-IsPlanTable : IsPlanTable world.plans
unfolding is_tenant_plan is_branding_level plan_checks
world-IsPlanTable = (record { known = refl; branding = refl; checks = refl }, tt, tt)

pub working-IsCache : IsCache working
unfolding get
working-IsCache = record {
  get_held = λ k w b h. ground (arith);
  get_departments = λ k w. refl;
  set_departments = λ k b ttl w. refl;
  delete_departments = λ ks w. refl;
  get_plans = λ k w. refl;
  set_plans = λ k b ttl w. refl;
  delete_plans = λ ks w. refl;
  delete_removes = λ k w h. refl;
}
