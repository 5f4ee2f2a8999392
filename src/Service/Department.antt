-- ===== src/Service/Department.antt =====
-- internal/core/service/department_service.go
pub mod Cached
pub mod Threads
use iam_catalog_admin.Base.{
  String, Bool, true, false, ◌||◌, Option, none, some, ℤ, pos, negsuc, List, [], ◌∷◌, keep, is_neg,
  ◌==◌, if◌then◌else◌, zero, suc,
}
use iam_catalog_admin.Base.Text.{is_blank}
use iam_catalog_admin.Json.{str}
use iam_catalog_admin.Json.Decode
use iam_catalog_admin.Domain.{Department, Uuid}
use iam_catalog_admin.Domain.Errors.{
  Error, new_error, with_details, err_validation, err_no_mutable_field, err_method_not_allowed,
  err_system_name_immutable, err_system_department_cannot_be_retired,
}
use iam_catalog_admin.Exec.{Result, ok, err, Exec, pure, fail, on, handle, ◌>>=◌}
use iam_catalog_admin.World.{World, Bytes}
use iam_catalog_admin.Port.{DepartmentRepository, Cache}
use iam_catalog_admin.Postgres.Pgx.{Pgx}
use iam_catalog_admin.Service.Codec.{Codec, marshal_departments, unmarshal_departments}

-- The TTL is a time.Duration, in nanoseconds.
pub record DepartmentService : Type 0 where
  pub repo : DepartmentRepository
  pub cache : Option Cache
  pub cache_ttl : ℤ

abbrev pub default_departments_cache_ttl : ℤ
default_departments_cache_ttl = pos 60000000000

abbrev pub is_pos : ℤ → Bool
is_pos (pos zero) = false
is_pos (pos (suc n)) = true
is_pos (negsuc n) = false

unfoldable pub new_department_service : DepartmentRepository → Option Cache → DepartmentService
new_department_service repo cache = record {
  repo = repo;
  cache = cache;
  cache_ttl = default_departments_cache_ttl;
}

unfoldable pub with_cache_ttl : ℤ → DepartmentService → DepartmentService
with_cache_ttl d s = if is_pos d then record s { cache_ttl = d } else s

-- `_ = call`: the error of an advisory call is dropped.
abbrev pub advisory : {A : Type 0} {B : Type 0} → Exec World A → B → Exec World B
advisory m b = handle m (λ _. pure b) (λ _. pure b)

abbrev pub departments_key : String
departments_key = "cat:departments"

module _ (c : Codec) where
  abbrev pub cached : Option Bytes → Option (List Department)
  cached none = none
  cached (some raw) = unmarshal_departments c raw

  -- repo.List, and the entry that it leaves in the cache.
  unfoldable pub load_all : DepartmentService → Cache → Exec World (List Department)
  load_all s cache = do
    all ← s.repo.list false
    advisory (cache.set departments_key (marshal_departments c all) s.cache_ttl) all

  abbrev pub or_load :
      DepartmentService → Cache → Option (List Department) → Exec World (List Department)
  or_load s cache (some ds) = pure ds
  or_load s cache none = load_all s cache

  abbrev pub list_with : DepartmentService → Option Cache → Exec World (List Department)
  list_with s none = s.repo.list false
  list_with s (some cache) =
      handle (cache.get departments_key) (λ raw. or_load s cache (cached raw))
        (λ _. load_all s cache)

  unfoldable pub list_all_cached : DepartmentService → Exec World (List Department)
  list_all_cached s = list_with s s.cache

  unfoldable pub list : DepartmentService → Bool → Exec World (List Department)
  list s active_only = do
    all ← list_all_cached s
    pure (if active_only then keep (λ d. d.is_active) all else all)

unfoldable pub get : DepartmentService → Uuid → Exec World Department
get s id = s.repo.find_by_id id

abbrev pub invalidate_with : Option Cache → Department → Exec World Department
invalidate_with none d = pure d
invalidate_with (some cache) d = advisory (cache.delete (departments_key ∷ [])) d

-- invalidateCache, and the result that follows it.
unfoldable pub invalidate_cache : DepartmentService → Department → Exec World Department
invalidate_cache s d = invalidate_with s.cache d

-- The department that Create hands to the repository.
abbrev pub new_department : String → String → Bool → Department
new_department code name is_system = record {
  id = 0;
  code = code;
  name = name;
  is_system = is_system;
  is_active = true;
  record_version = pos 0;
  created_at = 0;
  updated_at = 0;
}

unfoldable pub create : DepartmentService → String → String → Bool → Exec World Department
create s code name is_system =
    if is_blank code || is_blank name
    then fail (new_error err_validation "code and name are required")
    else do d ← s.repo.insert (new_department code name is_system); invalidate_cache s d

module _ (p : Pgx) where
  -- The check violations that Patch translates.
  unfoldable pub translate : Error → Error
  unfolding new_error with_details
  translate e =
      if p.is_check_violation e
      then if p.constraint_name e == "chk_system_department_active"
        then new_error err_system_department_cannot_be_retired "system department cannot be retired"
        else if p.constraint_name e == "chk_system_department_name_immutable"
        then with_details (("field", str "name") ∷ [])
            (new_error err_system_name_immutable "system department name is immutable")
        else e
      else e

  abbrev pub is_blank_name : Option String → Bool
  is_blank_name none = false
  is_blank_name (some n) = is_blank n

  abbrev pub patch_some :
      DepartmentService → Uuid → Option String → Option Bool → ℤ → Exec World Department
  patch_some s id name is_active version =
      if is_blank_name name
      then fail (new_error err_validation "name must not be empty")
      else handle (s.repo.update id name is_active version) (invalidate_cache s)
          (λ e. fail (translate e))

  unfoldable pub patch :
      DepartmentService → Uuid → Option String → Option Bool → ℤ → Exec World Department
  patch s id none none version = fail (
      with_details (("code", str "no_mutable_field") ∷ [])
        (new_error err_no_mutable_field "at least one of name or is_active must be provided"))
  patch s id name is_active version = patch_some s id name is_active version

unfoldable pub delete_blocked : Error
unfolding new_error
delete_blocked =
    new_error err_method_not_allowed "departments cannot be deleted; retire via is_active=false"
