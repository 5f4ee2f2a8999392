-- ===== src/Http/Middleware.antt =====
-- middleware.go: the identity bridge, the content-type check, the role gates and their re-checks in
-- the handlers, the path parameter, and the rewriting of 401 responses.
use iam_catalog_admin.Base.{
  String, Bool, false, ◌||◌, Option, none, some, pos, [], ◌∷◌, ◌==◌, eqb, eq_ℤ, if◌then◌else◌,
}
use iam_catalog_admin.Base.Text.{is_empty}
use iam_catalog_admin.Json.{Json, null, obj, str, members, of_members, Map, get, put}
use iam_catalog_admin.Json.Decode.{to_map}
use iam_catalog_admin.Domain.{Uuid}
use iam_catalog_admin.Domain.Errors.{
  Error, new_error, with_details, err_validation, err_missing_identity, err_insufficient_role,
}
use iam_catalog_admin.Exec.{Result, ok, err}
use iam_catalog_admin.World.{Bytes, json}
use iam_catalog_admin.Service.Codec.{Codec}
use iam_catalog_admin.Http.Context.{
  RequestContext, PlatformContext, Ctx, has_role, is_operator, is_system,
}
use iam_catalog_admin.Http.Respond.{Response, abort}

-- A middleware goes on with a context, or answers.
pub data Next : Type 0 where
  next : Ctx → Next
  stop : Response → Next

module _ (c : Codec) where
  abbrev pub user_id_of : String → Option Uuid
  user_id_of s = if s == "iam-system" then some 0 else c.parse_uuid s

  abbrev pub with_tenant : Ctx → PlatformContext → Uuid → Option Uuid → Next
  with_tenant x rc user none =
      stop (abort x.request 401 "missing_identity_headers" "x-tenant-id header is not a valid UUID")
  with_tenant x rc user (some tenant) = next (record x {
    identity = some (record {
      user_id = user;
      tenant_id = tenant;
      roles = rc.roles;
      client_ip = rc.client_ip;
      user_agent = x.request.user_agent;
    });
  })

  abbrev pub with_user : Ctx → PlatformContext → Option Uuid → Next
  with_user x rc none =
      stop (abort x.request 401 "missing_identity_headers" "x-user-id header is not a valid UUID")
  with_user x rc (some user) = with_tenant x rc user (c.parse_uuid rc.tenant_id)

  -- IdentityBridgeMiddleware, on gincommon's context if there is one
  unfoldable pub identity_bridge : Option PlatformContext → Ctx → Next
  unfolding abort
  identity_bridge none x = next x
  identity_bridge (some rc) x = with_user x rc (user_id_of rc.user_id)

  -- parseUUIDParam
  unfoldable pub parse_uuid_param : String → Result Uuid
  unfolding new_error with_details
  parse_uuid_param raw =
      if is_empty raw
      then err (
          with_details (("code", str "invalid_uuid") ∷ [])
            (new_error err_validation "id is required"))
      else elim (c.parse_uuid raw) [
        | some id ↦ ok id
        | none ↦ err (
            with_details (("code", str "invalid_uuid") ∷ [])
              (new_error err_validation "id is not a valid UUID"))
      ]

unfoldable pub require_json_content_type : Ctx → Next
unfolding abort
require_json_content_type x =
    let r = x.request in
    if r.method == "POST" || r.method == "PUT" || r.method == "PATCH"
    then if eq_ℤ r.content_length (pos 0)
      then next x
      else if r.content_type == "application/json"
      then next x
      else stop (abort r 415 "unsupported_media_type" "Content-Type must be application/json")
    else next x

abbrev pub holds : (RequestContext → Bool) → Option RequestContext → Bool
holds test none = false
holds test (some rc) = test rc

unfoldable pub require_system_role : Ctx → Next
unfolding has_role abort
require_system_role x =
    if holds (λ rc. has_role rc "iam-system") x.identity
    then next x
    else stop (abort x.request 403 "insufficient_role" "internal route requires iam-system role")

unfoldable pub require_operator_role : Ctx → Next
unfolding is_operator abort
require_operator_role x =
    if holds is_operator x.identity
    then next x
    else stop
        (abort x.request 403 "insufficient_role" "operator route requires platform_operator role")

abbrev require : (RequestContext → Bool) → String → Option RequestContext → Option Error
require test message none = some (new_error err_missing_identity "missing identity")
require test message (some rc) =
    if test rc then none else some (new_error err_insufficient_role message)

unfoldable pub require_operator : Ctx → Option Error
unfolding is_operator new_error
require_operator x = require is_operator "platform_operator required" x.identity

unfoldable pub require_system : Ctx → Option Error
unfolding is_system new_error
require_system x = require is_system "iam-system required" x.identity

-- The outcome of a middleware that writes into a nil map is a panic.
pub data Written : Type 0 where
  written : Response → Written
  panicked : Written

abbrev pub with_code : Map → Map
with_code m =
    put "error" (str "missing_identity_headers") (put "code" (str "missing_identity_headers") m)

abbrev pub rewrite : Response → Map → Option Json → Response
rewrite r m (some code) = r
rewrite r m none = record r { body = json (obj (of_members (with_code m))) }

abbrev pub rewrite_body : Response → Bytes → Written
rewrite_body r (json (obj ms)) = let m = to_map (members ms) in written (rewrite r m (get "code" m))
rewrite_body r (json null) = panicked
rewrite_body r _ = written r

-- NormalizeAuthErrors, on the response that the rest of the chain left in the buffer
unfoldable pub normalize_auth_errors : Response → Written
unfolding get put to_map
normalize_auth_errors r = if eqb r.status 401 then rewrite_body r r.body else written r
