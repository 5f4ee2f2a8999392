-- ===== src/Http/Gates.antt =====
-- The role gates of the route groups: what a caller without the role, or a DELETE, can bring about.
use iam_catalog_admin.Base.{
  String, Bool, true, false, Option, none, some, ◌≡◌, refl, inl, inr, any, ◌==◌, eq_ℤ, pos,
  if◌then◌else◌, Option-cases,
}
use iam_catalog_admin.World.{World}
use iam_catalog_admin.Postgres.Pgx.{Pgx}
use iam_catalog_admin.Service.Codec.{Codec}
use iam_catalog_admin.Http.Context.{PlatformContext, Request, Ctx, has_role, is_operator}
use iam_catalog_admin.Http.Respond.{Response}
use iam_catalog_admin.Http.Middleware.{
  Next, next, stop, identity_bridge, require_json_content_type, require_operator_role,
  require_system_role, holds, with_user, with_tenant, user_id_of,
}
use iam_catalog_admin.Http.Bind.{Gin, Auth, accepted, rejected}
use iam_catalog_admin.Http.Router.{
  Route, Group, public, operator, internal, group, gate, chain, Services, then_call, then_gate,
  then_check, protected_with,
}

-- The role that a group of routes is for.
abbrev pub role_of : Group → Option String
role_of public = none
role_of operator = some "platform_operator"
role_of internal = some "iam-system"

-- A middleware stops with one of the statuses of a refusal, or goes on with the given identity.
data Passes (P : Ctx → Type 0) : Next → Type 0 where
  passed : (x : Ctx) → P x → Passes P (next x)
  answered_401 : (r : Response) → r.status ≡ 401 → Passes P (stop r)
  answered_403 : (r : Response) → r.status ≡ 403 → Passes P (stop r)
  answered_415 : (r : Response) → r.status ≡ 415 → Passes P (stop r)

-- How a request can be turned down before its handler.
pub data Refused (g : Gin) (r : Request) (answer : Response) : Type 0 where
  unauthenticated : g.protect r ≡ rejected answer → Refused g r answer
  bad_identity : answer.status ≡ 401 → Refused g r answer
  forbidden : answer.status ≡ 403 → Refused g r answer
  bad_content_type : answer.status ≡ 415 → Refused g r answer

-- A context without the role.
abbrev Without : String → Ctx → Type 0
Without role x = holds (λ rc. has_role rc role) x.identity ≡ false

gate-stops :
    (gr : Group) (role : String) (x : Ctx)
    → role_of gr ≡ some role
    → Without role x
    → Passes (λ _. ⊥) (gate gr x)
unfolding gate require_operator_role require_system_role is_operator
gate-stops public role x e h = cc
gate-stops operator role x e h =
    let same : role ≡ "platform_operator" = cc in
    let lacks = rw same at h in rw (lacks, require_operator_role) (answered_403 _ refl)
gate-stops internal role x e h =
    let same : role ≡ "iam-system" = cc in
    let lacks = rw same at h in rw (lacks, require_system_role) (answered_403 _ refl)

if_both : {A : Type 0} (Q : A → Type 0) (b : Bool) {t e : A} → Q t → Q e → Q (if b then t else e)
if_both Q true h k = h
if_both Q false h k = k

require_json_content_type-Passes :
    (P : Ctx → Type 0) (x : Ctx) → P x → Passes P (require_json_content_type x)
unfolding require_json_content_type
require_json_content_type-Passes P x h =
    if_both (Passes P) _
      (if_both (Passes P) (eq_ℤ x.request.content_length (pos 0)) (passed x h) (
        if_both (Passes P) (x.request.content_type == "application/json") (passed x h)
          (answered_415 _ refl)))
      (passed x h)

module _ (k : Codec) where
  identity_bridge-Passes :
      (role : String) (rc : PlatformContext) (x : Ctx)
      → any (λ r. r == role) rc.roles ≡ false
      → Passes (Without role) (identity_bridge k (some rc) x)
  unfolding identity_bridge has_role
  identity_bridge-Passes role rc x h = elim (Option-cases (user_id_of k rc.user_id)) [
    | inl bad ↦ rw (bad, with_user) (answered_401 _ refl)
    | inr (user, read) ↦ elim (Option-cases (k.parse_uuid rc.tenant_id)) [
      | inl bad ↦ rw (read, bad, with_user, with_tenant) (answered_401 _ refl)
      | inr (tenant, valid) ↦ rw (read, valid, with_user, with_tenant) (passed _ h)
    ]
  ]

module _ (p : Pgx) (k : Codec) (g : Gin) (s : Services) where
  -- What a refused request leaves behind.
  abbrev Turned : Request → World → Response × World → Type 0
  Turned r w x = (x.1 ≡ w) × Refused g r x.0

  then_call-Turned :
      (route : Route) (r : Request) (w : World) (n : Next)
      → Passes (λ _. ⊥) n
      → Turned r w (then_call p k g s route w n)
  then_call-Turned route r w _ (passed x h) = absurd h
  then_call-Turned route r w _ (answered_401 a e) = (refl, bad_identity e)
  then_call-Turned route r w _ (answered_403 a e) = (refl, forbidden e)
  then_call-Turned route r w _ (answered_415 a e) = (refl, bad_content_type e)

  then_gate-Turned :
      (route : Route) (role : String) (r : Request) (w : World) (n : Next)
      → role_of (group route) ≡ some role
      → Passes (Without role) n
      → Turned r w (then_gate p k g s route w n)
  then_gate-Turned route role r w _ e (passed x h) =
      then_call-Turned route r w (gate (group route) x) (gate-stops (group route) role x e h)
  then_gate-Turned route role r w _ e (answered_401 a s) = (refl, bad_identity s)
  then_gate-Turned route role r w _ e (answered_403 a s) = (refl, forbidden s)
  then_gate-Turned route role r w _ e (answered_415 a s) = (refl, bad_content_type s)

  then_check-Turned :
      (route : Route) (role : String) (r : Request) (w : World) (n : Next)
      → role_of (group route) ≡ some role
      → Passes (Without role) n
      → Turned r w (then_check p k g s route w n)
  then_check-Turned route role r w _ e (passed x h) =
      then_gate-Turned route role r w (require_json_content_type x) e
        (require_json_content_type-Passes (Without role) x h)
  then_check-Turned route role r w _ e (answered_401 a s) = (refl, bad_identity s)
  then_check-Turned route role r w _ e (answered_403 a s) = (refl, forbidden s)
  then_check-Turned route role r w _ e (answered_415 a s) = (refl, bad_content_type s)

  protected-Turned :
      (route : Route) (role : String) (r : Request) (w : World) (a : Auth)
      → g.protect r ≡ a
      → role_of (group route) ≡ some role
      → ((rc : PlatformContext) → a ≡ accepted (some rc) → any (λ t. t == role) rc.roles ≡ false)
      → Turned r w (protected_with p k g s route r w a)
  unfolding identity_bridge
  protected-Turned route role r w (rejected answer) e needs lacks = (refl, unauthenticated e)
  protected-Turned route role r w (accepted none) e needs lacks =
      then_check-Turned route role r w
        (identity_bridge k none (record { request = r; identity = none })) needs (passed _ refl)
  protected-Turned route role r w (accepted (some rc)) e needs lacks =
      then_check-Turned route role r w
        (identity_bridge k (some rc) (record { request = r; identity = none })) needs
        (identity_bridge-Passes k role rc (record { request = r; identity = none }) (lacks rc refl))

  -- If a route's group needs a role, and the identity that the gateway's headers carry, if there is
  -- one, does not have it, then the chain of the route's handlers changes nothing of the world, and
  -- its answer is that of the failed authentication, a 401, a 403 or a 415. (The count of the request
  -- is taken outside of the chain.)
  pub chain-refuses :
      (route : Route) (role : String) (r : Request) (w : World)
      → role_of (group route) ≡ some role
      → ((rc : PlatformContext)
          → g.protect r ≡ accepted (some rc)
          → any (λ t. t == role) rc.roles ≡ false)
      → ((chain p k g s route r w).1 ≡ w) × Refused g r (chain p k g s route r w).0
  unfolding chain
  chain-refuses route role r w needs lacks =
      protected-Turned route role r w (g.protect r) refl needs lacks
