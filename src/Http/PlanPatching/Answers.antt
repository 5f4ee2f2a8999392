-- ===== src/Http/PlanPatching/Answers.antt =====
-- The statuses of CAT-5 by the request: identity, body, limits, and the row.
use iam_catalog_admin.Base.{
  ℕ, String, Option, none, some, ℤ, ◌≡◌, ◌≢◌, refl, ◌∙◌, inl, inr, arith, Bool-cases, Option-cases,
  find, ◌==◌,
}
use iam_catalog_admin.Json.{Json, null, num, bool, frac, str, arr, obj}
use iam_catalog_admin.Json.Decode.{int64_of}
use iam_catalog_admin.Domain.{Plan, PlanPatch, TenantPlan}
use iam_catalog_admin.Domain.Errors.{Error, err_missing_identity, err_insufficient_role, new_error}
use iam_catalog_admin.Exec.{Result, ok, err}
use iam_catalog_admin.World.{World}
use iam_catalog_admin.Postgres.Pgx.{Pgx, IsPgx}
use iam_catalog_admin.Postgres.Undisturbed.{IsUndisturbed}
use iam_catalog_admin.Postgres.Schema.{next_version}
use iam_catalog_admin.Postgres.PlanSchema.Invariant.{IsPlanTable}
use iam_catalog_admin.Postgres.Plan.{plan_repository}
use iam_catalog_admin.Service.Codec.{Codec}
use iam_catalog_admin.Service.Plan as Service
use iam_catalog_admin.Service.Plan.{PlanService}
use iam_catalog_admin.Service.Plan.Accepted.{FitsColumns}
use iam_catalog_admin.Http.Context.{Ctx, RequestContext, is_operator}
use iam_catalog_admin.Http.Middleware.{require_operator}
use iam_catalog_admin.Http.Respond.{handle_error, domain_error_status}
use iam_catalog_admin.Http.Bind.{PlanPatchBody, bind_plan_patch}
use iam_catalog_admin.Http.Plans
use iam_catalog_admin.Http.Plans.{plan_patch, parse_limit, integer_limit, with_limits, with_tender}
use iam_catalog_admin.Http.Statuses.{gate_status, status_after}
use iam_catalog_admin.Http.PlanPatching.{guarded_status, service-status}

-- 400 for a limit that is neither an integer nor null.
abbrev pub limits_status : TenantPlan → World → Result PlanPatch → ℕ
limits_status code w (err e) = 400
limits_status code w (ok patch) = guarded_status code patch w.plans

-- 400 for a body that does not bind.
abbrev pub body_status : TenantPlan → World → Option PlanPatchBody → ℕ
body_status code w none = 400
body_status code w (some b) = limits_status code w (plan_patch b)

module _ {p : Pgx} (laws : IsPgx p) (u : IsUndisturbed p) (k : Codec) (s : PlanService)
    (repo : s.repo ≡ plan_repository p) (w : World) (table : IsPlanTable w.plans)
    (room : (code : TenantPlan) (old : Plan)
      → find (λ r. r.code == code) w.plans ≡ some old
      → next_version old.record_version ≢ none) where
  answered :
      (c : Ctx) (x : Result Plan × World)
      → (Plans.patched p k c x).0.status ≡ status_after p 200 c x.0
  answered c (ok r, w') = refl
  answered c (err e, w') = refl

  -- An error of parseLimit answers 400.
  abbrev Rejects : {A : Type 0} → Ctx → Result A → Type 0
  Rejects {A} c r = (e : Error) → r ≡ err e → (handle_error p c.request e).status ≡ 400

  invalid-Rejects :
      {A : Type 0} (c : Ctx) (message : String)
      → Rejects {A = A} c (err (Plans.limit_error message))
  unfolding handle_error new_error domain_error_status
  invalid-Rejects c message e h = ground (arith, h)

  parse_limit-Rejects :
      (c : Ctx) (v : Option Json) (message : String) → Rejects c (parse_limit v message)
  unfolding parse_limit
  parse_limit-Rejects c none message e h = cc
  parse_limit-Rejects c (some null) message e h = cc
  parse_limit-Rejects c (some (num z)) message e h = elim (Option-cases (int64_of z)) [
    | inl wide ↦ invalid-Rejects c message e (rw (wide, parse_limit) at h)
    | inr (n, fits) ↦ let accepted = rw (fits, parse_limit) at h in cc (accepted)
  ]
  parse_limit-Rejects c (some (bool b)) message e h = invalid-Rejects c message e h
  parse_limit-Rejects c (some (frac t)) message e h = invalid-Rejects c message e h
  parse_limit-Rejects c (some (str t)) message e h = invalid-Rejects c message e h
  parse_limit-Rejects c (some (arr vs)) message e h = invalid-Rejects c message e h
  parse_limit-Rejects c (some (obj ms)) message e h = invalid-Rejects c message e h

  with_limits-Rejects :
      (c : Ctx) (b : PlanPatchBody) (workflow tender : Result (Option (Option ℤ)))
      → Rejects c workflow
      → Rejects c tender
      → Rejects c (with_limits b workflow tender)
  with_limits-Rejects c b (err x) tender h k e is = h e (let same : x ≡ e = cc in rw same refl)
  with_limits-Rejects c b (ok wf) (err x) h k e is = k e (let same : x ≡ e = cc in rw same refl)
  with_limits-Rejects c b (ok wf) (ok t) h k e is = cc

  result-status :
      (c : Ctx) (r : Result PlanPatch)
      → Rejects c r
      → ((patch : PlanPatch) → r ≡ ok patch → FitsColumns p patch)
      → (Plans.patch_result p k s c w r).0.status ≡ limits_status c.request.id w r
  result-status c (err e) rejects fits = rejects e refl
  result-status c (ok patch) rejects fits =
      answered c (Service.patch s c.request.id patch w)
      ∙ service-status laws u s repo c c.request.id patch w table (room c.request.id)
          (fits patch refl)

  body-status :
      (c : Ctx) (b : Option PlanPatchBody)
      → ((body : PlanPatchBody) (patch : PlanPatch)
          → b ≡ some body
          → plan_patch body ≡ ok patch
          → FitsColumns p patch)
      → (Plans.patch_bound p k s c w b).0.status ≡ body_status c.request.id w b
  unfolding plan_patch handle_error new_error domain_error_status
  body-status c none fits = refl
  body-status c (some body) fits =
      result-status c (plan_patch body)
        (with_limits-Rejects c body _ _
          (parse_limit-Rejects c body.workflow_template_limit
            "workflow_template_limit must be an integer or null")
          (parse_limit-Rejects c body.tender_limit "tender_limit must be an integer or null"))
        (λ patch made. fits body patch refl made)

  refused :
      (c : Ctx) (e : Error)
      → require_operator c ≡ some e
      → (Plans.patch p k s c w).0.status ≡ (handle_error p c.request e).status
  unfolding Plans.patch
  refused c e h = rw (Plans.patch, h) refl

  admitted :
      (c : Ctx)
      → require_operator c ≡ none
      → ((body : PlanPatchBody) (patch : PlanPatch)
          → bind_plan_patch c.request.body ≡ some body
          → plan_patch body ≡ ok patch
          → FitsColumns p patch)
      → (Plans.patch p k s c w).0.status
        ≡ body_status c.request.id w (bind_plan_patch c.request.body)
  unfolding Plans.patch
  admitted c h fits = rw (Plans.patch, h) (body-status c (bind_plan_patch c.request.body) fits)

  -- Take the service over the repository, with any cache or none, and a well formed table whose
  -- versions have a next one. If no connection and no transaction fails, the numbers that the body
  -- sets fit their columns, the server can hold its texts, and no number literal is beyond the range
  -- of float64, then the handler of CAT-5 answers 401 without an identity, 403 to a
  -- caller who is no operator, 400 for a body that does not bind or a limit that is neither an
  -- integer nor null, 404 for a code that is no plan's, 400 for a patch that a guard stops, 404
  -- without the row, 409 at another version, and 200 otherwise.
  pub plan_patch-status :
      (c : Ctx)
      → ((body : PlanPatchBody) (patch : PlanPatch)
          → bind_plan_patch c.request.body ≡ some body
          → plan_patch body ≡ ok patch
          → FitsColumns p patch)
      → (Plans.patch p k s c w).0.status
        ≡ gate_status c.identity (body_status c.request.id w (bind_plan_patch c.request.body))
  unfolding require_operator handle_error new_error domain_error_status
  plan_patch-status c fits = go c.identity refl
    where
      go :
          (o : Option RequestContext)
          → c.identity ≡ o
          → (Plans.patch p k s c w).0.status
            ≡ gate_status o (body_status c.request.id w (bind_plan_patch c.request.body))
      go none e =
          refused c (new_error err_missing_identity "missing identity")
            (rw (e, require_operator) refl)
      go (some rc) e = elim (Bool-cases (is_operator rc)) [
        | inr other ↦ rw other (
            refused c (new_error err_insufficient_role "platform_operator required")
              (rw (e, other, require_operator) refl))
        | inl operator ↦ rw operator (admitted c (rw (e, operator, require_operator) refl) fits)
      ]
