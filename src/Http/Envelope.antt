-- ===== src/Http/Envelope.antt =====
-- The JSON envelope of every error answer.
use iam_catalog_admin.Base.{
  ℕ, pos, String, Bool, true, false, Option, none, some, [], ◌∷◌, ◌≡◌, refl, sym, ◌∙◌, inl, inr,
  is_some, Bool-cases, ◌==◌, if◌then◌else◌,
}
use iam_catalog_admin.Base.Text.{is_empty}
use iam_catalog_admin.Json.{Json, num, obj, str, of_members, Map, get, put}
use iam_catalog_admin.Json.Maps.{get-put, get-put_other, put-present}
use iam_catalog_admin.Domain.Errors.{Error, domain, max_bytes}
use iam_catalog_admin.World.{json}
use iam_catalog_admin.Postgres.Pgx.{Pgx}
use iam_catalog_admin.Http.Context.{Request}
use iam_catalog_admin.Http.Respond.{
  Response, ErrorResponse, abort, omit_empty, error_members, error_response_with_details, merge,
  put_nonempty, lockstep, new_error_response, domain_error_status, handle_error,
}

-- An object whose "error" and "code" are present and equal.
pub record IsEnvelope (r : Response) : Type 0 where
  pub members : Map
  pub body : r.body ≡ json (obj (of_members members))
  pub present : is_some (get "code" members) ≡ true
  pub lockstep : get "error" members ≡ get "code" members

get-omit_empty : (j k s : String) (m : Map) → (j == k) ≡ false → get k (omit_empty j s m) ≡ get k m
unfolding get
get-omit_empty j k s m h = elim (Bool-cases (is_empty s)) [
  | inl empty ↦ rw (empty, omit_empty) refl
  | inr given ↦ rw (given, h, omit_empty) refl
]

abort-IsEnvelope :
    (r : Request) (status : ℕ) (code message : String) → IsEnvelope (abort r status code message)
unfolding abort error_members get new_error_response
abort-IsEnvelope r status code message =
    let er = record (new_error_response r code message) { status = status } in
    let tail : Map = ("code", str code) ∷ ("message", str message) ∷ [] in
    let found : get "code" (error_members er) ≡ some (str code) =
      get-omit_empty "trace_id" "code" er.trace_id (omit_empty "request_id" er.request_id tail) refl
      ∙ get-omit_empty "request_id" "code" er.request_id tail refl in
    record {
      members = error_members er;
      body = refl;
      present = rw found refl;
      lockstep = sym found;
    }

merge-present :
    (k : String) (details out : Map)
    → is_some (get k out) ≡ true
    → is_some (get k (merge details out)) ≡ true
unfolding merge
merge-present k [] out h = h
merge-present k ((j, v) ∷ details) out h =
    merge-present k details (put j v out) (put-present j k v out h)

put_nonempty-present :
    (j k s : String) (m : Map)
    → is_some (get k m) ≡ true
    → is_some (get k (put_nonempty j s m)) ≡ true
put_nonempty-present j k s m h = elim (Bool-cases (is_empty s)) [
  | inl empty ↦ rw (empty, put_nonempty) h
  | inr given ↦ rw (given, put_nonempty) (put-present j k (str s) m h)
]

record InStep (m : Map) : Type 0 where
  present : is_some (get "code" m) ≡ true
  same : get "error" m ≡ get "code" m

lockstep-InStep :
    (out : Map) (o : Option Json) → get "code" out ≡ o → is_some o ≡ true → InStep (lockstep out o)
lockstep-InStep out none e h = cc
lockstep-InStep out (some code) e h =
    let kept = get-put_other "error" "code" code out refl ∙ e in
    record { present = rw kept refl; same = get-put "error" code out ∙ sym kept }

error_response_with_details-InStep :
    (er : ErrorResponse) (details : Map) → InStep (error_response_with_details er details)
unfolding error_response_with_details get
error_response_with_details-InStep er details =
    let base : Map =
      ("error", str er.error)
      ∷ ("code", str er.code)
      ∷ ("status", num (pos er.status))
      ∷ ("message", str er.message)
      ∷ [] in
    let traced = put_nonempty "trace_id" er.trace_id base in
    let ids = put_nonempty "request_id" er.request_id traced in
    lockstep-InStep (merge details ids) (get "code" (merge details ids)) refl (
      merge-present "code" details ids (
        put_nonempty-present "request_id" "code" er.request_id traced
          (put_nonempty-present "trace_id" "code" er.trace_id base refl)))

if-IsEnvelope :
    (b : Bool) (t e : Response) → IsEnvelope t → IsEnvelope e → IsEnvelope (if b then t else e)
if-IsEnvelope true t e h k = h
if-IsEnvelope false t e h k = k

module _ (p : Pgx) where
  -- Whatever the error and its details are, the answer of HandleError is an object in which "error"
  -- and "code" are present and equal.
  pub handle_error-IsEnvelope : (r : Request) (e : Error) → IsEnvelope (handle_error p r e)
  unfolding handle_error
  handle_error-IsEnvelope r max_bytes = abort-IsEnvelope r 413 _ _
  handle_error-IsEnvelope r (domain de) =
      let status = domain_error_status de in
      let er = record (new_error_response r de.code de.message) { status = status } in
      let step = error_response_with_details-InStep er de.details in
      record {
        members = error_response_with_details er de.details;
        body = refl;
        present = step.present;
        lockstep = step.same;
      }
  handle_error-IsEnvelope r _ =
      if-IsEnvelope _ _ _ (abort-IsEnvelope r 503 _ _) (abort-IsEnvelope r 500 _ _)
