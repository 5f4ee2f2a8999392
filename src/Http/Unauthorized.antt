-- ===== src/Http/Unauthorized.antt =====
-- The rewriting of 401 answers.
use iam_catalog_admin.Base.{
  ◌||◌, String, true, false, none, some, ◌≡◌, ◌⊎◌, ◌∙◌, refl, inl, inr, arith, is_some, Bool-cases,
  Option-cases, eqb, ◌==◌,
}
use iam_catalog_admin.Json.{obj, str, Members, members, of_members, Map, get, put}
use iam_catalog_admin.Json.Maps.{get-put, get-put_other}
use iam_catalog_admin.Json.Decode.{to_map}
use iam_catalog_admin.World.{Bytes, json}
use iam_catalog_admin.Http.Respond.{Response}
use iam_catalog_admin.Http.Middleware.{
  written, with_code, rewrite, rewrite_body, normalize_auth_errors,
}

-- An answer that is no 401, or has a code, is written as it is.
pub record IsKept (r : Response) (ms : Members) : Type 0 where
  pub reason : (eqb r.status 401 ≡ false) ⊎ (is_some (get "code" (to_map (members ms))) ≡ true)
  pub same : normalize_auth_errors r ≡ written r

-- Another is written as a 401 with "code" and "error" and every other key as it was.
pub record IsRewritten (r : Response) (ms : Members) : Type 0 where
  pub unauthorized : r.status ≡ 401
  pub uncoded : get "code" (to_map (members ms)) ≡ none
  pub answer : Response
  pub writes : normalize_auth_errors r ≡ written answer
  pub status : answer.status ≡ 401
  pub body : Map
  pub body_is : answer.body ≡ json (obj (of_members body))
  pub code : get "code" body ≡ some (str "missing_identity_headers")
  pub error : get "error" body ≡ some (str "missing_identity_headers")
  pub others :
      (key : String)
      → (("code" == key) || ("error" == key) ≡ true)
        ⊎ (get key body ≡ get key (to_map (members ms)))

of_object :
    (r : Response) (ms : Members) (b : Bytes)
    → b ≡ json (obj ms)
    → rewrite_body r b
      ≡ written (rewrite r (to_map (members ms)) (get "code" (to_map (members ms))))
of_object r ms b e = rw e refl

with_code-others :
    (key : String) (m : Map)
    → ("code" == key) || ("error" == key) ≡ false
    → get key (with_code m) ≡ get key m
with_code-others key m h =
    get-put_other "error" key (str "missing_identity_headers")
      (put "code" (str "missing_identity_headers") m) (ground (arith, h))
    ∙ get-put_other "code" key (str "missing_identity_headers") m (ground (arith, h))

-- An answer whose body is an object is written with its status. If it is a 401 whose body has no
-- "code", then it is written with "missing_identity_headers" as "code" and as "error", and every
-- other key as it was; and else as it is.
pub normalize_auth_errors-object :
    (r : Response) (ms : Members) → r.body ≡ json (obj ms) → IsKept r ms ⊎ IsRewritten r ms
unfolding normalize_auth_errors
normalize_auth_errors-object r ms e = elim (Bool-cases (eqb r.status 401)) [
  | inr other ↦ inl (record { reason = inl other; same = rw (other, normalize_auth_errors) refl })
  | inl unauthorized ↦ elim (Option-cases (get "code" (to_map (members ms)))) [
    | inr (code, given) ↦ inl (record {
      reason = inr (rw given refl);
      same =
          rw (unauthorized, normalize_auth_errors)
            (of_object r ms r.body e ∙ (rw (given, rewrite) refl));
    })
    | inl absent ↦
        let status : r.status ≡ 401 = ground (arith, unauthorized) in
        inr (record {
          unauthorized = status;
          uncoded = absent;
          answer = rewrite r (to_map (members ms)) none;
          writes =
              rw (unauthorized, normalize_auth_errors)
                (of_object r ms r.body e ∙ (rw (absent, rewrite) refl));
          status = status;
          body = with_code (to_map (members ms));
          body_is = refl;
          code =
              get-put_other "error" "code" (str "missing_identity_headers")
                (put "code" (str "missing_identity_headers") (to_map (members ms))) refl
              ∙ get-put "code" (str "missing_identity_headers") (to_map (members ms));
          error =
              get-put "error" (str "missing_identity_headers")
                (put "code" (str "missing_identity_headers") (to_map (members ms)));
          others = λ key. elim (Bool-cases (("code" == key) || ("error" == key))) [
            | inl own ↦ inl own
            | inr other ↦ inr (with_code-others key (to_map (members ms)) other)
          ];
        })
  ]
]
