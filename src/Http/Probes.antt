-- ===== src/Http/Probes.antt =====
-- The readiness probe and the gate of the API documentation.
use iam_catalog_admin.Base.{
  String, true, false, ◌≡◌, refl, ◌↔◌, ◌==◌, arith, eq_iff, Bool-cases, inl, inr, if◌then◌else◌,
}
use Prim.Native.String as NativeString
use iam_catalog_admin.Base.Text.{is_empty}
use iam_catalog_admin.Exec.{Result, ok, err, Exec}
use iam_catalog_admin.World.{World}
use iam_catalog_admin.Http.Router.{
  readyz, check_postgres, check_cache, DocsConfig, unauthorized, served, active, docs,
}

check_cache-ready :
    (x : Result (Unit {0}) × World) → ((check_cache x).0.status ≡ 200) ↔ (x.0 ≡ ok tt)
check_cache-ready (ok u, w) = (λ h. refl, λ h. refl)
check_cache-ready (err e, w) = (λ h. ground (arith), λ h. cc)

check_postgres-ready :
    (cache : Exec World (Unit {0})) (x : Result (Unit {0}) × World)
    → ((check_postgres cache x).0.status ≡ 200) ↔ ((x.0 ≡ ok tt) × ((cache x.1).0 ≡ ok tt))
check_postgres-ready cache (ok u, w) =
    (λ h. (refl, (check_cache-ready (cache w)).0 h), λ h. (check_cache-ready (cache w)).1 h.1)
check_postgres-ready cache (err e, w) = (λ h. ground (arith), λ h. cc (h.0))

-- The readiness probe answers 200 exactly if Postgres answers its ping and then Valkey answers its
-- own; so an outage of the cache alone makes the service not ready.
pub readyz-ready :
    (postgres cache : Exec World (Unit {0})) (w : World)
    → ((readyz postgres cache w).0.status ≡ 200)
      ↔ (((postgres w).0 ≡ ok tt) × ((cache (postgres w).1).0 ≡ ok tt))
unfolding readyz
readyz-ready postgres cache w = check_postgres-ready cache (postgres w)

served-token : (a b : String) → ((if a == b then served else unauthorized) ≡ served) ↔ (a ≡ b)
served-token a b = elim (Bool-cases (a == b)) [
  | inl same ↦ rw same (λ h. (eq_iff a b).0 same, λ h. refl)
  | inr other ↦ rw other (λ h. cc, λ h. ground (arith, eq_iff a b))
]

-- In production with a token, the documentation is served exactly if it is enabled and the
-- Authorization header is "Bearer " and the token.
pub docs-served :
    (d : DocsConfig) (authorization : String)
    → d.environment ≡ "production"
    → is_empty d.auth_token ≡ false
    → (docs d authorization ≡ served)
      ↔ ((d.enabled ≡ true) × (authorization ≡ NativeString.◌++◌ "Bearer " d.auth_token))
unfolding docs active
docs-served d authorization production token =
    let gate = served-token authorization (NativeString.◌++◌ "Bearer " d.auth_token) in
    elim (Bool-cases d.enabled) [
      | inl enabled ↦
          rw (production, token, enabled, docs, active) (λ h. (refl, gate.0 h), λ h. gate.1 h.1)
      | inr disabled ↦ rw (production, disabled, docs, active) (λ h. cc, λ h. cc (h.0))
    ]
