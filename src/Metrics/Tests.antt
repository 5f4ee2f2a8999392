-- ===== src/Metrics/Tests.antt =====
-- The theorems on registration at a registry in memory.
use iam_catalog_admin.Base.{true, some, [], ◌∷◌, ◌≡◌, refl, inr}
use iam_catalog_admin.World.{writes_total}
use iam_catalog_admin.Metrics.{register}
use iam_catalog_admin.Metrics.Registered.{register-series, register-register}
use iam_catalog_admin.Metrics.Memory.{
  memory, memory-IsPrometheus, started, labelled, registered, registering,
}

register-series_example : memory.has_series 8 ("plans" ∷ "update" ∷ []) registered.registry ≡ true
register-series_example =
    register-series memory-IsPrometheus (λ n. "200") labelled started registered
      (writes_total "plans" "update") refl registering (inr (inr (refl, refl)))

register-register_example : register memory [] registered ≡ some registered
register-register_example = register-register memory labelled [] started registered registering
