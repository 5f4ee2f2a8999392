-- ===== src/Exec/Keeps.antt =====
-- Facts about the state that hold on both branches of a call.
use iam_catalog_admin.Base.{◌≡◌}
use iam_catalog_admin.Domain.Errors.{Error}
use iam_catalog_admin.Exec.{Result, ok, err, Exec, on}

pub on_keeps {ℓ} :
    {S A B : Type ℓ} (P : S → Type ℓ) (f : A → Exec S B) (g : Error → Exec S B) (x : Result A × S)
    → P x.1
    → ((a : A) (s : S) → x ≡ (ok a, s) → P s → P (f a s).1)
    → ((e : Error) (s : S) → P s → P (g e s).1)
    → P (on f g x).1
on_keeps P f g (ok a, s) h kf kg = kf a s (λ i. (ok a, s)) h
on_keeps P f g (err e, s) h kf kg = kg e s h
