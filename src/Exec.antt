-- ===== src/Exec.antt =====
-- Go functions that return `(T, error)` and change the state around them: what was done before an
-- error stays done, so the state comes back beside the error too.
pub mod Keeps
use iam_catalog_admin.Base.{◌≡◌, refl, ◌⊎◌, inl, inr}
use iam_catalog_admin.Domain.Errors.{Error}

pub data Result {ℓ} (A : Type ℓ) : Type ℓ where
  ok : A → Result A
  err : Error → Result A

pub Result-cases {ℓ} :
    {A : Type ℓ} (r : Result A) → ((a : A) × (r ≡ ok a)) ⊎ ((e : Error) × (r ≡ err e))
Result-cases (ok a) = inl (a, refl)
Result-cases (err e) = inr (e, refl)

abbrev pub Exec {ℓ} : Type ℓ → Type ℓ → Type ℓ
Exec S A = S → Result A × S

module _ {ℓ} {S A : Type ℓ} where
  abbrev pub pure : A → Exec S A
  pure a s = (ok a, s)

  abbrev pub fail : Error → Exec S A
  fail e s = (err e, s)

  abbrev pub lift : Result A → Exec S A
  lift r s = (r, s)

module _ {ℓ} {S A B : Type ℓ} where
  -- if err == nil { f } else { g }, on the result of a call and the state after it
  abbrev pub on : (A → Exec S B) → (Error → Exec S B) → Result A × S → Result B × S
  on f g (ok a, s) = f a s
  on f g (err e, s) = g e s

  infixl 5 ◌>>=◌
  abbrev pub ◌>>=◌ : Exec S A → (A → Exec S B) → Exec S B
  ◌>>=◌ m f s = on f fail (m s)

  -- A call whose error the caller handles itself.
  abbrev pub handle : Exec S A → (A → Exec S B) → (Error → Exec S B) → Exec S B
  handle m f g s = on f g (m s)
