-- ===== src/Exec.antt =====
-- Methods that change an object and may raise. What was written before a raise stays written, so
-- the state comes back beside the error too.
use whatsapp_sales_saas_temp.Prelude.{Option, none, some}
use whatsapp_sales_saas_temp.Result.{Error, Result, err, ok}

abbrev pub Exec {ℓ} : Type ℓ → Type ℓ → Type ℓ
Exec S A = S → Result A × S

module _ {ℓ} {S A : Type ℓ} where
  abbrev pub pure : A → Exec S A
  pure a s = (ok a, s)

  abbrev pub raise : Error → Exec S A
  raise e s = (err e, s)

  abbrev pub lift : Result A → Exec S A
  lift r s = (r, s)

  abbrev pub gets : (S → A) → Exec S A
  gets f s = (ok (f s), s)

  -- `if x is None: raise e`
  abbrev pub or_raise : Error → Option A → Exec S A
  or_raise e none = raise e
  or_raise e (some a) = pure a

  abbrev pub handle : Result A × S → (Error → Exec S A) → Result A × S
  handle (ok a, s) h = (ok a, s)
  handle (err e, s) h = h e s

  -- `try: … except`
  abbrev pub catch : Exec S A → (Error → Exec S A) → Exec S A
  catch m h s = handle (m s) h

module _ {ℓ} {S A B : Type ℓ} where
  abbrev pub continue : Result A → (A → Exec S B) → Exec S B
  continue (ok a) f s = f a s
  continue (err e) f s = (err e, s)

  infixl 10 ◌>>=◌ ◌>>◌
  abbrev pub ◌>>=◌ : Exec S A → (A → Exec S B) → Exec S B
  ◌>>=◌ m f s = let (r, s') = m s in continue r f s'

  abbrev pub ◌>>◌ : Exec S A → Exec S B → Exec S B
  m >> n = m >>= λ _. n

  -- A method of a part of the object.
  abbrev pub within : (B → S) → (S → B → B) → Exec S A → Exec B A
  within part put m t = let (r, s') = m (part t) in (r, put s' t)
