-- ===== src/Result.antt =====
-- The exceptions that the program raises or lets through, each with the argument that it was
-- raised with; `message` is `str(exc)`. A pure function that may raise returns a `Result`.
use whatsapp_sales_saas_temp.Prelude.{
  List, Text, [], decimal, inl, inr, map, refl, ℕ, ◌∷◌, ◌≡◌, ◌⊎◌,
}

pub data Error : Type 0 where
  value_error key_error index_error type_error attribute_error : Text → Error
  unknown_tenant onboarding_error gateway_error llm_error crypto_error : Text → Error
  unsupported_format skill_not_found : Text → Error
  system_exit : Text → Error
  -- a `KeyError` whose key is a number
  int_key_error : ℕ → Error
  -- an exception of code that the program only calls
  foreign : Text → Error

pub data Result {ℓ} (A : Type ℓ) : Type ℓ where
  ok : A → Result A
  err : Error → Result A

module _ (repr : Text → Text) where
  -- `str` of a `KeyError`, and of its subclass `SkillNotFoundError`, is the `repr` of the argument.
  unfoldable pub message : Error → Text
  message (value_error m) = m
  message (key_error m) = repr m
  message (int_key_error n) = decimal n
  message (index_error m) = m
  message (type_error m) = m
  message (attribute_error m) = m
  message (unknown_tenant m) = m
  message (onboarding_error m) = m
  message (gateway_error m) = m
  message (llm_error m) = m
  message (crypto_error m) = m
  message (unsupported_format m) = m
  message (skill_not_found m) = repr m
  message (system_exit m) = m
  message (foreign m) = m

infixl 10 ◌>>=◌
abbrev pub ◌>>=◌ {ℓ κ} : {A : Type ℓ} {B : Type κ} → Result A → (A → Result B) → Result B
ok a >>= f = f a
err e >>= f = err e

abbrev pub map_ok {ℓ κ} : {A : Type ℓ} {B : Type κ} → (A → B) → Result A → Result B
map_ok f (ok a) = ok (f a)
map_ok f (err e) = err e

-- Every element in order; the first exception ends the loop.
unfoldable pub traverse {ℓ κ} :
    {A : Type ℓ} {B : Type κ} → (A → Result B) → List A → Result (List B)
traverse f [] = ok []
traverse f (x ∷ xs) = let rest = traverse f xs in do y ← f x; ys ← rest; ok (y ∷ ys)

pub Result-cases {ℓ} :
    {A : Type ℓ} (r : Result A) → ((a : A) × (r ≡ ok a)) ⊎ ((e : Error) × (r ≡ err e))
Result-cases (ok a) = inl (a, refl)
Result-cases (err e) = inr (e, refl)

-- A chain that returns has returned at every step.
pub bind_ok {ℓ κ} :
    {A : Type ℓ} {B : Type κ} (r : Result A) (f : A → Result B) (b : B)
    → r >>= f ≡ ok b
    → (a : A) × (r ≡ ok a) × (f a ≡ ok b)
bind_ok (ok a) f b e = (a, refl, e)
bind_ok (err x) f b e = cc

-- A loop whose body returns at each element.
pub traverse-map {ℓ κ μ} :
    {A : Type ℓ} {B : Type κ} {C : Type μ} (f : B → Result C) (g : A → B) (h : A → C) (xs : List A)
    → ((x : A) → f (g x) ≡ ok (h x))
    → traverse f (map g xs) ≡ ok (map h xs)
unfolding traverse
traverse-map f g h [] e = refl
traverse-map f g h (x ∷ xs) e = rw (e x, traverse-map f g h xs e) refl
