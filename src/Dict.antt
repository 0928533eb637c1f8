-- ===== src/Dict.antt =====
-- Python's `dict` with string keys, in insertion order.
pub mod Laws
use whatsapp_sales_saas_temp.Prelude.{
  List, Option, Text, [], if◌then◌else◌, map, none, some, ◌==◌, ◌∷◌,
}

abbrev pub Dict {ℓ} : Type ℓ → Type ℓ
Dict V = List (Text × V)

module _ {ℓ} {V : Type ℓ} where
  -- `d.get(k)`
  unfoldable pub lookup : Text → Dict V → Option V
  lookup k [] = none
  lookup k ((j, v) ∷ d) = if j == k then some v else lookup k d

  -- `d[k] = v`: in place where the key is there, at the end where it is not
  unfoldable pub insert : Text → V → Dict V → Dict V
  insert k v [] = (k, v) ∷ []
  insert k v ((j, w) ∷ d) = if j == k then (j, v) ∷ d else (j, w) ∷ insert k v d

  abbrev pub keys : Dict V → List Text
  keys = map (λ e. e.0)

  -- `d.values()`
  abbrev pub values : Dict V → List V
  values = map (λ e. e.1)
