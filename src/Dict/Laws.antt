-- ===== src/Dict/Laws.antt =====
-- Lookups after an assignment, and the order of the keys.
use whatsapp_sales_saas_temp.Dict.{Dict, insert, lookup}
use whatsapp_sales_saas_temp.Prelude.{
  Text, [], arith, eq_iff, eq_refl, if◌then◌else◌, length, none, refl, some, ◌++◌, ◌+◌, ◌==◌, ◌∷◌,
  ◌≡◌, ◌≢◌, ◌≤◌,
}

module _ {ℓ} {V : Type ℓ} where
  pub lookup-insert :
      (j k : Text) (v : V) (d : Dict V)
      → lookup j (insert k v d) ≡ (if k == j then some v else lookup j d)
  unfolding lookup insert
  lookup-insert j k v [] = refl
  lookup-insert j k v ((i, w) ∷ d) =
      ground (arith, eq_iff k j, eq_iff i k, eq_iff i j, lookup-insert j k v d)

  pub lookup-insert_self : (k : Text) (v : V) (d : Dict V) → lookup k (insert k v d) ≡ some v
  lookup-insert_self k v d = simp (lookup-insert, eq_refl)

  pub lookup-insert_ne :
      (j k : Text) (v : V) (d : Dict V) → k ≢ j → lookup j (insert k v d) ≡ lookup j d
  lookup-insert_ne j k v d h = ground (arith, lookup-insert j k v d, eq_iff k j)

  -- A new key goes to the end.
  pub insert_new :
      (k : Text) (v : V) (d : Dict V) → lookup k d ≡ none → insert k v d ≡ d ++ (k, v) ∷ []
  unfolding lookup insert
  insert_new k v [] h = refl
  insert_new k v ((i, w) ∷ d) h = ground (arith, insert_new k v d)

  pub length-insert-le : (k : Text) (v : V) (d : Dict V) → length (insert k v d) ≤ length d + 1
  unfolding insert
  length-insert-le k v [] = omega arith
  length-insert-le k v ((i, w) ∷ d) = ground (arith, length-insert-le k v d)

  -- The last entry of a dict, under a key that no other entry has.
  pub lookup-concat :
      (k : Text) (v : V) (d : Dict V) → lookup k d ≡ none → lookup k (d ++ (k, v) ∷ []) ≡ some v
  unfolding lookup
  lookup-concat k v [] h = rw (eq_refl k)
  lookup-concat k v ((i, w) ∷ d) h = ground (arith, lookup-concat k v d)

  pub insert-concat :
      (k : Text) (v w : V) (d : Dict V)
      → lookup k d ≡ none
      → insert k v (d ++ (k, w) ∷ []) ≡ d ++ (k, v) ∷ []
  unfolding lookup insert
  insert-concat k v w [] h = rw (eq_refl k)
  insert-concat k v w ((i, x) ∷ d) h = ground (arith, insert-concat k v w d)
