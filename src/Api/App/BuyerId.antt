-- ===== src/Api/App/BuyerId.antt =====
-- When the ids of two buyers are the same.
use mathlib.Core.Path.{ap₂}
use mathlib.Core.List.{head-eq_of_cons-eq, tail-eq_of_cons-eq}
use whatsapp_sales_saas_temp.Api.App.{buyer_id_for}
use whatsapp_sales_saas_temp.Prelude.{All, Text, [], arith, refl, sym, ◌++◌, ◌∷◌, ◌≡◌, ◌≢◌}
use whatsapp_sales_saas_temp.Slug.{is_slug_char}
use whatsapp_sales_saas_temp.Slug.Shape.{IsSlugChar}

-- No character of the slug is a colon.
abbrev pub HasNoColon : Text → Type 0
HasNoColon s = All (λ c. c ≢ b':') s

split_at_colon :
    (s t m n : Text)
    → HasNoColon s
    → HasNoColon t
    → s ++ b':' ∷ m ≡ t ++ b':' ∷ n
    → (s ≡ t) × (m ≡ n)
split_at_colon [] [] m n hs ht e = (refl, tail-eq_of_cons-eq e)
split_at_colon [] (c ∷ t) m n hs ht e = absurd (ht.0 (sym (head-eq_of_cons-eq e)))
split_at_colon (c ∷ s) [] m n hs ht e = absurd (hs.0 (head-eq_of_cons-eq e))
split_at_colon (c ∷ s) (d ∷ t) m n hs ht e =
    let (q, r) = split_at_colon s t m n hs.1 ht.1 (tail-eq_of_cons-eq e) in
    (ap₂ ◌∷◌ (head-eq_of_cons-eq e) q, r)

-- Among slugs without a colon, two buyers with the same id are of the same tenant slug and have the
-- same number.
pub buyer_id_for-injective :
    (s t m n : Text)
    → HasNoColon s
    → HasNoColon t
    → buyer_id_for s m ≡ buyer_id_for t n
    → (s ≡ t) × (m ≡ n)
unfolding buyer_id_for
buyer_id_for-injective s t m n hs ht e = split_at_colon s t m n hs ht e

-- A text of a slug's form has no colon.
pub IsSlugChar-HasNoColon : (s : Text) → All IsSlugChar s → HasNoColon s
unfolding is_slug_char
IsSlugChar-HasNoColon [] a = tt
IsSlugChar-HasNoColon (c ∷ s) a = (λ e. ground arith, IsSlugChar-HasNoColon s a.1)
