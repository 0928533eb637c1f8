-- ===== src/Api/Service/Origins.antt =====
-- The list of origins and its printed form.
use whatsapp_sales_saas_temp.Api.Service.{origins, split_at}
use whatsapp_sales_saas_temp.Prelude.{
  All, List, Text, [], ap, false, filter, is_empty, join, lit, map, nat_eq, not, refl, strip,
  strip_chars, strip_left, strip_right, true, ℕ, ◌++◌, ◌∙◌, ◌∷◌, ◌≡◌,
}

-- No comma, no white space around it, and not empty.
pub record IsOrigin (o : Text) : Type 0 where
  pub no_comma : All (λ c. nat_eq c b',' ≡ false) o
  pub trimmed : strip o ≡ o
  pub filled : is_empty o ≡ false

split_at-plain : (sep : ℕ) (s : Text) → All (λ c. nat_eq c sep ≡ false) s → split_at sep s ≡ s ∷ []
unfolding split_at
split_at-plain sep [] h = refl
split_at-plain sep (c ∷ s) h = rw h.0 (rw (split_at-plain sep s h.1) refl)

split_at-append :
    (sep : ℕ) (s rest : Text)
    → All (λ c. nat_eq c sep ≡ false) s
    → nat_eq sep sep ≡ true
    → split_at sep (s ++ sep ∷ rest) ≡ s ∷ split_at sep rest
unfolding split_at
split_at-append sep [] rest h e = rw e refl
split_at-append sep (c ∷ s) rest h e = rw h.0 (rw (split_at-append sep s rest h.1 e) refl)

split_at-join :
    (o : Text) (os : List Text)
    → All IsOrigin (o ∷ os)
    → split_at b',' (join (lit ",") (o ∷ os)) ≡ o ∷ os
unfolding join
split_at-join o [] h = split_at-plain b',' o (h.0).no_comma
split_at-join o (p ∷ os) h =
    split_at-append b',' o (join (lit ",") (p ∷ os)) (h.0).no_comma refl
    ∙ ap (◌∷◌ o) (split_at-join p os h.1)

map-strip : (os : List Text) → All IsOrigin os → filter (λ o. not (is_empty o)) (map strip os) ≡ os
map-strip [] h = refl
map-strip (o ∷ os) h = rw (h.0).trimmed (rw (h.0).filled (ap (◌∷◌ o) (map-strip os h.1)))

-- Origins without commas, white space around them or empty ones, written one after the other with commas
-- between: the list that is read is the list that was written.
origins-join : (os : List Text) → All IsOrigin os → origins (join (lit ",") os) ≡ os
unfolding origins split_at strip strip_chars strip_left strip_right join
origins-join [] h = refl
origins-join (o ∷ os) h = rw (split_at-join o os h) (map-strip (o ∷ os) h)
