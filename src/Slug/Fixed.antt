-- ===== src/Slug/Fixed.antt =====
-- A slug is its own slug.
use whatsapp_sales_saas_temp.Prelude.{
  All, Bool, Text, [], arith, false, filter, is_empty, is_space, map, refl, replace_char, strip,
  strip_chars, strip_left, strip_right, ℕ, ◌∙◌, ◌∷◌, ◌≡◌,
}
use whatsapp_sales_saas_temp.Slug.{
  collapse, is_hyphen, is_slug_char, or_tenant, slugify, starts_hyphen,
}
use whatsapp_sales_saas_temp.Slug.Shape.{
  HasNoHyphenPair, IsSlug, IsSlugChar, ends_hyphen, slugify-IsSlug,
}
use whatsapp_sales_saas_temp.Unicode.{IsAscii, Unicode, ascii_lower}

map-ascii_lower : (s : Text) → All IsSlugChar s → map ascii_lower s ≡ s
unfolding is_slug_char
map-ascii_lower [] a = refl
map-ascii_lower (c ∷ s) a = ground (arith, map-ascii_lower s a.1)

IsAscii-of_slug : (s : Text) → All IsSlugChar s → All IsAscii s
unfolding is_slug_char
IsAscii-of_slug [] a = tt
IsAscii-of_slug (c ∷ s) a = (ground arith, IsAscii-of_slug s a.1)

not-space : (c : ℕ) → IsSlugChar c → is_space c ≡ false
unfolding is_slug_char is_space
not-space c h = ground arith

replace_char-slug : (s : Text) → All IsSlugChar s → replace_char b' ' b'-' s ≡ s
unfolding is_slug_char replace_char
replace_char-slug [] a = refl
replace_char-slug (c ∷ s) a = ground (arith, replace_char-slug s a.1)

filter-slug : (s : Text) → All IsSlugChar s → filter is_slug_char s ≡ s
filter-slug [] a = refl
filter-slug (c ∷ s) a = ground (arith, filter-slug s a.1)

collapse-slug : (s : Text) → HasNoHyphenPair s → collapse s ≡ s
unfolding collapse
collapse-slug [] h = refl
collapse-slug (c ∷ s) h = ground (arith, collapse-slug s h.1)

-- Nothing is stripped where no character passes the test.
strip_right_clean : (p : ℕ → Bool) (s : Text) → All (λ d. p d ≡ false) s → strip_right p s ≡ s
unfolding strip_right
strip_right_clean p [] h = refl
strip_right_clean p (c ∷ s) h = ground (arith, strip_right_clean p s h.1)

strip_left_clean : (p : ℕ → Bool) (s : Text) → All (λ d. p d ≡ false) s → strip_left p s ≡ s
unfolding strip_left
strip_left_clean p [] h = refl
strip_left_clean p (c ∷ s) h = ground arith

All-not-space : (s : Text) → All IsSlugChar s → All (λ c. is_space c ≡ false) s
All-not-space [] a = tt
All-not-space (c ∷ s) a = (not-space c a.0, All-not-space s a.1)

strip-slug : (s : Text) → All IsSlugChar s → strip s ≡ s
unfolding strip
strip-slug s a =
    let h = All-not-space s a in rw (strip_left_clean is_space s h) (strip_right_clean is_space s h)

strip_right-slug : (s : Text) → ends_hyphen s ≡ false → strip_right is_hyphen s ≡ s
unfolding strip_right
strip_right-slug [] l = refl
strip_right-slug (c ∷ []) l = ground arith
strip_right-slug (c ∷ d ∷ s) l = ground (arith, strip_right-slug (d ∷ s) l)

strip_left-slug : (s : Text) → starts_hyphen s ≡ false → strip_left is_hyphen s ≡ s
unfolding strip_left
strip_left-slug [] f = refl
strip_left-slug (c ∷ s) f = ground arith

or_tenant-slug : (s : Text) → is_empty s ≡ false → or_tenant s ≡ s
unfolding or_tenant
or_tenant-slug [] h = cc
or_tenant-slug (c ∷ s) h = refl

-- A text of a slug's form is its own slug.
pub slugify-slug : (u : Unicode) (s : Text) → IsSlug s → slugify u s ≡ s
unfolding slugify
slugify-slug u s h =
    let a = h.chars in
    let lowered : u.lower s ≡ s = u.lower_ascii s (IsAscii-of_slug s a) ∙ map-ascii_lower s a in
    rw (strip-slug s a, lowered, replace_char-slug s a, filter-slug s a, collapse-slug s h.singles)
      (unfold strip_chars in
        rw (strip_left-slug s h.first, strip_right-slug s h.last) (or_tenant-slug s h.filled))

-- Making a slug of a slug changes nothing.
slugify_idempotent : (u : Unicode) (name : Text) → slugify u (slugify u name) ≡ slugify u name
slugify_idempotent u name = slugify-slug u (slugify u name) (slugify-IsSlug u name)
