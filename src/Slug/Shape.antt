-- ===== src/Slug/Shape.antt =====
-- What a slug looks like.
use whatsapp_sales_saas_temp.Prelude.{
  All, All-filter, Bool, Text, [], arith, false, filter, inl, is_empty, refl, replace_char, strip,
  strip_chars, strip_left, strip_right, true, ℕ, ◌&&◌, ◌∷◌, ◌≡◌, ◌⊎◌,
}
use whatsapp_sales_saas_temp.Slug.{
  collapse, is_hyphen, is_slug_char, or_tenant, slugify, starts_hyphen,
}
use whatsapp_sales_saas_temp.Unicode.{Unicode}

abbrev pub IsSlugChar : ℕ → Type 0
IsSlugChar c = is_slug_char c ≡ true

-- No two hyphens stand side by side.
abbrev pub HasNoHyphenPair : Text → Type 0
HasNoHyphenPair [] = Unit
HasNoHyphenPair (c ∷ s) = (is_hyphen c && starts_hyphen s ≡ false) × HasNoHyphenPair s

abbrev pub ends_hyphen : Text → Bool
ends_hyphen [] = false
ends_hyphen (c ∷ []) = is_hyphen c
ends_hyphen (c ∷ d ∷ s) = ends_hyphen (d ∷ s)

-- Lower-case ASCII letters, digits and single hyphens inside, and at least one character.
pub record IsSlug (s : Text) : Type 0 where
  pub chars : All IsSlugChar s
  pub singles : HasNoHyphenPair s
  pub first : starts_hyphen s ≡ false
  pub last : ends_hyphen s ≡ false
  pub filled : is_empty s ≡ false

starts_hyphen-collapse : (s : Text) → starts_hyphen (collapse s) ≡ starts_hyphen s
unfolding collapse
starts_hyphen-collapse [] = refl
starts_hyphen-collapse (c ∷ s) = ground (arith, starts_hyphen-collapse s)

collapse-HasNoHyphenPair : (s : Text) → HasNoHyphenPair (collapse s)
unfolding collapse
collapse-HasNoHyphenPair [] = tt
collapse-HasNoHyphenPair (c ∷ s) =
    ground (arith, collapse-HasNoHyphenPair s, starts_hyphen-collapse s)

collapse-All : (s : Text) → All IsSlugChar s → All IsSlugChar (collapse s)
unfolding collapse
collapse-All [] h = tt
collapse-All (c ∷ s) h = ground (arith, collapse-All s h.1)

strip_left-IsSlug :
    (s : Text)
    → All IsSlugChar s
    → HasNoHyphenPair s
    → All IsSlugChar (strip_left is_hyphen s)
      × HasNoHyphenPair (strip_left is_hyphen s)
      × (starts_hyphen (strip_left is_hyphen s) ≡ false)
unfolding strip_left
strip_left-IsSlug [] a h = (tt, tt, refl)
strip_left-IsSlug (c ∷ s) a h = ground (arith, strip_left-IsSlug s a.1 h.1)

starts_hyphen-strip_right :
    (s : Text) → starts_hyphen s ≡ false → starts_hyphen (strip_right is_hyphen s) ≡ false
unfolding strip_right
starts_hyphen-strip_right [] h = refl
starts_hyphen-strip_right (c ∷ s) h = ground arith

strip_right-head :
    (s : Text)
    → (strip_right is_hyphen s ≡ []) ⊎ (starts_hyphen (strip_right is_hyphen s) ≡ starts_hyphen s)
unfolding strip_right
strip_right-head [] = inl refl
strip_right-head (c ∷ s) = ground arith

ends_hyphen-cons : (c : ℕ) (t : Text) → is_empty t ≡ false → ends_hyphen (c ∷ t) ≡ ends_hyphen t
ends_hyphen-cons c [] h = cc
ends_hyphen-cons c (d ∷ t) h = refl

strip_right-IsSlug :
    (s : Text)
    → All IsSlugChar s
    → HasNoHyphenPair s
    → All IsSlugChar (strip_right is_hyphen s)
      × HasNoHyphenPair (strip_right is_hyphen s)
      × (ends_hyphen (strip_right is_hyphen s) ≡ false)
unfolding strip_right
strip_right-IsSlug [] a h = (tt, tt, refl)
strip_right-IsSlug (c ∷ s) a h = ground (
  arith,
  strip_right-IsSlug s a.1 h.1,
  strip_right-head s,
  ends_hyphen-cons c (strip_right is_hyphen s),
)

or_tenant-IsSlug :
    (s : Text)
    → All IsSlugChar s
    → HasNoHyphenPair s
    → starts_hyphen s ≡ false
    → ends_hyphen s ≡ false
    → IsSlug (or_tenant s)
unfolding or_tenant is_slug_char
or_tenant-IsSlug [] a h f l = record {
  chars = ground arith;
  singles = ground arith;
  first = refl;
  last = refl;
  filled = refl;
}
or_tenant-IsSlug (c ∷ s) a h f l = record {
  chars = a;
  singles = h;
  first = f;
  last = l;
  filled = refl;
}

strip_chars-IsSlug :
    (s : Text) → All IsSlugChar s → HasNoHyphenPair s → IsSlug (or_tenant (strip_chars is_hyphen s))
unfolding strip_chars
strip_chars-IsSlug s a h =
    let (chars, singles, first) = strip_left-IsSlug s a h in
    let t = strip_left is_hyphen s in
    let (chars', singles', last) = strip_right-IsSlug t chars singles in
    or_tenant-IsSlug (strip_right is_hyphen t) chars' singles' (starts_hyphen-strip_right t first)
      last

-- Whatever the business name, and whatever the case tables do outside ASCII, its slug is not empty,
-- holds only a-z, 0-9 and hyphens, neither begins nor ends with a hyphen and has no two in a row.
pub slugify-IsSlug : (u : Unicode) (name : Text) → IsSlug (slugify u name)
unfolding slugify
slugify-IsSlug u name =
    let base = filter is_slug_char (replace_char b' ' b'-' (u.lower (strip name))) in
    strip_chars-IsSlug (collapse base)
      (collapse-All base
        (All-filter is_slug_char (λ c h. h) (replace_char b' ' b'-' (u.lower (strip name)))))
      (collapse-HasNoHyphenPair base)
