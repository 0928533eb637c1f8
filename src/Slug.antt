-- ===== src/Slug.antt =====
-- `slugify` of src/sample/onboarding/flow.py. The patterns `[^a-z0-9-]+` and `-{2,}` are a filter
-- and a pass that drops each hyphen before another one.
pub mod Shape
pub mod Fixed
pub mod Unique
use whatsapp_sales_saas_temp.Prelude.{
  Bool, Text, [], false, filter, if◌then◌else◌, is_space, leb, lit, nat_eq, replace_char, strip,
  strip_chars, strip_left, strip_right, ℕ, ◌&&◌, ◌||◌, ◌∷◌,
}
use whatsapp_sales_saas_temp.Unicode.{Unicode}

unfoldable pub is_slug_char : ℕ → Bool
is_slug_char c = (leb b'a' c && leb c b'z') || (leb b'0' c && leb c b'9') || nat_eq c b'-'

abbrev pub is_hyphen : ℕ → Bool
is_hyphen c = nat_eq c b'-'

abbrev pub starts_hyphen : Text → Bool
starts_hyphen [] = false
starts_hyphen (c ∷ s) = is_hyphen c

unfoldable pub collapse : Text → Text
collapse [] = []
collapse (c ∷ s) =
    let rest = collapse s in if is_hyphen c && starts_hyphen s then rest else c ∷ rest

-- `base or "tenant"`
unfoldable pub or_tenant : Text → Text
or_tenant [] = lit "tenant"
or_tenant (c ∷ s) = c ∷ s

unfoldable pub slugify : Unicode → Text → Text
unfolding is_slug_char collapse or_tenant strip is_space strip_chars strip_left strip_right
    replace_char
slugify u name =
    let base = replace_char b' ' b'-' (u.lower (strip name)) in
    or_tenant (strip_chars is_hyphen (collapse (filter is_slug_char base)))
