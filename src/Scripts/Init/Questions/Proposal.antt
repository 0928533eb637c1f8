-- ===== src/Scripts/Init/Questions/Proposal.antt =====
-- The slug that scripts/init.py proposes for a name.
use whatsapp_sales_saas_temp.Prelude.{
  All, Bool, Text, [], any, arith, false, inl, is_empty, lit, not, refl, strip_chars, strip_left,
  strip_right, take, true, ℕ, ◌∷◌, ◌≡◌, ◌⊎◌,
}
use whatsapp_sales_saas_temp.Scripts.Init.Questions.{
  answer_or, default_slug, is_alnum, is_digit, is_package_char, is_package_slug, is_package_tail,
  is_underscore, underscored,
}
use whatsapp_sales_saas_temp.Unicode.{Unicode}

abbrev pub IsPackageChar : ℕ → Type 0
IsPackageChar c = is_package_char c ≡ true

-- An underscore does not come first.
abbrev pub starts_underscore : Text → Bool
starts_underscore [] = false
starts_underscore (c ∷ s) = is_underscore c

-- A text of package characters that is a package slug, unless it begins with a digit.
pub record IsProposal (s : Text) : Type 0 where
  pub chars : All IsPackageChar s
  pub filled : is_empty s ≡ false
  pub starts_well : (is_package_slug s ≡ true) ⊎ (any is_digit (take 1 s) ≡ true)

underscored-All : (inside : Bool) (s : Text) → All IsPackageChar (underscored inside s)
unfolding underscored
underscored-All inside [] = tt
underscored-All inside (c ∷ s) = ground (arith, underscored-All (not (is_alnum c)) s)

strip_left-starts :
    (s : Text)
    → All IsPackageChar s
    → All IsPackageChar (strip_left is_underscore s)
      × (starts_underscore (strip_left is_underscore s) ≡ false)
unfolding strip_left
strip_left-starts [] a = (tt, refl)
strip_left-starts (c ∷ s) a = ground (arith, strip_left-starts s a.1)

strip_right-All : (s : Text) → All IsPackageChar s → All IsPackageChar (strip_right is_underscore s)
unfolding strip_right
strip_right-All [] a = tt
strip_right-All (c ∷ s) a = ground (arith, strip_right-All s a.1)

starts-strip_right :
    (s : Text)
    → starts_underscore s ≡ false
    → starts_underscore (strip_right is_underscore s) ≡ false
unfolding strip_right
starts-strip_right [] h = refl
starts-strip_right (c ∷ s) h = ground arith

is_package_tail-All : (s : Text) → All IsPackageChar s → is_package_tail s ≡ true
unfolding is_package_tail
is_package_tail-All [] a = refl
is_package_tail-All (c ∷ s) a = rw (a.0, is_package_tail-All s a.1) refl

answer_or-IsProposal :
    (s : Text)
    → All IsPackageChar s
    → starts_underscore s ≡ false
    → IsProposal (answer_or (lit "my_project") s)
unfolding is_package_slug is_package_tail
answer_or-IsProposal [] a h = record { chars = ground arith; filled = refl; starts_well = inl refl }
answer_or-IsProposal (c ∷ s) a h = record {
  chars = a;
  filled = refl;
  starts_well = ground (arith, is_package_tail-All s a.1);
}

-- The proposed slug, whatever the name: package characters only, and a package slug unless it begins
-- with a digit.
pub default_slug-IsProposal : (u : Unicode) (name : Text) → IsProposal (default_slug u name)
unfolding default_slug strip_chars
default_slug-IsProposal u name =
    let joined = underscored false (u.lower name) in
    let (chars, well) = strip_left-starts joined (underscored-All false (u.lower name)) in
    let rest = strip_left is_underscore joined in
    answer_or-IsProposal (strip_right is_underscore rest) (strip_right-All rest chars)
      (starts-strip_right rest well)
