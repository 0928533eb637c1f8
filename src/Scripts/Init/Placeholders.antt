-- ===== src/Scripts/Init/Placeholders.antt =====
-- The placeholders of scripts/init.py and `substitute`. The order in which files are rewritten, and what
-- is printed of it, are left out.
pub mod Filled
use whatsapp_sales_saas_temp.Dict.{Dict, lookup}
use whatsapp_sales_saas_temp.Prelude.{
  Bool, List, Option, Text, [], drop, if◌then◌else◌, is_empty, is_space, leb, length, lit, map,
  nat_eq, none, not, some, starts_with, take, ℕ, ◌&&◌, ◌+◌, ◌||◌, ◌∷◌,
}
use whatsapp_sales_saas_temp.Scripts.Init.Files.{File, is_candidate}
use whatsapp_sales_saas_temp.Security.Base64.{more}
use whatsapp_sales_saas_temp.Sub.{Substitution, sub}
use whatsapp_sales_saas_temp.Whatsapp.Gateway.{text}

abbrev pub is_name_char : ℕ → Bool
is_name_char c = (leb b'a' c && leb c b'z') || nat_eq c b'_'

-- The longest front of a text that passes the test.
unfoldable pub front : (ℕ → Bool) → Text → Text
front p [] = []
front p (c ∷ s) = let more = front p s in if p c then c ∷ more else []

-- `\{\{\s*([a-z_]+)\s*\}\}` where it matches: the name, and the number of characters. White
-- space, the letters of a name and braces are different characters, so the longest runs are the only ones.
unfoldable pub placeholder_at : Text → Option (Text × ℕ)
unfolding starts_with front
placeholder_at s =
    let a = drop 2 s in
    let before = front is_space a in
    let b = drop (length before) a in
    let name = front is_name_char b in
    let c = drop (length name) b in
    let after = front is_space c in
    if starts_with s (lit "{{")
      && not (is_empty name)
      && starts_with (drop (length after) c) (lit "}}")
    then some (name, 2 + length before + length name + length after + 2)
    else none

-- `d.get(k, default)`
abbrev pub or_written {ℓ} : {A : Type ℓ} → A → Option A → A
or_written default none = default
or_written default (some v) = v

-- `lambda m: answers.get(m.group(1), m.group(0))`
unfoldable pub placeholder : Dict Text → Substitution
unfolding placeholder_at
placeholder answers before s = elim (placeholder_at s) [
  | none ↦ none
  | some (name, n) ↦ some (n, or_written (take n s) (lookup name answers))
]

unfoldable pub substituted : Dict Text → Text → Text
unfolding sub placeholder
substituted answers s = sub (placeholder answers) s

unfoldable pub substitute : Dict Text → List File → List File
unfolding substituted is_candidate
substitute answers files =
    map
      (λ f.
        if is_candidate f.path
        then record { path = f.path; text = substituted answers f.text }
        else f)
      files
