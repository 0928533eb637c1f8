-- ===== src/Scripts/Init/Questions.antt =====
-- The questions of scripts/init.py: `_ask`, `_ask_slug`, the slug that is proposed, and
-- `gather_answers`.
pub mod Slug
pub mod Proposal
use whatsapp_sales_saas_temp.Dict.{Dict}
use whatsapp_sales_saas_temp.Exec.{Exec, pure, ◌>>=◌, ◌>>◌}
use whatsapp_sales_saas_temp.Prelude.{
  Bool, List, Text, [], false, if◌then◌else◌, is_empty, leb, lit, nat_eq, not, strip, strip_chars,
  true, ℕ, ◌&&◌, ◌++◌, ◌||◌, ◌∷◌,
}
use whatsapp_sales_saas_temp.Result.{Error, Result, err, foreign, ok}
use whatsapp_sales_saas_temp.Unicode.{Unicode}

-- What `input` and `print` see: what will be typed, line by line, and what has been shown.
pub record Console : Type 0 where
  pub typed : List Text
  pub shown : List Text

abbrev pub end_of_input : Error
end_of_input = foreign (lit "EOF when reading a line")

-- `f"{prompt} [{default}]: "`, or without the default
abbrev pub question : Text → Text → Text
question prompt [] = prompt ++ lit ": "
question prompt (c ∷ s) = prompt ++ (lit " [" ++ ((c ∷ s) ++ lit "]: "))

-- `answer or default`
abbrev pub answer_or : Text → Text → Text
answer_or default [] = default
answer_or default (c ∷ s) = c ∷ s

unfoldable pub ask : Text → Text → Exec Console Text
ask prompt default c = elim (c.typed) [
  | [] ↦ (err end_of_input, record { typed = []; shown = c.shown ++ question prompt default ∷ [] })
  | l ∷ ls ↦ (
    ok (answer_or default (strip l)),
    record { typed = ls; shown = c.shown ++ question prompt default ∷ [] },
  )
]

abbrev pub is_lower : ℕ → Bool
is_lower c = leb 97 c && leb c 122

abbrev pub is_digit : ℕ → Bool
is_digit c = leb 48 c && leb c 57

abbrev pub is_package_char : ℕ → Bool
is_package_char c = is_lower c || is_digit c || nat_eq c b'_'

-- `[a-z0-9_]*$`; the `$` of Python also stands before a last newline.
unfoldable pub is_package_tail : Text → Bool
is_package_tail [] = true
is_package_tail (c ∷ s) = (is_package_char c && is_package_tail s) || (nat_eq c 10 && is_empty s)

-- `_SLUG_RE.match(value)`
unfoldable pub is_package_slug : Text → Bool
unfolding is_package_tail
is_package_slug [] = false
is_package_slug (c ∷ s) = is_lower c && is_package_tail s

abbrev pub complaint : Unicode → Text → Text
complaint u value = lit "  ! slug must match ^[a-z][a-z0-9_]*$ (got " ++ (u.repr value ++ lit ")")

-- The loop of `_ask_slug`, over the lines that will be typed.
unfoldable pub ask_slug_lines :
    Unicode → Text → Text → List Text → List Text → Result Text × Console
ask_slug_lines u prompt default [] shown =
    (err end_of_input, record { typed = []; shown = shown ++ question prompt default ∷ [] })
ask_slug_lines u prompt default (l ∷ ls) shown =
    let value = answer_or default (strip l) in
    let asked = shown ++ question prompt default ∷ [] in
    let again = ask_slug_lines u prompt default ls (asked ++ complaint u value ∷ []) in
    if is_package_slug value then (ok value, record { typed = ls; shown = asked }) else again

unfoldable pub ask_slug : Unicode → Text → Text → Exec Console Text
unfolding ask_slug_lines
ask_slug u prompt default c = ask_slug_lines u prompt default c.typed c.shown

abbrev pub is_alnum : ℕ → Bool
is_alnum c = is_lower c || is_digit c

-- `re.sub(r"[^a-z0-9]+", "_", s)`; the flag is set inside a run.
unfoldable pub underscored : Bool → Text → Text
underscored inside [] = []
underscored inside (c ∷ s) =
    let rest = underscored (not (is_alnum c)) s in
    if is_alnum c then c ∷ rest else if inside then rest else b'_' ∷ rest

abbrev pub is_underscore : ℕ → Bool
is_underscore c = nat_eq c b'_'

-- `re.sub(…, name.lower()).strip("_") or "my_project"`
unfoldable pub default_slug : Unicode → Text → Text
unfolding underscored strip_chars
default_slug u name =
    answer_or (lit "my_project") (strip_chars is_underscore (underscored false (u.lower name)))

abbrev pub AnswerDict : Type 0
AnswerDict = Dict Text

-- `gather_answers`
unfoldable pub gather_answers : Unicode → Exec Console AnswerDict
gather_answers u = do
  name ← ask (lit "Project name (display)") (lit "My Project")
  slug ← ask_slug u (lit "Package slug (a-z, 0-9, _)") (default_slug u name)
  description ← ask (lit "One-line description") (name ++ lit " — TODO")
  author ← ask (lit "Author name") []
  email ← ask (lit "Author email") []
  license ← ask (lit "License (SPDX)") (lit "MIT")
  homepage ← ask (lit "Homepage URL (GitHub repo)") []
  pure (
      (lit "project_name", name)
      ∷ (lit "project_slug", slug)
      ∷ (lit "project_description", description)
      ∷ (lit "project_author", author)
      ∷ (lit "project_email", email)
      ∷ (lit "project_license", license)
      ∷ (lit "project_homepage", homepage)
      ∷ [])
