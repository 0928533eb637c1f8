-- ===== src/Scripts/Init/Imports.antt =====
-- `_rewrite_sample_imports` of scripts/init.py. `\b` stands where the neighbours differ in being a word
-- character; the letters of the patterns are word characters, so it asks that the other neighbour is none.
use whatsapp_sales_saas_temp.Prelude.{
  Bool, List, Option, Text, [], any, drop, false, if◌then◌else◌, length, lit, map, nat_eq, none,
  not, some, starts_with, true, ℕ, ◌&&◌, ◌++◌, ◌+◌, ◌||◌, ◌∷◌,
}
use whatsapp_sales_saas_temp.Scripts.Init.Files.{File, Glob, below, glob_matches}
use whatsapp_sales_saas_temp.Sub.{Substitution, sub}
use whatsapp_sales_saas_temp.Unicode.{Unicode}

abbrev pub starts_word : Unicode → Text → Bool
starts_word u [] = false
starts_word u (c ∷ s) = u.is_word c

abbrev pub ends_word : Unicode → Option ℕ → Bool
ends_word u none = false
ends_word u (some c) = u.is_word c

-- `(?:\.\w+)*`, the longest run; the flag is set inside a name. Neither `.` nor a blank is a word
-- character, so no shorter run lets the rest of the pattern match.
unfoldable pub submodules : Unicode → Bool → Text → Text
submodules u inside [] = []
submodules u inside (c ∷ s) =
    let more = submodules u true s in
    if (inside && u.is_word c) || (nat_eq c b'.' && starts_word u s) then c ∷ more else []

-- `\bfrom sample((?:\.\w+)*) import\b`, replaced by `from <slug>\1 import`
unfoldable pub from_sample : Unicode → Text → Substitution
unfolding starts_with submodules
from_sample u slug before s =
    let a = drop 11 s in
    let path = submodules u false a in
    let b = drop (length path) a in
    if starts_with s (lit "from sample")
      && not (ends_word u before)
      && starts_with b (lit " import")
      && not (starts_word u (drop 7 b))
    then some (11 + length path + 7, lit "from " ++ (slug ++ (path ++ lit " import")))
    else none

-- `\bimport sample\b`, replaced by `import <slug>`
unfoldable pub import_sample : Unicode → Text → Substitution
unfolding starts_with
import_sample u slug before s =
    if starts_with s (lit "import sample")
      && not (ends_word u before)
      && not (starts_word u (drop 13 s))
    then some (13, lit "import " ++ slug)
    else none

abbrev pub python_globs : List Glob
python_globs =
    below (lit "src") (lit ".py")
    ∷ below (lit "services") (lit ".py")
    ∷ below (lit "tests") (lit ".py")
    ∷ below (lit "scripts") (lit ".py")
    ∷ []

-- The body of the loop over the files.
unfoldable pub rewrite_imports : Unicode → Text → Text → Text
unfolding sub from_sample import_sample
rewrite_imports u slug s = sub (import_sample u slug) (sub (from_sample u slug) s)

unfoldable pub rewrite_sample_imports : Unicode → Text → List File → List File
unfolding rewrite_imports glob_matches
rewrite_sample_imports u slug files =
    map
      (λ f.
        if any (glob_matches f.path) python_globs
        then record { path = f.path; text = rewrite_imports u slug f.text }
        else f)
      files
