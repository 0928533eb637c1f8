-- ===== src/Scripts/Init/Files.antt =====
-- The repository's files for scripts/init.py, and `_candidate_files`. A path is the list of its parts
-- below the root; a file has the text that `read_text` gives. A directory is there where a file is in it.
use whatsapp_sales_saas_temp.Prelude.{
  Bool, List, Option, Text, [], any, drop, false, if◌then◌else◌, leb, length, lit, none, some, true,
  ◌&&◌, ◌-◌, ◌==◌, ◌∷◌,
}

abbrev pub RepoPath : Type 0
RepoPath = List Text

pub record File : Type 0 where
  pub path : RepoPath
  pub text : Text

unfoldable pub path_eq : RepoPath → RepoPath → Bool
path_eq [] [] = true
path_eq [] (b ∷ q) = false
path_eq (a ∷ p) [] = false
path_eq (a ∷ p) (b ∷ q) = a == b && path_eq p q

-- The path is the directory or below it.
unfoldable pub is_under : RepoPath → RepoPath → Bool
is_under [] p = true
is_under (a ∷ dir) [] = false
is_under (a ∷ dir) (b ∷ p) = b == a && is_under dir p

-- `path.exists()`
abbrev pub exists : RepoPath → List File → Bool
exists p files = any (λ f. is_under p f.path) files

-- `s.endswith(suffix)`
unfoldable pub ends_with : Text → Text → Bool
ends_with s suffix = leb (length suffix) (length s) && drop (length s - length suffix) s == suffix

-- The last part of a path that lies in the directory, at any depth.
unfoldable pub name_below : Text → RepoPath → Option Text
name_below dir [] = none
name_below dir (a ∷ []) = none
name_below dir (a ∷ b ∷ p) = if a == dir then some (last_part b p) else none
  where
    last_part : Text → RepoPath → Text
    last_part b [] = b
    last_part b (c ∷ q) = last_part c q

-- `"name"`, and `"dir/**/*suffix"`
pub data Glob : Type 0 where
  exactly : Text → Glob
  below : Text → Text → Glob

unfoldable pub glob_matches : RepoPath → Glob → Bool
unfolding path_eq ends_with name_below
glob_matches p (exactly name) = path_eq p (name ∷ [])
glob_matches p (below dir suffix) = elim (name_below dir p) [
  | none ↦ false
  | some name ↦ ends_with name suffix
]

-- `_TEXT_GLOBS`
abbrev pub text_globs : List Glob
text_globs =
    exactly (lit "pyproject.toml")
    ∷ exactly (lit "README.md")
    ∷ exactly (lit "CHARTER.md")
    ∷ exactly (lit "LICENSE")
    ∷ exactly (lit "Makefile")
    ∷ exactly (lit ".env.example")
    ∷ below (lit "src") (lit ".py")
    ∷ below (lit "services") (lit ".py")
    ∷ below (lit "tests") (lit ".py")
    ∷ below (lit "scripts") (lit ".py")
    ∷ below (lit "docs") (lit ".md")
    ∷ below (lit ".github") (lit ".yml")
    ∷ below (lit "config") (lit ".md")
    ∷ below (lit "config") (lit ".yaml")
    ∷ below (lit "services") (lit ".md")
    ∷ below (lit "infra") (lit ".md")
    ∷ below (lit "infra") (lit ".yml")
    ∷ below (lit "infra") (lit ".yaml")
    ∷ []

-- A file of `_candidate_files`: one of the patterns matches its path.
unfoldable pub is_candidate : RepoPath → Bool
unfolding glob_matches
is_candidate p = any (glob_matches p) text_globs
