-- ===== src/Scripts/Init/Tree.antt =====
-- `rename_package`, `reset_git_history`, `self_destruct` and `main` of scripts/init.py. `git init` is
-- git's, a parameter.
pub mod Renamed
pub mod Refused
use whatsapp_sales_saas_temp.Dict.{lookup}
use whatsapp_sales_saas_temp.Exec.{Exec, gets, lift, pure, raise, within, ◌>>=◌, ◌>>◌}
use whatsapp_sales_saas_temp.Prelude.{
  List, Text, [], any, filter, if◌then◌else◌, lit, map, none, not, some, ℕ, ◌&&◌, ◌++◌, ◌==◌, ◌∷◌,
}
use whatsapp_sales_saas_temp.Result.{Error, Result, err, foreign, key_error, ok, system_exit}
use whatsapp_sales_saas_temp.Scripts.Init.Files.{File, RepoPath, exists, is_under, path_eq}
use whatsapp_sales_saas_temp.Scripts.Init.Imports.{rewrite_sample_imports}
use whatsapp_sales_saas_temp.Scripts.Init.Placeholders.{substitute}
use whatsapp_sales_saas_temp.Scripts.Init.Questions.{AnswerDict, Console, gather_answers}
use whatsapp_sales_saas_temp.Unicode.{Unicode}
use whatsapp_sales_saas_temp.Whatsapp.Gateway.{text}

abbrev pub sample_dir : RepoPath
sample_dir = lit "src" ∷ lit "sample" ∷ []

abbrev pub package_dir : Text → RepoPath
package_dir slug = lit "src" ∷ slug ∷ []

-- Where `old.rename(new)` leaves a file.
unfoldable pub relocated : Text → RepoPath → RepoPath
relocated slug [] = []
relocated slug (a ∷ []) = a ∷ []
relocated slug (a ∷ b ∷ p) =
    if a == lit "src" && b == lit "sample" then lit "src" ∷ slug ∷ p else a ∷ b ∷ p

abbrev pub refusal : Text → Text → Text
refusal root slug =
    lit "refusing to overwrite "
    ++ (root ++ (lit "/src/" ++ (slug ++ lit " -- pick another slug or remove it")))

-- `root` is the path of the repository.
unfoldable pub rename_package : Unicode → Text → Text → List File → Result (List File)
unfolding relocated rewrite_sample_imports is_under
rename_package u root slug files =
    if not (exists sample_dir files)
    then ok files
    else if slug == lit "sample"
    then ok files
    else if exists (package_dir slug) files
    then err (system_exit (refusal root slug))
    else ok (
        rewrite_sample_imports u slug
          (map (λ f. record { path = relocated slug f.path; text = f.text }) files))

-- What the script reads and writes.
pub record Setup : Type 0 where
  pub console : Console
  pub files : List File

abbrev pub put_files : List File → Exec Setup Unit
put_files files s = (ok tt, record { console = s.console; files = files })

abbrev pub ask_all : Unicode → Exec Setup AnswerDict
ask_all u =
    within (λ s. s.console) (λ c s. record { console = c; files = s.files }) (gather_answers u)

-- `git_init` is `git init -b main` in the root: the files afterwards, or `CalledProcessError`.
unfoldable pub reset_git_history : (List File → Result (List File)) → Exec Setup Unit
reset_git_history git_init = do
  files ← gets (λ s. filter (λ f. not (is_under (lit ".git" ∷ []) f.path)) s.files)
  put_files files
  new ← lift (git_init files)
  put_files new

abbrev pub script_path : RepoPath
script_path = lit "scripts" ∷ lit "init.py" ∷ []

abbrev pub no_script : Error
no_script = foreign (lit "No such file or directory")

unfoldable pub self_destruct : Exec Setup Unit
self_destruct = do
  files ← gets (λ s. s.files)
  if any (λ f. path_eq f.path script_path) files
      then put_files (filter (λ f. not (path_eq f.path script_path)) files)
      else raise no_script

abbrev pub project_slug : AnswerDict → Result Text
project_slug answers = elim (lookup (lit "project_slug") answers) [
  | none ↦ err (key_error (lit "project_slug"))
  | some slug ↦ ok slug
]

unfoldable pub main : Unicode → Text → (List File → Result (List File)) → Exec Setup ℕ
main u root git_init = do
  answers ← ask_all u
  files ← gets (λ s. s.files)
  put_files (substitute answers files)
  slug ← lift (project_slug answers)
  files ← gets (λ s. s.files)
  renamed ← lift (rename_package u root slug files)
  put_files renamed
  reset_git_history git_init
  self_destruct
  pure 0
