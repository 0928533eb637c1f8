-- ===== src/Scripts/Init/Tree/Refused.antt =====
-- A package slug that is taken.
use whatsapp_sales_saas_temp.Dict.{lookup}
use whatsapp_sales_saas_temp.Prelude.{
  Bool-cases, List, Text, inl, inr, lit, refl, some, true, ◌==◌, ◌≡◌,
}
use whatsapp_sales_saas_temp.Result.{Result, err, ok, system_exit}
use whatsapp_sales_saas_temp.Scripts.Init.Files.{File, exists}
use whatsapp_sales_saas_temp.Scripts.Init.Placeholders.{substitute}
use whatsapp_sales_saas_temp.Scripts.Init.Questions.{AnswerDict, Console, gather_answers}
use whatsapp_sales_saas_temp.Scripts.Init.Tree.{
  Setup, main, package_dir, project_slug, refusal, rename_package, sample_dir,
}
use whatsapp_sales_saas_temp.Scripts.Init.Tree.Renamed.{is_due}
use whatsapp_sales_saas_temp.Security.LogFilter.{same}
use whatsapp_sales_saas_temp.Unicode.{Unicode}

project_slug-some :
    (answers : AnswerDict) (slug : Text)
    → lookup (lit "project_slug") answers ≡ some slug
    → project_slug answers ≡ ok slug
project_slug-some answers slug l = rw (l, project_slug) refl

rename_package-refused :
    (u : Unicode) (root slug : Text) (files : List File)
    → is_due slug files ≡ true
    → exists (package_dir slug) files ≡ true
    → rename_package u root slug files ≡ err (system_exit (refusal root slug))
unfolding rename_package
rename_package-refused u root slug files d t = elim (Bool-cases (exists sample_dir files)) [
  | inl there ↦ elim (Bool-cases (slug == lit "sample")) [
    | inl same ↦ absurd (let x = rw there at d in let y = rw same at x in cc)
    | inr other ↦ rw there (rw other (rw t refl))
  ]
  | inr gone ↦ absurd (let x = rw gone at d in cc)
]

-- Where the questions are answered, the answers name a slug, and in the tree with its placeholders filled
-- in there is a sample package and something at the slug: the script ends with `SystemExit`, and it
-- leaves behind the tree with its placeholders filled in, with the package and the history as they were.
pub main_refused :
    (u : Unicode) (root : Text) (git_init : List File → Result (List File)) (s : Setup)
    (answers : AnswerDict) (typed : Console) (slug : Text)
    → gather_answers u s.console ≡ (ok answers, typed)
    → lookup (lit "project_slug") answers ≡ some slug
    → is_due slug (substitute answers s.files) ≡ true
    → exists (package_dir slug) (substitute answers s.files) ≡ true
    → main u root git_init s ≡ (
      err (system_exit (refusal root slug)),
      record { console = typed; files = substitute answers s.files },
    )
unfolding main
main_refused u root git_init s answers typed slug a l d t = rw a (
    rw (project_slug-some answers slug l)
      (rw (rename_package-refused u root slug (substitute answers s.files) d t) refl))
