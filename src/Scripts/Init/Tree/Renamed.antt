-- ===== src/Scripts/Init/Tree/Renamed.antt =====
-- What the package's new name does to the tree.
use whatsapp_sales_saas_temp.Prelude.{
  All, Bool, List, Text, [], false, lit, map, not, ◌&&◌, ◌==◌, ◌∷◌, ◌≡◌,
}
use whatsapp_sales_saas_temp.Scripts.Init.Files.{File, RepoPath, exists, is_under}
use whatsapp_sales_saas_temp.Scripts.Init.Tree.{relocated, sample_dir}
use whatsapp_sales_saas_temp.Unicode.{Unicode}

-- No two are the same.
abbrev pub AreDistinct : List RepoPath → Type 0
AreDistinct [] = Unit
AreDistinct (p ∷ ps) = All (λ q. ¬ (p ≡ q)) ps × AreDistinct ps

abbrev pub paths : List File → List RepoPath
paths = map (λ f. f.path)

-- Nothing lies at the path.
abbrev pub IsFree : RepoPath → List File → Type 0
IsFree dir files = All (λ f. is_under dir f.path ≡ false) files

-- The files of `src/sample` are below `src/<slug>` under the same names and nothing is left behind; the
-- other paths are the same, in the same order, and no two files have come to share one.
pub record IsMoved (slug : Text) (files files' : List File) : Type 0 where
  pub moved : paths files' ≡ map (relocated slug) (paths files)
  pub distinct : AreDistinct (paths files')
  pub emptied : All (λ p. is_under sample_dir p ≡ false) (paths files')

abbrev pub move : Text → List File → List File
move slug files = map (λ f. record { path = relocated slug f.path; text = f.text }) files

-- There is a sample package, and the slug is another name.
abbrev pub is_due : Text → List File → Bool
is_due slug files = exists sample_dir files && not (slug == lit "sample")
