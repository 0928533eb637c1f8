-- ===== src/Tests/Setup.antt =====
-- A small repository to set up, and what is typed.
use whatsapp_sales_saas_temp.Dict.{Dict, lookup}
use whatsapp_sales_saas_temp.Prelude.{
  All, List, Text, [], arith, false, is_space, lit, refl, some, starts_with, strip, strip_chars,
  strip_left, strip_right, true, ◌++◌, ◌==◌, ◌∷◌, ◌≡◌,
}
use whatsapp_sales_saas_temp.Result.{err, ok, system_exit}
use whatsapp_sales_saas_temp.Scripts.Init.Files.{
  File, ends_with, exists, glob_matches, is_candidate, is_under, name_below, path_eq,
}
use whatsapp_sales_saas_temp.Scripts.Init.Imports.{
  from_sample, import_sample, rewrite_imports, submodules,
}
use whatsapp_sales_saas_temp.Scripts.Init.Placeholders.{
  front, placeholder, placeholder_at, substitute, substituted,
}
use whatsapp_sales_saas_temp.Scripts.Init.Placeholders.Filled.{
  IsPiece, Piece, filled, hole, plain_text, substituted-written, written,
}
use whatsapp_sales_saas_temp.Scripts.Init.Questions.{
  AnswerDict, Console, answer_or, ask, ask_slug, ask_slug_lines, default_slug, gather_answers,
  is_package_slug, is_package_tail, question, underscored,
}
use whatsapp_sales_saas_temp.Scripts.Init.Questions.Proposal.{IsProposal, default_slug-IsProposal}
use whatsapp_sales_saas_temp.Scripts.Init.Questions.Slug.{AllRefused, ask_slug_first, refusals}
use whatsapp_sales_saas_temp.Scripts.Init.Tree.{Setup, main, package_dir, refusal}
use whatsapp_sales_saas_temp.Scripts.Init.Tree.Refused.{main_refused}
use whatsapp_sales_saas_temp.Scripts.Init.Tree.Renamed.{is_due}
use whatsapp_sales_saas_temp.Sub.{sub, sub_from}
use whatsapp_sales_saas_temp.Unicode.{ascii}

abbrev prompt : Text
prompt = lit "Package slug (a-z, 0-9, _)"

abbrev refused_lines : List Text
refused_lines = lit "3D" ∷ lit "My Shop" ∷ []

all_refused : AllRefused (lit "my_shop") refused_lines
unfolding strip strip_chars strip_left strip_right is_space is_package_slug is_package_tail
all_refused = (refl, (refl, tt))

good_line : is_package_slug (answer_or (lit "my_shop") (strip (lit " shop_3 "))) ≡ true
unfolding strip strip_chars strip_left strip_right is_space is_package_slug is_package_tail
good_line = refl

ask_slug_first_example :
    ask_slug ascii prompt
      (lit "my_shop")
      (record { typed = refused_lines ++ lit " shop_3 " ∷ lit "next" ∷ []; shown = [] })
    ≡ (
      ok (answer_or (lit "my_shop") (strip (lit " shop_3 "))),
      record {
        typed = lit "next" ∷ [];
        shown =
            []
            ++ (refusals ascii prompt (lit "my_shop") refused_lines
                ++ question prompt (lit "my_shop") ∷ []);
      },
    )
ask_slug_first_example =
    ask_slug_first ascii prompt (lit "my_shop") refused_lines (lit " shop_3 ") (lit "next" ∷ []) []
      all_refused good_line

default_slug-IsProposal_example : IsProposal (default_slug ascii (lit "My 3D Shop!"))
default_slug-IsProposal_example = default_slug-IsProposal ascii (lit "My 3D Shop!")

default_slug_run : default_slug ascii (lit "My 3D Shop!") ≡ lit "my_3d_shop"
unfolding default_slug underscored strip_chars strip_left strip_right
default_slug_run = refl

-- The proposal may be no package slug: the loop then refuses it.
digit_refused : is_package_slug (default_slug ascii (lit "3D Shop")) ≡ false
unfolding default_slug underscored strip_chars strip_left strip_right is_package_slug
digit_refused = refl

abbrev answers : Dict Text
answers = (lit "project_slug", lit "shop") ∷ []

abbrev pieces : List Piece
pieces =
    plain_text (lit "name = ")
    ∷ hole (lit " ") (lit "project_slug") (lit " ")
    ∷ plain_text (lit " by ")
    ∷ hole [] (lit "author") []
    ∷ []

pieces-IsPiece : All IsPiece pieces
unfolding is_space
pieces-IsPiece = ground arith

substituted-written_example : substituted answers (written pieces) ≡ filled answers pieces
substituted-written_example = substituted-written answers pieces pieces-IsPiece

filled_run : filled answers pieces ≡ lit "name = shop by {{author}}"
unfolding lookup ◌==◌
filled_run = refl

abbrev tree : List File
tree =
    record { path = lit "README.md" ∷ []; text = [] }
    ∷ record {
      path = lit "src" ∷ lit "sample" ∷ lit "cli.py" ∷ [];
      text = lit "from sample.client import Client";
    }
    ∷ []

imports_run :
    rewrite_imports ascii (lit "shop") (lit "from sample.client import Client")
    ≡ lit "from shop.client import Client"
unfolding rewrite_imports sub sub_from from_sample import_sample starts_with submodules
imports_run = refl

-- The name and the slug are typed, and empty lines for the rest; the slug is taken.
abbrev typed_lines : List Text
typed_lines = lit "My Shop" ∷ lit "shop" ∷ [] ∷ [] ∷ [] ∷ [] ∷ [] ∷ []

abbrev started : Setup
started = record {
  console = record { typed = typed_lines; shown = [] };
  files =
      record { path = lit "README.md" ∷ []; text = lit "{{ project_slug }}" }
      ∷ record { path = lit "src" ∷ lit "sample" ∷ lit "a.txt" ∷ []; text = [] }
      ∷ record { path = lit "src" ∷ lit "shop" ∷ lit "b.txt" ∷ []; text = [] }
      ∷ [];
}

abbrev given : AnswerDict
given =
    (lit "project_name", lit "My Shop")
    ∷ (lit "project_slug", lit "shop")
    ∷ (lit "project_description", lit "My Shop — TODO")
    ∷ (lit "project_author", [])
    ∷ (lit "project_email", [])
    ∷ (lit "project_license", lit "MIT")
    ∷ (lit "project_homepage", [])
    ∷ []

abbrev asked : Console
asked = record {
  typed = [];
  shown =
      lit "Project name (display) [My Project]: "
      ∷ lit "Package slug (a-z, 0-9, _) [my_shop]: "
      ∷ lit "One-line description [My Shop — TODO]: "
      ∷ lit "Author name: "
      ∷ lit "Author email: "
      ∷ lit "License (SPDX) [MIT]: "
      ∷ lit "Homepage URL (GitHub repo): "
      ∷ [];
}

given_run : gather_answers ascii started.console ≡ (ok given, asked)
unfolding gather_answers ask ask_slug ask_slug_lines default_slug underscored strip strip_chars
    strip_left strip_right is_space is_package_slug is_package_tail
given_run = refl

slug_given : lookup (lit "project_slug") given ≡ some (lit "shop")
unfolding lookup ◌==◌
slug_given = refl

due : is_due (lit "shop") (substitute given started.files) ≡ true
unfolding substitute is_candidate glob_matches path_eq ends_with name_below is_under ◌==◌
due = refl

slug_taken : exists (package_dir (lit "shop")) (substitute given started.files) ≡ true
unfolding substitute is_candidate glob_matches path_eq ends_with name_below is_under ◌==◌
slug_taken = refl

main_refused_example : main ascii (lit "/repo") ok started ≡ (
  err (system_exit (refusal (lit "/repo") (lit "shop"))),
  record { console = asked; files = substitute given started.files },
)
main_refused_example =
    main_refused ascii (lit "/repo") ok started given asked (lit "shop") given_run slug_given due
      slug_taken

readme_rewritten : substituted given (lit "{{ project_slug }}") ≡ lit "shop"
unfolding substituted sub sub_from placeholder placeholder_at front starts_with is_space lookup ◌==◌
readme_rewritten = refl
