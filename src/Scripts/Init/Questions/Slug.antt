-- ===== src/Scripts/Init/Questions/Slug.antt =====
-- Which slug the loop of scripts/init.py takes.
-- The lines that are typed before a good one, each of which is refused.
use whatsapp_sales_saas_temp.Prelude.{
  All, List, Text, [], append_assoc, false, refl, strip, true, ◌++◌, ◌∙◌, ◌∷◌, ◌≡◌,
}
use whatsapp_sales_saas_temp.Result.{ok}
use whatsapp_sales_saas_temp.Scripts.Init.Questions.{
  answer_or, ask_slug, ask_slug_lines, complaint, is_package_slug, question,
}
use whatsapp_sales_saas_temp.Unicode.{Unicode}

abbrev pub AllRefused : Text → List Text → Type 0
AllRefused default ls = All (λ l. is_package_slug (answer_or default (strip l)) ≡ false) ls

-- What is shown for refused lines: the question and the complaint, for each.
abbrev pub refusals : Unicode → Text → Text → List Text → List Text
refusals u prompt default [] = []
refusals u prompt default (l ∷ ls) =
    question prompt default
    ∷ complaint u (answer_or default (strip l))
    ∷ refusals u prompt default ls

ask_slug_lines-first :
    (u : Unicode) (prompt default : Text) (before : List Text) (good : Text) (after : List Text)
    (shown : List Text)
    → AllRefused default before
    → is_package_slug (answer_or default (strip good)) ≡ true
    → ask_slug_lines u prompt default (before ++ good ∷ after) shown ≡ (
      ok (answer_or default (strip good)),
      record {
        typed = after;
        shown = shown ++ (refusals u prompt default before ++ question prompt default ∷ []);
      },
    )
unfolding ask_slug_lines
ask_slug_lines-first u prompt default [] good after shown r g = rw g refl
ask_slug_lines-first u prompt default (l ∷ before) good after shown r g =
    let value = answer_or default (strip l) in
    let asked = shown ++ question prompt default ∷ [] in
    rw r.0 (
      ask_slug_lines-first u prompt default before good after (asked ++ complaint u value ∷ []) r.1
        g
      ∙ simp append_assoc)

-- However many lines are refused first, the loop ends at the first line that is a package slug, or that
-- is blank where the default is one: it returns that slug, has shown a question for each line and a
-- complaint for each refused one, and leaves the later lines untouched.
pub ask_slug_first :
    (u : Unicode) (prompt default : Text) (before : List Text) (good : Text) (after : List Text)
    (shown : List Text)
    → AllRefused default before
    → is_package_slug (answer_or default (strip good)) ≡ true
    → ask_slug u prompt default (record { typed = before ++ good ∷ after; shown = shown }) ≡ (
      ok (answer_or default (strip good)),
      record {
        typed = after;
        shown = shown ++ (refusals u prompt default before ++ question prompt default ∷ []);
      },
    )
unfolding ask_slug
ask_slug_first u prompt default before good after shown r g =
    ask_slug_lines-first u prompt default before good after shown r g
