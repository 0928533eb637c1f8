-- ===== src/Skills/Params.antt =====
-- How a skill reads a parameter that is a string.
use whatsapp_sales_saas_temp.Prelude.{Text, [], refl, ◌∷◌, ◌≡◌}
use whatsapp_sales_saas_temp.Result.{ok}
use whatsapp_sales_saas_temp.Skills.{text_or}
use whatsapp_sales_saas_temp.Value.{str}

pub text_or-str : (t m : Text) → text_or t [] (str m) ≡ ok m
unfolding text_or
text_or-str t [] = refl
text_or-str t (c ∷ m) = refl
