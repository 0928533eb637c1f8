-- ===== src/Unicode.antt =====
-- What the program takes from Python's Unicode tables, and what `repr` and `str` print: the
-- interpreter's data, so a parameter of the model. The two laws are the documented behaviour on
-- ASCII; `ascii` is an instance, for tests.
use whatsapp_sales_saas_temp.Prelude.{
  All, Bool, Text, if◌then◌else◌, leb, lit, map, nat_eq, refl, ℕ, ◌&&◌, ◌++◌, ◌+◌, ◌-◌, ◌<◌, ◌||◌,
  ◌≡◌,
}
use whatsapp_sales_saas_temp.Value.{Value}

abbrev pub IsAscii : ℕ → Type 0
IsAscii c = c < 128

abbrev pub ascii_lower : ℕ → ℕ
ascii_lower c = if leb 65 c && leb c 90 then c + 32 else c

abbrev pub ascii_upper : ℕ → ℕ
ascii_upper c = if leb 97 c && leb c 122 then c - 32 else c

pub record Unicode : Type 0 where
  -- `str.lower`, `str.upper`, `repr` of a text
  pub lower : Text → Text
  pub upper : Text → Text
  pub repr : Text → Text
  -- `str` of a list or a dict
  pub show : Value → Text
  -- what `\w` matches
  pub is_word : ℕ → Bool
  -- whether a pattern's character matches a text's under `re.IGNORECASE`
  pub same_letter : ℕ → ℕ → Bool
  pub lower_ascii : (s : Text) → All IsAscii s → lower s ≡ map ascii_lower s
  pub upper_ascii : (s : Text) → All IsAscii s → upper s ≡ map ascii_upper s

abbrev pub ascii_word : ℕ → Bool
ascii_word c =
    (leb 48 c && leb c 57) || (leb 65 c && leb c 90) || (leb 97 c && leb c 122) || nat_eq c 95

-- The tables cut down to ASCII.
abbrev pub ascii : Unicode
ascii = record {
  lower = map ascii_lower;
  upper = map ascii_upper;
  repr = λ s. lit "'" ++ s ++ lit "'";
  show = λ v. lit "...";
  is_word = ascii_word;
  same_letter = λ a b. nat_eq a (ascii_lower b);
  lower_ascii = λ s h. refl;
  upper_ascii = λ s h. refl;
}
