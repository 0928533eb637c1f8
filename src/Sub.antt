-- ===== src/Sub.antt =====
-- `pattern.sub(repl, text)` of Python, for a pattern that matches no empty text. A substitution is the
-- pattern and what replaces it: at one position, after the character that stands before it, the number of
-- characters that match there and the text that replaces them.
use native.Mathlib.Numerals.{unary_clauses}
use whatsapp_sales_saas_temp.Prelude.{
  Option, Text, [], ap, length, none, refl, some, suc, zero, ℕ, ◌++◌, ◌-◌, ◌∷◌, ◌≡◌,
}

abbrev pub Substitution : Type 0
Substitution = Option ℕ → Text → Option (ℕ × Text)

-- From the left; `skip` characters of a match are still to be passed over.
unfoldable pub sub_from : Substitution → Option ℕ → ℕ → Text → Text
sub_from p before skip [] = []
sub_from p before (suc skip) (c ∷ s) = sub_from p (some c) skip s
sub_from p before zero (c ∷ s) = elim (p before (c ∷ s)) [
  | none ↦ c ∷ sub_from p (some c) 0 s
  | some (n, said) ↦ said ++ sub_from p (some c) (n - 1) s
]

unfoldable pub sub : Substitution → Text → Text
unfolding sub_from
sub p s = sub_from p none 0 s

-- the character before what follows
abbrev pub last_of : Option ℕ → Text → Option ℕ
last_of before [] = before
last_of before (c ∷ s) = last_of (some c) s

-- The characters of a match that are passed over leave no trace.
pub sub_from-skip :
    (p : Substitution) (before : Option ℕ) (s rest : Text)
    → sub_from p before (length s) (s ++ rest) ≡ sub_from p (last_of before s) 0 rest
unfolding sub_from
sub_from-skip p before [] rest = refl
sub_from-skip p before (c ∷ s) rest = sub_from-skip p (some c) s rest

-- A match is replaced, and the search goes on behind it.
pub sub_from-match :
    (p : Substitution) (before : Option ℕ) (c : ℕ) (s rest said : Text)
    → p before (c ∷ s ++ rest) ≡ some (length (c ∷ s), said)
    → sub_from p before 0 (c ∷ s ++ rest) ≡ said ++ sub_from p (last_of (some c) s) 0 rest
unfolding sub_from
sub_from-match p before c s rest said e =
    rw e (simp unary_clauses (ap (λ t. said ++ t) (sub_from-skip p (some c) s rest)))

-- A character at which nothing matches stays.
pub sub_from-none :
    (p : Substitution) (before : Option ℕ) (c : ℕ) (s : Text)
    → p before (c ∷ s) ≡ none
    → sub_from p before 0 (c ∷ s) ≡ c ∷ sub_from p (some c) 0 s
unfolding sub_from
sub_from-none p before c s e = rw (e, sub_from) refl
