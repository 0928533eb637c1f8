-- ===== src/Security/Regex.antt =====
-- The regular expressions that src/sample/security/log_filter.py needs: repetition of one character only.
use whatsapp_sales_saas_temp.Prelude.{
  Bool, List, Option, Text, [], drop, false, if◌then◌else◌, map, none, not, some, suc, take, true,
  zero, ℕ, ◌++◌, ◌+◌, ◌∷◌,
}
use whatsapp_sales_saas_temp.Sub.{last_of}
use whatsapp_sales_saas_temp.Unicode.{Unicode}

pub data Regex : Type 0 where
  nothing : Regex
  one_of many_of maybe_of : (ℕ → Bool) → Regex
  word_edge : Regex
  seq_of either_of : Regex → Regex → Regex

-- from a number down to 0
abbrev pub down_from : ℕ → List ℕ
down_from zero = 0 ∷ []
down_from (suc n) = suc n ∷ down_from n

-- How many characters at the front pass the test.
abbrev pub run_length : (ℕ → Bool) → Text → ℕ
run_length p [] = 0
run_length p (c ∷ s) = let more = run_length p s in if p c then suc more else 0

abbrev pub flat_map {ℓ κ} : {A : Type ℓ} {B : Type κ} → (A → List B) → List A → List B
flat_map f [] = []
flat_map f (x ∷ xs) = f x ++ flat_map f xs

abbrev pub starts_with_word : Unicode → Text → Bool
starts_with_word u [] = false
starts_with_word u (c ∷ s) = u.is_word c

abbrev pub follows_word : Unicode → Option ℕ → Bool
follows_word u none = false
follows_word u (some c) = u.is_word c

abbrev pub xor : Bool → Bool → Bool
xor true b = not b
xor false b = b

-- One character at the front.
abbrev pub run_one : (ℕ → Bool) → Text → List ℕ
run_one p [] = []
run_one p (c ∷ s) = if p c then 1 ∷ [] else []

-- The lengths that match, after the character `before`, the preferred ones first.
unfoldable pub runs : Unicode → Regex → Option ℕ → Text → List ℕ
runs u nothing before s = 0 ∷ []
runs u (one_of p) before s = run_one p s
runs u (many_of p) before s = down_from (run_length p s)
runs u (maybe_of p) before s = run_one p s ++ 0 ∷ []
runs u word_edge before s =
    if xor (follows_word u before) (starts_with_word u s) then 0 ∷ [] else []
runs u (seq_of r q) before s =
    flat_map (λ n. map (λ m. n + m) (runs u q (last_of before (take n s)) (drop n s)))
      (runs u r before s)
runs u (either_of r q) before s = runs u r before s ++ runs u q before s

-- The first number with a partner, and its first partner.
abbrev pub first_pair : List ℕ → (ℕ → List ℕ) → Option (ℕ × ℕ)
first_pair [] f = none
first_pair (n ∷ ns) f =
    let later = first_pair ns f in elim (f n) [ [] ↦ later | m ∷ ms ↦ some (n, m) ]
