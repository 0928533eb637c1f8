-- ===== src/Prelude/Texts.antt =====
-- Python's `str` as the list of its code points, and the string methods that the program calls.
use Prim.Native.Nat.{ℕ, zero, suc, ◌+◌, ◌*◌, ◌-◌, ◌/◌, ◌%◌, ◌≤◌, ◌<◌}
use Prim.Native.Char.{code}
use Prim.Native.String.{String}
use mathlib.Core.Path.{◌≡◌, sym, ◌∙◌, ap, refl}
use mathlib.Core.Logic.{inl, inr, ◌↔◌}
use mathlib.Core.Bool.{Bool, true, false, not, ◌&&◌, ◌||◌}
use mathlib.Core.List.{List, [], ◌∷◌, ◌++◌}
use native.Mathlib.Omega.{arith}
use whatsapp_sales_saas_temp.Prelude.Lists.{any, filter, length, length-filter-le}
use whatsapp_sales_saas_temp.Prelude.Tests.{Bool-cases, if◌then◌else◌, nat_eq, leb, ltb}

abbrev pub Text : Type 0
Text = List ℕ

-- The code points of a literal.
abbrev pub lit : String → Text
lit String.[] = []
lit (String.◌∷◌ c s) = code c ∷ lit s

infix 50 ◌==◌
unfoldable pub ◌==◌ : Text → Text → Bool
[] == [] = true
[] == (b ∷ t) = false
(a ∷ s) == [] = false
(a ∷ s) == (b ∷ t) = nat_eq a b && s == t

pub eq_iff : (s t : Text) → ((s == t) ≡ true) ↔ (s ≡ t)
unfolding ◌==◌
eq_iff [] [] = ground arith
eq_iff [] (b ∷ t) = ground arith
eq_iff (a ∷ s) [] = ground arith
eq_iff (a ∷ s) (b ∷ t) = ground (arith, eq_iff s t)

pub eq_refl : (s : Text) → (s == s) ≡ true
eq_refl s = (eq_iff s s).1 refl

-- `if s:`, `not s`
abbrev pub is_empty {ℓ} : {A : Type ℓ} → List A → Bool
is_empty [] = true
is_empty (_ ∷ _) = false

-- `s.isascii()`
abbrev pub is_ascii : Text → Bool
is_ascii [] = true
is_ascii (c ∷ s) = ltb c 128 && is_ascii s

abbrev pub mem : Text → List Text → Bool
mem s xs = any (λ x. x == s) xs

abbrev pub without : Text → List Text → List Text
without s xs = filter (λ x. not (x == s)) xs

pub mem-without : (k j : Text) (xs : List Text) → mem j (without k xs) ≡ (not (k == j) && mem j xs)
mem-without k j [] = ground arith
mem-without k j (x ∷ xs) = ground (arith, mem-without k j xs, eq_iff k j, eq_iff x j, eq_iff x k)

pub length-without-lt :
    (s : Text) (xs : List Text) → mem s xs ≡ true → length (without s xs) < length xs
length-without-lt s [] h = cc
length-without-lt s (x ∷ xs) h =
    ground (arith, length-without-lt s xs, length-filter-le (λ (y : Text). not (y == s)) xs)

-- `s.startswith(prefix)`, and `s[len(prefix):]` where it does
unfoldable pub starts_with : Text → Text → Bool
starts_with s [] = true
starts_with [] (b ∷ t) = false
starts_with (a ∷ s) (b ∷ t) = nat_eq a b && starts_with s t

-- `needle in s`
unfoldable pub contains : Text → Text → Bool
unfolding starts_with
contains needle [] = starts_with [] needle
contains needle (c ∷ s) = starts_with (c ∷ s) needle || contains needle s

-- The code points that `str.strip` and `str.isspace` take for white space.
unfoldable pub is_space : ℕ → Bool
is_space c =
    (leb 9 c && leb c 13)
    || (leb 28 c && leb c 32)
    || nat_eq c 133
    || nat_eq c 160
    || nat_eq c 5760
    || (leb 8192 c && leb c 8202)
    || nat_eq c 8232
    || nat_eq c 8233
    || nat_eq c 8239
    || nat_eq c 8287
    || nat_eq c 12288

unfoldable pub strip_left : (ℕ → Bool) → Text → Text
strip_left p [] = []
strip_left p (c ∷ s) = let rest = strip_left p s in if p c then rest else c ∷ s

unfoldable pub strip_right : (ℕ → Bool) → Text → Text
strip_right p [] = []
strip_right p (c ∷ s) = let rest = strip_right p s in if p c && is_empty rest then [] else c ∷ rest

-- `s.strip(chars)`, with the characters as a test
unfoldable pub strip_chars : (ℕ → Bool) → Text → Text
unfolding strip_left strip_right
strip_chars p s = strip_right p (strip_left p s)

-- `s.strip()`
unfoldable pub strip : Text → Text
unfolding strip_chars
strip s = strip_chars is_space s

-- `s.replace(a, b)` for one character each
unfoldable pub replace_char : ℕ → ℕ → Text → Text
replace_char a b [] = []
replace_char a b (c ∷ s) = (if nat_eq c a then b else c) ∷ replace_char a b s

-- `sep.join(parts)`
unfoldable pub join : Text → List Text → Text
join sep [] = []
join sep (s ∷ []) = s
join sep (s ∷ t ∷ parts) = s ++ (sep ++ join sep (t ∷ parts))

-- `str(n)`; the fuel is the number itself, which has fewer digits
digits_from : ℕ → ℕ → Text
digits_from zero n = (48 + n % 10) ∷ []
digits_from (suc fuel) n =
    let more = digits_from fuel (n / 10) ++ (48 + n % 10) ∷ [] in
    if ltb n 10 then (48 + n) ∷ [] else more

unfoldable pub decimal : ℕ → Text
unfolding digits_from
decimal n = digits_from n n

read_digits : ℕ → Text → ℕ
read_digits acc [] = acc
read_digits acc (c ∷ s) = read_digits (acc * 10 + (c - 48)) s

read_digits-append :
    (acc : ℕ) (s t : Text) → read_digits acc (s ++ t) ≡ read_digits (read_digits acc s) t
unfolding read_digits
read_digits-append acc [] t = refl
read_digits-append acc (c ∷ s) t = read_digits-append (acc * 10 + (c - 48)) s t

read_digits-digits_from : (fuel n : ℕ) → n ≤ fuel → read_digits 0 (digits_from fuel n) ≡ n
unfolding digits_from
read_digits-digits_from zero n h = unfold read_digits in omega arith
read_digits-digits_from (suc fuel) n h = elim (Bool-cases (ltb n 10)) [
  | inl small ↦ rw small (unfold read_digits in omega arith)
  | inr large ↦
      rw (large, read_digits-append, read_digits-digits_from fuel (n / 10) (ground arith))
        (unfold read_digits in omega arith)
]

pub decimal_injective : (m n : ℕ) → decimal m ≡ decimal n → m ≡ n
unfolding decimal
decimal_injective m n e =
    sym (read_digits-digits_from m m (omega arith))
    ∙ ap (read_digits 0) e
    ∙ read_digits-digits_from n n (omega arith)
