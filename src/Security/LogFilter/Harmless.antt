-- ===== src/Security/LogFilter/Harmless.antt =====
-- Log lines that hold no secret.
use whatsapp_sales_saas_temp.Memory.{line}
use whatsapp_sales_saas_temp.Prelude.{
  All, All-drop, Bool, Bool-cases, List, Option, Text, [], ap, arith, drop, false, inl, inr, map,
  nat_eq, none, refl, some, take, true, ℕ, ◌+◌, ◌||◌, ◌∙◌, ◌∷◌, ◌≡◌, ◌⊎◌,
}
use whatsapp_sales_saas_temp.Result.{Result, ok}
use whatsapp_sales_saas_temp.Security.LogFilter.{
  LogRecord, SecretPattern, default_secret_patterns, filter_record, masking, matched, redact,
}
use whatsapp_sales_saas_temp.Security.Regex.{
  Regex, either_of, first_pair, flat_map, many_of, maybe_of, nothing, one_of, run_one, runs, seq_of,
  word_edge,
}
use whatsapp_sales_saas_temp.Sub.{last_of, sub, sub_from, sub_from-none}
use whatsapp_sales_saas_temp.Unicode.{Unicode}

-- No character of the class.
abbrev pub Lacks : (ℕ → Bool) → Text → Type 0
Lacks q s = All (λ c. q c ≡ false) s

-- Whatever the expression matches has a character of the class.
abbrev pub Demands : (ℕ → Bool) → Regex → Type 0
Demands q nothing = ⊥
Demands q (one_of p) = (c : ℕ) → p c ≡ true → q c ≡ true
Demands q (many_of p) = ⊥
Demands q (maybe_of p) = ⊥
Demands q word_edge = ⊥
Demands q (seq_of r t) = Demands q r ⊎ Demands q t
Demands q (either_of r t) = Demands q r × Demands q t

flat_map-nil : (f : ℕ → List ℕ) → ((n : ℕ) → f n ≡ []) → (ns : List ℕ) → flat_map f ns ≡ []
flat_map-nil f h [] = refl
flat_map-nil f h (n ∷ ns) = rw (h n) (flat_map-nil f h ns)

first_pair-none : (f : ℕ → List ℕ) → ((n : ℕ) → f n ≡ []) → (ns : List ℕ) → first_pair ns f ≡ none
first_pair-none f h [] = refl
first_pair-none f h (n ∷ ns) = rw (h n, first_pair) (first_pair-none f h ns)

run_one-nil :
    (q p : ℕ → Bool) (s : Text) → ((c : ℕ) → p c ≡ true → q c ≡ true) → Lacks q s → run_one p s ≡ []
run_one-nil q p [] d l = refl
run_one-nil q p (c ∷ s) d l = elim (Bool-cases (p c)) [
  | inl hit ↦ absurd (ground (arith, d c hit, l.0))
  | inr missed ↦ rw missed refl
]

runs-nil :
    (u : Unicode) (q : ℕ → Bool) (r : Regex) (before : Option ℕ) (s : Text)
    → Demands q r
    → Lacks q s
    → runs u r before s ≡ []
unfolding runs
runs-nil u q nothing before s d l = absurd d
runs-nil u q (one_of p) before s d l = run_one-nil q p s d l
runs-nil u q (many_of p) before s d l = absurd d
runs-nil u q (maybe_of p) before s d l = absurd d
runs-nil u q word_edge before s d l = absurd d
runs-nil u q (seq_of r t) before s (inl d) l = rw (runs-nil u q r before s d l) refl
runs-nil u q (seq_of r t) before s (inr d) l =
    flat_map-nil (λ n. map (λ m. n + m) (runs u t (last_of before (take n s)) (drop n s)))
      (λ n.
        rw
          (runs-nil u q t (last_of before (take n s)) (drop n s) d
            (All-drop (λ c. q c ≡ false) n s l))
          refl)
      (runs u r before s)
runs-nil u q (either_of r t) before s d l =
    rw (runs-nil u q r before s d.0 l) (runs-nil u q t before s d.1 l)

-- The lead or the value has a character of the class.
abbrev pub IsMarked : (ℕ → Bool) → SecretPattern → Type 0
IsMarked q p = Demands q p.lead ⊎ Demands q p.value

matched-none :
    (u : Unicode) (q : ℕ → Bool) (p : SecretPattern) (before : Option ℕ) (s : Text)
    → IsMarked q p
    → Lacks q s
    → matched u p before s ≡ none
unfolding matched
matched-none u q p before s (inl d) l = rw (runs-nil u q p.lead before s d l) refl
matched-none u q p before s (inr d) l =
    first_pair-none (λ n. runs u p.value (last_of before (take n s)) (drop n s))
      (λ n.
        runs-nil u q p.value (last_of before (take n s)) (drop n s) d
          (All-drop (λ c. q c ≡ false) n s l))
      (runs u p.lead before s)

masking-none :
    (u : Unicode) (q : ℕ → Bool) (p : SecretPattern) (before : Option ℕ) (s : Text)
    → IsMarked q p
    → Lacks q s
    → masking u p before s ≡ none
unfolding masking
masking-none u q p before s d l = rw (matched-none u q p before s d l, masking) refl

pub sub_from-harmless :
    (u : Unicode) (q : ℕ → Bool) (p : SecretPattern) (before : Option ℕ) (s : Text)
    → IsMarked q p
    → Lacks q s
    → sub_from (masking u p) before 0 s ≡ s
sub_from-harmless u q p before [] d l = unfold sub_from in refl
sub_from-harmless u q p before (c ∷ s) d l =
    sub_from-none (masking u p) before c s (masking-none u q p before (c ∷ s) d l)
    ∙ ap (◌∷◌ c) (sub_from-harmless u q p (some c) s d l.1)

redact-harmless :
    (u : Unicode) (q : ℕ → Bool) (s : Text) (ps : List SecretPattern)
    → All (IsMarked q) ps
    → Lacks q s
    → redact u s ps ≡ s
unfolding redact sub
redact-harmless u q s [] d l = refl
redact-harmless u q s (p ∷ ps) d l =
    rw (sub_from-harmless u q p none s d.0 l) (redact-harmless u q s ps d.1 l)

-- A colon, an equals sign or a hyphen.
abbrev pub is_sign : ℕ → Bool
is_sign c = nat_eq c b':' || nat_eq c b'=' || nat_eq c b'-'

pub default_secret_patterns-IsMarked :
    (u : Unicode) → All (IsMarked is_sign) (default_secret_patterns u)
default_secret_patterns-IsMarked u = (
  inl (inr (inr (inr (inl (λ c h. ground arith))))),
  (
    inl (inr (inr (inr (inl (λ c h. ground arith))))),
    (
      inr (inr (inr (inl (λ c h. ground arith)))),
      (inl (inr (inr (inl (λ c h. ground arith)))), tt),
    ),
  ),
)

-- A log record whose message, once formatted, has no colon, no equals sign and no hyphen: the filter lets
-- it through, and the message is kept as it is.
filter_record_harmless :
    (u : Unicode) (format : Text → List Text → Result Text) (r : LogRecord) (line : Text)
    → format r.msg r.args ≡ ok line
    → Lacks is_sign line
    → filter_record u format (default_secret_patterns u) r
      ≡ ok (true, record { msg = line; args = [] })
unfolding filter_record
filter_record_harmless u format r line e l = rw e (
    rw
      (redact-harmless u is_sign line (default_secret_patterns u)
        (default_secret_patterns-IsMarked u) l)
      refl)
