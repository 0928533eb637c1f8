-- ===== src/Security/LogFilter/Masked.antt =====
-- A secret that is masked.
use whatsapp_sales_saas_temp.Prelude.{
  All, Bool, Bool-cases, List, Option, Text, [], ap, arith, drop, false, inl, inr, is_space, length,
  lit, map, none, refl, some, suc, take, true, zero, ℕ, ◌++◌, ◌+◌, ◌∙◌, ◌∷◌, ◌≡◌,
}
use whatsapp_sales_saas_temp.Security.LogFilter.{
  api_key, assignment, authorization, default_secret_patterns, hub_signature, is_quote,
  is_value_char, masking, matched, redact,
}
use whatsapp_sales_saas_temp.Security.LogFilter.Harmless.{
  Lacks, default_secret_patterns-IsMarked, is_sign, sub_from-harmless,
}
use whatsapp_sales_saas_temp.Security.Regex.{down_from, first_pair, run_length, runs}
use whatsapp_sales_saas_temp.Sub.{last_of, sub, sub_from-match}
use whatsapp_sales_saas_temp.Unicode.{ascii}

run_length-append :
    (p : ℕ → Bool) (s : Text) (c : ℕ) (rest : Text)
    → All (λ a. p a ≡ true) s
    → p c ≡ false
    → run_length p (s ++ c ∷ rest) ≡ length s
run_length-append p [] c rest h stop_here = rw stop_here refl
run_length-append p (a ∷ s) c rest h stop_here =
    rw h.0 (ap suc (run_length-append p s c rest h.1 stop_here))

equals_no_space : is_space b'=' ≡ false
unfolding is_space
equals_no_space = refl

runs-lead :
    (v : ℕ) (vs : Text)
    → is_space v ≡ false
    → is_quote ascii v ≡ false
    → runs ascii (assignment ascii).lead none (lit "META_APP_SECRET=" ++ v ∷ vs) ≡ 16 ∷ 16 ∷ []
unfolding runs
runs-lead v vs sp q = rw equals_no_space (rw sp (rw q refl))

down_from-head : (k : ℕ) → (ms : List ℕ) × (down_from k ≡ k ∷ ms)
down_from-head zero = ([], refl)
down_from-head (suc k) = (down_from k, refl)

runs-value :
    (v : ℕ) (vs : Text) (before : Option ℕ)
    → is_value_char ascii v ≡ true
    → (ms : List ℕ) × (runs ascii (assignment ascii).value before (v ∷ vs)
        ≡ suc (run_length (is_value_char ascii) vs) ∷ ms)
unfolding runs
runs-value v vs before h =
    let (ms, e) = down_from-head (run_length (is_value_char ascii) vs) in
    (
      map (λ m. 1 + m) ms ++ [],
      rw h (
          rw e (
            ap (λ k. k ∷ map (λ m. 1 + m) ms ++ [])
              (let z : 1 + run_length (is_value_char ascii) vs
                    ≡ suc (run_length (is_value_char ascii) vs) =
                  omega arith in
                z))),
    )

first_pair-first :
    (n m : ℕ) (ns ms : List ℕ) (f : ℕ → List ℕ) → f n ≡ m ∷ ms → first_pair (n ∷ ns) f ≡ some (n, m)
first_pair-first n m ns ms f e = rw (e, first_pair) refl

-- The value's first character is neither white space nor a quotation mark.
value_start :
    (v : ℕ) → is_value_char ascii v ≡ true → (is_space v ≡ false) × (is_quote ascii v ≡ false)
value_start v h = elim (Bool-cases (is_space v)) [
  | inl sp ↦ absurd (let n = rw sp at h in ground (arith, n))
  | inr sp ↦ elim (Bool-cases (is_quote ascii v)) [
    | inl q ↦ absurd (let n = rw sp at h in let n' = rw q at n in ground (arith, n'))
    | inr q ↦ (sp, q)
  ]
]

matched-secret :
    (v : ℕ) (vs : Text)
    → is_value_char ascii v ≡ true
    → matched ascii (assignment ascii) none (lit "META_APP_SECRET=" ++ v ∷ vs)
      ≡ some (16, suc (run_length (is_value_char ascii) vs))
unfolding matched
matched-secret v vs h =
    let (sp, q) = value_start v h in
    let (ms, e) = runs-value v vs (some b'=') h in
    rw (runs-lead v vs sp q) (
      first_pair-first 16 (suc (run_length (is_value_char ascii) vs)) (16 ∷ []) ms
        (λ n.
          runs ascii (assignment ascii).value
            (last_of none (take n (lit "META_APP_SECRET=" ++ v ∷ vs)))
            (drop n (lit "META_APP_SECRET=" ++ v ∷ vs)))
        e)

-- A secret and what stands behind it.
abbrev pub secret_line : ℕ → Text → Text → Text
secret_line v vs rest = lit "META_APP_SECRET=" ++ (v ∷ vs ++ b' ' ∷ rest)

abbrev pub masked_line : Text → Text
masked_line rest = lit "META_APP_SECRET=<redacted> " ++ rest

masking-secret :
    (v : ℕ) (vs rest : Text)
    → is_value_char ascii v ≡ true
    → All (λ c. is_value_char ascii c ≡ true) vs
    → masking ascii (assignment ascii) none (secret_line v vs rest)
      ≡ some (length (lit "META_APP_SECRET=" ++ v ∷ vs), lit "META_APP_SECRET=<redacted>")
unfolding masking
masking-secret v vs rest h hs =
    let count : 16 + suc (length vs) ≡ length (lit "META_APP_SECRET=" ++ v ∷ vs) = omega arith in
    let ends : is_value_char ascii b' ' ≡ false = unfold is_space in refl in
    rw (matched-secret v (vs ++ b' ' ∷ rest) h, masking)
      (rw (run_length-append (is_value_char ascii) vs b' ' rest hs ends)
        (ap (λ n. some (n, lit "META_APP_SECRET=<redacted>")) count))

sub-secret :
    (v : ℕ) (vs rest : Text)
    → is_value_char ascii v ≡ true
    → All (λ c. is_value_char ascii c ≡ true) vs
    → Lacks is_sign rest
    → sub (masking ascii (assignment ascii)) (secret_line v vs rest) ≡ masked_line rest
unfolding sub
sub-secret v vs rest h hs l =
    let mask = masking ascii (assignment ascii) in
    let behind = lit "ETA_APP_SECRET=" ++ v ∷ vs in
    let (marked, others) = default_secret_patterns-IsMarked ascii in
    sub_from-match mask none b'M' behind (b' ' ∷ rest) (lit "META_APP_SECRET=<redacted>")
      (masking-secret v vs rest h hs)
    ∙ ap (λ t. lit "META_APP_SECRET=<redacted>" ++ t)
        (sub_from-harmless ascii is_sign (assignment ascii) (last_of (some b'M') behind)
          (b' ' ∷ rest) marked (refl, l))

-- Whatever the secret, of one character or more, none of them white space, a quotation mark or a comma,
-- and whatever stands behind it and a blank without a colon, an equals sign or a hyphen: with the ASCII
-- tables, what is logged as META_APP_SECRET=… has the secret masked and the rest as it was.
pub redact_secret :
    (v : ℕ) (vs rest : Text)
    → is_value_char ascii v ≡ true
    → All (λ c. is_value_char ascii c ≡ true) vs
    → Lacks is_sign rest
    → redact ascii (secret_line v vs rest) (default_secret_patterns ascii) ≡ masked_line rest
unfolding redact
redact_secret v vs rest h hs l =
    let (_, (second, (third, (fourth, _)))) = default_secret_patterns-IsMarked ascii in
    rw (sub-secret v vs rest h hs l) (
      rw (sub_from-harmless ascii is_sign (authorization ascii) (some b' ') rest second l) (
        rw (sub_from-harmless ascii is_sign (api_key ascii) (some b' ') rest third l) (
          rw (sub_from-harmless ascii is_sign (hub_signature ascii) (some b' ') rest fourth l)
            refl)))
