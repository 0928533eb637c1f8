-- ===== src/Security/LogFilter.antt =====
-- src/sample/security/log_filter.py. A regular expression is a tree; `runs` are the numbers of characters
-- that it matches, in the order in which Python's engine tries them.
pub mod Harmless
pub mod Masked
use whatsapp_sales_saas_temp.Prelude.{
  Bool, List, Option, Text, [], any, drop, is_space, leb, lit, nat_eq, none, not, some, suc, take,
  true, zero, ℕ, ◌&&◌, ◌++◌, ◌+◌, ◌||◌, ◌∷◌,
}
use whatsapp_sales_saas_temp.Result.{Result, map_ok}
use whatsapp_sales_saas_temp.Security.Regex.{
  Regex, either_of, first_pair, many_of, maybe_of, nothing, one_of, runs, seq_of, word_edge,
}
use whatsapp_sales_saas_temp.Sub.{Substitution, last_of, sub}
use whatsapp_sales_saas_temp.Unicode.{Unicode}

-- A pattern of which the last group is the last part: what stands before it, and the group.
pub record SecretPattern : Type 0 where
  pub lead : Regex
  pub value : Regex

abbrev pub redacted : Text
redacted = lit "<redacted>"

module _ (u : Unicode) where
  -- a character under `(?i)`, for a letter in lower case
  abbrev pub same : ℕ → Regex
  same a = one_of (λ c. u.same_letter a c)

  -- `(?i)` and a text
  abbrev pub words : Text → Regex
  words [] = nothing
  words (c ∷ s) = seq_of (same c) (words s)

  abbrev pub is_letter : ℕ → Bool
  is_letter c = any (λ a. u.same_letter a c) (lit "abcdefghijklmnopqrstuvwxyz")

  -- `[A-Z0-9_]` under `(?i)`
  abbrev pub is_key_char : ℕ → Bool
  is_key_char c = is_letter c || (leb b'0' c && leb c b'9') || nat_eq c b'_'

  -- `[A-Z][A-Z0-9_]*` and an ending
  abbrev pub key_ending : Text → Regex
  key_ending s = seq_of (one_of is_letter) (seq_of (many_of is_key_char) (words s))

  abbrev pub key_names : Regex
  key_names = either_of (words (lit "openrouter_api_key")) (
      either_of (words (lit "openai_api_key")) (
        either_of (words (lit "gemini_api_key")) (
          either_of (words (lit "meta_app_secret")) (
            either_of (words (lit "meta_verify_token")) (
              either_of (words (lit "app_encryption_key")) (
                either_of (key_ending (lit "_token"))
                  (either_of (key_ending (lit "_secret")) (key_ending (lit "_password")))))))))

  abbrev pub is_quote : ℕ → Bool
  is_quote c = nat_eq c b'\'' || nat_eq c b'"'

  -- `[^\s'\",]`
  abbrev pub is_value_char : ℕ → Bool
  is_value_char c = not (is_space c || is_quote c || nat_eq c b',')

  -- `+`
  abbrev pub some_of : (ℕ → Bool) → Regex
  some_of p = seq_of (one_of p) (many_of p)

  abbrev pub is_colon : ℕ → Bool
  is_colon c = nat_eq c b':'

  abbrev pub is_assign : ℕ → Bool
  is_assign c = is_colon c || nat_eq c b'='

  abbrev pub assignment : SecretPattern
  assignment = record {
    lead = seq_of word_edge (
        seq_of key_names (
          seq_of (many_of is_space)
            (seq_of (one_of is_assign) (seq_of (many_of is_space) (maybe_of is_quote)))));
    value = some_of is_value_char;
  }

  -- `[A-Za-z0-9._\-+/=]` under `(?i)`
  abbrev pub is_credential_char : ℕ → Bool
  is_credential_char c =
      is_letter c || (leb b'0' c && leb c b'9') || any (λ a. nat_eq a c) (lit "._-+/=")

  abbrev pub authorization : SecretPattern
  authorization = record {
    lead = seq_of word_edge (
        seq_of (words (lit "authorization")) (
          seq_of (many_of is_space) (
            seq_of (one_of is_colon) (
              seq_of (many_of is_space) (
                seq_of (either_of (words (lit "bearer")) (words (lit "basic")))
                  (some_of is_space))))));
    value = some_of is_credential_char;
  }

  abbrev pub is_exactly : ℕ → Regex
  is_exactly a = one_of (λ c. nat_eq a c)

  -- `[A-Za-z0-9_\-]`
  abbrev pub is_token_char : ℕ → Bool
  is_token_char c =
      (leb b'A' c && leb c b'Z')
      || (leb b'a' c && leb c b'z')
      || (leb b'0' c && leb c b'9')
      || nat_eq c b'_'
      || nat_eq c b'-'

  -- `p{n,}`
  abbrev pub at_least : ℕ → (ℕ → Bool) → Regex
  at_least zero p = many_of p
  at_least (suc n) p = seq_of (one_of p) (at_least n p)

  abbrev pub api_key : SecretPattern
  api_key = record {
    lead = word_edge;
    value =
        seq_of (is_exactly b's')
          (seq_of (is_exactly b'k') (seq_of (is_exactly b'-') (at_least 16 is_token_char)));
  }

  -- `[A-Fa-f0-9]` under `(?i)`
  abbrev pub is_hex_char : ℕ → Bool
  is_hex_char c = any (λ a. u.same_letter a c) (lit "abcdef") || (leb b'0' c && leb c b'9')

  abbrev pub hub_signature : SecretPattern
  hub_signature = record {
    lead =
        seq_of (words (lit "x-hub-signature-256"))
          (seq_of (many_of is_space) (seq_of (one_of is_colon) (many_of is_space)));
    value = seq_of (words (lit "sha256=")) (some_of is_hex_char);
  }

  -- `DEFAULT_SECRET_PATTERNS`
  abbrev pub default_secret_patterns : List SecretPattern
  default_secret_patterns = assignment ∷ authorization ∷ api_key ∷ hub_signature ∷ []

  -- The match at a position: how much the lead and the value take.
  unfoldable pub matched : SecretPattern → Option ℕ → Text → Option (ℕ × ℕ)
  unfolding runs
  matched p before s =
      first_pair (runs u p.lead before s)
        (λ n. runs u p.value (last_of before (take n s)) (drop n s))

  -- `_sub`: the value is replaced, and what leads to it stays.
  unfoldable pub masking : SecretPattern → Substitution
  unfolding matched
  masking p before s = elim (matched p before s) [
    | none ↦ none
    | some (n, m) ↦ some (n + m, take n s ++ redacted)
  ]

  unfoldable pub redact : Text → List SecretPattern → Text
  unfolding masking sub
  redact s [] = s
  redact s (p ∷ ps) = redact (sub (masking p) s) ps

-- `logging.LogRecord`, as far as it is read and written here.
pub record LogRecord : Type 0 where
  pub msg : Text
  pub args : List Text

-- `SecretRedactingFilter.filter`; `format` is `%`, which `getMessage` applies.
unfoldable pub filter_record :
    Unicode
    → (Text → List Text → Result Text)
    → List SecretPattern
    → LogRecord
    → Result (Bool × LogRecord)
unfolding redact
filter_record u format patterns r =
    map_ok (λ m. (true, record { msg = redact u m patterns; args = [] })) (format r.msg r.args)

-- A logger, as the list of the filters that were added to it; a filter is its patterns.
pub record Logger : Type 0 where
  pub filters : List (List SecretPattern)

-- `install_redaction` on the logger that is meant
abbrev pub install_redaction : List SecretPattern → Logger → Logger
install_redaction patterns logger = record { filters = logger.filters ++ patterns ∷ [] }
