-- ===== src/Tests/Secrets.antt =====
-- A cipher for the tests: sixteen zeros in front are its tag.
use whatsapp_sales_saas_temp.Dict.{values}
use whatsapp_sales_saas_temp.Memory.{line}
use whatsapp_sales_saas_temp.Prelude.{
  All, List, Text, [], ap, arith, if◌then◌else◌, is_space, length, lit, nat_eq, none, refl, suc,
  true, zero, ℕ, ◌+◌, ◌∷◌, ◌≡◌,
}
use whatsapp_sales_saas_temp.Result.{Result, ok}
use whatsapp_sales_saas_temp.Security.Base64.{feed, pad, sextet, translate, urlsafe_b64decode}
use whatsapp_sales_saas_temp.Security.Base64.RoundTrip.{IsByte}
use whatsapp_sales_saas_temp.Security.Crypto.{
  Aead, Opened, TokenCipher, decrypt, encrypt, invalid_tag, opened,
}
use whatsapp_sales_saas_temp.Security.Crypto.RoundTrip.{decrypt-encrypt}
use whatsapp_sales_saas_temp.Security.Crypto.Sealed.{IsSealed, decrypt-IsSealed}
use whatsapp_sales_saas_temp.Security.LogFilter.{
  LogRecord, default_secret_patterns, is_value_char, masking, matched, redact,
}
use whatsapp_sales_saas_temp.Security.LogFilter.Harmless.{Lacks, is_sign}
use whatsapp_sales_saas_temp.Security.LogFilter.Masked.{masked_line, redact_secret, secret_line}
use whatsapp_sales_saas_temp.Security.Regex.{runs}
use whatsapp_sales_saas_temp.Security.Utf8.{all_scalar, decode_utf8, is_scalar, see, utf8_bytes}
use whatsapp_sales_saas_temp.Sub.{sub, sub_from}
use whatsapp_sales_saas_temp.Unicode.{ascii}

abbrev sealed_by : ℕ → List ℕ → List ℕ
sealed_by zero plain = plain
sealed_by (suc n) plain = 0 ∷ sealed_by n plain

abbrev unsealed_by : ℕ → List ℕ → Opened
unsealed_by zero bytes = opened bytes
unsealed_by (suc n) [] = invalid_tag
unsealed_by (suc n) (b ∷ bytes) = if nat_eq b 0 then unsealed_by n bytes else invalid_tag

unsealed_by-sealed_by : (n : ℕ) (plain : List ℕ) → unsealed_by n (sealed_by n plain) ≡ opened plain
unsealed_by-sealed_by zero plain = refl
unsealed_by-sealed_by (suc n) plain = unsealed_by-sealed_by n plain

sealed_by-unsealed_by :
    (n : ℕ) (plain bytes : List ℕ) → unsealed_by n bytes ≡ opened plain → sealed_by n plain ≡ bytes
sealed_by-unsealed_by zero plain bytes e = ground arith
sealed_by-unsealed_by (suc n) plain [] e = ground arith
sealed_by-unsealed_by (suc n) plain (b ∷ bytes) e =
    ground (arith, sealed_by-unsealed_by n plain bytes)

sealed_by-IsByte : (n : ℕ) (plain : List ℕ) → All IsByte plain → All IsByte (sealed_by n plain)
sealed_by-IsByte zero plain h = h
sealed_by-IsByte (suc n) plain h = (omega arith, sealed_by-IsByte n plain h)

length-sealed_by : (n : ℕ) (plain : List ℕ) → length (sealed_by n plain) ≡ length plain + n
length-sealed_by zero plain = omega arith
length-sealed_by (suc n) plain = omega (arith, length-sealed_by n plain)

ok_sealed :
    (n : ℕ) (plain sealed : List ℕ)
    → ok (sealed_by n plain) ≡ ok sealed
    → sealed_by n plain ≡ sealed
ok_sealed n plain sealed e = cc

abbrev toy : Aead
toy = record {
  seal = λ key nonce plain aad. ok (sealed_by 16 plain);
  unseal = λ key nonce sealed aad. unsealed_by 16 sealed;
  unseal-seal = λ key nonce plain sealed aad e.
      rw⁻¹ (ok_sealed 16 plain sealed e) (unsealed_by-sealed_by 16 plain);
  seal-unseal = λ key nonce plain sealed aad e. ap ok (sealed_by-unsealed_by 16 plain sealed e);
  seal-IsByte = λ key nonce plain sealed aad h e.
      rw⁻¹ (ok_sealed 16 plain sealed e) (sealed_by-IsByte 16 plain h);
  length-seal = λ key nonce plain sealed aad e.
      rw⁻¹ (ok_sealed 16 plain sealed e) (length-sealed_by 16 plain);
}

abbrev toy_cipher : TokenCipher
toy_cipher = record { key = [] }

abbrev nonce : List ℕ
nonce = 1 ∷ 2 ∷ 3 ∷ 4 ∷ 5 ∷ 6 ∷ 7 ∷ 8 ∷ 9 ∷ 10 ∷ 11 ∷ 12 ∷ []

nonce-IsByte : All IsByte nonce
nonce-IsByte = ground arith

abbrev coffee : Text
coffee = lit "café"

coffee_scalar : all_scalar coffee ≡ true
unfolding is_scalar
coffee_scalar = refl

decrypt-encrypt_example :
    (token : Text) × (encrypt ascii toy toy_cipher nonce coffee none ≡ ok token)
    × (decrypt ascii toy toy_cipher token none ≡ ok coffee)
decrypt-encrypt_example =
    decrypt-encrypt ascii toy toy_cipher nonce coffee none (sealed_by 16 (utf8_bytes coffee)) refl
      nonce-IsByte coffee_scalar refl

-- What the toy cipher makes of "hi".
abbrev token : Text
token = lit "AQIDBAUGBwgJCgsMAAAAAAAAAAAAAAAAAAAAAGhp"

token_opened : decrypt ascii toy toy_cipher token none ≡ ok (lit "hi")
unfolding decrypt urlsafe_b64decode decode_utf8 pad feed translate sextet see
token_opened = refl

decrypt-IsSealed_example : IsSealed ascii toy toy_cipher token none (lit "hi")
decrypt-IsSealed_example = decrypt-IsSealed ascii toy toy_cipher token none (lit "hi") token_opened

abbrev as_is : Text → List Text → Result Text
as_is line values = ok line

abbrev started : LogRecord
started = record { msg = lit "worker started"; args = [] }

started-Lacks : Lacks is_sign (lit "worker started")
started-Lacks = ground arith

abbrev hunter : Text
hunter = lit "unter2="

hunter_chars : All (λ c. is_value_char ascii c ≡ true) hunter
unfolding is_space
hunter_chars = ground arith

hunter_start : is_value_char ascii b'h' ≡ true
unfolding is_space
hunter_start = refl

redact_secret_example :
    redact ascii (secret_line b'h' hunter (lit "was read")) (default_secret_patterns ascii)
    ≡ masked_line (lit "was read")
redact_secret_example =
    redact_secret b'h' hunter (lit "was read") hunter_start hunter_chars (ground arith)

-- A quoted key is not seen.
quoted_key_stays :
    redact ascii (lit "{'META_APP_SECRET': 'abc'}") (default_secret_patterns ascii)
    ≡ lit "{'META_APP_SECRET': 'abc'}"
unfolding redact masking matched runs sub sub_from is_space
quoted_key_stays = refl

-- Of two words only the first is masked.
second_word_stays :
    redact ascii (lit "ACCESS_TOKEN: Bearer abc") (default_secret_patterns ascii)
    ≡ lit "ACCESS_TOKEN: <redacted> abc"
unfolding redact masking matched runs sub sub_from is_space
second_word_stays = refl

bearer_masked :
    redact ascii (lit "Authorization: Bearer abc.def ok") (default_secret_patterns ascii)
    ≡ lit "Authorization: Bearer <redacted> ok"
unfolding redact masking matched runs sub sub_from is_space
bearer_masked = refl
