-- ===== src/Security/Crypto.antt =====
-- src/sample/security/crypto.py. AES-256-GCM is the package `cryptography`'s, a parameter; the random
-- bytes, and the environment variable's value, are arguments.
pub mod RoundTrip
pub mod Sealed
use whatsapp_sales_saas_temp.Prelude.{
  All, List, Option, Text, decimal, drop, if◌then◌else◌, is_empty, leb, length, lit, nat_eq,
  strip_right, take, ℕ, ◌++◌, ◌+◌, ◌≡◌,
}
use whatsapp_sales_saas_temp.Result.{
  Error, Result, crypto_error, err, message, ok, type_error, unsupported_format, value_error, ◌>>=◌,
}
use whatsapp_sales_saas_temp.Security.Base64.{is_equals, pad, urlsafe_b64decode, urlsafe_b64encode}
use whatsapp_sales_saas_temp.Security.Base64.RoundTrip.{IsByte}
use whatsapp_sales_saas_temp.Security.Utf8.{decode_utf8, encode_utf8}
use whatsapp_sales_saas_temp.Unicode.{Unicode}

-- What `AESGCM(key).decrypt` does: it returns the plaintext, raises `InvalidTag`, or something else.
pub data Opened : Type 0 where
  opened : List ℕ → Opened
  invalid_tag : Opened
  failed : Error → Opened

-- `AESGCM`: `seal` and `unseal` take the key, the nonce, the data and the associated data. The laws
-- are what its documentation says: what was sealed is unsealed under the same key, nonce and data;
-- nothing else is accepted; the result is bytes, of which sixteen are the tag.
pub record Aead : Type 0 where
  pub seal : List ℕ → List ℕ → List ℕ → Option (List ℕ) → Result (List ℕ)
  pub unseal : List ℕ → List ℕ → List ℕ → Option (List ℕ) → Opened
  pub unseal-seal :
      (key nonce plain sealed : List ℕ) (aad : Option (List ℕ))
      → seal key nonce plain aad ≡ ok sealed
      → unseal key nonce sealed aad ≡ opened plain
  pub seal-unseal :
      (key nonce plain sealed : List ℕ) (aad : Option (List ℕ))
      → unseal key nonce sealed aad ≡ opened plain
      → seal key nonce plain aad ≡ ok sealed
  pub seal-IsByte :
      (key nonce plain sealed : List ℕ) (aad : Option (List ℕ))
      → All IsByte plain
      → seal key nonce plain aad ≡ ok sealed
      → All IsByte sealed
  pub length-seal :
      (key nonce plain sealed : List ℕ) (aad : Option (List ℕ))
      → seal key nonce plain aad ≡ ok sealed
      → length sealed ≡ length plain + 16

abbrev pub nonce_bytes : ℕ
nonce_bytes = 12

abbrev pub key_bytes : ℕ
key_bytes = 32

-- `generate_key`, of 32 random bytes
unfoldable pub generate_key : List ℕ → Text
generate_key random = urlsafe_b64encode random

-- `except (ValueError, TypeError) as exc: raise CryptoError(...)`
unfoldable pub or_crypto_error {ℓ} : {A : Type ℓ} → Text → Result A → Result A
or_crypto_error m (ok a) = ok a
or_crypto_error m (err (value_error e)) = err (crypto_error m)
or_crypto_error m (err (type_error e)) = err (crypto_error m)
or_crypto_error m (err (unsupported_format e)) = err (crypto_error m)
or_crypto_error m (err e) = err e

abbrev pub wrong_size : Text → ℕ → Text
wrong_size var n =
    var
    ++ (lit " must decode to "
        ++ (decimal key_bytes ++ (lit " bytes (got " ++ (decimal n ++ lit ")"))))

-- `raw` is `os.environ.get(var, "")`.
unfoldable pub key_from_env : Text → Text → Result (List ℕ)
unfolding or_crypto_error
key_from_env var raw =
    if is_empty raw then err (crypto_error (lit "missing env var: " ++ var)) else (do
      key ← or_crypto_error (var ++ lit " is not valid base64") (urlsafe_b64decode (pad raw))
      if nat_eq (length key) key_bytes
          then ok key
          else err (crypto_error (wrong_size var (length key))))

pub record TokenCipher : Type 0 where
  pub key : List ℕ

-- `TokenCipher.__init__`
unfoldable pub token_cipher : List ℕ → Result TokenCipher
token_cipher key =
    if nat_eq (length key) key_bytes
    then ok (record { key = key })
    else err (
        crypto_error (
          lit "key must be "
          ++ (decimal key_bytes ++ (lit " bytes; got " ++ decimal (length key)))))

-- `TokenCipher.from_env`
unfoldable pub from_env : Text → Text → Result TokenCipher
from_env var raw = key_from_env var raw >>= token_cipher

module _ (u : Unicode) (aead : Aead) where
  -- `except Exception as exc: raise CryptoError(f"encrypt failed: {exc}")`
  abbrev pub encrypt_failed {ℓ} : {A : Type ℓ} → Result A → Result A
  encrypt_failed (ok a) = ok a
  encrypt_failed (err e) = err (crypto_error (lit "encrypt failed: " ++ message u.repr e))

  -- `nonce` is `secrets.token_bytes(12)`.
  unfoldable pub encrypt : TokenCipher → List ℕ → Text → Option (List ℕ) → Result Text
  encrypt c nonce plaintext aad = do
    sealed ← encrypt_failed (do plain ← encode_utf8 plaintext; aead.seal c.key nonce plain aad)
    ok (strip_right is_equals (urlsafe_b64encode (nonce ++ sealed)))

  -- `pt.decode("utf-8")`, where the tag was right
  abbrev pub revealed : Opened → Result Text
  revealed (opened plain) = decode_utf8 plain
  revealed invalid_tag = err (crypto_error (lit "decrypt failed: authentication tag mismatch"))
  revealed (failed e) = err e

  unfoldable pub decrypt : TokenCipher → Text → Option (List ℕ) → Result Text
  unfolding or_crypto_error
  decrypt c token aad = do
    blob ← or_crypto_error (lit "token is not valid base64") (urlsafe_b64decode (pad token))
    if leb (length blob) nonce_bytes
        then err (crypto_error (lit "token shorter than the nonce — malformed"))
        else revealed (aead.unseal c.key (take nonce_bytes blob) (drop nonce_bytes blob) aad)
