-- ===== src/Security/Crypto/RoundTrip.antt =====
-- What was encrypted is decrypted.
use whatsapp_sales_saas_temp.Prelude.{
  All, All-append, List, Option, Text, [], ap, arith, drop, false, leb, length, length-append, refl,
  strip_right, suc, take, true, zero, ℕ, ◌++◌, ◌<◌, ◌∙◌, ◌∷◌, ◌≡◌,
}
use whatsapp_sales_saas_temp.Result.{ok}
use whatsapp_sales_saas_temp.Security.Base64.{is_equals, pad, urlsafe_b64decode, urlsafe_b64encode}
use whatsapp_sales_saas_temp.Security.Base64.Padding.{urlsafe_b64decode-pad}
use whatsapp_sales_saas_temp.Security.Base64.RoundTrip.{IsByte}
use whatsapp_sales_saas_temp.Security.Crypto.{Aead, TokenCipher, decrypt, encrypt, revealed}
use whatsapp_sales_saas_temp.Security.Utf8.{all_scalar, encode_utf8, utf8_bytes}
use whatsapp_sales_saas_temp.Security.Utf8.RoundTrip.{decode_utf8-utf8_bytes, utf8_bytes-IsByte}
use whatsapp_sales_saas_temp.Unicode.{Unicode}

take_front : (xs ys : List ℕ) (n : ℕ) → length xs ≡ n → take n (xs ++ ys) ≡ xs
take_front [] ys zero e = refl
take_front [] ys (suc n) e = absurd (omega arith)
take_front (x ∷ xs) ys zero e = absurd (omega arith)
take_front (x ∷ xs) ys (suc n) e = ap (◌∷◌ x) (take_front xs ys n (omega arith))

drop_front : (xs ys : List ℕ) (n : ℕ) → length xs ≡ n → drop n (xs ++ ys) ≡ ys
drop_front [] ys zero e = refl
drop_front [] ys (suc n) e = absurd (omega arith)
drop_front (x ∷ xs) ys zero e = absurd (omega arith)
drop_front (x ∷ xs) ys (suc n) e = drop_front xs ys n (omega arith)

module _ (u : Unicode) (aead : Aead) where
  encrypt-eq :
      (c : TokenCipher) (nonce : List ℕ) (said : Text) (aad : Option (List ℕ)) (sealed : List ℕ)
      → all_scalar said ≡ true
      → aead.seal c.key nonce (utf8_bytes said) aad ≡ ok sealed
      → encrypt u aead c nonce said aad
        ≡ ok (strip_right is_equals (urlsafe_b64encode (nonce ++ sealed)))
  unfolding encrypt encode_utf8
  encrypt-eq c nonce said aad sealed s e = rw s (rw e refl)

  decrypt-eq :
      (c : TokenCipher) (nonce : List ℕ) (token : Text) (aad : Option (List ℕ)) (sealed : List ℕ)
      → length nonce ≡ 12
      → 0 < length sealed
      → urlsafe_b64decode (pad token) ≡ ok (nonce ++ sealed)
      → decrypt u aead c token aad ≡ revealed u aead (aead.unseal c.key nonce sealed aad)
  unfolding decrypt
  decrypt-eq c nonce token aad sealed n l e =
      let big : leb (length (nonce ++ sealed)) 12 ≡ false =
        ground (arith, length-append nonce sealed) in
      rw e (rw big (rw (take_front nonce sealed 12 n) (rw (drop_front nonce sealed 12 n) refl)))

  -- A text without surrogates, any associated data, a nonce of twelve bytes, and a cipher that seals
  -- the text: encryption returns a token, and decrypting the token under the same key and data returns
  -- the text.
  pub decrypt-encrypt :
      (c : TokenCipher) (nonce : List ℕ) (said : Text) (aad : Option (List ℕ)) (sealed : List ℕ)
      → length nonce ≡ 12
      → All IsByte nonce
      → all_scalar said ≡ true
      → aead.seal c.key nonce (utf8_bytes said) aad ≡ ok sealed
      → (token : Text) × (encrypt u aead c nonce said aad ≡ ok token)
        × (decrypt u aead c token aad ≡ ok said)
  decrypt-encrypt c nonce said aad sealed n b s e =
      let plain = utf8_bytes said in
      let bytes = aead.seal-IsByte c.key nonce plain sealed aad (utf8_bytes-IsByte said s) e in
      let long : 0 < length sealed =
        omega (arith, aead.length-seal c.key nonce plain sealed aad e) in
      let token = strip_right is_equals (urlsafe_b64encode (nonce ++ sealed)) in
      let read = urlsafe_b64decode-pad (nonce ++ sealed) (All-append IsByte nonce sealed b bytes) in
      (
        token,
        encrypt-eq c nonce said aad sealed s e,
        decrypt-eq c nonce token aad sealed n long read
            ∙ rw (aead.unseal-seal c.key nonce plain sealed aad e) (decode_utf8-utf8_bytes said s),
      )
