-- ===== src/Security/Crypto/Sealed.antt =====
-- What a token must be to be accepted.
use whatsapp_sales_saas_temp.Prelude.{
  Bool-cases, List, Option, Text, [], ap, arith, drop, false, inl, inr, leb, length, lit, refl, suc,
  sym, take, zero, ℕ, ◌++◌, ◌∙◌, ◌∷◌, ◌≡◌, ◌≤◌,
}
use whatsapp_sales_saas_temp.Result.{Result, bind_ok, err, ok}
use whatsapp_sales_saas_temp.Security.Base64.{pad, urlsafe_b64decode}
use whatsapp_sales_saas_temp.Security.Crypto.{
  Aead, Opened, TokenCipher, decrypt, failed, invalid_tag, opened, or_crypto_error, revealed,
}
use whatsapp_sales_saas_temp.Security.Utf8.{decode_utf8}
use whatsapp_sales_saas_temp.Unicode.{Unicode}

take-append-drop : (n : ℕ) (xs : List ℕ) → take n xs ++ drop n xs ≡ xs
take-append-drop zero xs = refl
take-append-drop (suc n) [] = refl
take-append-drop (suc n) (x ∷ xs) = ap (◌∷◌ x) (take-append-drop n xs)

or_crypto_error-ok :
    (m : Text) (r : Result (List ℕ)) (a : List ℕ) → or_crypto_error m r ≡ ok a → r ≡ ok a
unfolding or_crypto_error
or_crypto_error-ok m (ok b) a e = e
or_crypto_error-ok m (err x) a e = ground arith

length-take_of_le : (n : ℕ) (xs : List ℕ) → n ≤ length xs → length (take n xs) ≡ n
length-take_of_le zero xs h = refl
length-take_of_le (suc n) [] h = absurd (omega arith)
length-take_of_le (suc n) (x ∷ xs) h = omega (arith, length-take_of_le n xs)

module _ (u : Unicode) (aead : Aead) where
  -- The token's bytes are a nonce and what the cipher seals under it, and the text is the sealed one.
  pub record IsSealed (c : TokenCipher) (token : Text) (aad : Option (List ℕ)) (said : Text)
      : Type 0 where
    pub nonce : List ℕ
    pub sealed : List ℕ
    pub plain : List ℕ
    pub decoded : urlsafe_b64decode (pad token) ≡ ok (nonce ++ sealed)
    pub size : length nonce ≡ 12
    pub authentic : aead.seal c.key nonce plain aad ≡ ok sealed
    pub meaning : decode_utf8 plain ≡ ok said

  revealed-ok :
      (o : Opened) (said : Text)
      → revealed u aead o ≡ ok said
      → (plain : List ℕ) × (o ≡ opened plain) × (decode_utf8 plain ≡ ok said)
  revealed-ok (opened plain) said e = (plain, refl, e)
  revealed-ok invalid_tag said e = cc
  revealed-ok (failed x) said e = cc

  unsealed :
      (c : TokenCipher) (token : Text) (aad : Option (List ℕ)) (said : Text) (blob : List ℕ)
      → urlsafe_b64decode (pad token) ≡ ok blob
      → leb (length blob) 12 ≡ false
      → revealed u aead (aead.unseal c.key (take 12 blob) (drop 12 blob) aad) ≡ ok said
      → IsSealed c token aad said
  unsealed c token aad said blob d l e =
      let (plain, o, m) =
        revealed-ok (aead.unseal c.key (take 12 blob) (drop 12 blob) aad) said e in
      record {
        nonce = take 12 blob;
        sealed = drop 12 blob;
        plain = plain;
        decoded = d ∙ ap ok (sym (take-append-drop 12 blob));
        size = length-take_of_le 12 blob (ground arith);
        authentic = aead.seal-unseal c.key (take 12 blob) plain (drop 12 blob) aad o;
        meaning = m;
      }

  -- Whatever the token: decryption returns a text only where the token is a sealed one, for the same
  -- key and associated data; otherwise it raises.
  pub decrypt-IsSealed :
      (c : TokenCipher) (token : Text) (aad : Option (List ℕ)) (said : Text)
      → decrypt u aead c token aad ≡ ok said
      → IsSealed c token aad said
  unfolding decrypt
  decrypt-IsSealed c token aad said e =
      let bytes =
        or_crypto_error (lit "token is not valid base64") (urlsafe_b64decode (pad token)) in
      let (blob, r, k) = bind_ok bytes _ said e in
      let d =
        or_crypto_error-ok (lit "token is not valid base64") (urlsafe_b64decode (pad token)) blob
          r in
      elim (Bool-cases (leb (length blob) 12)) [
        | inl short ↦ let q = rw short at k in cc
        | inr long ↦ unsealed c token aad said blob d long (rw long at k)
      ]
