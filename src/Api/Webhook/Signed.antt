-- ===== src/Api/Webhook/Signed.antt =====
-- What a request must carry to have any effect.
use whatsapp_sales_saas_temp.Api.App.{App}
use whatsapp_sales_saas_temp.Api.Webhook.{response, webhook_receive}
use whatsapp_sales_saas_temp.Llm.{LlmPort}
use whatsapp_sales_saas_temp.Prelude.{
  List, Text, [], arith, drop, eq_iff, eq_refl, false, inl, inr, is_ascii, length, lit, refl,
  starts_with, true, ℕ, ◌++◌, ◌∷◌, ◌≡◌, ◌≢◌, ◌⊎◌,
}
use whatsapp_sales_saas_temp.Result.{Result, err, ok, type_error}
use whatsapp_sales_saas_temp.Unicode.{Unicode}
use whatsapp_sales_saas_temp.Value.{Value}
use whatsapp_sales_saas_temp.Whatsapp.Gateway.{GatewayPort}
use whatsapp_sales_saas_temp.Whatsapp.Webhook.{prefix, verify_signature}

starts_with-split : (p s : Text) → starts_with s p ≡ true → s ≡ p ++ drop (length p) s
unfolding starts_with
starts_with-split [] s h = refl
starts_with-split (b ∷ p) [] h = cc
starts_with-split (b ∷ p) (a ∷ s) h = ground (arith, starts_with-split p s)

abbrev pub signed : (Text → List ℕ → Text) → Text → List ℕ → Text
signed hmac_hex secret body = prefix ++ hmac_hex secret body

-- Only the right signature is accepted.
pub verify_signature_sound :
    (hmac_hex : Text → List ℕ → Text) (secret : Text) (body : List ℕ) (header : Text)
    → verify_signature hmac_hex secret body header ≡ ok true
    → header ≡ signed hmac_hex secret body
unfolding verify_signature
verify_signature_sound hmac_hex secret body header h =
    ground (arith, starts_with-split prefix header, eq_iff (hmac_hex secret body) (drop 7 header))

starts_with-append : (p s : Text) → starts_with (p ++ s) p ≡ true
unfolding starts_with
starts_with-append [] [] = refl
starts_with-append [] (c ∷ s) = refl
starts_with-append (b ∷ p) s = ground (arith, starts_with-append p s)

-- The header made of the prefix and the digest of the same body under the same secret is accepted,
-- where the digest is ASCII.
pub verify_signature_complete :
    (hmac_hex : Text → List ℕ → Text) (secret : Text) (body : List ℕ)
    → is_ascii (hmac_hex secret body) ≡ true
    → verify_signature hmac_hex secret body (signed hmac_hex secret body) ≡ ok true
unfolding verify_signature
verify_signature_complete hmac_hex secret body h =
    rw (starts_with-append prefix (hmac_hex secret body))
      (rw h (rw (eq_refl (hmac_hex secret body)) refl))

abbrev not_ascii : Text
not_ascii = lit "comparing strings with non-ASCII characters is not supported"

verify_signature-cases :
    (hmac_hex : Text → List ℕ → Text) (secret : Text) (body : List ℕ) (header : Text)
    → (verify_signature hmac_hex secret body header ≡ ok true)
      ⊎ ((verify_signature hmac_hex secret body header ≡ ok false)
          ⊎ (verify_signature hmac_hex secret body header ≡ err (type_error not_ascii)))
unfolding verify_signature
verify_signature-cases hmac_hex secret body header = ground arith

module _ {G L : Type 0} (u : Unicode) (gateway : GatewayPort G) (llm : LlmPort L)
    (hmac_hex : Text → List ℕ → Text) (parse_json : List ℕ → Result Value) (app_secret : Text) where
  -- Whatever the body, the stores, the model and the gateway: a request whose signature header is not
  -- `sha256=` and the body's HMAC under the app's secret changes nothing, and its answer is 401, or
  -- the `TypeError` that comparing a header outside ASCII raises.
  pub webhook_receive_unsigned :
      (now : ℕ) (body : List ℕ) (header : Text) (a : App G L)
      → header ≢ signed hmac_hex app_secret body
      → let (r, a') =
          webhook_receive u gateway llm hmac_hex parse_json app_secret now body header a in
        (a' ≡ a)
        × ((r ≡ ok (response 401 (lit "invalid signature")))
            ⊎ ((m : Text) × (r ≡ err (type_error m))))
  unfolding webhook_receive
  webhook_receive_unsigned now body header a ne =
      elim (verify_signature-cases hmac_hex app_secret body header) [
        | inl fits ↦ absurd (ne (verify_signature_sound hmac_hex app_secret body header fits))
        | inr (inl bad) ↦ rw bad (refl, inl refl)
        | inr (inr odd) ↦ rw odd (refl, inr (not_ascii, refl))
      ]
