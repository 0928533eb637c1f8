-- ===== src/Api/Webhook/Unrouted.antt =====
-- The requests of the webhook that concern no tenant.
use whatsapp_sales_saas_temp.Api.App.{App}
use whatsapp_sales_saas_temp.Api.Webhook.{
  dispatch, found_tenant, response, webhook_receive, webhook_verify,
}
use whatsapp_sales_saas_temp.Llm.{LlmPort}
use whatsapp_sales_saas_temp.Prelude.{
  Bool-cases, List, Option, Text, arith, eq_iff, false, inl, inr, is_ascii, lit, none, refl, sym,
  true, ℕ, ◌==◌, ◌≡◌, ◌≢◌, ◌⊎◌,
}
use whatsapp_sales_saas_temp.Result.{Result, ok}
use whatsapp_sales_saas_temp.Unicode.{Unicode}
use whatsapp_sales_saas_temp.Value.{Value}
use whatsapp_sales_saas_temp.Whatsapp.Gateway.{GatewayPort}
use whatsapp_sales_saas_temp.Whatsapp.Webhook.{
  compare_digest, extract_phone_number_id, verify_signature, verify_subscription,
}

module _ {G L : Type 0} (u : Unicode) (gateway : GatewayPort G) (llm : LlmPort L)
    (hmac_hex : Text → List ℕ → Text) (parse_json : List ℕ → Result Value) (app_secret : Text) where
  -- A signed request whose body is JSON and names no phone number, or one that no tenant has, is
  -- answered with 200 and changes nothing, whatever messages it carries.
  pub webhook_receive_unrouted :
      (now : ℕ) (body : List ℕ) (header : Text) (payload : Value) (phone : Option Text)
      (a : App G L)
      → verify_signature hmac_hex app_secret body header ≡ ok true
      → parse_json body ≡ ok payload
      → extract_phone_number_id payload ≡ ok phone
      → found_tenant u gateway llm phone a.fleet.repo ≡ none
      → webhook_receive u gateway llm hmac_hex parse_json app_secret now body header a
        ≡ (ok (response 200 (lit "no tenant for this phone_number_id")), a)
  unfolding webhook_receive dispatch
  webhook_receive_unrouted now body header payload phone a v j x n = rw v (rw j (rw x (rw n refl)))

differs : (s t : Text) → (s == t) ≡ false → s ≢ t
differs s t h e = ground (arith, eq_iff s t)

-- The handshake with ASCII tokens: the challenge is echoed with 200 where the mode is "subscribe" and
-- the token is the configured one, and otherwise the answer is 403.
webhook_verify-cases :
    (verify_token mode token challenge : Text)
    → is_ascii verify_token ≡ true
    → is_ascii token ≡ true
    → ((mode ≡ lit "subscribe")
        × (token ≡ verify_token)
        × (webhook_verify verify_token mode token challenge ≡ ok (response 200 challenge)))
      ⊎ (((mode ≢ lit "subscribe") ⊎ (token ≢ verify_token))
          × (webhook_verify verify_token mode token challenge
              ≡ ok (response 403 (lit "forbidden"))))
unfolding webhook_verify verify_subscription compare_digest
webhook_verify-cases verify_token mode token challenge s t =
    elim (Bool-cases (mode == lit "subscribe")) [
      | inr m ↦ rw m (inr (inl (λ e. differs mode (lit "subscribe") m e), refl))
      | inl m ↦ elim (Bool-cases (verify_token == token)) [
        | inl k ↦
            rw (m, s, t, k)
              (inl
                ((eq_iff mode (lit "subscribe")).0 m, sym ((eq_iff verify_token token).0 k), refl))
        | inr k ↦ rw (m, s, t, k) (inr (inr (λ e. differs verify_token token k (sym e)), refl))
      ]
    ]
