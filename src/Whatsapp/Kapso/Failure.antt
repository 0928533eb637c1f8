-- ===== src/Whatsapp/Kapso/Failure.antt =====
-- What happens to a failing request.
use whatsapp_sales_saas_temp.Exec.{Exec}
use whatsapp_sales_saas_temp.Prelude.{Option, Text, lit, ℕ, ◌++◌, ◌<◌, ◌≡◌, ◌≤◌, ◌⊎◌}
use whatsapp_sales_saas_temp.Result.{Result, err, gateway_error, map_ok, message, ok}
use whatsapp_sales_saas_temp.Unicode.{Unicode}
use whatsapp_sales_saas_temp.Value.{Value}
use whatsapp_sales_saas_temp.Whatsapp.Gateway.{OutboundMessage, text_message}
use whatsapp_sales_saas_temp.Whatsapp.Kapso.{
  KapsoGateway, KapsoResponse, as_dict, kapso_send_text, or_zero, returned_error, text_payload,
  vendor_id_of,
}

module _ (u : Unicode) {S : Type 0} (post : Text → Value → ℕ → Exec S KapsoResponse)
    (g : KapsoGateway) (now : ℕ) (to_number body : Text) (tenant_id : Option Text) (s : S) where
  abbrev pub posted : Result KapsoResponse × S
  posted = post (g.base_url ++ lit "/messages") (text_payload to_number body tenant_id) g.timeout s

  abbrev pub sent_text : Result OutboundMessage × S
  sent_text = kapso_send_text u post g now to_number body tenant_id s

  -- What sending a text returns, by what the client does: an exception of the client is a
  -- `GatewayError`, and so is a status of 400 or more; with a lower status, or none, the message is
  -- returned under the id in the body, or the exception of reading the body goes through. The state is
  -- the client's.
  abbrev pub Answers : Result KapsoResponse → Result OutboundMessage → Type 0
  Answers (err e) r = r ≡ err (gateway_error (lit "kapso request failed: " ++ message u.repr e))
  Answers (ok res) r =
      ((400 ≤ or_zero res.status_code) × (r ≡ err (gateway_error (returned_error u res))))
      ⊎ ((or_zero res.status_code < 400)
          × (r
              ≡ map_ok (λ b. text_message now to_number body tenant_id (vendor_id_of u (as_dict b)))
                  res.json))
