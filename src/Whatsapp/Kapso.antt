-- ===== src/Whatsapp/Kapso.antt =====
-- `KapsoGateway` of src/sample/whatsapp/gateway.py. The HTTP client is a parameter: `post` takes the
-- URL, the JSON and the timeout in seconds. A response may lack the two attributes that are read.
pub mod Failure
use whatsapp_sales_saas_temp.Api.Webhook.{response}
use whatsapp_sales_saas_temp.Exec.{Exec, catch, lift, pure, raise, ◌>>=◌, ◌>>◌}
use whatsapp_sales_saas_temp.Prelude.{
  Bool, List, Option, Text, [], decimal, if◌then◌else◌, leb, lit, nat_eq, none, some, strip_right,
  take, ℕ, ◌++◌, ◌∷◌,
}
use whatsapp_sales_saas_temp.Result.{Error, Result, err, gateway_error, map_ok, message}
use whatsapp_sales_saas_temp.Unicode.{Unicode}
use whatsapp_sales_saas_temp.Value.{
  Fields, Value, Values, array, cons, done, field, find_field, nil, null, object, or_else, str,
  to_text, truth,
}
use whatsapp_sales_saas_temp.Whatsapp.Gateway.{
  GatewayPort, OutboundMessage, template_message, text, text_message,
}

pub record KapsoResponse : Type 0 where
  pub status_code : Option ℕ
  pub text : Option Text
  pub json : Result Value

pub record KapsoGateway : Type 0 where
  pub base_url : Text
  pub timeout : ℕ

abbrev pub is_slash : ℕ → Bool
is_slash c = nat_eq c b'/'

-- `__init__`
unfoldable pub kapso_gateway : Text → ℕ → KapsoGateway
kapso_gateway base_url timeout = record {
  base_url = strip_right is_slash base_url;
  timeout = timeout;
}

abbrev pub param_fields : List (Text × Text) → Fields
param_fields [] = done
param_fields ((k, v) ∷ ps) = field k (str v) (param_fields ps)

-- `if tenant_id: payload["tenant_id"] = tenant_id`
abbrev pub tenant_field : Option Text → Fields
tenant_field none = done
tenant_field (some []) = done
tenant_field (some (c ∷ s)) = field (lit "tenant_id") (str (c ∷ s)) done

abbrev pub text_payload : Text → Text → Option Text → Value
text_payload to_number body tenant_id = object (
    field (lit "to") (str to_number) (
      field (lit "type") (str (lit "text")) (
        field (lit "text") (object (field (lit "body") (str body) done)) (tenant_field tenant_id))))

abbrev pub template_payload : Text → Text → List (Text × Text) → Option Text → Value
template_payload to_number template_id params tenant_id = object (
    field (lit "to") (str to_number) (
      field (lit "type") (str (lit "template")) (
        field (lit "template")
          (object (
            field (lit "name") (str template_id)
              (field (lit "parameters") (object (param_fields params)) done)))
          (tenant_field tenant_id))))

abbrev pub or_zero : Option ℕ → ℕ
or_zero none = 0
or_zero (some n) = n

abbrev pub or_blank : Option Text → Text
or_blank none = []
or_blank (some s) = s

-- `body if isinstance(body, dict) else {"raw": body}`
unfoldable pub as_dict : Value → Fields
as_dict (object fs) = fs
as_dict v = field (lit "raw") v done

module _ (u : Unicode) where
  abbrev pub returned_error : KapsoResponse → Text
  returned_error res =
      lit "kapso returned "
      ++ (decimal (or_zero res.status_code) ++ (lit ": " ++ take 200 (or_blank res.text)))

  unfoldable pub read_body : KapsoResponse → Result Fields
  read_body res =
      if leb 400 (or_zero res.status_code)
      then err (gateway_error (returned_error res))
      else map_ok as_dict res.json

  -- `str(first.get("id")) if first.get("id") else None`
  abbrev pub first_id : Values → Option Text
  first_id nil = none
  first_id (cons (object fs) vs) =
      let id = or_else null (find_field (lit "id") fs) in
      if truth id then some (to_text u.show id) else none
  first_id (cons v vs) = none

  unfoldable pub vendor_id_of : Fields → Option Text
  vendor_id_of fs = elim (find_field (lit "messages") fs) [
    | some (array vs) ↦ first_id vs
    | _ ↦ none
  ]

  module _ {S : Type 0} (post : Text → Value → ℕ → Exec S KapsoResponse) (g : KapsoGateway) where
    abbrev pub request_failed : Error → Exec S KapsoResponse
    request_failed e = raise (gateway_error (lit "kapso request failed: " ++ message u.repr e))

    unfoldable pub post_message : Text → Value → Exec S Fields
    unfolding read_body
    post_message path payload = do
      res ← catch (post (g.base_url ++ path) payload g.timeout) request_failed
      lift (read_body res)

    unfoldable pub kapso_send_text : ℕ → Text → Text → Option Text → Exec S OutboundMessage
    unfolding post_message vendor_id_of
    kapso_send_text now to_number body tenant_id = do
      response ← post_message (lit "/messages") (text_payload to_number body tenant_id)
      pure (text_message now to_number body tenant_id (vendor_id_of response))

    unfoldable pub kapso_send_template :
        ℕ → Text → Text → List (Text × Text) → Option Text → Exec S OutboundMessage
    unfolding post_message vendor_id_of
    kapso_send_template now to_number template_id params tenant_id = do
      response ←
          post_message (lit "/messages") (template_payload to_number template_id params tenant_id)
      pure (template_message now to_number template_id params tenant_id (vendor_id_of response))

    abbrev pub kapso : GatewayPort S
    kapso = record { send_text = kapso_send_text; send_template = kapso_send_template }
