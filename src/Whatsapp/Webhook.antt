-- ===== src/Whatsapp/Webhook.antt =====
-- src/sample/whatsapp/webhook.py. HMAC-SHA256 is a parameter: `hmac_hex secret body` is the hex digest.
use mathlib.Core.List.{flatten}
use whatsapp_sales_saas_temp.Models.{InboundMessage}
use whatsapp_sales_saas_temp.Prelude.{
  Bool, List, Option, Text, [], drop, false, if◌then◌else◌, is_ascii, lit, none, some, starts_with,
  ℕ, ◌&&◌, ◌==◌, ◌∷◌,
}
use whatsapp_sales_saas_temp.Result.{Result, err, map_ok, ok, traverse, type_error, ◌>>=◌}
use whatsapp_sales_saas_temp.Unicode.{Unicode}
use whatsapp_sales_saas_temp.Value.{
  Value, array, done, get, is_text, iterate, nil, null, object, str, to_text,
}

-- `hmac.compare_digest` on two strings: it refuses what is not ASCII.
unfoldable pub compare_digest : Text → Text → Result Bool
compare_digest a b =
    if is_ascii a && is_ascii b
    then ok (a == b)
    else err (type_error (lit "comparing strings with non-ASCII characters is not supported"))

abbrev pub prefix : Text
prefix = lit "sha256="

unfoldable pub verify_signature : (Text → List ℕ → Text) → Text → List ℕ → Text → Result Bool
unfolding compare_digest
verify_signature hmac_hex app_secret payload signature_header =
    if starts_with signature_header prefix
    then compare_digest (hmac_hex app_secret payload) (drop 7 signature_header)
    else ok false

unfoldable pub verify_subscription : Text → Text → Text → Text → Result (Option Text)
unfolding compare_digest
verify_subscription verify_token mode token challenge =
    if mode == lit "subscribe"
    then map_ok (λ same. if same then some challenge else none) (compare_digest verify_token token)
    else ok none

abbrev pub no_fields : Value
no_fields = object done

abbrev pub no_values : Value
no_values = array nil

-- The loop body of `extract_phone_number_id`: `isinstance(pnid, str) and pnid`.
abbrev pub as_phone : Value → Option Text
as_phone (str (c ∷ s)) = some (c ∷ s)
as_phone _ = none

-- A loop that returns the first result which is not `None`; an exception before it ends the loop.
unfoldable pub first_some {ℓ} :
    {A : Type ℓ} → (A → Result (Option Text)) → List A → Result (Option Text)
first_some f [] = ok none
first_some f (x ∷ xs) =
    let rest = first_some f xs in f x >>= λ r. elim r [ none ↦ rest | some t ↦ ok (some t) ]

unfoldable pub change_phone : Value → Result (Option Text)
change_phone change = do
  value ← get (lit "value") no_fields change
  metadata ← get (lit "metadata") no_fields value
  pnid ← get (lit "phone_number_id") null metadata
  ok (as_phone pnid)

unfoldable pub entry_phone : Value → Result (Option Text)
unfolding change_phone
entry_phone entry = do
  changes ← get (lit "changes") no_values entry
  items ← iterate changes
  first_some change_phone items

unfoldable pub extract_phone_number_id : Value → Result (Option Text)
unfolding entry_phone
extract_phone_number_id body = do
  entries ← get (lit "entry") no_values body
  items ← iterate entries
  first_some entry_phone items

module _ (u : Unicode) (tenant_id : Text) (now : ℕ) where
  -- `msg.get("type") != "text"`: `continue`
  unfoldable pub read_message : Value → Result (List InboundMessage)
  read_message msg = do
    kind ← get (lit "type") null msg
    if is_text (lit "text") kind
        then (do
          from ← get (lit "from") (str []) msg
          body ← get (lit "text") no_fields msg
          said ← get (lit "body") (str []) body
          id ← get (lit "id") (str []) msg
          ok (
              record {
                tenant_id = tenant_id;
                from_number = to_text u.show from;
                text = to_text u.show said;
                message_id = to_text u.show id;
                received_at = now;
              }
              ∷ []))
        else ok []

  unfoldable pub read_change : Value → Result (List InboundMessage)
  unfolding read_message
  read_change change = do
    value ← get (lit "value") no_fields change
    messages ← get (lit "messages") no_values value
    items ← iterate messages
    parts ← traverse read_message items
    ok (flatten parts)

  unfoldable pub read_entry : Value → Result (List InboundMessage)
  unfolding read_change
  read_entry entry = do
    changes ← get (lit "changes") no_values entry
    items ← iterate changes
    parts ← traverse read_change items
    ok (flatten parts)

  unfoldable pub parse_messages : Value → Result (List InboundMessage)
  unfolding read_entry
  parse_messages body = do
    entries ← get (lit "entry") no_values body
    items ← iterate entries
    parts ← traverse read_entry items
    ok (flatten parts)
