-- ===== src/Whatsapp/Envelope.antt =====
-- Meta's envelope: what the two parsers of src/sample/whatsapp/webhook.py are to read from a body. The
-- fields of an object may stand in any order, with any others between them.
pub mod Read
use mathlib.Core.List.{flatten}
use whatsapp_sales_saas_temp.Models.{InboundMessage}
use whatsapp_sales_saas_temp.Prelude.{
  List, Option, Text, [], find, is_empty, lit, map, none, not, some, ℕ, ◌∷◌, ◌≡◌, ◌≢◌,
}
use whatsapp_sales_saas_temp.Value.{
  Fields, Value, Values, array, cons, find_field, nil, object, str,
}
use whatsapp_sales_saas_temp.Whatsapp.Gateway.{text}

-- One item of "messages": a text message, or one of another kind, as an image.
pub data Item : Type 0 where
  text_item : (sender body id : Text) → Item
  other_item : Item

-- One item of "changes": messages to a number, or a notice without messages, as a delivery receipt.
pub data Change : Type 0 where
  brings : (phone : Text) (items : List Item) → Change
  notice : (phone : Text) → Change

-- The changes of each entry.
abbrev pub Envelope : Type 0
Envelope = List (List Change)

-- The values of a JSON list stand for the items, in order.
pub data Each {A : Type 0} (R : Value → A → Type 0) : Values → List A → Type 0 where
  no_item : Each R nil []
  an_item :
      {v : Value} {x : A} {vs : Values} {xs : List A}
      → R v x
      → Each R vs xs
      → Each R (cons v vs) (x ∷ xs)

pub data IsItem : Value → Item → Type 0 where
  a_text :
      {fs parts : Fields} {sender body id : Text}
      → find_field (lit "type") fs ≡ some (str (lit "text"))
      → find_field (lit "from") fs ≡ some (str sender)
      → find_field (lit "text") fs ≡ some (object parts)
      → find_field (lit "body") parts ≡ some (str body)
      → find_field (lit "id") fs ≡ some (str id)
      → IsItem (object fs) (text_item sender body id)
  another_kind :
      {fs : Fields} {kind : Text}
      → find_field (lit "type") fs ≡ some (str kind)
      → kind ≢ lit "text"
      → IsItem (object fs) other_item
  of_no_kind : {fs : Fields} → find_field (lit "type") fs ≡ none → IsItem (object fs) other_item

-- The value of a change names the number that it is for; no number is the empty one.
pub data IsFor : Text → Fields → Type 0 where
  is_for :
      {value meta : Fields} {phone : Text}
      → find_field (lit "metadata") value ≡ some (object meta)
      → find_field (lit "phone_number_id") meta ≡ some (str phone)
      → IsFor phone value
  for_nobody : {value : Fields} → find_field (lit "metadata") value ≡ none → IsFor [] value

pub data IsChange : Value → Change → Type 0 where
  with_messages :
      {fs value : Fields} {vs : Values} {phone : Text} {items : List Item}
      → find_field (lit "value") fs ≡ some (object value)
      → IsFor phone value
      → find_field (lit "messages") value ≡ some (array vs)
      → Each IsItem vs items
      → IsChange (object fs) (brings phone items)
  without_messages :
      {fs value : Fields} {phone : Text}
      → find_field (lit "value") fs ≡ some (object value)
      → IsFor phone value
      → find_field (lit "messages") value ≡ none
      → IsChange (object fs) (notice phone)

pub data IsEntry : Value → List Change → Type 0 where
  an_entry :
      {fs : Fields} {vs : Values} {cs : List Change}
      → find_field (lit "changes") fs ≡ some (array vs)
      → Each IsChange vs cs
      → IsEntry (object fs) cs
  no_changes : {fs : Fields} → find_field (lit "changes") fs ≡ none → IsEntry (object fs) []

pub data IsEnvelope : Value → Envelope → Type 0 where
  an_envelope :
      {fs : Fields} {vs : Values} {es : Envelope}
      → find_field (lit "entry") fs ≡ some (array vs)
      → Each IsEntry vs es
      → IsEnvelope (object fs) es
  no_entries : {fs : Fields} → find_field (lit "entry") fs ≡ none → IsEnvelope (object fs) []

module _ (tenant_id : Text) (now : ℕ) where
  abbrev pub item_messages : Item → List InboundMessage
  item_messages (text_item sender body id) =
      record {
        tenant_id = tenant_id;
        from_number = sender;
        text = body;
        message_id = id;
        received_at = now;
      }
      ∷ []
  item_messages other_item = []

  abbrev pub change_messages : Change → List InboundMessage
  change_messages (brings phone items) = flatten (map item_messages items)
  change_messages (notice phone) = []

  -- The text messages of all entries and changes, in order.
  abbrev pub text_messages : Envelope → List InboundMessage
  text_messages es = flatten (map (λ cs. flatten (map change_messages cs)) es)

abbrev pub phone_of : Change → Text
phone_of (brings phone items) = phone
phone_of (notice phone) = phone

-- The first number that is not empty, of all entries and changes.
abbrev pub first_phone : List Change → Option Text
first_phone cs = find (λ p. not (is_empty p)) (map phone_of cs)
