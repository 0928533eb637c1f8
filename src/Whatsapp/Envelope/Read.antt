-- ===== src/Whatsapp/Envelope/Read.antt =====
-- What the parsers read from an envelope.
use mathlib.Core.List.{flatten}
use whatsapp_sales_saas_temp.Prelude.{
  List, Option, Option-cases, Text, [], ap, arith, eq_iff, false, inl, inr, lit, map, none, refl,
  some, sym, ℕ, ◌++◌, ◌==◌, ◌∙◌, ◌∷◌, ◌≡◌, ◌≢◌,
}
use whatsapp_sales_saas_temp.Result.{Result, ok, traverse}
use whatsapp_sales_saas_temp.Unicode.{Unicode}
use whatsapp_sales_saas_temp.Value.{
  Fields, Value, Values, cons, elements, find_field, get, is_text, iterate, nil, object, str,
  to_text,
}
use whatsapp_sales_saas_temp.Whatsapp.Envelope.{
  Change, Each, Envelope, IsChange, IsEntry, IsEnvelope, IsFor, IsItem, Item, a_text, an_entry,
  an_envelope, an_item, another_kind, brings, change_messages, first_phone, for_nobody, is_for,
  item_messages, no_changes, no_entries, no_item, notice, of_no_kind, phone_of, text_messages,
  with_messages, without_messages,
}
use whatsapp_sales_saas_temp.Whatsapp.Webhook.{
  as_phone, change_phone, entry_phone, extract_phone_number_id, first_some, parse_messages,
  read_change, read_entry, read_message,
}

not_text : (kind : Text) → kind ≢ lit "text" → is_text (lit "text") (str kind) ≡ false
unfolding is_text
not_text kind h = ground (arith, eq_iff kind (lit "text"))

traverse-Each :
    {A B : Type 0} (R : Value → A → Type 0) (f : Value → Result B) (g : A → B)
    → ((v : Value) (x : A) → R v x → f v ≡ ok (g x))
    → (vs : Values) (xs : List A) → Each R vs xs
    → traverse f (elements vs) ≡ ok (map g xs)
unfolding traverse
traverse-Each R f g h nil [] no_item = refl
traverse-Each R f g h nil (x ∷ xs) each = elim each [ ]
traverse-Each R f g h (cons v vs) [] each = elim each [ ]
traverse-Each R f g h (cons v vs) (x ∷ xs) (an_item r each) =
    rw (h v x r, traverse-Each R f g h vs xs each) refl

module _ (u : Unicode) (tenant_id : Text) (now : ℕ) where
  read_message-IsItem :
      (v : Value) (i : Item)
      → IsItem v i
      → read_message u tenant_id now v ≡ ok (item_messages tenant_id now i)
  unfolding read_message get ◌==◌ to_text is_text
  read_message-IsItem _ _ (a_text p q r s t) = rw p (rw q (rw r (rw s (rw t refl))))
  read_message-IsItem _ _ (another_kind {kind = kind} p h) = rw p (rw (not_text kind h) refl)
  read_message-IsItem _ _ (of_no_kind p) = rw p refl

  read_change-IsChange :
      (v : Value) (c : Change)
      → IsChange v c
      → read_change u tenant_id now v ≡ ok (change_messages tenant_id now c)
  unfolding read_change get iterate traverse flatten
  read_change-IsChange _ _ (with_messages {vs = vs} {items = items} p i q each) = rw p (
      rw q (
        rw
          (traverse-Each IsItem (read_message u tenant_id now) (item_messages tenant_id now)
            read_message-IsItem vs items each)
          refl))
  read_change-IsChange _ _ (without_messages p i q) = rw p (rw q refl)

  read_entry-IsEntry :
      (v : Value) (cs : List Change)
      → IsEntry v cs
      → read_entry u tenant_id now v ≡ ok (flatten (map (change_messages tenant_id now) cs))
  unfolding read_entry get iterate traverse flatten
  read_entry-IsEntry _ _ (an_entry {vs = vs} {cs = cs} p each) = rw p (
      rw
        (traverse-Each IsChange (read_change u tenant_id now) (change_messages tenant_id now)
          read_change-IsChange vs cs each)
        refl)
  read_entry-IsEntry _ _ (no_changes p) = rw p refl

  parse_messages-IsEnvelope :
      (v : Value) (es : Envelope)
      → IsEnvelope v es
      → parse_messages u tenant_id now v ≡ ok (text_messages tenant_id now es)
  unfolding parse_messages get iterate traverse flatten
  parse_messages-IsEnvelope _ _ (an_envelope {vs = vs} {es = es} p each) = rw p (
      rw
        (traverse-Each IsEntry (read_entry u tenant_id now)
          (λ cs. flatten (map (change_messages tenant_id now) cs)) read_entry-IsEntry vs es each)
        refl)
  parse_messages-IsEnvelope _ _ (no_entries p) = rw p refl

abbrev as_option : Text → Option Text
as_option [] = none
as_option (c ∷ s) = some (c ∷ s)

as_phone-str : (t : Text) → as_phone (str t) ≡ as_option t
as_phone-str [] = refl
as_phone-str (c ∷ s) = refl

change_phone-IsFor :
    (fs value : Fields) (phone : Text)
    → find_field (lit "value") fs ≡ some (object value)
    → IsFor phone value
    → change_phone (object fs) ≡ ok (as_option phone)
unfolding change_phone get find_field
change_phone-IsFor fs value phone p (is_for q r) = rw p (rw q (rw r (ap ok (as_phone-str phone))))
change_phone-IsFor fs value _ p (for_nobody q) = rw p (rw q refl)

change_phone-IsChange :
    (v : Value) (c : Change) → IsChange v c → change_phone v ≡ ok (as_option (phone_of c))
change_phone-IsChange _ _ (with_messages {fs} {value} {phone = phone} p i q each) =
    change_phone-IsFor fs value phone p i
change_phone-IsChange _ _ (without_messages {fs} {value} {phone = phone} p i q) =
    change_phone-IsFor fs value phone p i

abbrev or_option : Option Text → Option Text → Option Text
or_option none b = b
or_option (some a) b = some a

first_some-Each :
    {A : Type 0} (R : Value → A → Type 0) (f : Value → Result (Option Text)) (g : A → Option Text)
    (total : List A → Option Text)
    → ((v : Value) (x : A) → R v x → f v ≡ ok (g x))
    → total [] ≡ none
    → ((x : A) (xs : List A) → total (x ∷ xs) ≡ or_option (g x) (total xs))
    → (vs : Values) (xs : List A) → Each R vs xs
    → first_some f (elements vs) ≡ ok (total xs)
unfolding first_some
first_some-Each R f g total h n c nil [] no_item = ap ok (sym n)
first_some-Each R f g total h n c nil (x ∷ xs) each = elim each [ ]
first_some-Each R f g total h n c (cons v vs) [] each = elim each [ ]
first_some-Each R f g total h n c (cons v vs) (x ∷ xs) (an_item r each) =
    elim (Option-cases (g x)) [
      | inl e ↦ rw (h v x r, c x xs, e) (first_some-Each R f g total h n c vs xs each)
      | inr (t, e) ↦ rw (h v x r, c x xs, e) refl
    ]

first_phone-cons :
    (c : Change) (cs : List Change)
    → first_phone (c ∷ cs) ≡ or_option (as_option (phone_of c)) (first_phone cs)
first_phone-cons (brings [] items) cs = refl
first_phone-cons (brings (c ∷ s) items) cs = refl
first_phone-cons (notice []) cs = refl
first_phone-cons (notice (c ∷ s)) cs = refl

or_option_assoc : (a b c : Option Text) → or_option (or_option a b) c ≡ or_option a (or_option b c)
or_option_assoc none b c = refl
or_option_assoc (some a) b c = refl

first_phone-append :
    (xs ys : List Change) → first_phone (xs ++ ys) ≡ or_option (first_phone xs) (first_phone ys)
first_phone-append [] ys = refl
first_phone-append (c ∷ cs) ys =
    first_phone-cons c (cs ++ ys)
    ∙ ap (or_option (as_option (phone_of c))) (first_phone-append cs ys)
    ∙ sym (or_option_assoc (as_option (phone_of c)) (first_phone cs) (first_phone ys))
    ∙ ap (λ o. or_option o (first_phone ys)) (sym (first_phone-cons c cs))

entry_phone-IsEntry :
    (v : Value) (cs : List Change) → IsEntry v cs → entry_phone v ≡ ok (first_phone cs)
unfolding entry_phone get iterate first_some
entry_phone-IsEntry _ _ (an_entry {vs = vs} {cs = cs} p each) = rw p (
    first_some-Each IsChange change_phone (λ c. as_option (phone_of c)) first_phone
      change_phone-IsChange refl first_phone-cons vs cs each)
entry_phone-IsEntry _ _ (no_changes p) = rw p refl

extract_phone_number_id-IsEnvelope :
    (v : Value) (es : Envelope)
    → IsEnvelope v es
    → extract_phone_number_id v ≡ ok (first_phone (flatten es))
unfolding extract_phone_number_id get iterate flatten first_some
extract_phone_number_id-IsEnvelope _ _ (an_envelope {vs = vs} {es = es} p each) = rw p (
    first_some-Each IsEntry entry_phone first_phone (λ xs. first_phone (flatten xs))
      entry_phone-IsEntry refl (λ cs xs. first_phone-append cs (flatten xs)) vs es each)
extract_phone_number_id-IsEnvelope _ _ (no_entries p) = rw p refl

-- A body with a list of entries of changes, if any, each for a number or for none and with its messages or,
-- as a notice, without, where every message is a text with its sender and id or is of another kind; the
-- fields in any order, and any others besides: the parser returns exactly the text messages, in order, as the messages
-- of the tenant, and the number found is the first that is not empty.
pub envelope_read :
    (u : Unicode) (tenant_id : Text) (now : ℕ) (v : Value) (es : Envelope)
    → IsEnvelope v es
    → (parse_messages u tenant_id now v ≡ ok (text_messages tenant_id now es))
      × (extract_phone_number_id v ≡ ok (first_phone (flatten es)))
envelope_read u tenant_id now v es h =
    (parse_messages-IsEnvelope u tenant_id now v es h, extract_phone_number_id-IsEnvelope v es h)
