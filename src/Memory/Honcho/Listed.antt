-- ===== src/Memory/Honcho/Listed.antt =====
-- Interactions that come back from Honcho.
use whatsapp_sales_saas_temp.Exec.{◌>>=◌}
use whatsapp_sales_saas_temp.Memory.{BuyerInteraction}
use whatsapp_sales_saas_temp.Memory.Honcho.{
  AppendedMessage, HonchoMemory, ListedMessage, honcho_recall, honcho_remember, instant,
  interaction_of, or_no_fields, parse_dt, written_instant,
}
use whatsapp_sales_saas_temp.Prelude.{
  List, Option, Text, [], inl, inr, map, none, refl, some, sym, ℕ, ℤ, ◌++◌, ◌∙◌, ◌∷◌, ◌≡◌, ◌⊎◌,
}
use whatsapp_sales_saas_temp.Result.{Result, ok, traverse}
use whatsapp_sales_saas_temp.Value.{Value, str, to_text}

-- The message in which an interaction is sent.
abbrev pub message_of : Text → Text → (ℕ → Text) → BuyerInteraction → AppendedMessage
message_of namespace buyer_id isoformat x = record {
  namespace = namespace;
  user_id = buyer_id;
  content = x.text;
  role = x.role;
  metadata = x.metadata;
  at = isoformat x.at;
}

-- A listed item shows a message's content, role, metadata and time: an empty metadata may be left out, and
-- the time may have been read already.
pub record IsListed (fromisoformat : Text → Result ℕ) (message : AppendedMessage)
    (item : ListedMessage) : Type 0 where
  pub shows_content : item.content ≡ str message.content
  pub shows_role : item.role ≡ some message.role
  pub shows_metadata :
      (item.metadata ≡ some message.metadata) ⊎ (item.metadata ≡ none) × (message.metadata ≡ [])
  pub shows_time :
      (item.at ≡ written_instant message.at)
      ⊎ ((t : ℕ) × (item.at ≡ instant t) × (fromisoformat message.at ≡ ok t))

-- The items show the messages, in order.
abbrev pub AreListed : (Text → Result ℕ) → List AppendedMessage → List ListedMessage → Type 0
AreListed fromisoformat [] [] = Unit
AreListed fromisoformat [] (i ∷ items) = ⊥
AreListed fromisoformat (m ∷ messages) [] = ⊥
AreListed fromisoformat (m ∷ messages) (i ∷ items) =
    IsListed fromisoformat m i × AreListed fromisoformat messages items

module _ (isoformat : ℕ → Text) (fromisoformat : Text → Result ℕ)
    (printed : (t : ℕ) → fromisoformat (isoformat t) ≡ ok t) (show : Value → Text) (now : ℕ)
    (namespace buyer_id : Text) where
  parse_dt-IsListed :
      (x : BuyerInteraction) (item : ListedMessage)
      → IsListed fromisoformat (message_of namespace buyer_id isoformat x) item
      → parse_dt fromisoformat now item.at ≡ ok x.at
  unfolding parse_dt
  parse_dt-IsListed x item s = elim (s.shows_time) [
    | inl e ↦ rw e (printed x.at)
    | inr (t, e, l) ↦ rw e (sym l ∙ printed x.at)
  ]

  metadata-IsListed :
      (x : BuyerInteraction) (item : ListedMessage)
      → IsListed fromisoformat (message_of namespace buyer_id isoformat x) item
      → or_no_fields item.metadata ≡ x.metadata
  metadata-IsListed x item s = elim (s.shows_metadata) [
    | inl e ↦ rw e refl
    | inr (e, empty) ↦ rw e (sym empty)
  ]

  interaction_of-IsListed :
      (x : BuyerInteraction) (item : ListedMessage)
      → IsListed fromisoformat (message_of namespace buyer_id isoformat x) item
      → interaction_of fromisoformat now show item ≡ ok x
  unfolding to_text
  interaction_of-IsListed x item s =
      rw (parse_dt-IsListed x item s, s.shows_content, s.shows_role, metadata-IsListed x item s)
        refl

  traverse-AreListed :
      (xs : List BuyerInteraction) (items : List ListedMessage)
      → AreListed fromisoformat (map (message_of namespace buyer_id isoformat) xs) items
      → traverse (interaction_of fromisoformat now show) items ≡ ok xs
  unfolding traverse
  traverse-AreListed [] [] s = refl
  traverse-AreListed [] (i ∷ items) s = absurd s
  traverse-AreListed (x ∷ xs) [] s = absurd s
  traverse-AreListed (x ∷ xs) (i ∷ items) s =
      rw (interaction_of-IsListed x i s.0, traverse-AreListed xs items s.1) refl

-- A Honcho client that takes the message of an interaction, with its text, role, metadata and printed time
-- under the memory's namespace and the buyer, and then lists it among the messages of other
-- interactions, each item with what its message held; and times that are read as they are printed:
-- remembering the interaction and recalling the buyer, with any limit, returns the interactions just as
-- they were, in the order of the list.
pub honcho_recall-honcho_remember :
    {H : Type 0} (m : HonchoMemory H) (isoformat : ℕ → Text) (fromisoformat : Text → Result ℕ)
    (show : Value → Text) (now : ℕ) (b : Text) (x : BuyerInteraction)
    (before after : List BuyerInteraction) (limit : Option ℤ) (items : List ListedMessage)
    (start sent listed : H)
    → ((t : ℕ) → fromisoformat (isoformat t) ≡ ok t)
    → (m.client).append_message (message_of m.namespace b isoformat x) start ≡ (ok tt, sent)
    → (m.client).list_messages m.namespace b limit sent ≡ (ok items, listed)
    → AreListed fromisoformat (map (message_of m.namespace b isoformat) (before ++ x ∷ after)) items
    → (honcho_remember m isoformat b x >>= λ _. honcho_recall m show fromisoformat now b limit)
        start
      ≡ (ok (before ++ x ∷ after), listed)
unfolding honcho_remember honcho_recall
honcho_recall-honcho_remember m isoformat fromisoformat show now b x before after limit items start
      sent listed printed a l s =
    rw a (
      rw l (
        rw
          (traverse-AreListed isoformat fromisoformat printed show now m.namespace b
            (before ++ x ∷ after) items s)
          refl))
