-- ===== src/Tests/Honcho.antt =====
-- A Honcho client that lists what was appended.
use whatsapp_sales_saas_temp.Exec.{◌>>=◌}
use whatsapp_sales_saas_temp.Memory.{BuyerInteraction, agent, buyer}
use whatsapp_sales_saas_temp.Memory.Honcho.{
  AppendedMessage, HonchoClient, ListedMessage, honcho_memory, honcho_recall, honcho_remember,
  written_instant,
}
use whatsapp_sales_saas_temp.Memory.Honcho.Listed.{
  IsListed, honcho_recall-honcho_remember, message_of,
}
use whatsapp_sales_saas_temp.Prelude.{
  List, Text, [], inl, lit, map, none, refl, some, ℕ, ◌++◌, ◌∷◌, ◌≡◌,
}
use whatsapp_sales_saas_temp.Result.{Result, err, ok, value_error}
use whatsapp_sales_saas_temp.Unicode.{ascii}
use whatsapp_sales_saas_temp.Value.{str}

abbrev printed : ℕ → Text
printed t = t ∷ []

abbrev read_instant : Text → Result ℕ
read_instant [] = err (value_error (lit "Invalid isoformat string: ''"))
read_instant (c ∷ s) = ok c

abbrev item_of : AppendedMessage → ListedMessage
item_of m = record {
  content = str m.content;
  role = some m.role;
  at = written_instant m.at;
  metadata = some m.metadata;
}

abbrev listing : HonchoClient (List AppendedMessage)
listing = record {
  append_message = λ m kept. (ok tt, kept ++ m ∷ []);
  list_messages = λ namespace user_id limit kept. (ok (map item_of kept), kept);
  dialectic_summary = λ namespace user_id depth kept. (ok (str []), kept);
}

abbrev asked : BuyerInteraction
asked = record {
  text = lit "price?";
  role = buyer;
  at = 7;
  metadata = (lit "tenant_id", lit "t1") ∷ [];
}

abbrev answered_it : BuyerInteraction
answered_it = record { text = lit "10"; role = agent; at = 9; metadata = [] }

abbrev message : BuyerInteraction → AppendedMessage
message = message_of (lit "sample") (lit "shop:549") printed

item_of-IsListed : (m : AppendedMessage) → IsListed read_instant m (item_of m)
item_of-IsListed m = record {
  shows_content = refl;
  shows_role = refl;
  shows_metadata = inl refl;
  shows_time = inl refl;
}

honcho_recall-honcho_remember_example :
    (honcho_remember (honcho_memory listing) printed (lit "shop:549") answered_it >>= λ _.
    honcho_recall (honcho_memory listing) ascii.show read_instant 0 (lit "shop:549") none)
      (message asked ∷ [])
    ≡ (ok (asked ∷ answered_it ∷ []), message asked ∷ message answered_it ∷ [])
honcho_recall-honcho_remember_example =
    honcho_recall-honcho_remember (honcho_memory listing) printed read_instant ascii.show 0
      (lit "shop:549") answered_it (asked ∷ []) [] none
      (item_of (message asked) ∷ item_of (message answered_it) ∷ []) (message asked ∷ [])
      (message asked ∷ message answered_it ∷ []) (message asked ∷ message answered_it ∷ [])
      (λ t. refl) refl refl
      (item_of-IsListed (message asked), (item_of-IsListed (message answered_it), tt))
