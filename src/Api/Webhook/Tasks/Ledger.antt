-- ===== src/Api/Webhook/Tasks/Ledger.antt =====
-- What any interleaving of tasks has done, and what it still owes, with the in-memory gateway.
use whatsapp_sales_saas_temp.Memory.{Role as Speaker}
use whatsapp_sales_saas_temp.Api.App.{App}
use whatsapp_sales_saas_temp.Api.Webhook.Tasks.{
  Phase, Task, asking, gone, heard_entry, ready, recording, sending,
}
use whatsapp_sales_saas_temp.Memory.{BuyerInteraction, agent, buyer}
use whatsapp_sales_saas_temp.Memory.History.{remember_all}
use whatsapp_sales_saas_temp.Models.{InboundMessage, Tenant}
use whatsapp_sales_saas_temp.Prelude.{
  Bool, List, Option, Text, [], false, filter, filter-append, length, length-append, map, not, some,
  true, ℕ, ◌++◌, ◌+◌, ◌∷◌, ◌≡◌,
}
use whatsapp_sales_saas_temp.Whatsapp.Gateway.{OutboundMessage, Outbox}

-- How many elements pass a test.
abbrev pub tally : {A : Type 0} → (A → Bool) → List A → ℕ
tally q xs = length (filter q xs)

pub tally-append :
    {A : Type 0} (q : A → Bool) (xs ys : List A) → tally q (xs ++ ys) ≡ tally q xs + tally q ys
tally-append q xs ys = rw (filter-append q xs ys) (length-append (filter q xs) (filter q ys))

abbrev pub is_buyer : Speaker → Bool
is_buyer buyer = true
is_buyer agent = false

abbrev pub of_buyers : List (Text × BuyerInteraction) → List (Text × BuyerInteraction)
of_buyers log = filter (λ e. is_buyer e.1.role) log

abbrev pub of_agent : List (Text × BuyerInteraction) → List Text
of_agent log = map (λ e. e.1.text) (filter (λ e. not (is_buyer e.1.role)) log)

abbrev pub left_of : Phase → List InboundMessage
left_of (ready rest) = rest
left_of (asking m history facts rest) = rest
left_of (sending m a rest) = rest
left_of (recording m a s rest) = rest
left_of (gone e) = []

-- The entries that a task has still to make of its messages.
abbrev pub unheard : Task → List (Text × BuyerInteraction)
unheard t = map (heard_entry t.now t.tenant) (left_of t.phase)

abbrev pub address : Tenant → InboundMessage → Option Text × Text
address tenant m = (some tenant.id, m.from_number)

abbrev pub unsent_in : Tenant → Phase → List (Option Text × Text)
unsent_in tenant (ready rest) = map (address tenant) rest
unsent_in tenant (asking m history facts rest) = address tenant m ∷ map (address tenant) rest
unsent_in tenant (sending m a rest) = address tenant m ∷ map (address tenant) rest
unsent_in tenant (recording m a s rest) = map (address tenant) rest
unsent_in tenant (gone e) = []

abbrev pub sent_to : OutboundMessage → Option Text × Text
sent_to o = (o.tenant_id, o.to_number)

-- The tenants and numbers to which a task has still to send.
abbrev pub unsent : Task → List (Option Text × Text)
unsent t = unsent_in t.tenant t.phase

abbrev pub unnoted_in : Phase → List Text
unnoted_in (recording m a s rest) = a.reply ∷ []
unnoted_in _ = []

-- What a task has sent and not remembered yet.
abbrev pub unnoted : Task → List Text
unnoted t = unnoted_in t.phase

abbrev pub over : {A : Type 0} → (Task → List A) → List Task → List A
over f [] = []
over f (t ∷ ts) = f t ++ over f ts

-- The calls of `remember` and the texts sent, and the three accounts: of what the buyers said, of the
-- texts that are due to tenants' buyers, and of the texts that are to be remembered.
pub record Ledger {L : Type 0} (ts ts' : List Task) (a a' : App Outbox L) : Type 0 where
  pub log : List (Text × BuyerInteraction)
  pub remembered : a'.memory ≡ remember_all log a.memory
  pub outs : List OutboundMessage
  pub sent : a'.gateway.sent ≡ a.gateway.sent ++ outs
  pub heard :
      (q : Text × BuyerInteraction → Bool)
      → tally q (of_buyers log) + tally q (over unheard ts') ≡ tally q (over unheard ts)
  pub delivered :
      (q : Option Text × Text → Bool)
      → tally q (map sent_to outs) + tally q (over unsent ts') ≡ tally q (over unsent ts)
  pub told :
      (q : Text → Bool)
      → tally q (of_agent log) + tally q (over unnoted ts')
        ≡ tally q (map (λ o. o.body) outs) + tally q (over unnoted ts)
