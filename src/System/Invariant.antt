-- ===== src/System/Invariant.antt =====
-- What holds in every state of the service.
use mathlib.Core.List.{map-append}
use whatsapp_sales_saas_temp.Memory.{Role as Speaker}
use whatsapp_sales_saas_temp.Api.Webhook.Delivery.{Line, dialogue, line_of}
use whatsapp_sales_saas_temp.Memory.{BuyerInteraction, agent, buyer, empty_memory}
use whatsapp_sales_saas_temp.Memory.History.{remember_all}
use whatsapp_sales_saas_temp.Models.{InboundMessage, Tenant}
use whatsapp_sales_saas_temp.Prelude.{
  All, Bool, List, Text, [], ap, false, filter, filter-append, is_some, map, refl, some, true, ◌++◌,
  ◌∷◌, ◌≡◌,
}
use whatsapp_sales_saas_temp.System.{World}
use whatsapp_sales_saas_temp.Tenant.Repository.{Repository, get}
use whatsapp_sales_saas_temp.Tenant.Repository.Growth.{Keeps}
use whatsapp_sales_saas_temp.Tenant.Repository.Laws.{IsWellFormed}
use whatsapp_sales_saas_temp.Whatsapp.Gateway.{MessageKind, OutboundMessage}

abbrev pub is_agent : Speaker → Bool
is_agent agent = true
is_agent buyer = false

-- What the agent has said, according to the calls of `remember`.
abbrev pub said_by_agent : List Line → List Text
said_by_agent lines = map (λ l. l.text) (filter (λ l. is_agent l.role) lines)

-- A text under the id of a stored tenant.
abbrev pub IsOwned : Repository → OutboundMessage → Type 0
IsOwned r o =
    (k : Text) × (o.tenant_id ≡ some k) × (is_some (get k r) ≡ true) × (o.kind ≡ MessageKind.text)

-- Each tenant stands under its own id, and no id or slug twice; the memory is what the calls of
-- `remember` in `log` make of the empty one; what it was told that the agent said are the bodies that
-- went out, in order; each of them is a text of a stored tenant.
pub record IsSound {H L : Type 0} (w : World H L) : Type 0 where
  pub quiet : w.bus.handlers ≡ []
  pub stores : IsWellFormed w.app.fleet.repo
  pub log : List (Text × BuyerInteraction)
  pub remembered : w.app.memory ≡ remember_all log empty_memory
  pub told : said_by_agent (map line_of log) ≡ map (λ o. o.body) w.app.gateway.sent
  pub owned : All (IsOwned w.app.fleet.repo) w.app.gateway.sent

pub said_by_agent-append :
    (xs ys : List Line) → said_by_agent (xs ++ ys) ≡ said_by_agent xs ++ said_by_agent ys
said_by_agent-append xs ys =
    rw (filter-append (λ (l : Line). is_agent l.role) xs ys) (
      map-append (λ l. l.text) (filter (λ l. is_agent l.role) xs)
        (filter (λ l. is_agent l.role) ys))

-- In a dialogue with one text for each message the agent says the texts.
pub said_by_agent-dialogue :
    (tenant : Tenant) (ms : List InboundMessage) (outs : List OutboundMessage)
    → map (λ o. o.to_number) outs ≡ map (λ m. m.from_number) ms
    → said_by_agent (dialogue tenant ms outs) ≡ map (λ o. o.body) outs
said_by_agent-dialogue tenant [] [] e = refl
said_by_agent-dialogue tenant [] (o ∷ os) e = cc
said_by_agent-dialogue tenant (m ∷ ms) [] e = cc
said_by_agent-dialogue tenant (m ∷ ms) (o ∷ os) e =
    ap (◌∷◌ o.body) (said_by_agent-dialogue tenant ms os (cc))

pub IsOwned-Keeps :
    (r r' : Repository) (os : List OutboundMessage)
    → Keeps r r'
    → All (IsOwned r) os
    → All (IsOwned r') os
IsOwned-Keeps r r' [] k h = tt
IsOwned-Keeps r r' (o ∷ os) k ((j, e, s, t), h) = ((j, e, k j s, t), IsOwned-Keeps r r' os k h)

pub IsOwned-delivered :
    (r : Repository) (t : Tenant) (os : List OutboundMessage)
    → get t.id r ≡ some t
    → All (λ o. (o.tenant_id ≡ some t.id) × (o.kind ≡ MessageKind.text)) os
    → All (IsOwned r) os
IsOwned-delivered r t [] g h = tt
IsOwned-delivered r t (o ∷ os) g h =
    ((t.id, h.0.0, rw g refl, h.0.1), IsOwned-delivered r t os g h.1)
