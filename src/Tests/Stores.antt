-- ===== src/Tests/Stores.antt =====
-- The facts, the memory and the event bus.
use whatsapp_sales_saas_temp.Memory.{Role as Speaker}
use Prim.Native.Nat.{min}
use whatsapp_sales_saas_temp.Agent.Loop.{default_limits, respond}
use whatsapp_sales_saas_temp.Agent.Loop.Prompt.{respond_isolated}
use whatsapp_sales_saas_temp.Api.App.BuyerId.{HasNoColon, buyer_id_for-injective}
use whatsapp_sales_saas_temp.Events.{Bus, Event, publish}
use whatsapp_sales_saas_temp.Events.Laws.{all_newcomers, noting, publish-noting}
use whatsapp_sales_saas_temp.Hindsight.{add_fact, query}
use whatsapp_sales_saas_temp.Hindsight.Picked.{Picked, query_exact}
use whatsapp_sales_saas_temp.Llm.{echo_llm, echo_template}
use whatsapp_sales_saas_temp.Memory.{BuyerInteraction, buyer, empty_memory, recall, remember}
use whatsapp_sales_saas_temp.Memory.History.{fresh, recall_window, remember_all, said_with}
use whatsapp_sales_saas_temp.Models.{Fact}
use whatsapp_sales_saas_temp.Prelude.{
  List, Text, [], arith, if◌then◌else◌, lit, ltb, none, pos, refl, some, strip, take, take_last, ℕ,
  ◌+◌, ◌∷◌, ◌≡◌, ◌≢◌, ◌⊎◌,
}
use whatsapp_sales_saas_temp.Result.{ok}
use whatsapp_sales_saas_temp.Tests.Shop.{fact_of, facts, note, shop}
use whatsapp_sales_saas_temp.Unicode.{ascii}

two_ids : lit "t2" ≢ lit "t1"
two_ids e = ground arith

two_buyers : lit "bakery:1" ≢ lit "shop:1"
two_buyers e = ground arith

shop-HasNoColon : HasNoColon (lit "shop")
shop-HasNoColon =
    (λ e. ground arith, (λ e. ground arith, (λ e. ground arith, (λ e. ground arith, tt))))

query_exact_example :
    let word = strip (ascii.lower (lit " Red")) in
    let answer = query ascii (lit " Red") (some (lit "t1")) (pos 1) facts in
    (word ≡ []) × (answer ≡ [])
    ⊎ (word ≢ [])
      × (ms : List Fact) × Picked ascii word (lit "t1") facts.facts ms
      × (answer ≡ take 1 ms)
query_exact_example = query_exact ascii (lit " Red") (lit "t1") 1 facts

abbrev talk : List (Text × BuyerInteraction)
talk =
    (lit "shop:1", note buyer (lit "hi"))
    ∷ (lit "shop:2", note buyer (lit "hello"))
    ∷ (lit "shop:1", note Speaker.agent (lit "yes?"))
    ∷ []

recall_window_example :
    (recall (lit "shop:1") none (remember_all talk (fresh 2 2))
      ≡ take_last 2 (said_with (lit "shop:1") talk))
    × (recall (lit "shop:1") (some (pos 1)) (remember_all talk (fresh 2 2))
        ≡ take_last (min 1 2) (said_with (lit "shop:1") talk))
recall_window_example = recall_window 2 2 talk (lit "shop:1") 0

respond_isolated_example :
    respond ascii
      (echo_llm echo_template)
      default_limits
      (remember (lit "bakery:1") (note buyer (lit "hi")) empty_memory)
      (add_fact (fact_of (lit "t2") (lit "Red hat")) facts)
      shop
      (lit "shop:1")
      (lit "red")
      none
      tt
    ≡ respond ascii
        (echo_llm echo_template)
        default_limits
        empty_memory
        facts
        shop
        (lit "shop:1")
        (lit "red")
        none
        tt
respond_isolated_example =
    respond_isolated ascii (echo_llm echo_template) default_limits empty_memory facts shop
      (lit "shop:1") (lit "red") none (fact_of (lit "t2") (lit "Red hat")) (lit "bakery:1")
      (note buyer (lit "hi")) tt two_ids two_buyers

buyer_id_for-injective_example : (lit "shop" ≡ lit "shop") × (lit "549" ≡ lit "549")
buyer_id_for-injective_example =
    buyer_id_for-injective (lit "shop") (lit "shop") (lit "549") (lit "549") shop-HasNoColon
      shop-HasNoColon refl

abbrev invites : ℕ → List ℕ
invites h = if ltb h 2 then (h + 1) ∷ [] else []

abbrev busy_bus : Bus ℕ
busy_bus = record { events = []; handlers = 1 ∷ 5 ∷ [] }

abbrev an_event : Event
an_event = record { type = lit "tenant.onboarded"; payload = []; at = 3 }

publish-noting_example : publish (noting invites) an_event (busy_bus, []) ≡ (
  ok tt,
  (
    record { events = an_event ∷ []; handlers = 1 ∷ 5 ∷ all_newcomers invites (1 ∷ 5 ∷ []) },
    (1, an_event) ∷ (5, an_event) ∷ [],
  ),
)
publish-noting_example = publish-noting invites an_event busy_bus []
