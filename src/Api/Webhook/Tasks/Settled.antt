-- ===== src/Api/Webhook/Tasks/Settled.antt =====
-- Every fair interleaving comes to an end, with all accounts settled.
use whatsapp_sales_saas_temp.Api.App.{App}
use whatsapp_sales_saas_temp.Api.Webhook.Tasks.{
  Phase, Task, advance, asking, gone, interleave, ready, recording, sending, tick,
}
use whatsapp_sales_saas_temp.Api.Webhook.Tasks.Accounts.{interleave-Ledger}
use whatsapp_sales_saas_temp.Api.Webhook.Tasks.Alone.{task}
use whatsapp_sales_saas_temp.Api.Webhook.Tasks.Ledger.{
  of_agent, of_buyers, over, sent_to, tally, unheard, unnoted, unsent,
}
use whatsapp_sales_saas_temp.Llm.{LlmPort}
use whatsapp_sales_saas_temp.Memory.{BuyerInteraction}
use whatsapp_sales_saas_temp.Memory.History.{remember_all}
use whatsapp_sales_saas_temp.Models.{Tenant}
use whatsapp_sales_saas_temp.Prelude.{
  Bool, List, Option, Text, [], arith, if◌then◌else◌, inl, inr, length, map, nat_eq, refl, some,
  suc, zero, ℕ, ◌*◌, ◌++◌, ◌+◌, ◌-◌, ◌∷◌, ◌≡◌, ◌≤◌,
}
use whatsapp_sales_saas_temp.Result.{Result-cases}
use whatsapp_sales_saas_temp.Unicode.{Unicode}
use whatsapp_sales_saas_temp.Whatsapp.Gateway.{
  GatewayPort, OutboundMessage, Outbox, in_memory_gateway,
}

abbrev pub waits : Phase → ℕ
waits (ready rest) = 4 * length rest
waits (asking m history facts rest) = 3 + 4 * length rest
waits (sending m a rest) = 2 + 4 * length rest
waits (recording m a s rest) = 1 + 4 * length rest
waits (gone e) = 0

-- The waits that the task at an index has before it; none past the end.
abbrev pub waits_at : ℕ → List Task → ℕ
waits_at j [] = 0
waits_at zero (t ∷ ts) = waits t.phase
waits_at (suc j) (t ∷ ts) = waits_at j ts

-- How often a task goes on.
abbrev pub turns_of : ℕ → List ℕ → ℕ
turns_of j is = tally (λ i. nat_eq i j) is

module _ {G L : Type 0} (u : Unicode) (gateway : GatewayPort G) (llm : LlmPort L) where
  waits-advance :
      (now : ℕ) (tenant : Tenant) (p : Phase) (a : App G L)
      → waits (advance u gateway llm now tenant p a).0 ≤ waits p - 1
  unfolding advance
  waits-advance now tenant (ready []) a = omega arith
  waits-advance now tenant (ready (m ∷ rest)) a = omega arith
  waits-advance now tenant (asking m history facts rest) a = omega arith
  waits-advance now tenant (sending m s rest) a =
      elim (Result-cases
        (gateway.send_text now m.from_number s.reply (some tenant.id) a.gateway).0) [
          | inl (o, e) ↦ rw e (omega arith)
          | inr (x, e) ↦ rw e (omega arith)
        ]
  waits-advance now tenant (recording m s o rest) a = omega arith
  waits-advance now tenant (gone e) a = omega arith

  waits_at-tick :
      (i j : ℕ) (ts : List Task) (a : App G L)
      → waits_at j (tick u gateway llm i ts a).0
        ≤ (if nat_eq i j then waits_at j ts - 1 else waits_at j ts)
  unfolding tick
  waits_at-tick zero zero [] a = omega arith
  waits_at-tick zero (suc j) [] a = ground arith
  waits_at-tick (suc i) zero [] a = ground arith
  waits_at-tick (suc i) (suc j) [] a = ground arith
  waits_at-tick zero zero (t ∷ ts) a = waits-advance t.now t.tenant t.phase a
  waits_at-tick zero (suc j) (t ∷ ts) a = ground arith
  waits_at-tick (suc i) zero (t ∷ ts) a = ground arith
  waits_at-tick (suc i) (suc j) (t ∷ ts) a = ground (arith, waits_at-tick i j ts a)

  -- Every turn of a task is one wait less, with any gateway and any model.
  waits_at-interleave :
      (is : List ℕ) (j : ℕ) (ts : List Task) (a : App G L)
      → waits_at j (interleave u gateway llm is ts a).0 ≤ waits_at j ts - turns_of j is
  unfolding interleave
  waits_at-interleave [] j ts a = omega arith
  waits_at-interleave (i ∷ is) j ts a =
      let (ts', a') = tick u gateway llm i ts a in
      ground (arith, waits_at-tick i j ts a, waits_at-interleave is j ts' a')

nothing_left :
    (t : Task) → waits t.phase ≡ 0 → (unheard t ≡ []) × (unsent t ≡ []) × (unnoted t ≡ [])
nothing_left t = by_phase t.now t.tenant t.phase
  where
    by_phase :
        (now : ℕ) (tenant : Tenant) (p : Phase)
        → waits p ≡ 0
        → (unheard (task now tenant p) ≡ [])
          × (unsent (task now tenant p) ≡ [])
          × (unnoted (task now tenant p) ≡ [])
    by_phase now tenant (ready []) h = (refl, refl, refl)
    by_phase now tenant (ready (m ∷ rest)) h = absurd (omega arith)
    by_phase now tenant (asking m history facts rest) h = absurd (omega arith)
    by_phase now tenant (sending m a rest) h = absurd (omega arith)
    by_phase now tenant (recording m a s rest) h = absurd (omega arith)
    by_phase now tenant (gone e) h = (refl, refl, refl)

over-nothing :
    (ts : List Task)
    → ((j : ℕ) → waits_at j ts ≡ 0)
    → (over unheard ts ≡ []) × (over unsent ts ≡ []) × (over unnoted ts ≡ [])
over-nothing [] h = (refl, refl, refl)
over-nothing (t ∷ ts) h =
    let (a, b, c) = nothing_left t (h 0) in
    let (a', b', c') = over-nothing ts (λ j. h (suc j)) in (rw (a, a'), rw (b, b'), rw (c, c'))

-- All that was due has been done, each as often as it was due. `log` are the `remember` calls that were
-- made, in order; the memory is what they make of it, its caps included.
pub record Settled {L : Type 0} (ts : List Task) (a a' : App Outbox L) : Type 0 where
  pub log : List (Text × BuyerInteraction)
  pub remembered : a'.memory ≡ remember_all log a.memory
  pub outs : List OutboundMessage
  pub sent : a'.gateway.sent ≡ a.gateway.sent ++ outs
  pub heard :
      (q : Text × BuyerInteraction → Bool) → tally q (of_buyers log) ≡ tally q (over unheard ts)
  pub delivered :
      (q : Option Text × Text → Bool) → tally q (map sent_to outs) ≡ tally q (over unsent ts)
  pub told :
      (q : Text → Bool)
      → tally q (of_agent log) ≡ tally q (map (λ o. o.body) outs) + tally q (over unnoted ts)

module _ {L : Type 0} (u : Unicode) (hex : ℕ → Text) (llm : LlmPort L) where
  -- However requests are interleaved, with the in-memory gateway and any model: once every task has
  -- gone on at least as often as it waits, four times for each message, no task waits any more; and of
  -- all that the tasks had before them at the start, one `remember` call was made of the buyer's text
  -- for each message that was not heard yet, one text went to its sender under its tenant for each
  -- that was not answered yet, and the `remember` calls for the agent are of the texts that went out
  -- and of those that were sent and not remembered yet; each as often. The memory is what these calls,
  -- in their order, make of the memory before, which may drop the oldest entries.
  pub interleave-Settled :
      (is : List ℕ) (ts : List Task) (a : App Outbox L)
      → ((j : ℕ) → waits_at j ts ≤ turns_of j is)
      → let (ts', a') = interleave u (in_memory_gateway hex) llm is ts a in
        ((j : ℕ) → waits_at j ts' ≡ 0) × Settled ts a a'
  interleave-Settled is ts a fair =
      let (ts', a') = interleave u (in_memory_gateway hex) llm is ts a in
      let through : (j : ℕ) → waits_at j ts' ≡ 0 =
        λ j. omega (arith, fair j, waits_at-interleave u (in_memory_gateway hex) llm is j ts a) in
      let d = interleave-Ledger u hex llm is ts a in
      let (x, y, z) = over-nothing ts' through in
      (
        through,
        record {
          log = d.log;
          remembered = d.remembered;
          outs = d.outs;
          sent = d.sent;
          heard = λ q. let e = rw x at (d.heard q) in omega arith;
          delivered = λ q. let e = rw y at (d.delivered q) in omega arith;
          told = λ q. let e = rw z at (d.told q) in omega arith;
        },
      )
