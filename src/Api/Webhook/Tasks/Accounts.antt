-- ===== src/Api/Webhook/Tasks/Accounts.antt =====
-- Every interleaving keeps the accounts.
use mathlib.Core.List.{map-append}
use whatsapp_sales_saas_temp.Api.App.{App}
use whatsapp_sales_saas_temp.Api.Webhook.Tasks.{
  Phase, Task, advance, asking, gone, heard_entry, interleave, ready, recording, reply_entry,
  sending, tick,
}
use whatsapp_sales_saas_temp.Api.Webhook.Tasks.Alone.{task}
use whatsapp_sales_saas_temp.Api.Webhook.Tasks.Ledger.{
  Ledger, is_buyer, of_agent, of_buyers, over, sent_to, tally-append, unheard, unnoted, unsent,
}
use whatsapp_sales_saas_temp.Llm.{LlmPort}
use whatsapp_sales_saas_temp.Memory.{BuyerInteraction}
use whatsapp_sales_saas_temp.Memory.History.{remember_all, remember_all-append}
use whatsapp_sales_saas_temp.Models.{Tenant}
use whatsapp_sales_saas_temp.Prelude.{
  List, Text, [], ap, append-nil, append_assoc, arith, filter, filter-append, map, not, refl, some,
  suc, sym, zero, ℕ, ◌++◌, ◌∙◌, ◌∷◌, ◌≡◌,
}
use whatsapp_sales_saas_temp.Unicode.{Unicode}
use whatsapp_sales_saas_temp.Whatsapp.Gateway.{Outbox, in_memory_gateway, mem_id, text_message}

of_agent-append :
    (xs ys : List (Text × BuyerInteraction)) → of_agent (xs ++ ys) ≡ of_agent xs ++ of_agent ys
of_agent-append xs ys =
    ap (map (λ e. e.1.text))
      (filter-append (λ (e : Text × BuyerInteraction). not (is_buyer e.1.role)) xs ys)
    ∙ map-append (λ e. e.1.text) (filter (λ e. not (is_buyer e.1.role)) xs)
        (filter (λ e. not (is_buyer e.1.role)) ys)

module _ {L : Type 0} where
  Ledger-refl : (ts : List Task) (a : App Outbox L) → Ledger ts ts a a
  unfolding remember_all
  Ledger-refl ts a = record {
    log = [];
    remembered = refl;
    outs = [];
    sent = sym (append-nil a.gateway.sent);
    heard = λ q. omega arith;
    delivered = λ q. omega arith;
    told = λ q. omega arith;
  }

  Ledger-trans :
      {ts ts' ts'' : List Task} {a a' a'' : App Outbox L}
      → Ledger ts ts' a a'
      → Ledger ts' ts'' a' a''
      → Ledger ts ts'' a a''
  Ledger-trans {a = a} d e = record {
    log = d.log ++ e.log;
    remembered =
        e.remembered
        ∙ ap (remember_all e.log) d.remembered
        ∙ sym (remember_all-append d.log e.log a.memory);
    outs = d.outs ++ e.outs;
    sent = e.sent ∙ ap (λ s. s ++ e.outs) d.sent ∙ append_assoc a.gateway.sent d.outs e.outs;
    heard = λ q.
        rw (filter-append (λ (x : Text × BuyerInteraction). is_buyer x.1.role) d.log e.log)
          (omega (arith, tally-append q (of_buyers d.log) (of_buyers e.log), d.heard q, e.heard q));
    delivered = λ q. rw (map-append sent_to d.outs e.outs) (
        omega (
          arith,
          tally-append q (map sent_to d.outs) (map sent_to e.outs),
          d.delivered q,
          e.delivered q,
        ));
    told = λ q.
        rw (of_agent-append d.log e.log, map-append (λ o. o.body) d.outs e.outs)
          (omega (
            arith,
            tally-append q (of_agent d.log) (of_agent e.log),
            tally-append q (map (λ o. o.body) d.outs) (map (λ o. o.body) e.outs),
            d.told q,
            e.told q,
          ));
  }

  -- The other tasks' accounts stand.
  Ledger-head :
      {t t' : Task} {a a' : App Outbox L} (ts : List Task)
      → Ledger (t ∷ []) (t' ∷ []) a a'
      → Ledger (t ∷ ts) (t' ∷ ts) a a'
  Ledger-head {t} {t'} ts d = record {
    log = d.log;
    remembered = d.remembered;
    outs = d.outs;
    sent = d.sent;
    heard = λ q. omega (
      arith,
      d.heard q,
      tally-append q (unheard t') [],
      tally-append q (unheard t) [],
      tally-append q (unheard t') (over unheard ts),
      tally-append q (unheard t) (over unheard ts),
    );
    delivered = λ q. omega (
      arith,
      d.delivered q,
      tally-append q (unsent t') [],
      tally-append q (unsent t) [],
      tally-append q (unsent t') (over unsent ts),
      tally-append q (unsent t) (over unsent ts),
    );
    told = λ q. omega (
      arith,
      d.told q,
      tally-append q (unnoted t') [],
      tally-append q (unnoted t) [],
      tally-append q (unnoted t') (over unnoted ts),
      tally-append q (unnoted t) (over unnoted ts),
    );
  }

  Ledger-tail :
      (t : Task) {ts ts' : List Task} {a a' : App Outbox L}
      → Ledger ts ts' a a'
      → Ledger (t ∷ ts) (t ∷ ts') a a'
  Ledger-tail t {ts} {ts'} d = record {
    log = d.log;
    remembered = d.remembered;
    outs = d.outs;
    sent = d.sent;
    heard = λ q. omega (
      arith,
      d.heard q,
      tally-append q (unheard t) (over unheard ts'),
      tally-append q (unheard t) (over unheard ts),
    );
    delivered = λ q. omega (
      arith,
      d.delivered q,
      tally-append q (unsent t) (over unsent ts'),
      tally-append q (unsent t) (over unsent ts),
    );
    told = λ q. omega (
      arith,
      d.told q,
      tally-append q (unnoted t) (over unnoted ts'),
      tally-append q (unnoted t) (over unnoted ts),
    );
  }

module _ {L : Type 0} (u : Unicode) (hex : ℕ → Text) (llm : LlmPort L) where
  advance-Ledger :
      (now : ℕ) (tenant : Tenant) (p : Phase) (a : App Outbox L)
      → let (p', a') = advance u (in_memory_gateway hex) llm now tenant p a in
        Ledger (task now tenant p ∷ []) (task now tenant p' ∷ []) a a'
  unfolding advance remember_all
  advance-Ledger now tenant (ready []) a = Ledger-refl (task now tenant (ready []) ∷ []) a
  advance-Ledger now tenant (gone e) a = Ledger-refl (task now tenant (gone e) ∷ []) a
  advance-Ledger now tenant (ready (m ∷ rest)) a = record {
    log = heard_entry now tenant m ∷ [];
    remembered = refl;
    outs = [];
    sent = sym (append-nil a.gateway.sent);
    heard = λ q. ground arith;
    delivered = λ q. ground arith;
    told = λ q. ground arith;
  }
  advance-Ledger now tenant (asking m history facts rest) a = record {
    log = [];
    remembered = refl;
    outs = [];
    sent = sym (append-nil a.gateway.sent);
    heard = λ q. omega arith;
    delivered = λ q. omega arith;
    told = λ q. omega arith;
  }
  advance-Ledger now tenant (sending m s rest) a = record {
    log = [];
    remembered = refl;
    outs = text_message now m.from_number s.reply (some tenant.id) (mem_id hex a.gateway) ∷ [];
    sent = refl;
    heard = λ q. ground arith;
    delivered = λ q. ground arith;
    told = λ q. ground arith;
  }
  advance-Ledger now tenant (recording m s o rest) a = record {
    log = reply_entry now tenant m s o ∷ [];
    remembered = refl;
    outs = [];
    sent = sym (append-nil a.gateway.sent);
    heard = λ q. ground arith;
    delivered = λ q. ground arith;
    told = λ q. ground arith;
  }

  tick-Ledger :
      (i : ℕ) (ts : List Task) (a : App Outbox L)
      → let (ts', a') = tick u (in_memory_gateway hex) llm i ts a in Ledger ts ts' a a'
  unfolding tick
  tick-Ledger zero [] a = Ledger-refl [] a
  tick-Ledger (suc i) [] a = Ledger-refl [] a
  tick-Ledger zero (t ∷ ts) a = Ledger-head ts (advance-Ledger t.now t.tenant t.phase a)
  tick-Ledger (suc i) (t ∷ ts) a = Ledger-tail t (tick-Ledger i ts a)

  -- However any number of requests of any tenants are interleaved, at every wait and with any model:
  -- the memory has taken a list of entries and the outbox a list of texts such that each entry that is
  -- due of a buyer's message is made or still to be made, each text that is due to a tenant's buyer is
  -- sent or still to be sent, and the texts sent are those that were remembered as the agent's or are
  -- still to be; each as often.
  pub interleave-Ledger :
      (is : List ℕ) (ts : List Task) (a : App Outbox L)
      → let (ts', a') = interleave u (in_memory_gateway hex) llm is ts a in Ledger ts ts' a a'
  unfolding interleave
  interleave-Ledger [] ts a = Ledger-refl ts a
  interleave-Ledger (i ∷ is) ts a =
      let (ts', a') = tick u (in_memory_gateway hex) llm i ts a in
      Ledger-trans (tick-Ledger i ts a) (interleave-Ledger is ts' a')
