-- ===== src/System/Steps.antt =====
-- Every step keeps the invariant, so it holds wherever the steps lead.
use mathlib.Core.List.{map-append}
use whatsapp_sales_saas_temp.Api.App.{App}
use whatsapp_sales_saas_temp.Api.Tenants.{
  connect_whatsapp, create_tenant, payload_of, update_tenant,
}
use whatsapp_sales_saas_temp.Api.Tenants.Growth.{
  Keeps-create_tenant, Keeps-update_tenant, connect_whatsapp-Keeps,
}
use whatsapp_sales_saas_temp.Api.Tenants.Kept.{create_tenant-cases, update_tenant-cases}
use whatsapp_sales_saas_temp.Api.Webhook.Delivers.{webhook_receive-Delivers}
use whatsapp_sales_saas_temp.Api.Webhook.Delivery.{IsDelivered, line_of}
use whatsapp_sales_saas_temp.Client.{new_client}
use whatsapp_sales_saas_temp.Events.{Bus}
use whatsapp_sales_saas_temp.Hindsight.{Hindsight}
use whatsapp_sales_saas_temp.Memory.{bucket, empty_memory, recall}
use whatsapp_sales_saas_temp.Memory.History.{
  recall_window, remember_all, remember_all-append, said_with,
}
use whatsapp_sales_saas_temp.Models.{InboundMessage, Tenant}
use whatsapp_sales_saas_temp.Onboarding.Flow.{run-IsWellFormed}
use whatsapp_sales_saas_temp.Prelude.{
  All-append, List, Text, [], ap, arith, inl, inr, length, length-drop, map, refl, some, subst, sym,
  ◌++◌, ◌-◌, ◌∙◌, ◌≡◌, ◌≤◌,
}
use whatsapp_sales_saas_temp.Security.LogFilter.{same}
use whatsapp_sales_saas_temp.System.{
  Outside, Reach, Step, World, after_ingest, after_receive, begins, brings_down, brings_up,
  connects, continues, creates, ingests, receives, started_with, updates,
}
use whatsapp_sales_saas_temp.System.Invariant.{
  IsOwned, IsOwned-Keeps, IsOwned-delivered, IsSound, said_by_agent, said_by_agent-append,
  said_by_agent-dialogue,
}
use whatsapp_sales_saas_temp.Tenant.Fleet.{Fleet}
use whatsapp_sales_saas_temp.Tenant.Repository.{get}
use whatsapp_sales_saas_temp.Tenant.Repository.Growth.{Keeps, get-resolved}
use whatsapp_sales_saas_temp.Tenant.Repository.Laws.{IsWellFormed}
use whatsapp_sales_saas_temp.Tenant.Supervisor.{bring_down, bring_up}
use whatsapp_sales_saas_temp.Tenant.Supervisor.Kept.{bring_down-IsKept, bring_up-IsKept}
use whatsapp_sales_saas_temp.Whatsapp.Gateway.{Outbox}

module _ {H L : Type 0} (w : World H L) (s : IsSound w) where
  -- A step that changes the tenants and the events only.
  IsSound-tenants :
      (b : Bus H) (f : Fleet)
      → b.handlers ≡ []
      → IsWellFormed f.repo
      → Keeps w.app.fleet.repo f.repo
      → IsSound (record { bus = b; app = record (w.app) { fleet = f } })
  IsSound-tenants b f q k g = record {
    quiet = q;
    stores = k;
    log = s.log;
    remembered = s.remembered;
    told = s.told;
    owned = IsOwned-Keeps w.app.fleet.repo f.repo w.app.gateway.sent g s.owned;
  }

  IsSound-facts : (h : Hindsight) → IsSound (record w { app = record (w.app) { hindsight = h } })
  IsSound-facts h = record {
    quiet = s.quiet;
    stores = s.stores;
    log = s.log;
    remembered = s.remembered;
    told = s.told;
    owned = s.owned;
  }

  told_more :
      (t : Tenant) (ms : List InboundMessage) (a' : App Outbox L) (d : IsDelivered t ms w.app a')
      → said_by_agent (map line_of (s.log ++ d.log)) ≡ map (λ o. o.body) a'.gateway.sent
  told_more t ms a' d =
      ap said_by_agent (map-append line_of s.log d.log)
      ∙ said_by_agent-append (map line_of s.log) (map line_of d.log)
      ∙ rw (s.told, d.told, said_by_agent-dialogue t ms d.outs d.addressed)
          (sym (map-append (λ o. o.body) w.app.gateway.sent d.outs)
            ∙ ap (map (λ o. o.body)) (sym d.sent))

  IsSound-delivered :
      (t : Tenant) (ms : List InboundMessage) (a' : App Outbox L)
      → get t.id w.app.fleet.repo ≡ some t
      → IsDelivered t ms w.app a'
      → IsSound (record w { app = a' })
  IsSound-delivered t ms a' g d = record {
    quiet = s.quiet;
    stores = subst (λ f. IsWellFormed f.repo) (sym d.fleet) s.stores;
    log = s.log ++ d.log;
    remembered =
        d.remembered
        ∙ ap (remember_all d.log) s.remembered
        ∙ sym (remember_all-append s.log d.log empty_memory);
    told = told_more t ms a' d;
    owned =
        rw (d.fleet, d.sent)
          (All-append (IsOwned w.app.fleet.repo) w.app.gateway.sent d.outs s.owned
            (IsOwned-delivered w.app.fleet.repo t d.outs g d.owned));
  }

module _ {H L : Type 0} (o : Outside H L) where
  Step-IsSound : {v w : World H L} → Step o v w → IsSound v → IsSound w
  Step-IsSound {v} (creates id now req n) s =
      IsSound-tenants v s v.bus
        (record (v.app.fleet) {
          repo = (create_tenant o.u o.isoformat id now req v.app.fleet.repo).1;
        })
        s.quiet (create_tenant-cases o.u o.isoformat id now req v.app.fleet.repo n s.stores).0
        (Keeps-create_tenant o.u o.isoformat id now req v.app.fleet.repo)
  Step-IsSound {v} (updates k req) s =
      IsSound-tenants v s v.bus
        (record (v.app.fleet) { repo = (update_tenant o.u o.isoformat k req v.app.fleet.repo).1 })
        s.quiet (update_tenant-cases o.u o.isoformat k req v.app.fleet.repo s.stores).0
        (Keeps-update_tenant o.u o.isoformat k req v.app.fleet.repo)
  Step-IsSound {v} (connects id now req n) s =
      let (keeps, quiet) =
        connect_whatsapp-Keeps o.react o.u id now req v.bus v.app.fleet s.quiet n in
      IsSound-tenants v s (connect_whatsapp o.react o.u id now req (v.bus, v.app.fleet)).1.0
        (connect_whatsapp o.react o.u id now req (v.bus, v.app.fleet)).1.1 quiet
        (unfold connect_whatsapp in
          run-IsWellFormed o.react o.u id now (payload_of req) v.bus v.app.fleet s.quiet n s.stores)
        keeps
  Step-IsSound {v} (brings_up k) s =
      let d = bring_up-IsKept k v.app.fleet s.stores in
      IsSound-tenants v s v.bus (bring_up k v.app.fleet).1 s.quiet d.formed d.keeps
  Step-IsSound {v} (brings_down k) s =
      let d = bring_down-IsKept k v.app.fleet s.stores in
      IsSound-tenants v s v.bus (bring_down k v.app.fleet).1 s.quiet d.formed d.keeps
  Step-IsSound {v} (receives now body header) s =
      elim (webhook_receive-Delivers o.u o.hex o.llm o.hmac_hex o.parse_json o.app_secret now body
        header v.app) [
          | inl same ↦ subst (λ a. IsSound (record v { app = a })) (sym same) s
          | inr d ↦
              IsSound-delivered v s d.tenant d.messages (after_receive o now body header v).app
                (get-resolved d.phone d.tenant v.app.fleet.repo s.stores d.routed) d.delivered
        ]
  Step-IsSound {v} (ingests ids now path tenant_id label) s =
      IsSound-facts v s (after_ingest o ids now path tenant_id label v).app.hindsight

  IsSound-started : (llm : L) → IsSound (started_with {H = H} llm)
  unfolding new_client remember_all
  IsSound-started llm = record {
    quiet = refl;
    stores = record { keyed = tt; distinct = tt };
    log = [];
    remembered = refl;
    told = refl;
    owned = tt;
  }

  reached-IsSound : (llm : L) {w : World H L} → Reach o llm w → IsSound w
  reached-IsSound llm begins = IsSound-started llm
  reached-IsSound llm (continues r st) = Step-IsSound st (reached-IsSound llm r)

  -- Wherever the service can get from a new client without handlers, by requests of any content to
  -- create, update and connect tenants (with a new id for each new one) and to the webhook, by the
  -- supervisor and by files, in any order and with any model: the invariant holds, and no buyer's
  -- memory is longer than 50.
  pub Reach-IsSound :
      (llm : L) (w : World H L)
      → Reach o llm w
      → IsSound w × ((b : Text) → length (bucket b w.app.memory) ≤ 50)
  unfolding recall
  Reach-IsSound llm w r =
      let s = reached-IsSound llm r in
      (
        s,
        λ b.
            rw (s.remembered, (recall_window 50 2 s.log b 0).0)
              (omega (arith, length-drop (length (said_with b s.log) - 50) (said_with b s.log))),
      )
