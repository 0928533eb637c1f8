-- ===== src/Events/Laws.antt =====
-- Who receives a published event, and what the bus has recorded.
use whatsapp_sales_saas_temp.Events.{Bus, Event, deliver, publish, recorded}
use whatsapp_sales_saas_temp.Exec.{Exec}
use whatsapp_sales_saas_temp.Prelude.{List, [], append-nil, append_assoc, map, ◌++◌, ◌∷◌, ◌≡◌}
use whatsapp_sales_saas_temp.Result.{ok}

-- Handlers that write the event to a log (the rest of the state) and then subscribe others.
module _ {H : Type 0} (newcomers : H → List H) where
  pub noting : H → Event → Exec (Bus H × List (H × Event)) Unit
  noting h e (b, log) =
      (ok tt, (record b { handlers = b.handlers ++ newcomers h }, log ++ (h, e) ∷ []))

  pub all_newcomers : List H → List H
  all_newcomers [] = []
  all_newcomers (h ∷ hs) = newcomers h ++ all_newcomers hs

  deliver-noting :
      (e : Event) (hs : List H) (b : Bus H) (log : List (H × Event))
      → deliver noting e hs (b, log) ≡ (
        ok tt,
        (record b { handlers = b.handlers ++ all_newcomers hs }, log ++ map (λ h. (h, e)) hs),
      )
  unfolding deliver noting all_newcomers
  deliver-noting e [] b log = simp append-nil
  deliver-noting e (h ∷ hs) b log = simp (deliver-noting e hs, append_assoc)

  -- With handlers that note the event and subscribe others: publishing records the event once and hands
  -- it, once and in order, to exactly the handlers that were subscribed when it was published; the
  -- handlers that these subscribe meanwhile are subscribed afterwards, and do not receive it.
  pub publish-noting :
      (e : Event) (b : Bus H) (log : List (H × Event))
      → publish noting e (b, log) ≡ (
        ok tt,
        (
          record { events = b.events ++ e ∷ []; handlers = b.handlers ++ all_newcomers b.handlers },
          log ++ map (λ h. (h, e)) b.handlers,
        ),
      )
  unfolding publish
  publish-noting e b log = deliver-noting e b.handlers (recorded e b) log
