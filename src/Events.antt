-- ===== src/Events.antt =====
-- src/sample/events/bus.py: `InMemoryEventBus`. A handler is named by an `H`; `react` is what the
-- handlers do, on the bus and on the rest of the program's state `W`.
pub mod Laws
use whatsapp_sales_saas_temp.Exec.{Exec, ◌>>◌}
use whatsapp_sales_saas_temp.Prelude.{List, Option, Text, [], filter, ℕ, ◌++◌, ◌==◌, ◌∷◌}
use whatsapp_sales_saas_temp.Result.{ok}

pub record Event : Type 0 where
  pub type : Text
  pub payload : List (Text × Option Text)
  pub at : ℕ

pub record Bus (H : Type 0) : Type 0 where
  pub events : List Event
  pub handlers : List H

-- `self.events.append(event)`
abbrev pub recorded : {H : Type 0} → Event → Bus H → Bus H
recorded e b = record b { events = b.events ++ e ∷ [] }

module _ {H W : Type 0} where
  unfoldable pub subscribe : H → Exec (Bus H × W) Unit
  subscribe h (b, w) = (ok tt, (record b { handlers = b.handlers ++ h ∷ [] }, w))

  -- The loop over the snapshot; a handler that raises ends it.
  unfoldable pub deliver :
      (H → Event → Exec (Bus H × W) Unit) → Event → List H → Exec (Bus H × W) Unit
  deliver react e [] s = (ok tt, s)
  deliver react e (h ∷ hs) s = let rest = deliver react e hs in (react h e >> rest) s

  unfoldable pub publish : (H → Event → Exec (Bus H × W) Unit) → Event → Exec (Bus H × W) Unit
  unfolding deliver
  publish react e (b, w) = deliver react e b.handlers (recorded e b, w)

unfoldable pub by_type : {H : Type 0} → Text → Bus H → List Event
by_type event_type b = filter (λ e. e.type == event_type) b.events
