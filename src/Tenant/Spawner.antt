-- ===== src/Tenant/Spawner.antt =====
-- src/sample/tenant/spawner.py: `InMemoryTenantSpawner`. A set is a list that is only searched.
use whatsapp_sales_saas_temp.Exec.{Exec}
use whatsapp_sales_saas_temp.Models.{Tenant}
use whatsapp_sales_saas_temp.Prelude.{
  Bool, Bool-cases, List, Text, arith, eq_iff, false, if◌then◌else◌, inl, inr, mem, mem-without,
  refl, true, without, ◌==◌, ◌∷◌, ◌≡◌,
}
use whatsapp_sales_saas_temp.Result.{ok}

pub record Spawner : Type 0 where
  pub running : List Text

unfoldable pub is_running : Text → Spawner → Bool
is_running tenant_id s = mem tenant_id s.running

-- `set.add`
unfoldable pub started : Text → Spawner → Spawner
unfolding is_running
started k s = if is_running k s then s else record { running = k ∷ s.running }

-- `set.discard`
unfoldable pub stopped : Text → Spawner → Spawner
stopped k s = record { running = without k s.running }

unfoldable pub spawn : Tenant → Exec Spawner Unit
spawn tenant s = (ok tt, started tenant.id s)

unfoldable pub stop : Text → Exec Spawner Unit
stop tenant_id s = (ok tt, stopped tenant_id s)

pub is_running-started :
    (k : Text) (s : Spawner) (j : Text)
    → is_running j (started k s) ≡ (if k == j then true else is_running j s)
unfolding started
is_running-started k s j = elim (Bool-cases (mem k s.running)) [
  | inl old ↦ rw old (elim (Bool-cases (k == j)) [
    | inl same ↦ rw same (rw (← (eq_iff k j).0 same) old)
    | inr other ↦ rw other refl
  ])
  | inr new ↦ rw new (ground arith)
]

pub is_running-stopped :
    (k : Text) (s : Spawner) (j : Text)
    → is_running j (stopped k s) ≡ (if k == j then false else is_running j s)
unfolding stopped is_running
is_running-stopped k s j = ground (arith, mem-without k j s.running)
