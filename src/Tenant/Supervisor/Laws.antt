-- ===== src/Tenant/Supervisor/Laws.antt =====
-- What the supervisor does to a tenant, and to the others.
use whatsapp_sales_saas_temp.Dict.{Dict, lookup}
use whatsapp_sales_saas_temp.Dict.Laws.{lookup-insert}
use whatsapp_sales_saas_temp.Models.{Tenant, TenantStatus, active, suspended}
use whatsapp_sales_saas_temp.Prelude.{
  Bool, Option, Option-cases, Text, [], arith, eq_iff, false, if◌then◌else◌, inl, inr, none, some,
  true, ◌==◌, ◌∷◌, ◌≡◌,
}
use whatsapp_sales_saas_temp.Result.{Result, err, key_error, ok}
use whatsapp_sales_saas_temp.Tenant.Fleet.{Fleet}
use whatsapp_sales_saas_temp.Tenant.Repository.{get, unknown, update}
use whatsapp_sales_saas_temp.Tenant.Repository.Laws.{IsKeyed}
use whatsapp_sales_saas_temp.Tenant.Spawner.{
  is_running, is_running-started, is_running-stopped, spawn, stop,
}
use whatsapp_sales_saas_temp.Tenant.Supervisor.{bring_down, bring_up}

abbrev pub with_status : TenantStatus → Tenant → Tenant
with_status s t = record t { status = s }

-- The outcome, by the tenant under the id: with none, `KeyError` and the stores as they were; with one,
-- the tenant with the new status, stored so, all others alone, and the liveness of this one set.
abbrev pub Moves :
    Text → TenantStatus → Bool → Fleet → Option Tenant → Result Tenant × Fleet → Type 0
Moves k status live f none out = out ≡ (err (key_error (unknown k)), f)
Moves k status live f (some t) (r, f') =
    (r ≡ ok (with_status status t))
    × ((j : Text) → get j f'.repo ≡ (if k == j then some (with_status status t) else get j f.repo))
    × ((j : Text) → is_running j f'.spawner ≡ (if k == j then live else is_running j f.spawner))

pub lookup_id :
    (k : Text) (t : Tenant) (d : Dict Tenant) → IsKeyed d → lookup k d ≡ some t → t.id ≡ k
unfolding lookup
lookup_id k t [] h e = cc
lookup_id k t ((j, w) ∷ d) h e = ground (arith, eq_iff j k, lookup_id k t d h.1)

module _ (k : Text) (f : Fleet) (h : IsKeyed f.repo.by_id) where
  -- In a repository that keeps every tenant under its own id: `bring_up` returns the tenant as active,
  -- stores it so and has it running, and leaves every other tenant and its liveness; for an unknown
  -- id it raises `KeyError` and changes nothing.
  bring_up-Moves : Moves k active true f (get k f.repo) (bring_up k f)
  unfolding bring_up get update spawn
  bring_up-Moves = elim (Option-cases (lookup k f.repo.by_id)) [
    | inl e ↦ rw e
    | inr (t, e) ↦
        let i = lookup_id k t f.repo.by_id h e in
        rw e (
          ground arith,
          λ j. ground (arith, lookup-insert j k (with_status active t) f.repo.by_id),
          λ j. ground (arith, is_running-started k f.spawner j),
        )
  ]

  -- In a repository that keeps every tenant under its own id: `bring_down` returns the tenant as
  -- suspended, stores it so and has it stopped, and leaves every other tenant and its liveness; for an
  -- unknown id it raises `KeyError` and changes nothing.
  bring_down-Moves : Moves k suspended false f (get k f.repo) (bring_down k f)
  unfolding bring_down get update stop
  bring_down-Moves = elim (Option-cases (lookup k f.repo.by_id)) [
    | inl e ↦ rw e
    | inr (t, e) ↦
        let i = lookup_id k t f.repo.by_id h e in
        rw e (
          ground arith,
          λ j. ground (arith, lookup-insert j k (with_status suspended t) f.repo.by_id),
          λ j. ground (arith, is_running-stopped k f.spawner j),
        )
  ]
