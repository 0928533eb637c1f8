-- ===== src/Tenant/Supervisor/Kept.antt =====
-- The supervisor keeps the repository well formed, and every stored tenant.
use whatsapp_sales_saas_temp.Models.{Tenant, TenantStatus, active, suspended}
use whatsapp_sales_saas_temp.Prelude.{Option-cases, Text, inl, inr, refl, some, subst, sym, ◌≡◌}
use whatsapp_sales_saas_temp.Tenant.Fleet.{Fleet}
use whatsapp_sales_saas_temp.Tenant.Repository.{Repository, get, update}
use whatsapp_sales_saas_temp.Tenant.Repository.Growth.{Keeps, Keeps-update, Keeps-refl}
use whatsapp_sales_saas_temp.Tenant.Repository.Laws.{IsWellFormed, update-IsWellFormed}
use whatsapp_sales_saas_temp.Tenant.Spawner.{spawn, stop}
use whatsapp_sales_saas_temp.Tenant.Supervisor.{bring_down, bring_up}
use whatsapp_sales_saas_temp.Tenant.Supervisor.Laws.{lookup_id, with_status}

pub record IsKept (r r' : Repository) : Type 0 where
  pub formed : IsWellFormed r'
  pub keeps : Keeps r r'

IsKept-refl : (r : Repository) → IsWellFormed r → IsKept r r
IsKept-refl r w = record { formed = w; keeps = Keeps-refl r }

IsKept-update :
    (k : Text) (t : Tenant) (s : TenantStatus) (r : Repository)
    → get k r ≡ some t
    → IsWellFormed r
    → IsKept r (update (with_status s t) r).1
IsKept-update k t s r g w =
    let i : t.id ≡ k = unfold get in lookup_id k t r.by_id w.keyed g in
    record {
      formed =
          update-IsWellFormed (with_status s t) t r (subst (λ j. get j r ≡ some t) (sym i) g) refl
            w;
      keeps = Keeps-update (with_status s t) r;
    }

module _ (k : Text) (f : Fleet) (w : IsWellFormed f.repo) where
  pub bring_up-IsKept : IsKept f.repo (bring_up k f).1.repo
  unfolding bring_up spawn
  bring_up-IsKept = elim (Option-cases (get k f.repo)) [
    | inl e ↦ rw e (IsKept-refl f.repo w)
    | inr (t, e) ↦ rw e (IsKept-update k t active f.repo e w)
  ]

  pub bring_down-IsKept : IsKept f.repo (bring_down k f).1.repo
  unfolding bring_down stop
  bring_down-IsKept = elim (Option-cases (get k f.repo)) [
    | inl e ↦ rw e (IsKept-refl f.repo w)
    | inr (t, e) ↦ rw e (IsKept-update k t suspended f.repo e w)
  ]
