-- ===== src/Api/Tenants/Growth.antt =====
-- The requests of the administration and the onboarding keep every stored tenant.
use whatsapp_sales_saas_temp.Api.Tenants.{
  OnboardingRequest, Reply, TenantCreate, TenantOut, TenantUpdate, answered, conflict,
  connect_whatsapp, connected, create_tenant, from_tenant, not_found, patched, payload_of, unless,
  update_tenant, with_model,
}
use whatsapp_sales_saas_temp.Events.{Bus, Event}
use whatsapp_sales_saas_temp.Exec.{Exec, pure, ◌>>=◌}
use whatsapp_sales_saas_temp.Models.{Tenant}
use whatsapp_sales_saas_temp.Onboarding.{run, with_phone}
use whatsapp_sales_saas_temp.Onboarding.Flow.{newcomer, run-eq}
use whatsapp_sales_saas_temp.Prelude.{
  Bool-cases, Option, Option-cases, Text, [], inl, inr, is_some, none, some, ℕ, ◌∷◌, ◌≡◌,
}
use whatsapp_sales_saas_temp.Result.{
  Error, Result-cases, int_key_error, key_error, skill_not_found, value_error,
}
use whatsapp_sales_saas_temp.Tenant.Fleet.{Fleet}
use whatsapp_sales_saas_temp.Tenant.Manager.{create, get_tenant, new_tenant}
use whatsapp_sales_saas_temp.Tenant.Repository.{Repository, by_phone_number_id, by_slug, get}
use whatsapp_sales_saas_temp.Tenant.Repository.Growth.{
  Keeps, Keeps-add, Keeps-append, Keeps-refl, Keeps-update,
}
use whatsapp_sales_saas_temp.Unicode.{Unicode}

Keeps-connected : (o : Option Text) (t : Tenant) (r : Repository) → Keeps r (connected o t r).1
Keeps-connected none t r = Keeps-refl r
Keeps-connected (some []) t r = Keeps-refl r
Keeps-connected (some (c ∷ p)) t r = Keeps-update (with_phone (c ∷ p) t) r

Keeps-patched :
    (m p : Option Text) (t : Tenant) (r : Repository)
    → Keeps r (patched (record { model = m; whatsapp_phone_number_id = p }) t r).1
Keeps-patched none none t r = Keeps-refl r
Keeps-patched (some m) none t r = Keeps-update (with_model (some m) t) r
Keeps-patched none (some p) t r = Keeps-update (with_phone p t) r
Keeps-patched (some m) (some p) t r = Keeps-update (with_phone p (with_model (some m) t)) r

module _ (u : Unicode) (isoformat : ℕ → Text) where
  Keeps-create :
      (id : Text) (now : ℕ) (name slug : Text) (model : Option Text) (r : Repository)
      → Keeps r (create u id now name slug model r).1
  unfolding create
  Keeps-create id now name slug model r = elim (Bool-cases (is_some (by_slug slug r))) [
    | inl e ↦ rw e (Keeps-refl r)
    | inr e ↦ rw e (Keeps-add (new_tenant id now name slug model) r)
  ]

  -- A step and then another that runs only where the first returns.
  Keeps-unless :
      {A B : Type 0} (m : Exec Repository A) (refuse : Error → Exec Repository (Reply B))
      (go : A → Exec Repository (Reply B)) (r : Repository)
      → Keeps r (m r).1
      → ((e : Error) (s : Repository) → Keeps s (refuse e s).1)
      → ((a : A) (s : Repository) → Keeps s (go a s).1)
      → Keeps r (unless m refuse go r).1
  Keeps-unless m refuse go r h k l = elim (Result-cases (m r).0) [
    | inl (a, e) ↦ rw e (λ j s. l a (m r).1 j (h j s))
    | inr (x, e) ↦ rw e (λ j s. k x (m r).1 j (h j s))
  ]

  Keeps-conflict : (e : Error) (s : Repository) → Keeps s (conflict {A = TenantOut} u.repr e s).1
  Keeps-conflict (value_error m) s = Keeps-refl s
  Keeps-conflict _ s = Keeps-refl s

  Keeps-not_found : (e : Error) (s : Repository) → Keeps s (not_found {A = TenantOut} e s).1
  Keeps-not_found (key_error m) s = Keeps-refl s
  Keeps-not_found (int_key_error n) s = Keeps-refl s
  Keeps-not_found (skill_not_found m) s = Keeps-refl s
  Keeps-not_found _ s = Keeps-refl s

  -- `m`, and then an answer that is made of what `m` returns.
  Keeps-answering :
      (m : Exec Repository Tenant) (r : Repository)
      → Keeps r (m r).1
      → Keeps r ((m >>= λ t. pure (answered (from_tenant isoformat t))) r).1
  Keeps-answering m r h = elim (Result-cases (m r).0) [ inl (t, e) ↦ rw e h | inr (x, e) ↦ rw e h ]

  pub Keeps-create_tenant :
      (id : Text) (now : ℕ) (req : TenantCreate) (r : Repository)
      → Keeps r (create_tenant u isoformat id now req r).1
  unfolding create_tenant
  Keeps-create_tenant id now req r =
      Keeps-unless (create u id now req.name req.slug req.model) (conflict u.repr)
        (λ made. connected req.whatsapp_phone_number_id made >>= λ t.
          pure (answered (from_tenant isoformat t)))
        r (Keeps-create id now req.name req.slug req.model r) Keeps-conflict
        (λ made s.
          Keeps-answering (connected req.whatsapp_phone_number_id made) s
            (Keeps-connected req.whatsapp_phone_number_id made s))

  Keeps-get_tenant : (k : Text) (r : Repository) → Keeps r (get_tenant k r).1
  unfolding get_tenant
  Keeps-get_tenant k r = elim (Option-cases (get k r)) [
    | inl e ↦ rw e (Keeps-refl r)
    | inr (t, e) ↦ rw e (Keeps-refl r)
  ]

  pub Keeps-update_tenant :
      (k : Text) (req : TenantUpdate) (r : Repository)
      → Keeps r (update_tenant u isoformat k req r).1
  unfolding update_tenant
  Keeps-update_tenant k req r =
      Keeps-unless (get_tenant k) not_found
        (λ t. patched req t >>= λ t'. pure (answered (from_tenant isoformat t'))) r
        (Keeps-get_tenant k r) Keeps-not_found
        (λ t s.
          Keeps-answering (patched req t) s
            (Keeps-patched req.model req.whatsapp_phone_number_id t s))

module _ {H : Type 0} (react : H → Event → Exec (Bus H × Fleet) Unit) (u : Unicode) where
  -- With no handler on the bus and a new id, connecting a number keeps the stored tenants, and the bus
  -- without handlers.
  pub connect_whatsapp-Keeps :
      (id : Text) (now : ℕ) (req : OnboardingRequest) (b : Bus H) (f : Fleet)
      → b.handlers ≡ []
      → get id f.repo ≡ none
      → let (r, (b', f')) = connect_whatsapp react u id now req (b, f) in
        Keeps f.repo f'.repo × (b'.handlers ≡ [])
  unfolding connect_whatsapp run
  connect_whatsapp-Keeps id now req b f quiet h =
      elim (Option-cases (by_phone_number_id req.phone_number_id f.repo)) [
        | inl n ↦
            rw (run-eq react u id now (payload_of req) b f quiet h n)
              (Keeps-append f.repo ((id, newcomer u id now (payload_of req) f.repo) ∷ []), quiet)
        | inr (t, e) ↦ rw (e, run) (Keeps-refl f.repo, quiet)
      ]
