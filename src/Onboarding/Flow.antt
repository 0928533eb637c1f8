-- ===== src/Onboarding/Flow.antt =====
-- What a run of the onboarding flow does.
use mathlib.Core.List.{map-append}
use whatsapp_sales_saas_temp.Agent.Soul.{SoulConfig, build}
use whatsapp_sales_saas_temp.Dict.{lookup}
use whatsapp_sales_saas_temp.Dict.Laws.{insert-concat, insert_new, lookup-concat}
use whatsapp_sales_saas_temp.Events.{Bus, Event, publish, recorded}
use whatsapp_sales_saas_temp.Exec.{Exec}
use whatsapp_sales_saas_temp.Models.{Tenant, active, default_model, provisioning}
use whatsapp_sales_saas_temp.Onboarding.{MetaSignupPayload, onboarded, provision, render_soul, run}
use whatsapp_sales_saas_temp.Prelude.{
  Option, Option-cases, Text, [], eq_refl, false, inl, inr, none, refl, some, true, ℕ, ◌++◌, ◌∙◌,
  ◌∷◌, ◌≡◌,
}
use whatsapp_sales_saas_temp.Result.{ok}
use whatsapp_sales_saas_temp.Slug.{slugify}
use whatsapp_sales_saas_temp.Slug.Unique.{unique_slug, unique_slug_first}
use whatsapp_sales_saas_temp.Tenant.Fleet.{Fleet}
use whatsapp_sales_saas_temp.Tenant.Manager.{create}
use whatsapp_sales_saas_temp.Tenant.Repository.{
  Repository, add, by_phone_number_id, by_slug, get, is_phone, list_all, update,
}
use whatsapp_sales_saas_temp.Tenant.Repository.Laws.{
  IsWellFormed, add-IsWellFormed, find-concat_hit,
}
use whatsapp_sales_saas_temp.Tenant.Router.{resolve}
use whatsapp_sales_saas_temp.Tenant.Spawner.{
  Spawner, is_running, is_running-started, spawn, started,
}
use whatsapp_sales_saas_temp.Tenant.Supervisor.{bring_up}
use whatsapp_sales_saas_temp.Unicode.{Unicode}

-- The tenant that a new phone number gets.
abbrev pub newcomer : Unicode → Text → ℕ → MetaSignupPayload → Repository → Tenant
newcomer u id now p r = record {
  id = id;
  name = p.business_name;
  slug = unique_slug (slugify u p.business_name) r;
  status = active;
  whatsapp_phone_number_id = some p.phone_number_id;
  model = default_model;
  created_at = now;
}

abbrev pub appended : Tenant → Repository → Repository
appended t r = record { by_id = r.by_id ++ (t.id, t) ∷ [] }

module _ (t : Tenant) (r : Repository) (h : lookup t.id r.by_id ≡ none) where
  update-appended :
      (w : Tenant) → update t (record { by_id = r.by_id ++ (t.id, w) ∷ [] }) ≡ (ok t, appended t r)
  unfolding update
  update-appended w = rw (lookup-concat t.id w r.by_id h) (rw (insert-concat t.id t w r.by_id h))

  render_soul-appended :
      (cfg : Option SoulConfig)
      → render_soul t.id cfg (appended t r) ≡ (ok (build t cfg), appended t r)
  unfolding render_soul get
  render_soul-appended cfg = rw (lookup-concat t.id t r.by_id h)

activated : Tenant → Tenant
activated t = record t { status = active }

bring_up-appended :
    (t : Tenant) (r : Repository) (s : Spawner)
    → lookup t.id r.by_id ≡ none
    → bring_up t.id (record { repo = appended t r; spawner = s })
      ≡ (ok (activated t), record { repo = appended (activated t) r; spawner = started t.id s })
unfolding bring_up get spawn activated
bring_up-appended t r s h =
    rw (lookup-concat t.id t r.by_id h) (rw (update-appended (activated t) r h t))

module _ (u : Unicode) (id : Text) (now : ℕ) (p : MetaSignupPayload) where
  abbrev unstarted : Repository → Tenant
  unstarted r = record (newcomer u id now p r) {
    status = provisioning;
    whatsapp_phone_number_id = none;
  }

  abbrev with_number : Repository → Tenant
  with_number r = record (newcomer u id now p r) { status = provisioning }

  create-new :
      (r : Repository)
      → get id r ≡ none
      → create u id now p.business_name (unique_slug (slugify u p.business_name) r) none r
        ≡ (ok (unstarted r), appended (unstarted r) r)
  unfolding create get add
  create-new r h =
      rw (unique_slug_first (slugify u p.business_name) r).2
        (rw (insert_new id (unstarted r) r.by_id h))

  -- With an id that no tenant has, the tenant is stored last, and started.
  provision-new :
      (f : Fleet)
      → get id f.repo ≡ none
      → provision u id now p f ≡ (
        ok (newcomer u id now p f.repo),
        record {
          repo = appended (newcomer u id now p f.repo) f.repo;
          spawner = started id f.spawner;
        },
      )
  unfolding provision get activated
  provision-new f h = rw (create-new f.repo h) (
      rw (update-appended (with_number f.repo) f.repo h (unstarted f.repo)) (
        rw (render_soul-appended (with_number f.repo) f.repo h none)
          (bring_up-appended (with_number f.repo) f.repo f.spawner h)))

appended-IsWellFormed :
    (t : Tenant) (r : Repository)
    → get t.id r ≡ none
    → by_slug t.slug r ≡ none
    → IsWellFormed r
    → IsWellFormed (appended t r)
appended-IsWellFormed t r h n w =
    unfold add get in rw (insert_new t.id t r.by_id h) at (add-IsWellFormed t r h n w)

routed-appended :
    (phone : Text) (t : Tenant) (r : Repository)
    → by_phone_number_id phone r ≡ none
    → t.whatsapp_phone_number_id ≡ some phone
    → by_phone_number_id phone (appended t r) ≡ some t
unfolding by_phone_number_id
routed-appended phone t r h e =
    find-concat_hit (λ x. is_phone phone x.whatsapp_phone_number_id) t.id t r.by_id h
      (rw e (eq_refl phone))

module _ {H : Type 0} (react : H → Event → Exec (Bus H × Fleet) Unit) (u : Unicode) (id : Text)
    (now : ℕ) (p : MetaSignupPayload) (b : Bus H) (f : Fleet) where
  abbrev made : Tenant
  made = newcomer u id now p f.repo

  abbrev grown : Fleet
  grown = record { repo = appended made f.repo; spawner = started id f.spawner }

  pub run-eq :
      b.handlers ≡ []
      → get id f.repo ≡ none
      → by_phone_number_id p.phone_number_id f.repo ≡ none
      → run react u id now p (b, f)
        ≡ (ok (record { tenant = made; is_new = true }), (recorded (onboarded now made p) b, grown))
  unfolding run publish
  run-eq quiet h n = rw (n, run) (rw (provision-new u id now p f h) (rw quiet refl))

  -- Onboarding a new phone number, where no handler is subscribed and the new id is not in use,
  -- returns a new tenant: active, started, under the free slug, with the phone number and the default
  -- model. The tenant is stored behind the others, which stay as they were, the router resolves the
  -- number to it, and exactly one event, about it, is recorded.
  pub run-new :
      b.handlers ≡ []
      → get id f.repo ≡ none
      → by_phone_number_id p.phone_number_id f.repo ≡ none
      → let (r, (b', f')) = run react u id now p (b, f) in
        (r ≡ ok (record { tenant = made; is_new = true }))
        × (list_all f'.repo ≡ list_all f.repo ++ made ∷ [])
        × (resolve u p.phone_number_id f'.repo ≡ ok made)
        × (is_running id f'.spawner ≡ true)
        × (b'.events ≡ b.events ++ onboarded now made p ∷ [])
  unfolding resolve list_all
  run-new quiet h n = rw (run-eq quiet h n) (
    refl,
    map-append (λ e. e.1) f.repo.by_id ((id, made) ∷ []),
    rw (routed-appended p.phone_number_id made f.repo n refl, resolve) refl,
    is_running-started id f.spawner id ∙ rw (eq_refl id) refl,
    refl,
  )

  -- After the onboarding of a new phone number, where no handler is subscribed and the new id is not in
  -- use: a second run for the same number, whatever else its payload says, returns the tenant of the
  -- first run as not new and changes nothing: no tenant, no event, no start.
  pub run-run :
      (id' : Text) (now' : ℕ) (p' : MetaSignupPayload)
      → b.handlers ≡ []
      → get id f.repo ≡ none
      → by_phone_number_id p.phone_number_id f.repo ≡ none
      → p'.phone_number_id ≡ p.phone_number_id
      → run react u id' now' p' (run react u id now p (b, f)).1
        ≡ (ok (record { tenant = made; is_new = false }), (run react u id now p (b, f)).1)
  unfolding run
  run-run id' now' p' quiet h n same =
      let found = routed-appended p.phone_number_id made f.repo n refl in
      rw (run-eq quiet h n) (rw (same, found, run))

  -- The run keeps the repository well formed: every tenant under its own id, no id and no slug twice.
  pub run-IsWellFormed :
      b.handlers ≡ []
      → get id f.repo ≡ none
      → IsWellFormed f.repo
      → IsWellFormed (run react u id now p (b, f)).1.1.repo
  unfolding run
  run-IsWellFormed quiet h w = elim (Option-cases (by_phone_number_id p.phone_number_id f.repo)) [
    | inl n ↦ rw (run-eq quiet h n) (
        appended-IsWellFormed made f.repo h (unique_slug_first (slugify u p.business_name) f.repo).2
          w)
    | inr (t, e) ↦ rw (e, run) w
  ]
