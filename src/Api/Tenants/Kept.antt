-- ===== src/Api/Tenants/Kept.antt =====
-- What the requests of the administration keep.
use whatsapp_sales_saas_temp.Api.Tenants.{
  TenantCreate, TenantUpdate, answered, create_tenant, from_tenant, refused, update_tenant,
}
use whatsapp_sales_saas_temp.Api.Tenants.Stored.{connected-Stored, given_number, patched-Stored}
use whatsapp_sales_saas_temp.Dict.{lookup}
use whatsapp_sales_saas_temp.Dict.Laws.{lookup-insert_self}
use whatsapp_sales_saas_temp.Models.{Tenant, provisioning}
use whatsapp_sales_saas_temp.Prelude.{
  Option, Option-cases, Text, [], ap, inl, inr, is_some, lit, none, refl, some, subst, sym, true, ℕ,
  ◌++◌, ◌∙◌, ◌∷◌, ◌≡◌, ◌⊎◌,
}
use whatsapp_sales_saas_temp.Result.{err, key_error, message, ok, value_error}
use whatsapp_sales_saas_temp.Tenant.Manager.{create, get_tenant, new_tenant, or_default}
use whatsapp_sales_saas_temp.Tenant.Repository.{Repository, add, by_slug, get, unknown}
use whatsapp_sales_saas_temp.Tenant.Repository.Laws.{IsWellFormed, add-IsWellFormed}
use whatsapp_sales_saas_temp.Tenant.Supervisor.Laws.{lookup_id}
use whatsapp_sales_saas_temp.Unicode.{Unicode}

-- The model that a request gives, or the usual one.
abbrev pub given_model : Option Text → Text
given_model none = lit "anthropic/claude-3.5-sonnet"
given_model (some []) = lit "anthropic/claude-3.5-sonnet"
given_model (some (c ∷ m)) = c ∷ m

-- The tenant that a request asks for.
abbrev pub asked_tenant : Text → ℕ → TenantCreate → Tenant
asked_tenant id now req = record {
  id = id;
  name = req.name;
  slug = req.slug;
  status = provisioning;
  whatsapp_phone_number_id = given_number req.whatsapp_phone_number_id;
  model = given_model req.model;
  created_at = now;
}

or_default-given_model : (m : Option Text) → or_default m ≡ given_model m
or_default-given_model none = refl
or_default-given_model (some []) = refl
or_default-given_model (some (c ∷ m)) = refl

got : (k : Text) (r : Repository) (t : Tenant) → get k r ≡ some t → lookup k r.by_id ≡ some t
unfolding get
got k r t g = g

get-add : (t : Tenant) (r : Repository) → get t.id (add t r).1 ≡ some t
unfolding get add
get-add t r = lookup-insert_self t.id t r.by_id

module _ (u : Unicode) (isoformat : ℕ → Text) where
  create-new :
      (id : Text) (now : ℕ) (name slug : Text) (model : Option Text) (r : Repository)
      → by_slug slug r ≡ none
      → create u id now name slug model r
        ≡ (ok (new_tenant id now name slug model), (add (new_tenant id now name slug model) r).1)
  unfolding create add
  create-new id now name slug model r e = rw e refl

  create-taken :
      (id : Text) (now : ℕ) (name slug : Text) (model : Option Text) (r : Repository) (t : Tenant)
      → by_slug slug r ≡ some t
      → create u id now name slug model r
        ≡ (err (value_error (lit "tenant slug already exists: " ++ u.repr slug)), r)
  unfolding create
  create-taken id now name slug model r t e = rw e refl

  -- In a well-formed repository, with a new id that is not in use: creating a tenant under a slug that
  -- is taken is refused with 409 and changes nothing. Under a free slug the tenant stored under the id has
  -- the request's name and slug, its number unless that is empty, its model or the usual one, the status
  -- PROVISIONING and the given time, and the answer shows these. Either way the repository stays well
  -- formed.
  pub create_tenant-cases :
      (id : Text) (now : ℕ) (req : TenantCreate) (r : Repository)
      → get id r ≡ none
      → IsWellFormed r
      → let (reply, r') = create_tenant u isoformat id now req r in
        IsWellFormed r'
        × ((is_some (by_slug req.slug r) ≡ true)
              × (reply ≡ ok (refused 409 (lit "tenant slug already exists: " ++ u.repr req.slug)))
              × (r' ≡ r)
            ⊎ ((by_slug req.slug r ≡ none)
                × (get id r' ≡ some (asked_tenant id now req))
                × (reply
                    ≡ ok (
                        answered (record {
                          id = id;
                          name = req.name;
                          slug = req.slug;
                          status = lit "PROVISIONING";
                          model = given_model req.model;
                          whatsapp_phone_number_id = given_number req.whatsapp_phone_number_id;
                          created_at = isoformat now;
                        })))))
  unfolding create_tenant message from_tenant
  create_tenant-cases id now req r h w = elim (Option-cases (by_slug req.slug r)) [
    | inl n ↦
        let t = new_tenant id now req.name req.slug req.model in
        let d =
          connected-Stored req.whatsapp_phone_number_id t (add t r).1 refl (get-add t r)
            (add-IsWellFormed t r h n w) in
        let asked =
          ap (λ m. record (asked_tenant id now req) { model = m })
            (or_default-given_model req.model) in
        rw (create-new id now req.name req.slug req.model r n) (
          rw d.returned (
            d.kept,
            inr (
              n,
              d.stored ∙ ap some asked,
              ap (λ v. ok (answered (from_tenant isoformat v))) asked,
            ),
          ))
    | inr (t, e) ↦
        rw (create-taken id now req.name req.slug req.model r t e) (w, inl (rw e refl, refl, refl))
  ]

  get_tenant-cases :
      (k : Text) (r : Repository)
      → ((get k r ≡ none) × (get_tenant k r ≡ (err (key_error (unknown k)), r)))
        ⊎ ((t : Tenant) × (get k r ≡ some t) × (get_tenant k r ≡ (ok t, r)))
  unfolding get_tenant
  get_tenant-cases k r = elim (Option-cases (get k r)) [
    | inl n ↦ inl (n, rw n refl)
    | inr (t, e) ↦ inr (t, e, rw e refl)
  ]

  -- In a well-formed repository: updating a tenant whose id is unknown is refused with 404 and changes
  -- nothing; otherwise the answer is the new version of the tenant, which is stored under the same id
  -- and has the same slug. Either way the repository stays well formed.
  pub update_tenant-cases :
      (k : Text) (req : TenantUpdate) (r : Repository)
      → IsWellFormed r
      → let (reply, r') = update_tenant u isoformat k req r in
        IsWellFormed r'
        × ((get k r ≡ none) × (reply ≡ ok (refused 404 (lit "tenant not found"))) × (r' ≡ r)
            ⊎ ((t : Tenant) × (t' : Tenant) × (get k r ≡ some t)
                × (reply ≡ ok (answered (from_tenant isoformat t')))
                × (get k r' ≡ some t')
                × (t'.slug ≡ t.slug)))
  unfolding update_tenant
  update_tenant-cases k req r w = elim (get_tenant-cases k r) [
    | inl (n, e) ↦ rw e (w, inl (n, refl, refl))
    | inr (t, g, e) ↦
        let i : t.id ≡ k = lookup_id k t r.by_id w.keyed (got k r t g) in
        let (now, d) = patched-Stored req t r (subst (λ j. get j r ≡ some t) (sym i) g) w in
        rw e (
          rw d.returned (
            d.kept,
            inr (t, now, g, refl, subst (λ j. get j d.repo ≡ some now) i d.stored, d.same_slug),
          ))
  ]
