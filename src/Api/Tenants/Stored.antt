-- ===== src/Api/Tenants/Stored.antt =====
-- Handlers of the administration that have a version of a tenant stored.
use whatsapp_sales_saas_temp.Api.Tenants.{TenantUpdate, connected, patched, with_model}
use whatsapp_sales_saas_temp.Dict.{insert, lookup}
use whatsapp_sales_saas_temp.Dict.Laws.{lookup-insert_self}
use whatsapp_sales_saas_temp.Models.{Tenant}
use whatsapp_sales_saas_temp.Onboarding.{with_phone}
use whatsapp_sales_saas_temp.Prelude.{Option, Text, [], ap, none, refl, some, subst, ◌∷◌, ◌≡◌}
use whatsapp_sales_saas_temp.Result.{Result, ok}
use whatsapp_sales_saas_temp.Tenant.Repository.{Repository, get, update}
use whatsapp_sales_saas_temp.Tenant.Repository.Laws.{
  IsDistinct-insert_same, IsKeyed-insert, IsWellFormed,
}

-- A step that returns a version of the tenant, with its id and slug, and has it stored.
pub record Stored (t now : Tenant) (out : Result Tenant × Repository) : Type 0 where
  pub repo : Repository
  pub returned : out ≡ (ok now, repo)
  pub kept : IsWellFormed repo
  pub stored : get t.id repo ≡ some now
  pub same_slug : now.slug ≡ t.slug

update-Stored :
    (w t : Tenant) (r : Repository)
    → w.id ≡ t.id
    → w.slug ≡ t.slug
    → get t.id r ≡ some t
    → IsWellFormed r
    → Stored t w (update w r)
unfolding update get
update-Stored w t r i s g k = record {
  repo = record { by_id = insert w.id w r.by_id };
  returned = rw (i, g) refl;
  kept = record {
    keyed = IsKeyed-insert w r.by_id k.keyed;
    distinct = IsDistinct-insert_same w t r.by_id (rw i g) s k.distinct;
  };
  stored =
      subst (λ j. lookup j (insert w.id w r.by_id) ≡ some w) i (lookup-insert_self w.id w r.by_id);
  same_slug = s;
}

kept-Stored :
    (t : Tenant) (r : Repository) → get t.id r ≡ some t → IsWellFormed r → Stored t t (ok t, r)
kept-Stored t r g k = record { repo = r; returned = refl; kept = k; stored = g; same_slug = refl }

unnumbered :
    (t : Tenant) (r : Repository)
    → t.whatsapp_phone_number_id ≡ none
    → get t.id r ≡ some t
    → IsWellFormed r
    → Stored t (record t { whatsapp_phone_number_id = none }) (ok t, r)
unnumbered t r e g k =
    subst (λ w. Stored t w (ok t, r)) (ap (λ p. record t { whatsapp_phone_number_id = p }) e)
      (kept-Stored t r g k)

-- The number that a request gives: an empty text is none.
abbrev pub given_number : Option Text → Option Text
given_number none = none
given_number (some []) = none
given_number (some (c ∷ p)) = some (c ∷ p)

-- Connecting a tenant that has no number.
pub connected-Stored :
    (o : Option Text) (t : Tenant) (r : Repository)
    → t.whatsapp_phone_number_id ≡ none
    → get t.id r ≡ some t
    → IsWellFormed r
    → Stored t (record t { whatsapp_phone_number_id = given_number o }) (connected o t r)
connected-Stored none t r e g k = unnumbered t r e g k
connected-Stored (some []) t r e g k = unnumbered t r e g k
connected-Stored (some (c ∷ p)) t r e g k = update-Stored (with_phone (c ∷ p) t) t r refl refl g k

pub patched-Stored :
    (req : TenantUpdate) (t : Tenant) (r : Repository)
    → get t.id r ≡ some t
    → IsWellFormed r
    → (w : Tenant) × Stored t w (patched req t r)
patched-Stored req t r g k = patched_by req.model req.whatsapp_phone_number_id
  where
    patched_by :
        (m p : Option Text)
        → (w : Tenant) × Stored t w
            (patched (record { model = m; whatsapp_phone_number_id = p }) t r)
    patched_by none none = (t, kept-Stored t r g k)
    patched_by (some m) none = (_, update-Stored (with_model (some m) t) t r refl refl g k)
    patched_by none (some p) = (_, update-Stored (with_phone p t) t r refl refl g k)
    patched_by (some m) (some p) =
        (_, update-Stored (with_phone p (with_model (some m) t)) t r refl refl g k)
