-- ===== src/Tenant/Repository/Growth.antt =====
-- Tenants are never deleted, and what a search by phone number finds is stored under its id.
use whatsapp_sales_saas_temp.Dict.{Dict, insert, lookup, values}
use whatsapp_sales_saas_temp.Dict.Laws.{lookup-insert}
use whatsapp_sales_saas_temp.Models.{Tenant}
use whatsapp_sales_saas_temp.Prelude.{
  Bool, Bool-cases, Text, [], arith, eq_iff, eq_refl, find, inl, inr, is_some, some, true, ◌++◌,
  ◌∷◌, ◌≡◌,
}
use whatsapp_sales_saas_temp.Tenant.Repository.{
  Repository, add, by_phone_number_id, get, is_phone, update,
}
use whatsapp_sales_saas_temp.Tenant.Repository.Laws.{IsDistinct, IsKeyed, IsWellFormed}
use whatsapp_sales_saas_temp.Tenant.Router.{try_resolve}

-- Every id that has a tenant still has one.
abbrev pub Keeps : Repository → Repository → Type 0
Keeps r r' = (k : Text) → is_some (get k r) ≡ true → is_some (get k r') ≡ true

pub Keeps-refl : (r : Repository) → Keeps r r
Keeps-refl r k h = h

Keeps-insert : (t : Tenant) (r : Repository) → Keeps r (record { by_id = insert t.id t r.by_id })
unfolding get
Keeps-insert t r k h = ground (arith, lookup-insert k t.id t r.by_id)

pub Keeps-add : (t : Tenant) (r : Repository) → Keeps r (add t r).1
unfolding add
Keeps-add t r = Keeps-insert t r

pub Keeps-update : (t : Tenant) (r : Repository) → Keeps r (update t r).1
unfolding update
Keeps-update t r = elim (Bool-cases (is_some (lookup t.id r.by_id))) [
  | inl e ↦ rw e (Keeps-insert t r)
  | inr e ↦ rw e (Keeps-refl r)
]

lookup-append_some :
    (k : Text) (d e : Dict Tenant)
    → is_some (lookup k d) ≡ true
    → is_some (lookup k (d ++ e)) ≡ true
unfolding lookup
lookup-append_some k [] e h = cc
lookup-append_some k ((j, w) ∷ d) e h = ground (arith, lookup-append_some k d e)

pub Keeps-append : (r : Repository) (d : Dict Tenant) → Keeps r (record { by_id = r.by_id ++ d })
unfolding get
Keeps-append r d k h = lookup-append_some k r.by_id d h

lookup-find :
    (p : Tenant → Bool) (t : Tenant) (d : Dict Tenant)
    → IsKeyed d
    → IsDistinct d
    → find p (values d) ≡ some t
    → lookup t.id d ≡ some t
unfolding lookup
lookup-find p t [] k h e = cc
lookup-find p t ((j, w) ∷ d) k h e = ground (arith, lookup-find p t d, eq_iff j t.id, eq_refl w.id)

-- In a well-formed repository the tenant that a phone number is routed to is stored under its own id.
pub get-resolved :
    (phone : Text) (t : Tenant) (r : Repository)
    → IsWellFormed r
    → try_resolve phone r ≡ some t
    → get t.id r ≡ some t
unfolding try_resolve by_phone_number_id get
get-resolved phone t r w e =
    lookup-find (λ x. is_phone phone x.whatsapp_phone_number_id) t r.by_id w.keyed w.distinct e
