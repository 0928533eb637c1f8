-- ===== src/Tenant/Repository/Laws.antt =====
-- The repository's invariant, and what an assignment does to the searches.
use whatsapp_sales_saas_temp.Dict.{Dict, insert, lookup, values}
use whatsapp_sales_saas_temp.Dict.Laws.{lookup-insert}
use whatsapp_sales_saas_temp.Models.{Tenant}
use whatsapp_sales_saas_temp.Prelude.{
  All, Bool, Text, [], arith, eq_iff, find, none, refl, some, true, ◌++◌, ◌==◌, ◌↔◌, ◌∷◌, ◌≡◌, ◌≢◌,
}
use whatsapp_sales_saas_temp.Tenant.Repository.{Repository, add, by_slug, get, update}

-- Every tenant stands under its own id.
abbrev pub IsKeyed : Dict Tenant → Type 0
IsKeyed d = All (λ e. e.0 ≡ e.1.id) d

abbrev pub HasNoSlug : Text → Dict Tenant → Type 0
HasNoSlug slug d = All (λ e. e.1.slug ≢ slug) d

-- No two entries share a key, and no two tenants a slug.
abbrev pub IsDistinct : Dict Tenant → Type 0
IsDistinct [] = Unit
IsDistinct ((k, t) ∷ d) = (lookup k d ≡ none) × HasNoSlug t.slug d × IsDistinct d

pub record IsWellFormed (r : Repository) : Type 0 where
  pub keyed : IsKeyed r.by_id
  pub distinct : IsDistinct r.by_id

module _ (p : Tenant → Bool) where
  pub find-concat_hit :
      (k : Text) (t : Tenant) (d : Dict Tenant)
      → find p (values d) ≡ none
      → p t ≡ true
      → find p (values (d ++ (k, t) ∷ [])) ≡ some t
  find-concat_hit k t [] h e = rw e
  find-concat_hit k t ((j, w) ∷ d) h e = ground (arith, find-concat_hit k t d)

pub IsKeyed-insert : (t : Tenant) (d : Dict Tenant) → IsKeyed d → IsKeyed (insert t.id t d)
unfolding insert
IsKeyed-insert t [] h = (refl, tt)
IsKeyed-insert t ((j, w) ∷ d) h = ground (arith, eq_iff j t.id, IsKeyed-insert t d h.1)

HasNoSlug-insert :
    (slug : Text) (t : Tenant) (d : Dict Tenant)
    → HasNoSlug slug d
    → t.slug ≢ slug
    → HasNoSlug slug (insert t.id t d)
unfolding insert
HasNoSlug-insert slug t [] h n = (n, tt)
HasNoSlug-insert slug t ((j, w) ∷ d) h n = ground (arith, HasNoSlug-insert slug t d h.1 n)

-- Without a slug nothing is found under it, and the other way round.
pub by_slug-none_iff :
    (slug : Text) (d : Dict Tenant)
    → (find (λ t. t.slug == slug) (values d) ≡ none) ↔ HasNoSlug slug d
by_slug-none_iff slug [] = (λ _. tt, λ _. refl)
by_slug-none_iff slug ((j, w) ∷ d) = grind (arith, eq_iff w.slug slug, by_slug-none_iff slug d)

-- A tenant with a new id and a new slug.
pub IsDistinct-insert_new :
    (t : Tenant) (d : Dict Tenant)
    → lookup t.id d ≡ none
    → HasNoSlug t.slug d
    → IsDistinct d
    → IsDistinct (insert t.id t d)
unfolding insert lookup
IsDistinct-insert_new t [] l n h = (refl, tt, tt)
IsDistinct-insert_new t ((j, w) ∷ d) l n h = ground (
  arith,
  eq_iff j t.id,
  eq_iff t.id j,
  lookup-insert j t.id t d,
  HasNoSlug-insert w.slug t d h.1,
  IsDistinct-insert_new t d,
)

slug_held :
    (k slug : Text) (t : Tenant) (d : Dict Tenant)
    → lookup k d ≡ some t
    → HasNoSlug slug d
    → t.slug ≢ slug
unfolding lookup
slug_held k slug t [] l n = cc
slug_held k slug t ((j, w) ∷ d) l n = ground (arith, slug_held k slug t d)

-- A new version of a tenant, with its slug.
pub IsDistinct-insert_same :
    (t old : Tenant) (d : Dict Tenant)
    → lookup t.id d ≡ some old
    → t.slug ≡ old.slug
    → IsDistinct d
    → IsDistinct (insert t.id t d)
unfolding insert lookup
IsDistinct-insert_same t old [] l e h = cc
IsDistinct-insert_same t old ((j, w) ∷ d) l e h = ground (
  arith,
  eq_iff j t.id,
  eq_iff t.id j,
  lookup-insert j t.id t d,
  slug_held t.id w.slug old d,
  HasNoSlug-insert w.slug t d h.1,
  IsDistinct-insert_same t old d,
)

pub add-IsWellFormed :
    (t : Tenant) (r : Repository)
    → get t.id r ≡ none
    → by_slug t.slug r ≡ none
    → IsWellFormed r
    → IsWellFormed (add t r).1
unfolding add get by_slug
add-IsWellFormed t r l n h = record {
  keyed = IsKeyed-insert t r.by_id h.keyed;
  distinct = IsDistinct-insert_new t r.by_id l ((by_slug-none_iff t.slug r.by_id).0 n) h.distinct;
}

pub update-IsWellFormed :
    (t old : Tenant) (r : Repository)
    → get t.id r ≡ some old
    → t.slug ≡ old.slug
    → IsWellFormed r
    → IsWellFormed (update t r).1
unfolding update get
update-IsWellFormed t old r l e h = rw l record {
  keyed = IsKeyed-insert t r.by_id h.keyed;
  distinct = IsDistinct-insert_same t old r.by_id l e h.distinct;
}
