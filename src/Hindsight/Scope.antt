-- ===== src/Hindsight/Scope.antt =====
-- What a query returns, and whose facts it depends on.
use whatsapp_sales_saas_temp.Hindsight.{
  Hindsight, add_fact, in_scope, mentions, needle, query, slice_to,
}
use whatsapp_sales_saas_temp.Models.{Fact}
use whatsapp_sales_saas_temp.Prelude.{
  All, All-filter, All-take, Bool-cases, List, Text, [], ap, arith, eq_iff, false, filter,
  if◌then◌else◌, inl, inr, is_empty, length, negsuc, pos, refl, some, suc, sym, take, take-nil,
  true, zero, ℕ, ℤ, ◌&&◌, ◌++◌, ◌-◌, ◌==◌, ◌∙◌, ◌∷◌, ◌≡◌, ◌≢◌,
}
use whatsapp_sales_saas_temp.Unicode.{Unicode}

module _ (u : Unicode) (query_text : Text) (tenant_id : Text) where
  abbrev pub IsHit : Fact → Type 0
  IsHit f = (f.tenant_id ≡ tenant_id) × (mentions u (needle u query_text) f ≡ true)

  -- The facts that both tests keep, in the order in which they were added.
  abbrev hits : List Fact → List Fact
  hits = filter (λ f. f.tenant_id == tenant_id && mentions u (needle u query_text) f)

  filter-filter :
      (fs : List Fact)
      → filter (mentions u (needle u query_text)) (filter (in_scope (some tenant_id)) fs) ≡ hits fs
  filter-filter [] = refl
  filter-filter (f ∷ fs) = ground (arith, filter-filter fs)

  query-eq-hits :
      (top_k : ℤ) (h : Hindsight)
      → is_empty (needle u query_text) ≡ false
      → query u query_text (some tenant_id) top_k h ≡ slice_to top_k (hits h.facts)
  unfolding query
  query-eq-hits top_k h e = rw (e, filter-filter h.facts)

slice_to-All {ℓ κ} :
    {A : Type ℓ} (P : A → Type κ) (k : ℤ) (xs : List A) → All P xs → All P (slice_to k xs)
slice_to-All P (pos k) xs h = All-take P k xs h
slice_to-All P (negsuc k) xs h = All-take P (length xs - suc k) xs h

pub query_blank :
    (u : Unicode) (query_text tenant_id : Text) (top_k : ℤ) (h : Hindsight)
    → is_empty (needle u query_text) ≡ true
    → query u query_text (some tenant_id) top_k h ≡ []
unfolding query
query_blank u query_text tenant_id (pos zero) h e = refl
query_blank u query_text tenant_id (pos (suc k)) h e = rw e
query_blank u query_text tenant_id (negsuc k) h e = rw e (take-nil (0 - suc k))

-- Every fact that a tenant's query returns, for any `top_k`, is the tenant's own, and its lower-case
-- content contains the lower-case, stripped query.
query-IsHit :
    (u : Unicode) (query_text tenant_id : Text) (top_k : ℤ) (h : Hindsight)
    → All (IsHit u query_text tenant_id) (query u query_text (some tenant_id) top_k h)
query-IsHit u query_text tenant_id top_k h = elim (Bool-cases (is_empty (needle u query_text))) [
  | inl e ↦ rw (query_blank u query_text tenant_id top_k h e) tt
  | inr e ↦ rw (query-eq-hits u query_text tenant_id top_k h e) (
      slice_to-All (IsHit u query_text tenant_id) top_k (hits u query_text tenant_id h.facts) (
        All-filter (λ (f : Fact). f.tenant_id == tenant_id && mentions u (needle u query_text) f)
          (λ f p. (ground (arith, eq_iff f.tenant_id tenant_id), ground arith)) h.facts))
]

hits-other :
    (u : Unicode) (query_text tenant_id : Text) (f : Fact) (fs : List Fact)
    → f.tenant_id ≢ tenant_id
    → hits u query_text tenant_id (fs ++ f ∷ []) ≡ hits u query_text tenant_id fs
hits-other u query_text tenant_id f [] n = ground (arith, eq_iff f.tenant_id tenant_id)
hits-other u query_text tenant_id f (g ∷ fs) n =
    ground (arith, hits-other u query_text tenant_id f fs n)

-- A fact of another tenant changes no answer that a tenant's query gets.
pub query-add_fact_other :
    (u : Unicode) (query_text tenant_id : Text) (top_k : ℤ) (f : Fact) (h : Hindsight)
    → f.tenant_id ≢ tenant_id
    → query u query_text (some tenant_id) top_k (add_fact f h)
      ≡ query u query_text (some tenant_id) top_k h
unfolding add_fact
query-add_fact_other u query_text tenant_id top_k f h n =
    elim (Bool-cases (is_empty (needle u query_text))) [
      | inl e ↦
          query_blank u query_text tenant_id top_k (add_fact f h) e
          ∙ sym (query_blank u query_text tenant_id top_k h e)
      | inr e ↦
          query-eq-hits u query_text tenant_id top_k (add_fact f h) e
          ∙ ap (slice_to top_k) (hits-other u query_text tenant_id f h.facts n)
          ∙ sym (query-eq-hits u query_text tenant_id top_k h e)
    ]

-- With a query that is not blank and a `top_k` of zero or more, the answer is the first `top_k` of
-- the tenant's matching facts, in the order in which they were added; a blank query has no answer.
pub query-eq-take :
    (u : Unicode) (query_text tenant_id : Text) (k : ℕ) (h : Hindsight)
    → query u query_text (some tenant_id) (pos k) h ≡ (
        if is_empty (needle u query_text)
        then []
        else take k
            (filter (λ f. f.tenant_id == tenant_id && mentions u (needle u query_text) f) h.facts))
query-eq-take u query_text tenant_id k h = elim (Bool-cases (is_empty (needle u query_text))) [
  | inl e ↦ rw e (query_blank u query_text tenant_id (pos k) h e)
  | inr e ↦ rw e (query-eq-hits u query_text tenant_id (pos k) h e)
]
