-- ===== src/Hindsight/Picked.antt =====
-- What a query returns, fact by fact.
use whatsapp_sales_saas_temp.Hindsight.{Hindsight, query}
use whatsapp_sales_saas_temp.Hindsight.Scope.{query-eq-take, query_blank}
use whatsapp_sales_saas_temp.Models.{Fact}
use whatsapp_sales_saas_temp.Prelude.{
  Bool, Bool-cases, List, Text, [], ap, arith, contains, eq_iff, false, filter, inl, inr, is_empty,
  pos, refl, some, starts_with, strip, take, true, ℕ, ◌&&◌, ◌++◌, ◌==◌, ◌∙◌, ◌∷◌, ◌≡◌, ◌≢◌, ◌⊎◌,
}
use whatsapp_sales_saas_temp.Skills.LeadQualifier.{word}
use whatsapp_sales_saas_temp.Unicode.{Unicode}

-- The word occurs in the text.
abbrev pub Occurs : Text → Text → Type 0
Occurs word s = (before : Text) × (after : Text) × (s ≡ before ++ (word ++ after))

starts_with-split : (s w : Text) → starts_with s w ≡ true → (after : Text) × (s ≡ w ++ after)
unfolding starts_with
starts_with-split s [] h = (s, refl)
starts_with-split [] (b ∷ w) h = cc
starts_with-split (a ∷ s) (b ∷ w) h =
    let same_head : a ≡ b = ground arith in
    let (after, e) = starts_with-split s w (ground arith) in (after, rw (same_head, e) refl)

starts_with-append : (w after : Text) → starts_with (w ++ after) w ≡ true
unfolding starts_with
starts_with-append [] after = refl
starts_with-append (b ∷ w) after = ground (arith, starts_with-append w after)

contains-Occurs : (w s : Text) → contains w s ≡ true → Occurs w s
unfolding contains
contains-Occurs w [] h = let (after, e) = starts_with-split [] w h in ([], after, e)
contains-Occurs w (c ∷ s) h = elim (Bool-cases (starts_with (c ∷ s) w)) [
  | inl b ↦ let (after, e) = starts_with-split (c ∷ s) w b in ([], after, e)
  | inr b ↦
      let (before, after, e) = contains-Occurs w s (ground arith) in
      (c ∷ before, after, ap (◌∷◌ c) e)
]

contains-whole : (w after : Text) → contains w (w ++ after) ≡ true
unfolding contains starts_with
contains-whole [] [] = refl
contains-whole [] (c ∷ after) = refl
contains-whole (b ∷ w) after = ground (arith, starts_with-append (b ∷ w) after)

contains-append : (w before after : Text) → contains w (before ++ (w ++ after)) ≡ true
unfolding contains
contains-append w [] after = contains-whole w after
contains-append w (c ∷ before) after = ground (arith, contains-append w before after)

Occurs-contains : (w s : Text) → Occurs w s → contains w s ≡ true
Occurs-contains w s (before, after, e) = rw e (contains-append w before after)

is_empty-nil : (s : Text) → is_empty s ≡ true → s ≡ []
is_empty-nil [] h = refl
is_empty-nil (c ∷ s) h = cc

module _ (u : Unicode) (word tenant_id : Text) where
  -- `ms` are those of the facts that are the tenant's and whose lower-case content has the word, in order.
  pub data Picked : List Fact → List Fact → Type 0 where
    nothing_left : Picked [] []
    taken :
        {f : Fact} {fs ms : List Fact}
        → f.tenant_id ≡ tenant_id
        → Occurs word (u.lower f.content)
        → Picked fs ms
        → Picked (f ∷ fs) (f ∷ ms)
    passed_over :
        {f : Fact} {fs ms : List Fact}
        → (f.tenant_id ≢ tenant_id) ⊎ ¬ Occurs word (u.lower f.content)
        → Picked fs ms
        → Picked (f ∷ fs) ms

  abbrev picks : Fact → Bool
  picks f = f.tenant_id == tenant_id && contains word (u.lower f.content)

  picks-cases :
      (f : Fact)
      → ((picks f ≡ true) × (f.tenant_id ≡ tenant_id) × Occurs word (u.lower f.content))
        ⊎ ((picks f ≡ false) × ((f.tenant_id ≢ tenant_id) ⊎ ¬ Occurs word (u.lower f.content)))
  picks-cases f = elim (Bool-cases (f.tenant_id == tenant_id)) [
    | inl t ↦ elim (Bool-cases (contains word (u.lower f.content))) [
      | inl c ↦ inl (
        rw (t, c) refl,
        (eq_iff f.tenant_id tenant_id).0 t,
        contains-Occurs word (u.lower f.content) c,
      )
      | inr c ↦
          inr (rw (t, c) refl, inr (λ o. let d = Occurs-contains word (u.lower f.content) o in cc))
    ]
    | inr t ↦ inr (rw t refl, inl (λ e. ground (arith, eq_iff f.tenant_id tenant_id)))
  ]

  filter-Picked : (fs : List Fact) → Picked fs (filter picks fs)
  filter-Picked [] = nothing_left
  filter-Picked (f ∷ fs) = elim (picks-cases f) [
    | inl (p, t, o) ↦ rw p (taken t o (filter-Picked fs))
    | inr (p, n) ↦ rw p (passed_over n (filter-Picked fs))
  ]

-- A query whose lower-case, stripped text is empty finds nothing, and any other finds, with a `top_k` of
-- zero or more, the first `top_k` of the tenant's facts in whose lower-case content that text occurs, in
-- the order in which they were added.
pub query_exact :
    (u : Unicode) (query_text tenant_id : Text) (k : ℕ) (h : Hindsight)
    → let word = strip (u.lower query_text) in
      let answer = query u query_text (some tenant_id) (pos k) h in
      (word ≡ []) × (answer ≡ [])
      ⊎ (word ≢ []) × (ms : List Fact) × Picked u word tenant_id h.facts ms × (answer ≡ take k ms)
query_exact u query_text tenant_id k h = elim (Bool-cases (is_empty (strip (u.lower query_text)))) [
  | inl e ↦
      inl (
        is_empty-nil (strip (u.lower query_text)) e,
        query_blank u query_text tenant_id (pos k) h e,
      )
  | inr e ↦ inr (
    (λ n. let f = rw n at e in cc),
    filter (picks u (strip (u.lower query_text)) tenant_id) h.facts,
    filter-Picked u (strip (u.lower query_text)) tenant_id h.facts,
    query-eq-take u query_text tenant_id k h ∙ rw e refl,
  )
]
