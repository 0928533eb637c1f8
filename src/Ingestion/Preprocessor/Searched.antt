-- ===== src/Ingestion/Preprocessor/Searched.antt =====
-- What the queries find once a file is processed.
use mathlib.Core.List.{map-append}
use whatsapp_sales_saas_temp.Dict.{Dict, lookup}
use whatsapp_sales_saas_temp.Hindsight.{Hindsight, all_for, mentions, needle, query, slice_to}
use whatsapp_sales_saas_temp.Hindsight.Scope.{query-eq-take}
use whatsapp_sales_saas_temp.Ingestion.Extractors.{ExtractedChunk, Extractor, FilePath}
use whatsapp_sales_saas_temp.Ingestion.Preprocessor.{process, source_of}
use whatsapp_sales_saas_temp.Ingestion.Preprocessor.Facts.{process-IsAdded, process-others}
use whatsapp_sales_saas_temp.Models.{Fact}
use whatsapp_sales_saas_temp.Prelude.{
  All, Bool, List, Option, Text, [], ap, arith, contains, eq_iff, false, filter, filter-append,
  if◌then◌else◌, is_empty, map, map-take, pos, refl, some, take, ℕ, ℤ, ◌&&◌, ◌++◌, ◌==◌, ◌∙◌, ◌∷◌,
  ◌≡◌, ◌≢◌,
}
use whatsapp_sales_saas_temp.Result.{ok}
use whatsapp_sales_saas_temp.Unicode.{Unicode}

module _ (u : Unicode) (query_text tenant_id : Text) where
  abbrev has_needle : Text → Bool
  has_needle s = contains (needle u query_text) (u.lower s)

  abbrev pub is_hit : Fact → Bool
  is_hit f = f.tenant_id == tenant_id && mentions u (needle u query_text) f

  -- Among facts of the tenant the content decides.
  hits-owned :
      (source : Text) (fs : List Fact)
      → All (λ f. (f.tenant_id ≡ tenant_id) × (f.source ≡ source)) fs
      → map (λ f. f.content) (filter is_hit fs) ≡ filter has_needle (map (λ f. f.content) fs)
  hits-owned source [] h = refl
  hits-owned source (f ∷ fs) h =
      ground (arith, hits-owned source fs h.1, eq_iff f.tenant_id tenant_id, h.0.0)

  query-IsAdded :
      (k : ℕ) (old fs : List Fact) (source : Text)
      → is_empty (needle u query_text) ≡ false
      → All (λ f. (f.tenant_id ≡ tenant_id) × (f.source ≡ source)) fs
      → map
          (λ f. f.content)
          (query u query_text (some tenant_id) (pos k) (record { facts = old ++ fs }))
        ≡ take k (
            map (λ f. f.content) (filter is_hit old) ++ filter has_needle (map (λ f. f.content) fs))
  query-IsAdded k old fs source e h =
      rw (query-eq-take u query_text tenant_id k (record { facts = old ++ fs }), e)
        (map-take (λ f. f.content) k (filter is_hit (old ++ fs))
          ∙ ap (take k) (
              rw (filter-append is_hit old fs) (
                map-append (λ f. f.content) (filter is_hit old) (filter is_hit fs)
                ∙ ap (λ (rest : List Text). map (λ f. f.content) (filter is_hit old) ++ rest)
                    (hits-owned source fs h))))

query-all_for :
    (u : Unicode) (query_text t : Text) (top_k : ℤ) (h h' : Hindsight)
    → all_for t h ≡ all_for t h'
    → query u query_text (some t) top_k h ≡ query u query_text (some t) top_k h'
unfolding query all_for
query-all_for u query_text t top_k h h' e =
    ap
      (λ fs. slice_to top_k (
        filter (mentions u (needle u query_text))
          (if is_empty (needle u query_text) then [] else fs)))
      e

module _ (u : Unicode) (show_tuple : List Text → Text) (extractors : Dict Extractor)
    (ids : ℕ → Text) (now : ℕ → ℕ) where
  -- Once a file is processed that its extractor reads into chunks: what the tenant's query finds, where
  -- it is not blank, has the contents of the tenant's earlier facts that contain the stripped,
  -- lower-case query in lower case, and behind them those of the chunks' texts that contain it, in
  -- order and cut at `top_k`; and every query of another tenant finds what it found before.
  pub process-query :
      (path : FilePath) (tenant_id : Text) (label : Option Text) (h : Hindsight)
      (extract : Extractor) (cs : List ExtractedChunk) (query_text : Text) (k : ℕ)
      → lookup (u.lower path.suffix) extractors ≡ some extract
      → extract path ≡ ok cs
      → is_empty (needle u query_text) ≡ false
      → let h' = (process u show_tuple extractors ids now path tenant_id label h).1 in
        (map (λ f. f.content) (query u query_text (some tenant_id) (pos k) h')
          ≡ take k (
              map (λ f. f.content) (filter (is_hit u query_text tenant_id) h.facts)
              ++ filter (λ s. contains (needle u query_text) (u.lower s)) (map (λ c. c.text) cs)))
        × ((other : Text) (top_k : ℤ)
            → tenant_id ≢ other
            → query u query_text (some other) top_k h' ≡ query u query_text (some other) top_k h)
  process-query path tenant_id label h extract cs query_text k e x n =
      let d =
        process-IsAdded u show_tuple extractors ids now path tenant_id label h extract cs e x in
      (
        rw (d.answer, ← d.contents)
            (query-IsAdded u query_text tenant_id k h.facts d.fresh_facts (source_of label path) n
              d.owned),
        λ other top_k ne.
            query-all_for u query_text other top_k
              (process u show_tuple extractors ids now path tenant_id label h).1 h
              (process-others u show_tuple extractors ids now path tenant_id other label h ne),
      )
