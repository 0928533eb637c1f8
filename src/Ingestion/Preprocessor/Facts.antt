-- ===== src/Ingestion/Preprocessor/Facts.antt =====
-- Which facts a processed file adds.
use whatsapp_sales_saas_temp.Dict.{Dict, lookup}
use whatsapp_sales_saas_temp.Hindsight.{Hindsight, add_fact, all_for}
use whatsapp_sales_saas_temp.Ingestion.Extractors.{ExtractedChunk, Extractor, FilePath}
use whatsapp_sales_saas_temp.Ingestion.Preprocessor.{
  fact_of_chunk, no_extractor, process, source_of, store_chunks,
}
use whatsapp_sales_saas_temp.Models.{Fact}
use whatsapp_sales_saas_temp.Prelude.{
  All, List, Option, Option-cases, Text, [], ap, append-nil, append_assoc, arith, eq_iff, filter,
  filter-append, inl, inr, map, none, refl, some, ℕ, ◌++◌, ◌+◌, ◌==◌, ◌∙◌, ◌∷◌, ◌≡◌, ◌≢◌,
}
use whatsapp_sales_saas_temp.Result.{Error, Result, Result-cases, err, ok, unsupported_format}
use whatsapp_sales_saas_temp.Unicode.{Unicode}

module _ (u : Unicode) (show_tuple : List Text → Text) (extractors : Dict Extractor)
    (ids : ℕ → Text) (now : ℕ → ℕ) where
  -- What stands of a chunk in the fact that is made of it.
  abbrev pub IsMadeFor : Text → Text → Fact → Type 0
  IsMadeFor tenant_id source f = (f.tenant_id ≡ tenant_id) × (f.source ≡ source)

  pub record IsAdded (tenant_id source : Text) (cs : List ExtractedChunk) (h : Hindsight)
      (out : Result (List Fact) × Hindsight) : Type 0 where
    pub fresh_facts : List Fact
    pub answer : out ≡ (ok fresh_facts, record { facts = h.facts ++ fresh_facts })
    pub contents : map (λ f. f.content) fresh_facts ≡ map (λ c. c.text) cs
    pub owned : All (IsMadeFor tenant_id source) fresh_facts

  store_chunks-IsAdded :
      (tenant_id source : Text) (k : ℕ) (cs : List ExtractedChunk) (h : Hindsight)
      → IsAdded tenant_id source cs h
          (store_chunks u show_tuple extractors ids now tenant_id source k cs h)
  unfolding store_chunks add_fact
  store_chunks-IsAdded tenant_id source k [] h = record {
    fresh_facts = [];
    answer = rw (append-nil h.facts) refl;
    contents = refl;
    owned = tt;
  }
  store_chunks-IsAdded tenant_id source k (c ∷ cs) h =
      let f = fact_of_chunk (ids k) (now k) tenant_id source c in
      let d = store_chunks-IsAdded tenant_id source (k + 1) cs (add_fact f h) in
      record {
        fresh_facts = f ∷ d.fresh_facts;
        answer = rw d.answer (rw (append_assoc h.facts (f ∷ []) d.fresh_facts) refl);
        contents = ap (◌∷◌ c.text) d.contents;
        owned = ((refl, refl), d.owned);
      }

  -- A file whose extension has an extractor, and which this extractor reads: one fact is stored for
  -- each chunk, in order and behind the others, with its text, under the tenant and the source; they
  -- are what is returned.
  pub process-IsAdded :
      (path : FilePath) (tenant_id : Text) (label : Option Text) (h : Hindsight)
      (extract : Extractor) (cs : List ExtractedChunk)
      → lookup (u.lower path.suffix) extractors ≡ some extract
      → extract path ≡ ok cs
      → IsAdded tenant_id
          (source_of label path)
          cs
          h
          (process u show_tuple extractors ids now path tenant_id label h)
  unfolding process
  process-IsAdded path tenant_id label h extract cs e x =
      rw (e, process) (rw x (store_chunks-IsAdded tenant_id (source_of label path) 0 cs h))

  -- Otherwise nothing is stored: the error names the extension, or is the extractor's own.
  process-unread :
      (path : FilePath) (tenant_id : Text) (label : Option Text) (h : Hindsight)
      (extract : Extractor) (x : Error)
      → lookup (u.lower path.suffix) extractors ≡ some extract
      → extract path ≡ err x
      → process u show_tuple extractors ids now path tenant_id label h ≡ (err x, h)
  unfolding process
  process-unread path tenant_id label h extract x e r = rw (e, process) (rw r refl)

  process-unknown :
      (path : FilePath) (tenant_id : Text) (label : Option Text) (h : Hindsight)
      → lookup (u.lower path.suffix) extractors ≡ none
      → process u show_tuple extractors ids now path tenant_id label h
        ≡ (err (unsupported_format (no_extractor u show_tuple extractors (u.lower path.suffix))), h)
  unfolding process
  process-unknown path tenant_id label h e = rw (e, process) refl

  filter-others :
      (t source other : Text) (fs : List Fact)
      → other ≢ t
      → All (IsMadeFor other source) fs
      → filter (λ f. f.tenant_id == t) fs ≡ []
  filter-others t source other [] n a = refl
  filter-others t source other (f ∷ fs) n a =
      ground (arith, filter-others t source other fs n a.1, eq_iff f.tenant_id t, a.0.0)

  all_for-others :
      (t source other : Text) (old fs : List Fact)
      → other ≢ t
      → All (IsMadeFor other source) fs
      → all_for t (record { facts = old ++ fs }) ≡ all_for t (record { facts = old })
  unfolding all_for
  all_for-others t source other old fs n a =
      filter-append (λ f. f.tenant_id == t) old fs
      ∙ rw (filter-others t source other fs n a) (append-nil (filter (λ f. f.tenant_id == t) old))

  -- Whether it succeeds or fails, processing a file for a tenant leaves the facts of the others.
  pub process-others :
      (path : FilePath) (tenant_id other : Text) (label : Option Text) (h : Hindsight)
      → tenant_id ≢ other
      → all_for other (process u show_tuple extractors ids now path tenant_id label h).1
        ≡ all_for other h
  process-others path tenant_id other label h n =
      elim (Option-cases (lookup (u.lower path.suffix) extractors)) [
        | inl e ↦ rw (process-unknown path tenant_id label h e) refl
        | inr (extract, e) ↦ elim (Result-cases (extract path)) [
          | inl (cs, r) ↦
              let d = process-IsAdded path tenant_id label h extract cs e r in
              rw d.answer (
                all_for-others other (source_of label path) tenant_id h.facts d.fresh_facts n
                  d.owned)
          | inr (x, r) ↦ rw (process-unread path tenant_id label h extract x e r) refl
        ]
      ]
