-- ===== src/Ingestion/Worker/Drained.antt =====
-- What draining does to the queue and to the facts.
use whatsapp_sales_saas_temp.Dict.{Dict}
use whatsapp_sales_saas_temp.Hindsight.{Hindsight, all_for}
use whatsapp_sales_saas_temp.Ingestion.Extractors.{Extractor}
use whatsapp_sales_saas_temp.Ingestion.Preprocessor.{process}
use whatsapp_sales_saas_temp.Ingestion.Preprocessor.Facts.{process-others}
use whatsapp_sales_saas_temp.Ingestion.Worker.{
  IngestionJob, IngestionQueue, Process, drain, drain_jobs, taken,
}
use whatsapp_sales_saas_temp.Prelude.{
  All, Bool, Bool-cases, List, Text, [], ap, arith, drop, false, inl, inr, length, refl, suc, ℕ,
  ◌+◌, ◌-◌, ◌<◌, ◌∙◌, ◌∷◌, ◌≡◌, ◌≢◌, ◌≤◌, ◌⊎◌,
}
use whatsapp_sales_saas_temp.Result.{Error, Result, Result-cases, err, ok}
use whatsapp_sales_saas_temp.Unicode.{Unicode}

abbrev pub never : ℕ → Bool
never k = false

abbrev pub Ends : ℕ → ℕ → ℕ → Result ℕ → Type 0
Ends k n size r =
    ((r ≡ ok (k + n)) × (n ≡ size)) ⊎ ((e : Error) × (r ≡ err e) × (0 < n) × (n ≤ size))

one_more : (k n size : ℕ) {r : Result ℕ} → Ends (k + 1) n size r → Ends k (suc n) (suc size) r
one_more k n size (inl (e, l)) =
    inl (e ∙ ap ok (let z : k + 1 + n ≡ k + suc n = omega arith in z), ap suc l)
one_more k n size (inr (x, e, l, m)) = inr (x, e, omega arith, omega arith)

module _ (process : Process) where
  -- What is left of the queue, and of asyncio's count, after `n` jobs.
  pub record IsDrained (k n : ℕ) (jobs : List IngestionJob) (unfinished : ℕ)
      (out : Result ℕ × (IngestionQueue × Hindsight)) : Type 0 where
    pub left : out.1.0.jobs ≡ drop n jobs
    pub counted : out.1.0.unfinished ≡ unfinished - n
    pub outcome : Ends k n (length jobs) out.0

  drain_jobs-IsDrained :
      (k : ℕ) (js : List IngestionJob) (q : IngestionQueue) (h : Hindsight)
      → q.jobs ≡ js
      → (n : ℕ) × IsDrained k n js q.unfinished (drain_jobs process never k js (q, h))
  unfolding drain_jobs
  drain_jobs-IsDrained k [] q h e = (
    0,
    record {
      left = e;
      counted = omega arith;
      outcome = inl (ap ok (let z : k ≡ k + 0 = omega arith in z), refl);
    },
  )
  drain_jobs-IsDrained k (j ∷ js) q h e =
      elim (Result-cases (process j.path j.tenant_id j.source_label h).0) [
        | inl (fs, r) ↦
            let h' = (process j.path j.tenant_id j.source_label h).1 in
            let (n, d) = drain_jobs-IsDrained (k + 1) js (taken js q) h' refl in
            rw r (
              suc n,
              record {
                left = d.left;
                counted = omega (arith, d.counted);
                outcome = one_more k n (length js) d.outcome;
              },
            )
        | inr (x, r) ↦ rw r (
          1,
          record { left = refl; counted = refl; outcome = inr (x, refl, omega arith, omega arith) },
        )
      ]

  -- With the stop event never set: the queue is drained to its end and the number of its jobs is
  -- returned, or a job raised; then the exception is raised, that job and those before it are off the
  -- queue, and the later ones stay. Either way every job taken is counted as done.
  pub drain-IsDrained :
      (q : IngestionQueue) (h : Hindsight)
      → (n : ℕ) × IsDrained 0 n q.jobs q.unfinished (drain process never (q, h))
  unfolding drain
  drain-IsDrained q h = drain_jobs-IsDrained 0 q.jobs q h refl

module _ (u : Unicode) (show_tuple : List Text → Text) (extractors : Dict Extractor)
    (ids : ℕ → Text) (now : ℕ → ℕ) (stop : ℕ → Bool) where
  abbrev processing : Process
  processing = process u show_tuple extractors ids now

  drain_jobs-others :
      (t : Text) (k : ℕ) (js : List IngestionJob) (q : IngestionQueue) (h : Hindsight)
      → All (λ j. j.tenant_id ≢ t) js
      → all_for t (drain_jobs processing stop k js (q, h)).1.1 ≡ all_for t h
  unfolding drain_jobs
  drain_jobs-others t k [] q h a = refl
  drain_jobs-others t k (j ∷ js) q h a =
      let h' = (processing j.path j.tenant_id j.source_label h).1 in
      let one =
        process-others u show_tuple extractors ids now j.path j.tenant_id t j.source_label h a.0 in
      let more = drain_jobs-others t (k + 1) js (taken js q) h' a.1 in
      elim (Bool-cases (stop k)) [
        | inl e ↦ rw e refl
        | inr e ↦ rw e (elim (Result-cases (processing j.path j.tenant_id j.source_label h).0) [
          | inl (fs, r) ↦ rw r (more ∙ one)
          | inr (x, r) ↦ rw r one
        ])
      ]

  -- Draining the queue, to its end, to a stop or to an exception, leaves the facts of every tenant
  -- that no job is for.
  drain-others :
      (t : Text) (q : IngestionQueue) (h : Hindsight)
      → All (λ j. j.tenant_id ≢ t) q.jobs
      → all_for t (drain processing stop (q, h)).1.1 ≡ all_for t h
  unfolding drain
  drain-others t q h a = drain_jobs-others t 0 q.jobs q h a
