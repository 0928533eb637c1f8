-- ===== src/Ingestion/Worker/Daemon/Stopped.antt =====
-- A daemon that is stopped.
use whatsapp_sales_saas_temp.Hindsight.{Hindsight}
use whatsapp_sales_saas_temp.Ingestion.Worker.{
  IngestionJob, IngestionQueue, Process, drain, drain_jobs,
}
use whatsapp_sales_saas_temp.Ingestion.Worker.Daemon.{run_rounds}
use whatsapp_sales_saas_temp.Ingestion.Worker.Drained.{never}
use whatsapp_sales_saas_temp.Prelude.{
  Bool, List, Option, [], arith, false, inl, inr, length, refl, some, suc, true, zero, ℕ, ◌+◌, ◌-◌,
  ◌∷◌, ◌≡◌, ◌≤◌,
}
use whatsapp_sales_saas_temp.Result.{Result, Result-cases, err, ok}

-- What the loop returns where draining returns a number.
abbrev pub as_stopped :
    Result {0} ℕ × (IngestionQueue × Hindsight)
    → Result {0} (Option Unit) × (IngestionQueue × Hindsight)
as_stopped (ok n, s) = (ok (some tt), s)
as_stopped (err e, s) = (err e, s)

abbrev pub nothing_arrives : ℕ → List IngestionJob
nothing_arrives k = []

-- The event is set before round `k + left`, and before no earlier one from `k` on.
abbrev pub StopsAfter : (ℕ → Bool) → ℕ → ℕ → Type 0
StopsAfter is_set k zero = is_set k ≡ true
StopsAfter is_set k (suc left) = (is_set k ≡ false) × StopsAfter is_set (k + 1) left

module _ (process : Process) (is_set : ℕ → Bool) where
  run_rounds-drain_jobs :
      (left k n : ℕ) (js : List IngestionJob) (due : ℕ) (h : Hindsight)
      → StopsAfter is_set k left
      → length js ≤ left
      → run_rounds process is_set nothing_arrives
          (suc left)
          k
          (record { jobs = js; unfinished = due }, h)
        ≡ as_stopped (drain_jobs process never n js (record { jobs = js; unfinished = due }, h))
  unfolding run_rounds drain_jobs
  run_rounds-drain_jobs zero k n [] due h s l = rw s refl
  run_rounds-drain_jobs zero k n (j ∷ js) due h s l = absurd (omega arith)
  run_rounds-drain_jobs (suc left) k n [] due h s l =
      rw s.0 (run_rounds-drain_jobs left (k + 1) n [] due h s.1 (omega arith))
  run_rounds-drain_jobs (suc left) k n (j ∷ js) due h s l =
      rw s.0 (elim (Result-cases (process j.path j.tenant_id j.source_label h).0) [
        | inl (fs, r) ↦
            let h' = (process j.path j.tenant_id j.source_label h).1 in
            rw r (run_rounds-drain_jobs left (k + 1) (n + 1) js (due - 1) h' s.1 (omega arith))
        | inr (x, r) ↦ rw r refl
      ])

  -- A daemon at whose queue no job arrives any more, and whose stop event is set before some round and
  -- before no earlier one: where the rounds up to then are at least as many as the jobs that wait, the loop
  -- ends with that round, and it has done what draining the queue does, which ends in the same exception
  -- where a job raises one.
  pub run_forever_stopped :
      (left : ℕ) (q : IngestionQueue) (h : Hindsight)
      → StopsAfter is_set 0 left
      → length q.jobs ≤ left
      → run_rounds process is_set nothing_arrives (suc left) 0 (q, h)
        ≡ as_stopped (drain process never (q, h))
  unfolding drain
  run_forever_stopped left q h s l = run_rounds-drain_jobs left 0 0 q.jobs q.unfinished h s l
