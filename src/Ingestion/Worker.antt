-- ===== src/Ingestion/Worker.antt =====
-- services/preprocessor/worker.py. For `drain`, `stop k` is whether the event is set when `k` jobs are
-- done; nobody puts a job while the queue is drained. `run_forever` is in Daemon.antt.
pub mod Drained
pub mod Daemon
use whatsapp_sales_saas_temp.Exec.{Exec}
use whatsapp_sales_saas_temp.Hindsight.{Hindsight}
use whatsapp_sales_saas_temp.Ingestion.Extractors.{FilePath}
use whatsapp_sales_saas_temp.Ingestion.Preprocessor.{process}
use whatsapp_sales_saas_temp.Models.{Fact}
use whatsapp_sales_saas_temp.Prelude.{
  Bool, List, Option, Text, [], if◌then◌else◌, ℕ, ◌++◌, ◌+◌, ◌-◌, ◌∷◌,
}
use whatsapp_sales_saas_temp.Result.{Result, err, ok}
use whatsapp_sales_saas_temp.Tenant.Spawner.{stop}

pub record IngestionJob : Type 0 where
  pub tenant_id : Text
  pub path : FilePath
  pub source_label : Option Text

-- `unfinished` is asyncio's count of the jobs whose `task_done` is still due.
pub record IngestionQueue : Type 0 where
  pub jobs : List IngestionJob
  pub unfinished : ℕ

unfoldable pub put : IngestionJob → IngestionQueue → IngestionQueue
put job q = record { jobs = q.jobs ++ job ∷ []; unfinished = q.unfinished + 1 }

-- The method `process` of the preprocessor.
abbrev pub Process : Type 0
Process = FilePath → Text → Option Text → Exec Hindsight (List Fact)

-- The queue after `get` and `task_done`.
abbrev pub taken : List IngestionJob → IngestionQueue → IngestionQueue
taken js q = record { jobs = js; unfinished = q.unfinished - 1 }

module _ (process : Process) (stop : ℕ → Bool) where
  abbrev pub go_on :
      Result (List Fact) → Exec (IngestionQueue × Hindsight) ℕ → Exec (IngestionQueue × Hindsight) ℕ
  go_on (ok fs) rest s = rest s
  go_on (err e) rest s = (err e, s)

  -- The loop: `k` jobs are done, and these are left.
  unfoldable pub drain_jobs : ℕ → List IngestionJob → Exec (IngestionQueue × Hindsight) ℕ
  drain_jobs k [] s = (ok k, s)
  drain_jobs k (j ∷ js) (q, h) =
      let rest = drain_jobs (k + 1) js in
      let (r, h') = process j.path j.tenant_id j.source_label h in
      if stop k then (ok k, (q, h)) else go_on r rest (taken js q, h')

  unfoldable pub drain : Exec (IngestionQueue × Hindsight) ℕ
  unfolding drain_jobs
  drain (q, h) = drain_jobs 0 q.jobs (q, h)
