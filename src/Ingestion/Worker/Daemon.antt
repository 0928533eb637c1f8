-- ===== src/Ingestion/Worker/Daemon.antt =====
-- `run_forever` of services/preprocessor/worker.py, in rounds of the loop. Before round `k` the event is
-- set or not, `is_set k`, and during it others put the jobs `arriving k`; where none is there in time, the
-- wait times out.
pub mod Stopped
use whatsapp_sales_saas_temp.Exec.{Exec}
use whatsapp_sales_saas_temp.Hindsight.{Hindsight}
use whatsapp_sales_saas_temp.Ingestion.Preprocessor.{process}
use whatsapp_sales_saas_temp.Ingestion.Worker.{IngestionJob, IngestionQueue, Process, put, taken}
use whatsapp_sales_saas_temp.Models.{Fact}
use whatsapp_sales_saas_temp.Prelude.{
  Bool, List, Option, [], if◌then◌else◌, none, some, suc, zero, ℕ, ◌+◌, ◌∷◌,
}
use whatsapp_sales_saas_temp.Result.{Result, err, ok}

-- The jobs that others put.
abbrev pub put_all : List IngestionJob → IngestionQueue → IngestionQueue
put_all [] q = q
put_all (j ∷ js) q = put_all js (put j q)

module _ (process : Process) (is_set : ℕ → Bool) (arriving : ℕ → List IngestionJob) where
  abbrev pub keep_on :
      Result (List Fact)
      → Exec (IngestionQueue × Hindsight) (Option Unit)
      → Exec (IngestionQueue × Hindsight) (Option Unit)
  keep_on (ok fs) rest s = rest s
  keep_on (err e) rest s = (err e, s)

  -- What a round does with the jobs that are waiting.
  abbrev pub take_one :
      List IngestionJob
      → Exec (IngestionQueue × Hindsight) (Option Unit)
      → Exec (IngestionQueue × Hindsight) (Option Unit)
  take_one [] rest s = rest s
  take_one (j ∷ js) rest (q, h) =
      let (r, h') = process j.path j.tenant_id j.source_label h in keep_on r rest (taken js q, h')

  -- At most so many rounds, from round `k` on; `none` is that the loop is still running.
  unfoldable pub run_rounds : ℕ → ℕ → Exec (IngestionQueue × Hindsight) (Option Unit)
  run_rounds zero k s = (ok none, s)
  run_rounds (suc fuel) k (q, h) =
      let rest = run_rounds fuel (k + 1) in
      let waited = put_all (arriving k) q in
      if is_set k then (ok (some tt), (q, h)) else take_one waited.jobs rest (waited, h)
