-- ===== src/Tests/Services.antt =====
-- A database, a daemon and the command line.
use whatsapp_sales_saas_temp.Client.Cli.{judge_goal, run_command}
use whatsapp_sales_saas_temp.Client.Cli.Agrees.{judge_goal-evaluate_goal}
use whatsapp_sales_saas_temp.Dict.{Dict}
use whatsapp_sales_saas_temp.Exec.{◌>>=◌}
use whatsapp_sales_saas_temp.Goal.{Goal, GoalResult, evaluate_goal, to_qualify}
use whatsapp_sales_saas_temp.Hindsight.Postgres.{
  Argument, Codec, Connection, Row, all_for_sql, insert_sql, iso_text, json_column, text_argument,
}
use whatsapp_sales_saas_temp.Hindsight.Postgres.Calls.{facts_of, insert_arguments, insert_fact}
use whatsapp_sales_saas_temp.Hindsight.Postgres.Stored.{IsStored, facts_of-insert_fact}
use whatsapp_sales_saas_temp.Ingestion.Worker.{IngestionJob, IngestionQueue, Process, drain}
use whatsapp_sales_saas_temp.Ingestion.Worker.Daemon.{run_rounds}
use whatsapp_sales_saas_temp.Ingestion.Worker.Daemon.Stopped.{
  StopsAfter, as_stopped, nothing_arrives, run_forever_stopped,
}
use whatsapp_sales_saas_temp.Ingestion.Worker.Drained.{never}
use whatsapp_sales_saas_temp.Models.{Fact}
use whatsapp_sales_saas_temp.Prelude.{
  Bool, List, Option, Text, [], ap, append-nil, arith, false, filter, if◌then◌else◌, inl, is_empty,
  leb, lit, map, nat_eq, none, pos, refl, some, strip, true, ℕ, ℤ, ◌++◌, ◌+◌, ◌-◌, ◌==◌, ◌∷◌, ◌≡◌,
  ◌⊎◌,
}
use whatsapp_sales_saas_temp.Result.{Result, err, ok, value_error}
use whatsapp_sales_saas_temp.Skills.LeadQualifier.{qualified}
use whatsapp_sales_saas_temp.Skills.Registry.{builtins}
use whatsapp_sales_saas_temp.Tests.Shop.{facts}
use whatsapp_sales_saas_temp.Unicode.{ascii}
use whatsapp_sales_saas_temp.Value.{bool, done, object}

-- A codec for dicts: 0 ends a key, 1 a value, and the characters are moved up by two.
abbrev shifted : Text → Text
shifted s = map (λ c. c + 2) s

abbrev dumped : Dict Text → Text
dumped [] = []
dumped ((k, v) ∷ d) = shifted k ++ (0 ∷ (shifted v ++ (1 ∷ dumped d)))

-- The text up to the next mark, the value behind it where the mark ends a key, and the dict behind both.
pub record Loading : Type 0 where
  pub part : Text
  pub value : Option Text
  pub others : Dict Text

abbrev entries : Loading → Dict Text
entries l = elim (l.value) [ none ↦ l.others | some v ↦ (l.part, v) ∷ l.others ]

abbrev loading : Text → Loading
loading [] = record { part = []; value = none; others = [] }
loading (c ∷ s) =
    let l = loading s in
    if nat_eq c 0
    then record { part = []; value = some l.part; others = l.others }
    else if nat_eq c 1
    then record { part = []; value = none; others = entries l }
    else record { part = (c - 2) ∷ l.part; value = l.value; others = l.others }

loading-shifted :
    (s rest : Text)
    → loading (shifted s ++ rest) ≡ record {
      part = s ++ (loading rest).part;
      value = (loading rest).value;
      others = (loading rest).others;
    }
loading-shifted [] rest = refl
loading-shifted (c ∷ s) rest =
    let not_0 : nat_eq (c + 2) 0 ≡ false = ground arith in
    let not_1 : nat_eq (c + 2) 1 ≡ false = ground arith in
    let back : c + 2 - 2 ≡ c = omega arith in
    rw not_0 (rw not_1 (rw (loading-shifted s rest) (rw back refl)))

entries-dumped : (d : Dict Text) → entries (loading (dumped d)) ≡ d
entries-dumped [] = refl
entries-dumped ((k, v) ∷ d) = rw (loading-shifted k (0 ∷ (shifted v ++ (1 ∷ dumped d)))) (
    rw (loading-shifted v (1 ∷ dumped d))
      (rw (append-nil k) (rw (append-nil v) (rw (entries-dumped d) refl))))

abbrev read_instant : Text → Result ℕ
read_instant [] = err (value_error (lit "Invalid isoformat string: ''"))
read_instant (c ∷ s) = ok c

abbrev codec : Codec
codec = record {
  dumps = dumped;
  loads = λ s. ok (some (entries (loading s)));
  isoformat = λ t. t ∷ [];
  fromisoformat = read_instant;
  loads-dumps = λ d. ap (λ x. ok (some x)) (entries-dumped d);
  fromisoformat-isoformat = λ t. refl;
}

-- A table of rows, the newest first.
abbrev inserted : List Argument → List Row → List Row
inserted
      (text_argument id
        ∷ text_argument tenant_id
        ∷ text_argument source
        ∷ text_argument content
        ∷ text_argument metadata
        ∷ text_argument created
        ∷ [])
      rows =
    record {
      id = id;
      tenant_id = tenant_id;
      source = source;
      content = content;
      metadata = json_column metadata;
      created_at = iso_text created;
    }
    ∷ rows
inserted _ rows = rows

abbrev selected : List Argument → List Row → List Row
selected (text_argument tenant_id ∷ []) rows = filter (λ r. r.tenant_id == tenant_id) rows
selected _ rows = []

abbrev table : Connection (List Row)
table = record {
  execute = λ sql args rows.
      if sql == insert_sql then (ok [], inserted args rows) else (ok (selected args rows), rows);
  commit = λ rows. (ok tt, rows);
}

abbrev red_shoes : Fact
red_shoes = record {
  id = lit "f1";
  tenant_id = lit "t1";
  source = lit "list.csv";
  content = lit "Red shoes";
  metadata = (lit "row", lit "1") ∷ [];
  created_at = 7;
}

abbrev row_of : Fact → Row
row_of f = record {
  id = f.id;
  tenant_id = f.tenant_id;
  source = f.source;
  content = f.content;
  metadata = json_column (dumped f.metadata);
  created_at = iso_text (f.created_at ∷ []);
}

row_of-IsStored : (f : Fact) → IsStored codec f (row_of f)
row_of-IsStored f = record {
  metadata_text = dumped f.metadata;
  date_text = f.created_at ∷ [];
  inserted = refl;
  metadata = inl refl;
  date = inl refl;
}

insert_run :
    table.execute insert_sql (insert_arguments codec red_shoes) [] ≡ (ok [], row_of red_shoes ∷ [])
unfolding ◌==◌
insert_run = refl

select_run :
    table.execute all_for_sql (text_argument (lit "t1") ∷ []) (row_of red_shoes ∷ [])
    ≡ (ok (row_of red_shoes ∷ []), row_of red_shoes ∷ [])
unfolding ◌==◌
select_run = refl

facts_of-insert_fact_example :
    (insert_fact codec table red_shoes >>= λ f. facts_of codec table f.tenant_id) []
    ≡ (ok (red_shoes ∷ []), row_of red_shoes ∷ [])
facts_of-insert_fact_example =
    facts_of-insert_fact codec table red_shoes [] (row_of red_shoes ∷ []) [] (row_of red_shoes ∷ [])
      (row_of red_shoes ∷ []) (row_of red_shoes ∷ []) insert_run refl select_run
      (row_of-IsStored red_shoes, tt)

-- A daemon that is stopped before its fifth round, with two jobs that wait; every job stores one fact.
abbrev job : Text → IngestionJob
job name = record {
  tenant_id = lit "t1";
  path = record { name = name; suffix = lit ".csv" };
  source_label = none;
}

abbrev store_one : Process
store_one path tenant_id label h =
    (ok (red_shoes ∷ []), record { facts = h.facts ++ red_shoes ∷ [] })

abbrev fifth : ℕ → Bool
fifth k = leb 4 k

abbrev two_jobs : IngestionQueue
two_jobs = record { jobs = job (lit "a.csv") ∷ job (lit "b.csv") ∷ []; unfinished = 2 }

fifth_stops : StopsAfter fifth 0 4
fifth_stops = (refl, (refl, (refl, (refl, refl))))

run_forever_stopped_example :
    run_rounds store_one fifth nothing_arrives 5 0 (two_jobs, record { facts = [] })
    ≡ as_stopped (drain store_one never (two_jobs, record { facts = [] }))
run_forever_stopped_example =
    run_forever_stopped store_one fifth 4 two_jobs (record { facts = [] }) fifth_stops
      (ground arith)

abbrev int_of : Text → Result ℤ
int_of s = ok (pos 0)

abbrev float_of : ℤ → Text
float_of n = lit "0.5"

abbrev wish : Text
wish = lit "quiero comprar hoy"

judge_goal-evaluate_goal_example :
    let answer =
      evaluate_goal ascii.repr
        (lit "g1")
        0
        (record { tenant_id = lit "t1"; goal_type = lit "qualify"; message = wish; params = done })
        facts
        (builtins ascii int_of) in
    let command =
      run_command ascii int_of float_of (lit "g1") 0 (judge_goal to_qualify wish (lit "t1")) [] in
    (g : Goal) × (r : GoalResult) × (answer ≡ ok (g, r))
    × ((is_empty (strip wish) ≡ true) × (command ≡ (ok 1, lit "error: message is required" ∷ []))
        ⊎ (is_empty (strip wish) ≡ false)
          × ((outcome : Text) × ((r.was_achieved ≡ bool true) × (outcome ≡ lit "ACHIEVED")
                ⊎ (r.was_achieved ≡ bool false) × (outcome ≡ lit "PENDING"))
              × (command ≡ (
                ok 0,
                (lit "goal: qualify -> " ++ outcome)
                    ∷ (lit "score: " ++ float_of r.score_hundredths)
                    ∷ (lit "data:  " ++ ascii.show (object (qualified ascii (strip wish)).data_of))
                    ∷ [],
              ))))
judge_goal-evaluate_goal_example =
    judge_goal-evaluate_goal ascii int_of float_of (lit "g1") 0 facts wish (lit "t1") done
