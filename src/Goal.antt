-- ===== src/Goal.antt =====
-- src/sample/goal.py, and `evaluate_goal` of services/api/main.py.
-- Scores, floats in the source, are kept as hundredths. `achieved` may be any value: `and` returns its
-- operand.
pub mod Verdict
use whatsapp_sales_saas_temp.Hindsight.{Hindsight}
use whatsapp_sales_saas_temp.Prelude.{
  Bool, Text, [], false, find, if◌then◌else◌, leb, length, lit, ltb, negsuc, none, pos, some, true,
  ℕ, ℤ, ◌&&◌, ◌++◌, ◌==◌, ◌||◌, ◌∷◌,
}
use whatsapp_sales_saas_temp.Result.{
  Result, err, map_ok, message, ok, type_error, value_error, ◌>>=◌,
}
use whatsapp_sales_saas_temp.Skills.{SkillResult}
use whatsapp_sales_saas_temp.Skills.LeadQualifier.{found}
use whatsapp_sales_saas_temp.Skills.Registry.{Registry, invoke}
use whatsapp_sales_saas_temp.Skills.SalesCloser.{paid}
use whatsapp_sales_saas_temp.Value.{
  Fields, Value, array, bool, done, elements, field, field_names, find_field, int, is_text, nil,
  object, or_else, str, truth,
}

pub data GoalType : Type 0 where
  to_qualify to_sell to_lookup to_follow_up : GoalType

pub data GoalStatus : Type 0 where
  pending active achieved failed : GoalStatus

pub record Goal : Type 0 where
  pub goal_id : Text
  pub tenant_id : Text
  pub goal_type : GoalType
  pub status : GoalStatus
  pub params : Fields
  pub created_at : ℕ

pub record GoalResult : Type 0 where
  pub goal_id : Text
  pub was_achieved : Value
  pub score_hundredths : ℤ
  pub diagnostics : Fields

abbrev pub goal_name : GoalType → Text
goal_name to_qualify = lit "qualify"
goal_name to_sell = lit "sell"
goal_name to_lookup = lit "lookup"
goal_name to_follow_up = lit "follow_up"

abbrev pub status_name : GoalStatus → Text
status_name pending = lit "PENDING"
status_name active = lit "ACTIVE"
status_name achieved = lit "ACHIEVED"
status_name failed = lit "FAILED"

-- `Goal.to_dict`
unfoldable pub goal_dict : (ℕ → Text) → Goal → Fields
goal_dict isoformat g = field (lit "goal_id") (str g.goal_id) (
    field (lit "tenant_id") (str g.tenant_id) (
      field (lit "goal_type") (str (goal_name g.goal_type)) (
        field (lit "status") (str (status_name g.status)) (
          field (lit "params") (object g.params)
            (field (lit "created_at") (str (isoformat g.created_at)) done)))))

-- `GoalType(raw)`; the error prints the `repr`.
unfoldable pub parse_goal : (Text → Text) → Text → Result GoalType
parse_goal repr raw =
    elim (find (λ g. goal_name g == raw) (to_qualify ∷ to_sell ∷ to_lookup ∷ to_follow_up ∷ [])) [
      | none ↦ err (value_error (repr raw ++ lit " is not a valid GoalType"))
      | some g ↦ ok g
    ]

abbrev pub judged : Goal → Value → ℤ → Fields → GoalResult
judged g met points notes = record {
  goal_id = g.goal_id;
  was_achieved = met;
  score_hundredths = points;
  diagnostics = notes;
}

-- the number that `>=` and `/` read; a bool is 0 or 1
unfoldable pub as_number : Value → Result ℤ
as_number (int n) = ok n
as_number (bool true) = ok (pos 1)
as_number (bool false) = ok (pos 0)
as_number v = err (type_error (lit "not a number"))

abbrev pub at_least_40 : ℤ → Bool
at_least_40 (pos n) = leb 40 n
at_least_40 (negsuc n) = false

abbrev pub is_lead : Value → Bool
is_lead tag = is_text (lit "warm") tag || is_text (lit "hot") tag

unfoldable pub judge_qualify : Goal → Fields → Result GoalResult
unfolding as_number
judge_qualify g context =
    let points = or_else (int (pos 0)) (find_field (lit "intent_score") context) in
    let tag = or_else (str (lit "cold")) (find_field (lit "tag") context) in
    map_ok
      (λ n. judged g (bool (at_least_40 n && is_lead tag)) n (
        field (lit "intent_score") points
          (field (lit "tag") tag (field (lit "threshold") (int (pos 40)) done))))
      (as_number points)

abbrev pub all_or_nothing : Value → ℤ
all_or_nothing met = if truth met then pos 100 else pos 0

unfoldable pub judge_sell : Goal → Fields → GoalResult
judge_sell g context =
    let stage = or_else (str (lit "IDENTIFY")) (find_field (lit "stage") context) in
    let paid = or_else (bool false) (find_field (lit "payment_confirmed") context) in
    let met = if is_text (lit "CLOSED") stage then paid else bool false in
    judged g met (all_or_nothing met)
      (field (lit "stage") stage (field (lit "payment_confirmed") paid done))

-- `len(v)`
unfoldable pub size_of : Value → Result ℕ
size_of (str s) = ok (length s)
size_of (array vs) = ok (length (elements vs))
size_of (object fs) = ok (length (field_names fs))
size_of v = err (type_error (lit "object has no len()"))

unfoldable pub judge_lookup : Goal → Fields → Result GoalResult
unfolding size_of
judge_lookup g context =
    map_ok
      (λ n. judged g (bool (ltb 0 n)) (all_or_nothing (bool (ltb 0 n))) (
        field (lit "matches_found") (int (pos n))
          (field (lit "query") (or_else (str []) (find_field (lit "query") g.params)) done)))
      (size_of (or_else (array nil) (find_field (lit "matches") context)))

abbrev pub judge_as : GoalType → Goal → Fields → Result GoalResult
judge_as to_qualify g context = judge_qualify g context
judge_as to_sell g context = ok (judge_sell g context)
judge_as to_lookup g context = judge_lookup g context
judge_as to_follow_up g context =
    ok (judged g (bool false) (pos 0) (field (lit "error") (str (lit "unknown goal type")) done))

unfoldable pub judge : Goal → Fields → Result GoalResult
unfolding judge_qualify judge_sell judge_lookup
judge g context = judge_as g.goal_type g context

-- `d | {key: value}`
unfoldable pub set_field : Text → Value → Fields → Fields
set_field k v done = field k v done
set_field k v (field j w fs) = if j == k then field j v fs else field j w (set_field k v fs)

pub record GoalRequest : Type 0 where
  pub tenant_id : Text
  pub goal_type : Text
  pub message : Text
  pub params : Fields

-- What the judge is shown of the lead qualifier's result.
abbrev pub evidence : SkillResult → Fields
evidence r =
    if r.success
    then r.data_of
    else field (lit "intent_score") (int (pos 0)) (field (lit "tag") (str (lit "cold")) done)

-- `GoalResult.to_dict`; `fraction` is how the float of some hundredths stands in a dict.
abbrev pub result_dict : (ℤ → Value) → GoalResult → Fields
result_dict fraction r = field (lit "goal_id") (str r.goal_id) (
    field (lit "achieved") r.was_achieved (
      field (lit "score") (fraction r.score_hundredths)
        (field (lit "diagnostics") (object r.diagnostics) done)))

-- The body of the answer of `evaluate_goal`.
abbrev pub goal_answer : (ℤ → Value) → Goal × GoalResult → Fields
goal_answer fraction (g, r) = field (lit "goal_id") (str g.goal_id) (
    field (lit "goal_type") (str (goal_name g.goal_type)) (
      field (lit "achieved") r.was_achieved (
        field (lit "score") (fraction r.score_hundredths)
          (field (lit "diagnostics") (object r.diagnostics) done))))

-- `id` and `now` are what `uuid4` and the clock give to the goal; the answer is made of the result by
-- `goal_answer`.
unfoldable pub evaluate_goal :
    (Text → Text) → Text → ℕ → GoalRequest → Hindsight → Registry → Result (Goal × GoalResult)
unfolding judge
evaluate_goal repr id now req h skills = do
  kind ← parse_goal repr req.goal_type
  let goal : Goal = record {
    goal_id = id;
    tenant_id = req.tenant_id;
    goal_type = kind;
    status = pending;
    params = set_field (lit "message") (str req.message) req.params;
    created_at = now;
  }
  found ← invoke (lit "lead-qualifier") done (field (lit "message") (str req.message) done) h skills
  result ← judge goal (evidence found)
  ok (goal, result)
