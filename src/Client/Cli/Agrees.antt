-- ===== src/Client/Cli/Agrees.antt =====
-- The command line beside the endpoint.
use whatsapp_sales_saas_temp.Client.Cli.{
  goal_lines, judge_found, judge_goal, print_all, run_command,
}
use whatsapp_sales_saas_temp.Goal.{
  Goal, GoalResult, evaluate_goal, judge, pending, set_field, to_qualify,
}
use whatsapp_sales_saas_temp.Goal.Verdict.{evaluate_goal-qualify, judge_lead, points, verdict}
use whatsapp_sales_saas_temp.Hindsight.{Hindsight}
use whatsapp_sales_saas_temp.Prelude.{
  Bool, Bool-cases, Text, [], false, if◌then◌else◌, inl, inr, is_empty, leb, lit, refl, strip, true,
  ℕ, ℤ, ◌++◌, ◌∷◌, ◌≡◌, ◌⊎◌,
}
use whatsapp_sales_saas_temp.Result.{Result, ok}
use whatsapp_sales_saas_temp.Skills.{skill_fail}
use whatsapp_sales_saas_temp.Skills.LeadQualifier.{qualified, score}
use whatsapp_sales_saas_temp.Skills.LeadQualifier.Scores.{qualify-eq}
use whatsapp_sales_saas_temp.Skills.Registry.{builtins}
use whatsapp_sales_saas_temp.Unicode.{Unicode}
use whatsapp_sales_saas_temp.Value.{Fields, Value, bool, done, object, str, to_text, truth}

judge_found-fail :
    (u : Unicode) (int_of_text : Text → Result ℤ) (float_text : ℤ → Text) (g : Goal) (e : Text)
    → judge_found u int_of_text float_text g (skill_fail e) [] ≡ (ok 1, (lit "error: " ++ e) ∷ [])
unfolding to_text
judge_found-fail u int_of_text float_text g e = refl

-- A message with a lead, and a goal of type "qualify".
judge_found-lead :
    (u : Unicode) (int_of_text : Text → Result ℤ) (float_text : ℤ → Text) (g : Goal) (m : Text)
    → g.goal_type ≡ to_qualify
    → judge_found u int_of_text float_text g (qualified u m) [] ≡ (
      ok 0,
      goal_lines u int_of_text float_text g (verdict u g (score u m)) (qualified u m).data_of,
    )
unfolding judge print_all
judge_found-lead u int_of_text float_text g m q = rw q (rw (judge_lead u g m) refl)

-- What the command prints of an outcome.
outcome_of :
    (b : Bool)
    → let printed = if truth (bool b) then lit "ACHIEVED" else lit "PENDING" in
      (◌≡◌ {A = Value} (bool b) (bool true)) × (printed ≡ lit "ACHIEVED")
      ⊎ (◌≡◌ {A = Value} (bool b) (bool false)) × (printed ≡ lit "PENDING")
unfolding truth
outcome_of true = inl (refl, refl)
outcome_of false = inr (refl, refl)

-- For the same message and tenant, with the built-in skills and whatever facts and parameters the endpoint
-- has besides: on a "qualify" goal and a message that is not blank, the command prints the endpoint's
-- judgement, ACHIEVED where it was achieved and PENDING where it was not, with the same score
-- and the data of the lead, and returns 0; on a blank one,
-- which the endpoint judges all the same, it prints the skill's error and returns 1.
pub judge_goal-evaluate_goal :
    (u : Unicode) (int_of_text : Text → Result ℤ) (float_text : ℤ → Text) (id : Text) (now : ℕ)
    (h : Hindsight) (said tenant_id : Text) (ps : Fields)
    → let answer =
        evaluate_goal u.repr id now
          (record { tenant_id = tenant_id; goal_type = lit "qualify"; message = said; params = ps })
          h
          (builtins u int_of_text) in
      let command =
        run_command u int_of_text float_text id now (judge_goal to_qualify said tenant_id) [] in
      (g : Goal) × (r : GoalResult) × (answer ≡ ok (g, r))
      × ((is_empty (strip said) ≡ true) × (command ≡ (ok 1, lit "error: message is required" ∷ []))
          ⊎ (is_empty (strip said) ≡ false)
            × ((outcome : Text) × ((r.was_achieved ≡ bool true) × (outcome ≡ lit "ACHIEVED")
                  ⊎ (r.was_achieved ≡ bool false) × (outcome ≡ lit "PENDING"))
                × (command ≡ (
                  ok 0,
                  (lit "goal: qualify -> " ++ outcome)
                      ∷ (lit "score: " ++ float_text r.score_hundredths)
                      ∷ (lit "data:  " ++ u.show (object (qualified u (strip said)).data_of))
                      ∷ [],
                ))))
unfolding run_command
judge_goal-evaluate_goal u int_of_text float_text id now h said tenant_id ps =
    let g : Goal = record {
      goal_id = id;
      tenant_id = tenant_id;
      goal_type = to_qualify;
      status = pending;
      params = set_field (lit "message") (str said) ps;
      created_at = now;
    } in
    (
      g,
      verdict u g (points u said),
      evaluate_goal-qualify u int_of_text id now h tenant_id said ps,
      elim (Bool-cases (is_empty (strip said))) [
        | inl blank ↦ inl (
          blank,
          rw (qualify-eq u done said)
              (rw blank (judge_found-fail u int_of_text float_text g (lit "message is required"))),
        )
        | inr full ↦ inr (
          full,
          (
            (if truth (bool (leb 40 (points u said))) then lit "ACHIEVED" else lit "PENDING"),
            outcome_of (leb 40 (points u said)),
            rw (qualify-eq u done said)
                (rw full (judge_found-lead u int_of_text float_text _ (strip said) refl)),
          ),
        )
      ],
    )
