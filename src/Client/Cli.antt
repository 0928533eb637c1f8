-- ===== src/Client/Cli.antt =====
-- src/sample/cli.py. What argparse reads is an argument, `Command`; a `goal`'s type is one of the choices.
-- `float_text` is what `str` prints of a number of hundredths.
pub mod Agrees
use whatsapp_sales_saas_temp.Client.{error_value, invoke_skill, no_tenants}
use whatsapp_sales_saas_temp.Exec.{Exec, lift, pure, ◌>>=◌, ◌>>◌}
use whatsapp_sales_saas_temp.Goal.{Goal, GoalResult, GoalType, goal_name, judge, judged, pending}
use whatsapp_sales_saas_temp.Memory.{line}
use whatsapp_sales_saas_temp.Onboarding.{render_soul}
use whatsapp_sales_saas_temp.Prelude.{
  List, Option, Text, [], if◌then◌else◌, lit, none, not, some, ℕ, ℤ, ◌++◌, ◌∷◌,
}
use whatsapp_sales_saas_temp.Result.{Result, message, ok}
use whatsapp_sales_saas_temp.Skills.{SkillResult}
use whatsapp_sales_saas_temp.Skills.LeadQualifier.{found, qualify}
use whatsapp_sales_saas_temp.Skills.Registry.{builtins, list_skills}
use whatsapp_sales_saas_temp.Tenant.Manager.{create}
use whatsapp_sales_saas_temp.Tenant.Repository.{Repository}
use whatsapp_sales_saas_temp.Unicode.{Unicode}
use whatsapp_sales_saas_temp.Value.{Fields, done, field, object, str, to_text, truth}

pub data SkillsAction : Type 0 where
  list_action invoke_action : SkillsAction

pub data Command : Type 0 where
  tenant_create : Text → Text → Option Text → Command
  show_soul : Text → Text → Command
  about_skills : Option SkillsAction → Option Text → Option Text → Command
  judge_goal : GoalType → Text → Text → Command

-- `print`
abbrev pub print : Text → Exec (List Text) Unit
print line printed = (ok tt, printed ++ line ∷ [])

unfoldable pub print_all : List Text → Exec (List Text) Unit
print_all [] = pure tt
print_all (line ∷ lines) = do print line; print_all lines

-- `s or ""`
abbrev pub or_blank : Option Text → Text
or_blank none = []
or_blank (some s) = s

-- A method of the new client's stores, which are dropped afterwards.
abbrev pub on_new_client : {A : Type 0} → Exec Repository A → Exec (List Text) A
on_new_client m = lift (m no_tenants).0

module _ (u : Unicode) (int_of_text : Text → Result ℤ) (float_text : ℤ → Text) where
  -- `client.invoke_skill(args.skill, …)`, where there is a skill
  abbrev pub run_skill : Text → Option Text → Exec (List Text) ℕ
  run_skill [] message = do print (lit "error: --skill required for invoke"); pure 1
  run_skill (c ∷ name) message = do
    result ← lift (
        invoke_skill (c ∷ name) done (field (lit "message") (str (or_blank message)) done)
          (record { facts = [] }) (builtins u int_of_text))
    print (u.show (object result))
    pure 0

  abbrev pub goal_lines : Goal → GoalResult → Fields → List Text
  goal_lines g result found =
      (lit "goal: "
        ++ (goal_name g.goal_type
            ++ (lit " -> "
                ++ (if truth result.was_achieved then lit "ACHIEVED" else lit "PENDING"))))
      ∷ (lit "score: " ++ float_text result.score_hundredths)
      ∷ (lit "data:  " ++ u.show (object found))
      ∷ []

  -- The command `goal`, once the skill has answered.
  abbrev pub judge_found : Goal → SkillResult → Exec (List Text) ℕ
  judge_found g result =
      if not result.success
      then (do print (lit "error: " ++ to_text u.show (error_value result.error)); pure 1)
      else (do
        judged ← lift (judge g result.data_of)
        print_all (goal_lines g judged result.data_of)
        pure 0)

  -- `id` and `now` are what `uuid4` and the clock give to the tenant or the goal.
  unfoldable pub run_command : Text → ℕ → Command → Exec (List Text) ℕ
  run_command id now (tenant_create name slug model) = do
    tenant ← on_new_client (create u id now name slug model)
    print (lit "created tenant " ++ (tenant.id ++ (lit " (" ++ (tenant.slug ++ lit ")"))))
    pure 0
  run_command id now (show_soul name slug) = do
    soul ← on_new_client (create u id now name slug none >>= λ tenant. render_soul tenant.id none)
    print soul
    pure 0
  run_command id now (about_skills none skill message) = do
    print_all (list_skills (builtins u int_of_text))
    pure 0
  run_command id now (about_skills (some list_action) skill message) = do
    print_all (list_skills (builtins u int_of_text))
    pure 0
  run_command id now (about_skills (some invoke_action) skill message) =
      run_skill (or_blank skill) message
  run_command id now (judge_goal goal_type message tenant) = do
    result ← lift (qualify u done (field (lit "message") (str message) done))
    judge_found
        (record {
          goal_id = id;
          tenant_id = tenant;
          goal_type = goal_type;
          status = pending;
          params = field (lit "message") (str message) done;
          created_at = now;
        })
        result
