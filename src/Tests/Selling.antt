-- ===== src/Tests/Selling.antt =====
-- The skills and the goals.
use whatsapp_sales_saas_temp.Goal.{Goal, evaluate_goal, pending, set_field, to_qualify}
use whatsapp_sales_saas_temp.Goal.Verdict.{evaluate_goal-qualify, points, verdict}
use whatsapp_sales_saas_temp.Prelude.{
  All, List, Text, [], arith, contains, lit, pos, refl, starts_with, strip, ℤ, ◌∷◌, ◌≡◌, ◌≤◌, ◌⊎◌,
}
use whatsapp_sales_saas_temp.Result.{Result, err, ok, value_error}
use whatsapp_sales_saas_temp.Skills.{Skill, skill_fail, skill_ok}
use whatsapp_sales_saas_temp.Skills.LeadQualifier.{budget, found, qualify, score, urgency}
use whatsapp_sales_saas_temp.Skills.LeadQualifier.Scores.{Band, qualify_bands}
use whatsapp_sales_saas_temp.Skills.Registry.{builtins}
use whatsapp_sales_saas_temp.Skills.SalesCloser.{
  closed, escalated, identify, objections, transition,
}
use whatsapp_sales_saas_temp.Skills.SalesCloser.Closing.{IsGoAhead, proceed-closed}
use whatsapp_sales_saas_temp.Skills.SalesCloser.Paths.{HasPaidWord, Some, proceed, proceed-paid}
use whatsapp_sales_saas_temp.Tests.Shop.{facts}
use whatsapp_sales_saas_temp.Unicode.{ascii}
use whatsapp_sales_saas_temp.Value.{bool, done, field, int, str}

abbrev chat : List Text
chat = lit "hola" ∷ lit "dale" ∷ lit "listo" ∷ lit "gracias" ∷ []

closes : proceed ascii identify chat ≡ closed
unfolding proceed transition contains starts_with
closes = refl

proceed-paid_example : Some (HasPaidWord ascii) chat
proceed-paid_example = proceed-paid ascii identify chat (omega arith) closes

abbrev plea : List Text
plea = lit "hola" ∷ lit "caro" ∷ lit "quiero un humano" ∷ []

escalates : proceed ascii identify plea ≡ escalated
unfolding proceed transition contains starts_with
escalates = refl

abbrev willing : List Text
willing = lit "ok" ∷ lit "Ok, dame dos" ∷ lit "ok listo" ∷ []

ready_to_buy : All (IsGoAhead ascii) willing
unfolding contains starts_with
ready_to_buy = ((refl, refl, refl), ((refl, refl, refl), ((refl, refl, refl), tt)))

proceed-closed_example : proceed ascii objections willing ≡ closed
proceed-closed_example =
    proceed-closed ascii objections willing (λ e. cc) ready_to_buy (omega arith)

abbrev not_an_int : Text → Result ℤ
not_an_int s = err (value_error s)

abbrev urgent_message : Text
urgent_message = lit " quiero comprar hoy "

qualify_bands_example :
    ((strip urgent_message ≡ [])
      × (qualify ascii done (field (lit "message") (str urgent_message) done)
          ≡ ok (skill_fail (lit "message is required"))))
    ⊎ ((score ascii (strip urgent_message) ≤ 100)
        × ((tag : Text) × (action : Text) × Band (score ascii (strip urgent_message)) tag action
            × (qualify ascii done (field (lit "message") (str urgent_message) done)
                ≡ ok (
                    skill_ok (
                      field (lit "intent_score") (int (pos (score ascii (strip urgent_message)))) (
                        field (lit "tag") (str tag) (
                          field
                            (lit "urgency_detected")
                            (bool (found ascii urgency (strip urgent_message)))
                            (field
                              (lit "budget_signal_detected")
                              (bool (found ascii budget (strip urgent_message)))
                              (field (lit "suggested_next_action") (str action) done)))))))))
qualify_bands_example = qualify_bands ascii done urgent_message

abbrev urgent_goal : Goal
urgent_goal = record {
  goal_id = lit "g1";
  tenant_id = lit "t1";
  goal_type = to_qualify;
  status = pending;
  params = field (lit "message") (str urgent_message) done;
  created_at = 7;
}

evaluate_goal-qualify_example :
    evaluate_goal ascii.repr
      (lit "g1")
      7
      (record {
        tenant_id = lit "t1";
        goal_type = lit "qualify";
        message = urgent_message;
        params = done;
      })
      facts
      (builtins ascii not_an_int)
    ≡ ok (urgent_goal, verdict ascii urgent_goal (points ascii urgent_message))
unfolding set_field
evaluate_goal-qualify_example =
    evaluate_goal-qualify ascii not_an_int (lit "g1") 7 facts (lit "t1") urgent_message done

abbrev mute : Skill
mute = record { name = lit "mute"; execute = λ h context params. ok (skill_fail []) }
