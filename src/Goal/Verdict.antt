-- ===== src/Goal/Verdict.antt =====
-- What the `/goal` endpoint answers.
use whatsapp_sales_saas_temp.Dict.{insert, lookup}
use whatsapp_sales_saas_temp.Goal.{
  Goal, GoalResult, as_number, evaluate_goal, evidence, is_lead, judge, judge_qualify, judged,
  parse_goal, pending, set_field, to_qualify,
}
use whatsapp_sales_saas_temp.Hindsight.{Hindsight}
use whatsapp_sales_saas_temp.Prelude.{
  Text, [], arith, if◌then◌else◌, is_empty, leb, lit, pos, refl, strip, ℕ, ℤ, ◌&&◌, ◌==◌, ◌∷◌, ◌≡◌,
}
use whatsapp_sales_saas_temp.Result.{Result, ok}
use whatsapp_sales_saas_temp.Skills.{skill_fail}
use whatsapp_sales_saas_temp.Skills.LeadQualifier.{qualified, score, tag_of}
use whatsapp_sales_saas_temp.Skills.LeadQualifier.Scores.{qualify-eq}
use whatsapp_sales_saas_temp.Skills.Registry.{builtins, find_skill, invoke, register}
use whatsapp_sales_saas_temp.Unicode.{Unicode}
use whatsapp_sales_saas_temp.Value.{Fields, bool, done, field, find_field, int, is_text, str}

tag_of-lead : (u : Unicode) (n : ℕ) → (leb 40 n && is_lead (str (tag_of u n))) ≡ leb 40 n
unfolding tag_of is_text ◌==◌
tag_of-lead u n = ground arith

-- The judge's result on a "qualify" goal, for a score.
abbrev pub verdict : Unicode → Goal → ℕ → GoalResult
verdict u g n = judged g (bool (leb 40 n)) (pos n) (
    field (lit "intent_score") (int (pos n))
      (field (lit "tag") (str (tag_of u n)) (field (lit "threshold") (int (pos 40)) done)))

judge_blank :
    (u : Unicode) (g : Goal) (e : Text)
    → judge_qualify g (evidence (skill_fail e)) ≡ ok (verdict u g 0)
unfolding judge_qualify find_field ◌==◌ tag_of is_text as_number
judge_blank u g e = refl

pub judge_lead :
    (u : Unicode) (g : Goal) (m : Text)
    → judge_qualify g (evidence (qualified u m)) ≡ ok (verdict u g (score u m))
unfolding judge_qualify find_field ◌==◌ as_number
judge_lead u g m = rw (tag_of-lead u (score u m)) refl

-- The score of a message, and 0 where it is blank.
abbrev pub points : Unicode → Text → ℕ
points u said = if is_empty (strip said) then 0 else score u (strip said)

judge_said :
    (u : Unicode) (g : Goal) (m : Text)
    → judge_qualify g
        (evidence (if is_empty m then skill_fail (lit "message is required") else qualified u m))
      ≡ ok (verdict u g (if is_empty m then 0 else score u m))
judge_said u g [] = judge_blank u g (lit "message is required")
judge_said u g (c ∷ m) = judge_lead u g (c ∷ m)

-- Whatever the tenant, the message, the parameters and the facts, with the built-in skills: a
-- "qualify" goal is judged by the points of its message alone, which are its score, or 0 where it is
-- blank. It is achieved just from 40 points on.
pub evaluate_goal-qualify :
    (u : Unicode) (int_of_text : Text → Result ℤ) (id : Text) (now : ℕ) (h : Hindsight)
    (tenant_id said : Text) (ps : Fields)
    → let g : Goal = record {
      goal_id = id;
      tenant_id = tenant_id;
      goal_type = to_qualify;
      status = pending;
      params = set_field (lit "message") (str said) ps;
      created_at = now;
    } in
      evaluate_goal u.repr id now
        (record { tenant_id = tenant_id; goal_type = lit "qualify"; message = said; params = ps })
        h
        (builtins u int_of_text)
      ≡ ok (g, verdict u g (points u said))
unfolding evaluate_goal parse_goal invoke find_skill judge register lookup insert ◌==◌
evaluate_goal-qualify u int_of_text id now h tenant_id said ps =
    rw (qualify-eq u done said) (rw (judge_said u _ (strip said)) refl)
