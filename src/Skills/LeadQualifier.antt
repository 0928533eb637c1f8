-- ===== src/Skills/LeadQualifier.antt =====
-- src/sample/skills/lead_qualifier.py. A pattern `\b(a|b|…)\b` is the list of its alternatives, and
-- an alternative is a list of character classes, one for each character that it matches.
pub mod Scores
use Prim.Native.Nat.{min}
use whatsapp_sales_saas_temp.Prelude.{
  Bool, List, Option, Text, [], any, false, find, if◌then◌else◌, is_empty, leb, length, lit, ltb,
  map, none, not, pos, some, strip, suc, zero, ℕ, ◌&&◌, ◌*◌, ◌++◌, ◌+◌, ◌-◌, ◌==◌, ◌∷◌,
}
use whatsapp_sales_saas_temp.Result.{Result, map_ok, message}
use whatsapp_sales_saas_temp.Skills.{Skill, SkillResult, param, skill_fail, skill_ok, text_or}
use whatsapp_sales_saas_temp.Unicode.{Unicode}
use whatsapp_sales_saas_temp.Value.{Fields, bool, done, field, int, str}

abbrev pub Pattern : Type 0
Pattern = List (List ℕ)

-- A word without classes.
abbrev pub word : Text → Pattern
word s = map (λ c. c ∷ []) s

abbrev pub letters : Text → Pattern
letters s = s ∷ []

abbrev pub high_intent : List Pattern
high_intent =
    word (lit "comprar")
    ∷ word (lit "quiero")
    ∷ word (lit "necesito")
    ∷ word (lit "precio")
    ∷ (word (lit "cu") ++ (letters (lit "ée") ++ word (lit "nto")))
    ∷ word (lit "costo")
    ∷ (word (lit "envi") ++ (letters (lit "áa") ++ word (lit "r")))
    ∷ word (lit "ordenar")
    ∷ word (lit "pedir")
    ∷ word (lit "pago")
    ∷ word (lit "transferencia")
    ∷ word (lit "urgente")
    ∷ word (lit "hoy")
    ∷ []

abbrev pub low_intent : List Pattern
low_intent =
    word (lit "solo")
    ∷ word (lit "curiosidad")
    ∷ word (lit "viendo")
    ∷ (word (lit "despu") ++ (letters (lit "eé") ++ word (lit "s")))
    ∷ word (lit "luego")
    ∷ word (lit "tal vez")
    ∷ (word (lit "quiz") ++ letters (lit "áa"))
    ∷ []

abbrev pub urgency : List Pattern
urgency =
    word (lit "urgente")
    ∷ word (lit "hoy")
    ∷ word (lit "ahora")
    ∷ word (lit "inmediato")
    ∷ word (lit "ya")
    ∷ (word (lit "ma") ++ (letters (lit "ñn") ++ word (lit "ana")))
    ∷ word (lit "lo antes posible")
    ∷ []

abbrev pub budget : List Pattern
budget =
    word (lit "presupuesto")
    ∷ (word (lit "l") ++ (letters (lit "mm") ++ word (lit "ite")))
    ∷ (word (lit "m") ++ (letters (lit "aá") ++ word (lit "ximo")))
    ∷ (word (lit "no m") ++ (letters (lit "aá") ++ word (lit "s de")))
    ∷ word (lit "caro")
    ∷ word (lit "barato")
    ∷ word (lit "cuesta")
    ∷ word (lit "cuesta")
    ∷ []

module _ (u : Unicode) where
  abbrev pub is_wordy : Option ℕ → Bool
  is_wordy none = false
  is_wordy (some c) = u.is_word c

  abbrev pub head : Text → Option ℕ
  head [] = none
  head (c ∷ s) = some c

  -- `\b` between two characters, or at an end of the text
  abbrev pub is_boundary : Option ℕ → Option ℕ → Bool
  is_boundary a b = if is_wordy a then not (is_wordy b) else is_wordy b

  -- One alternative from here on, and the boundary behind it.
  unfoldable pub matches : Option ℕ → Pattern → Text → Bool
  matches prev [] s = is_boundary prev (head s)
  matches prev (cs ∷ p) [] = false
  matches prev (cs ∷ p) (c ∷ s) = any (λ d. u.same_letter d c) cs && matches (some c) p s

  -- The length of the first alternative that matches here.
  unfoldable pub first_match : Option ℕ → List Pattern → Text → Option ℕ
  unfolding matches
  first_match prev ps s =
      if is_boundary prev (head s)
      then elim (find (λ p. matches prev p s) ps) [ none ↦ none | some p ↦ some (length p) ]
      else none

  -- `len(pattern.findall(s))`: the scan goes on behind a match, so `skip` characters are passed over.
  unfoldable pub count_from : List Pattern → Option ℕ → ℕ → Text → ℕ
  unfolding first_match
  count_from ps prev skip [] = 0
  count_from ps prev (suc skip) (c ∷ s) = count_from ps (some c) skip s
  count_from ps prev zero (c ∷ s) = elim (first_match prev ps (c ∷ s)) [
    | none ↦ count_from ps (some c) 0 s
    | some n ↦ 1 + count_from ps (some c) (n - 1) s
  ]

  abbrev pub findall : List Pattern → Text → ℕ
  findall ps s = count_from ps none 0 s

  -- `bool(pattern.search(s))`
  abbrev pub found : List Pattern → Text → Bool
  found ps s = ltb 0 (findall ps s)

  -- `max(0, min(100, score))` of the sum; the subtraction on ℕ stops at 0 as `max` does.
  unfoldable pub score_of : ℕ → ℕ → ℕ → ℕ → ℕ
  score_of high low urgent money = min 100 (50 + high * 10 + urgent * 15 + money * 5 - low * 8)

  unfoldable pub score : Text → ℕ
  unfolding score_of
  score message =
      let m = u.lower message in
      score_of (findall high_intent m) (findall low_intent m) (findall urgency m) (findall budget m)

  unfoldable pub tag_of : ℕ → Text
  tag_of n = if leb 70 n then lit "hot" else if leb 40 n then lit "warm" else lit "cold"

  unfoldable pub next_action : ℕ → Text → Text
  next_action n tag =
      if tag == lit "hot"
      then lit "prioritize: assign sales-closer immediately"
      else if tag == lit "warm" && leb 55 n
      then lit "nurture: send catalog and follow up"
      else lit "monitor: no immediate action"

  abbrev pub qualified : Text → SkillResult
  qualified message =
      let n = score message in
      skill_ok (
        field (lit "intent_score") (int (pos n)) (
          field (lit "tag") (str (tag_of n)) (
            field (lit "urgency_detected") (bool (found urgency message)) (
              field (lit "budget_signal_detected") (bool (found budget message))
                (field (lit "suggested_next_action") (str (next_action n (tag_of n))) done)))))

  unfoldable pub qualify : Fields → Fields → Result SkillResult
  qualify context params =
      map_ok
        (λ raw.
          let message = strip raw in
          if is_empty message then skill_fail (lit "message is required") else qualified message)
        (text_or (lit "strip") [] (param (lit "message") params))

  abbrev pub lead_qualifier : Skill
  lead_qualifier = record { name = lit "lead-qualifier"; execute = λ h. qualify }
