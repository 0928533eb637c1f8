-- ===== src/Skills/LeadQualifier/Scores.antt =====
-- The numbers that a lead is given.
use whatsapp_sales_saas_temp.Prelude.{
  Bool-cases, Text, [], arith, false, if◌then◌else◌, inl, inr, is_empty, leb, lit, pos, refl, strip,
  true, ℕ, ◌<◌, ◌==◌, ◌∙◌, ◌∷◌, ◌≡◌, ◌≤◌, ◌⊎◌,
}
use whatsapp_sales_saas_temp.Result.{ok}
use whatsapp_sales_saas_temp.Skills.{skill_fail, skill_ok}
use whatsapp_sales_saas_temp.Skills.LeadQualifier.{
  budget, found, next_action, qualified, qualify, score, score_of, tag_of, urgency,
}
use whatsapp_sales_saas_temp.Skills.Params.{text_or-str}
use whatsapp_sales_saas_temp.Unicode.{Unicode}
use whatsapp_sales_saas_temp.Value.{Fields, bool, done, field, find_field, int, str}

-- The tag and the next action that belong to a score.
abbrev pub Band : ℕ → Text → Text → Type 0
Band n tag action =
    ((70 ≤ n) × (tag ≡ lit "hot") × (action ≡ lit "prioritize: assign sales-closer immediately"))
    ⊎ (((55 ≤ n)
          × (n < 70)
          × (tag ≡ lit "warm")
          × (action ≡ lit "nurture: send catalog and follow up"))
        ⊎ (((40 ≤ n)
              × (n < 55)
              × (tag ≡ lit "warm")
              × (action ≡ lit "monitor: no immediate action"))
            ⊎ ((n < 40) × (tag ≡ lit "cold") × (action ≡ lit "monitor: no immediate action"))))

abbrev Placed : ℕ → Unicode → Type 0
Placed n u = Band n (tag_of u n) (next_action u n (tag_of u n))

tag_of-Band : (u : Unicode) (n : ℕ) → Placed n u
unfolding tag_of next_action ◌==◌
tag_of-Band u n = elim (Bool-cases (leb 70 n)) [
  | inl a ↦ rw a (inl (ground arith, refl, refl))
  | inr a ↦ rw a (elim (Bool-cases (leb 55 n)) [
    | inl b ↦
        let c : leb 40 n ≡ true = ground arith in
        rw (b, c) (inr (inl (ground arith, ground arith, refl, refl)))
    | inr b ↦ rw b (elim (Bool-cases (leb 40 n)) [
      | inl c ↦ rw c (inr (inr (inl (ground arith, ground arith, refl, refl))))
      | inr c ↦ rw c (inr (inr (inr (ground arith, refl, refl))))
    ])
  ])
]

score-bound : (u : Unicode) (m : Text) → score u m ≤ 100
unfolding score score_of
score-bound u m = omega arith

pub qualify-eq :
    (u : Unicode) (context : Fields) (said : Text)
    → qualify u context (field (lit "message") (str said) done)
      ≡ ok (
          if is_empty (strip said)
          then skill_fail (lit "message is required")
          else qualified u (strip said))
unfolding qualify find_field ◌==◌
qualify-eq u context said = rw (text_or-str (lit "strip") said) refl

empty_or : (m : Text) → (m ≡ []) ⊎ (is_empty m ≡ false)
empty_or [] = inl refl
empty_or (c ∷ m) = inr refl

-- Whatever the message: the skill refuses it where it is blank, and otherwise reports its score, which
-- is at most 100, with the tag and the action of the band that the score is in.
pub qualify_bands :
    (u : Unicode) (context : Fields) (said : Text)
    → let m = strip said in
      let r = qualify u context (field (lit "message") (str said) done) in
      ((m ≡ []) × (r ≡ ok (skill_fail (lit "message is required"))))
      ⊎ ((score u m ≤ 100)
          × ((tag : Text) × (action : Text) × Band (score u m) tag action
              × (r
                  ≡ ok (
                      skill_ok (
                        field (lit "intent_score") (int (pos (score u m))) (
                          field (lit "tag") (str tag) (
                            field (lit "urgency_detected") (bool (found u urgency m)) (
                              field
                                (lit "budget_signal_detected")
                                (bool (found u budget m))
                                (field (lit "suggested_next_action") (str action) done)))))))))
qualify_bands u context said = elim (empty_or (strip said)) [
  | inl e ↦ inl (e, qualify-eq u context said ∙ rw e refl)
  | inr e ↦
      let n = score u (strip said) in
      inr (
        score-bound u (strip said),
        (
          tag_of u n,
          next_action u n (tag_of u n),
          tag_of-Band u n,
          qualify-eq u context said ∙ rw e refl,
        ),
      )
]
