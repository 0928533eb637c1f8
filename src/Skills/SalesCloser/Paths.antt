-- ===== src/Skills/SalesCloser/Paths.antt =====
-- The ways through the stages, turn by turn.
use whatsapp_sales_saas_temp.Prelude.{
  All, List, Text, [], ap, arith, contains, false, inl, inr, is_ascii, lit, refl, some, sym, true,
  ℕ, ◌<◌, ◌==◌, ◌∙◌, ◌∷◌, ◌≡◌, ◌≤◌, ◌⊎◌,
}
use whatsapp_sales_saas_temp.Result.{ok}
use whatsapp_sales_saas_temp.Skills.{text_or}
use whatsapp_sales_saas_temp.Skills.Params.{text_or-str}
use whatsapp_sales_saas_temp.Skills.SalesCloser.{
  Stage, advanced, calls_human, close_sale, closed, confirm, escalated, identify, is_escalated,
  is_terminal, notify, objections, parse_stage, present, says, stage_name, transition,
}
use whatsapp_sales_saas_temp.Unicode.{IsAscii, Unicode}
use whatsapp_sales_saas_temp.Value.{Fields, done, field, find_field, str}

unfoldable pub proceed : Unicode → Stage → List Text → Stage
unfolding transition
proceed u s [] = s
proceed u s (m ∷ ms) = proceed u (transition u s m) ms

-- Where a stage stands between the first and the end.
abbrev pub rank : Stage → ℕ
rank identify = 0
rank present = 1
rank objections = 2
rank confirm = 3
rank notify = 4
rank closed = 5
rank escalated = 5

-- A message in which one of four words occurs.
abbrev pub HasPaidWord : Unicode → Text → Type 0
HasPaidWord u m =
    (contains (lit "pagado") (u.lower m) ≡ true)
    ⊎ (contains (lit "transferí") (u.lower m) ≡ true)
    ⊎ (contains (lit "ok") (u.lower m) ≡ true)
    ⊎ (contains (lit "listo") (u.lower m) ≡ true)

abbrev pub IsCallForHuman : Unicode → Text → Type 0
IsCallForHuman u m = says calls_human (u.lower m) ≡ true

rank-transition : (u : Unicode) (s : Stage) (m : Text) → rank s ≤ rank (transition u s m)
unfolding transition
rank-transition u identify m = omega arith
rank-transition u present m = ground arith
rank-transition u objections m = ground arith
rank-transition u confirm m = ground arith
rank-transition u notify m = omega arith
rank-transition u closed m = omega arith
rank-transition u escalated m = omega arith

-- Whatever the messages, a conversation never goes back to an earlier stage.
proceed-forward : (u : Unicode) (s : Stage) (ms : List Text) → rank s ≤ rank (proceed u s ms)
unfolding proceed
proceed-forward u s [] = omega arith
proceed-forward u s (m ∷ ms) =
    omega (arith, rank-transition u s m, proceed-forward u (transition u s m) ms)

-- One of the texts passes.
abbrev pub Some : (Text → Type 0) → List Text → Type 0
Some P [] = ⊥
Some P (m ∷ ms) = P m ⊎ Some P ms

abbrev IsOpen : Stage → Type 0
IsOpen s = rank s < 4

IsOpen-transition :
    (u : Unicode) (s : Stage) (m : Text)
    → IsOpen s
    → IsOpen (transition u s m) ⊎ (HasPaidWord u m ⊎ (transition u s m ≡ escalated))
unfolding transition
IsOpen-transition u identify m h = inl (omega arith)
IsOpen-transition u present m h = inl (ground arith)
IsOpen-transition u objections m h = ground arith
IsOpen-transition u confirm m h = ground arith
IsOpen-transition u notify m h = absurd (omega arith)
IsOpen-transition u closed m h = absurd (omega arith)
IsOpen-transition u escalated m h = absurd (omega arith)

proceed-terminal :
    (u : Unicode) (s : Stage) (ms : List Text) → is_terminal u s ≡ true → proceed u s ms ≡ s
unfolding proceed transition
proceed-terminal u s [] h = refl
proceed-terminal u closed (m ∷ ms) h = proceed-terminal u closed ms h
proceed-terminal u escalated (m ∷ ms) h = proceed-terminal u escalated ms h
proceed-terminal u identify (m ∷ ms) h = cc
proceed-terminal u present (m ∷ ms) h = cc
proceed-terminal u objections (m ∷ ms) h = cc
proceed-terminal u confirm (m ∷ ms) h = cc
proceed-terminal u notify (m ∷ ms) h = cc

-- A conversation that starts before NOTIFY and is CLOSED had a message whose lower-case text contains
-- "pagado", "transferí", "ok" or "listo".
pub proceed-paid :
    (u : Unicode) (s : Stage) (ms : List Text)
    → rank s < 4
    → proceed u s ms ≡ closed
    → Some (HasPaidWord u) ms
unfolding proceed
proceed-paid u s [] h e = absurd (let n : rank s ≡ 5 = ap rank e in omega arith)
proceed-paid u s (m ∷ ms) h e = elim (IsOpen-transition u s m h) [
  | inl still ↦ inr (proceed-paid u (transition u s m) ms still e)
  | inr (inl now) ↦ inl now
  | inr (inr left_open) ↦
      let stuck : proceed u (transition u s m) ms ≡ escalated =
        rw left_open (proceed-terminal u escalated ms refl) in
      cc
]

calm-transition :
    (u : Unicode) (s : Stage) (m : Text)
    → is_escalated u s ≡ false
    → (is_escalated u (transition u s m) ≡ false) ⊎ ((s ≡ objections) × IsCallForHuman u m)
unfolding transition
calm-transition u identify m h = inl refl
calm-transition u present m h = inl (ground arith)
calm-transition u objections m h = ground arith
calm-transition u confirm m h = inl (ground arith)
calm-transition u notify m h = inl refl
calm-transition u closed m h = inl refl
calm-transition u escalated m h = cc

-- A conversation that becomes ESCALATED had a message that asks for a human.
proceed-called :
    (u : Unicode) (s : Stage) (ms : List Text)
    → is_escalated u s ≡ false
    → proceed u s ms ≡ escalated
    → Some (IsCallForHuman u) ms
unfolding proceed
proceed-called u s [] h e = absurd (let n : false ≡ true = sym h ∙ ap (is_escalated u) e in cc)
proceed-called u s (m ∷ ms) h e = elim (calm-transition u s m h) [
  | inl still ↦ inr (proceed-called u (transition u s m) ms still e)
  | inr (here, now) ↦ inl now
]

abbrev pub turn_params : Stage → Text → Fields
turn_params s m =
    field (lit "current_stage") (str (stage_name s)) (field (lit "message") (str m) done)

IsAscii-of : (s : Text) → is_ascii s ≡ true → All IsAscii s
IsAscii-of [] h = tt
IsAscii-of (c ∷ s) h = ground (arith, IsAscii-of s)

upper_name : (u : Unicode) (s : Stage) → u.upper (stage_name s) ≡ stage_name s
upper_name u identify = u.upper_ascii (stage_name identify) (IsAscii-of (stage_name identify) refl)
upper_name u present = u.upper_ascii (stage_name present) (IsAscii-of (stage_name present) refl)
upper_name u objections =
    u.upper_ascii (stage_name objections) (IsAscii-of (stage_name objections) refl)
upper_name u confirm = u.upper_ascii (stage_name confirm) (IsAscii-of (stage_name confirm) refl)
upper_name u notify = u.upper_ascii (stage_name notify) (IsAscii-of (stage_name notify) refl)
upper_name u closed = u.upper_ascii (stage_name closed) (IsAscii-of (stage_name closed) refl)
upper_name u escalated =
    u.upper_ascii (stage_name escalated) (IsAscii-of (stage_name escalated) refl)

parse_stage-stage_name : (s : Stage) → parse_stage (stage_name s) ≡ some s
unfolding ◌==◌
parse_stage-stage_name identify = refl
parse_stage-stage_name present = refl
parse_stage-stage_name objections = refl
parse_stage-stage_name confirm = refl
parse_stage-stage_name notify = refl
parse_stage-stage_name closed = refl
parse_stage-stage_name escalated = refl

text_or-stage_name : (t d : Text) (s : Stage) → text_or t d (str (stage_name s)) ≡ ok (stage_name s)
unfolding text_or
text_or-stage_name t d identify = refl
text_or-stage_name t d present = refl
text_or-stage_name t d objections = refl
text_or-stage_name t d confirm = refl
text_or-stage_name t d notify = refl
text_or-stage_name t d closed = refl
text_or-stage_name t d escalated = refl

-- Whatever the context: the skill, asked with a stage's name and a message, reports the stage that
-- `_transition` gives, with its prompt and flags.
close_sale-transition :
    (u : Unicode) (context : Fields) (s : Stage) (m : Text)
    → close_sale u context (turn_params s m) ≡ ok (advanced u s (transition u s m))
unfolding close_sale find_field ◌==◌
close_sale-transition u context s m =
    rw
      (
        text_or-stage_name (lit "upper") (lit "IDENTIFY") s,
        upper_name u s,
        parse_stage-stage_name s,
        text_or-str (lit "lower") m,
      )
      refl
