-- ===== src/Skills/SalesCloser/Closing.antt =====
-- A willing buyer's way to the end.
use whatsapp_sales_saas_temp.Prelude.{
  All, List, Text, [], arith, contains, false, length, lit, refl, true, ℕ, ◌-◌, ◌∷◌, ◌≡◌, ◌≢◌, ◌≤◌,
}
use whatsapp_sales_saas_temp.Skills.SalesCloser.{
  Stage, agrees, calls_human, closed, confirm, doubts, escalated, identify, notify, objections,
  paid, present, says, transition,
}
use whatsapp_sales_saas_temp.Skills.SalesCloser.Paths.{proceed}
use whatsapp_sales_saas_temp.Unicode.{Unicode}

-- A message with an "ok" and without a word of doubt or for a human.
abbrev pub IsGoAhead : Unicode → Text → Type 0
IsGoAhead u m =
    (contains (lit "ok") (u.lower m) ≡ true)
    × (says doubts (u.lower m) ≡ false)
    × (says calls_human (u.lower m) ≡ false)

-- The messages that are still due.
abbrev pub due : Stage → ℕ
due identify = 4
due present = 3
due objections = 3
due confirm = 2
due notify = 1
due closed = 0
due escalated = 0

says_ok : (s : Text) → contains (lit "ok") s ≡ true → (says agrees s ≡ true) × (says paid s ≡ true)
says_ok s h = ground arith

transition-due :
    (u : Unicode) (s : Stage) (m : Text)
    → s ≢ escalated
    → IsGoAhead u m
    → (transition u s m ≢ escalated) × (due (transition u s m) ≤ due s - 1)
unfolding transition
transition-due u identify m n h = (λ e. cc, omega arith)
transition-due u present m n h = rw h.1 (λ e. cc, omega arith)
transition-due u objections m n h = rw (h.2, (says_ok (u.lower m) h.0).0) (λ e. cc, omega arith)
transition-due u confirm m n h = rw (says_ok (u.lower m) h.0).1 (λ e. cc, omega arith)
transition-due u notify m n h = (λ e. cc, omega arith)
transition-due u closed m n h = (λ e. cc, omega arith)
transition-due u escalated m n h = absurd (n refl)

-- From any stage but ESCALATED, messages that each say "ok" and no word of doubt or for a human lead
-- to CLOSED once there are as many as are due: four from IDENTIFY, three from PRESENT and OBJECTIONS,
-- two from CONFIRM and one from NOTIFY, however many more follow.
pub proceed-closed :
    (u : Unicode) (s : Stage) (ms : List Text)
    → s ≢ escalated
    → All (IsGoAhead u) ms
    → due s ≤ length ms
    → proceed u s ms ≡ closed
unfolding proceed
proceed-closed u closed [] n h l = refl
proceed-closed u escalated [] n h l = absurd (n refl)
proceed-closed u identify [] n h l = absurd (omega arith)
proceed-closed u present [] n h l = absurd (omega arith)
proceed-closed u objections [] n h l = absurd (omega arith)
proceed-closed u confirm [] n h l = absurd (omega arith)
proceed-closed u notify [] n h l = absurd (omega arith)
proceed-closed u s (m ∷ ms) n h l =
    let (n', l') = transition-due u s m n h.0 in
    proceed-closed u (transition u s m) ms n' h.1 (omega arith)
