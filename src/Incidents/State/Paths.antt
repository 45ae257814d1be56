-- ===== src/Incidents/State/Paths.antt =====
-- Sequences of legal transitions of src/oncall/incidents/state.py.
use oncall.Prelude.{
  String, true, ◌≡◌, ◌≢◌, refl, ◌↔◌, ◌⊎◌, inl, inr, some, arith, eq_iff, ok, ◌==◌, Bool-cases,
  subst, find_sound, nat_eq, string_eq,
}
use oncall.Incidents.State.{
  IncidentStatus, received, verifying, resolved, need_human, failed, value, parse_status, members,
  coerce_status, ensure_transition, permits, status_beq_iff, status_eq, member, spelled,
}

-- One call of `ensure_transition` that returns.
pub data Step (a b : IncidentStatus) : Type 0 where
  step : ensure_transition (member a) (member b) ≡ ok b → Step a b

-- Any number of such calls.
pub data Reach (a : IncidentStatus) : IncidentStatus → Type 0 where
  here : Reach a a
  next : {b c : IncidentStatus} → Reach a b → Step b c → Reach a c

Reach-trans : {a b c : IncidentStatus} → Reach a b → Reach b c → Reach a c
Reach-trans r here = r
Reach-trans r (next q s) = next (Reach-trans r q) s

abbrev pub IsTerminal : IncidentStatus → Type 0
IsTerminal s = (s ≡ resolved) ⊎ (s ≡ failed)

Step-IsTerminal : {a b : IncidentStatus} → IsTerminal a → Step a b → ⊥
unfolding ensure_transition coerce_status
Step-IsTerminal {a} {b} t (step e) = ground arith

-- A resolved or failed incident never changes its status again, whatever calls are made.
pub terminal_absorbing : {a b : IncidentStatus} → IsTerminal a → Reach a b → a ≡ b
terminal_absorbing t here = refl
terminal_absorbing {a} {b} t (next {b = m} r s) =
    absurd (Step-IsTerminal (rw (← terminal_absorbing t r) t) s)

-- A call returns its second argument, and only for a pair of the table; else it raises.
pub ensure_transition_iff :
    (a b c : IncidentStatus)
    → (ensure_transition (member a) (member b) ≡ ok c) ↔ ((permits a b ≡ true) × (b ≡ c))
unfolding ensure_transition coerce_status
ensure_transition_iff a b c = ground arith

Step-resolved : {a : IncidentStatus} → Step a resolved → a ≡ verifying
unfolding ensure_transition coerce_status
Step-resolved {a} (step e) = ground arith

-- Whatever the status that is not terminal, escalation to a human is legal (or has happened).
pub escalation_legal :
    (a : IncidentStatus)
    → ¬ IsTerminal a
    → a ≢ need_human
    → ensure_transition (member a) (member need_human) ≡ ok need_human
unfolding ensure_transition coerce_status
escalation_legal a h k = ground arith

Step-need_human : {a : IncidentStatus} → ¬ IsTerminal a → a ≢ need_human → Step a need_human
Step-need_human {a} h k = step (escalation_legal a h k)

need_human-Reach-resolved : Reach need_human resolved
unfolding ensure_transition coerce_status
need_human-Reach-resolved = next {b = verifying} (next here (step refl)) (step refl)

-- No status that is not terminal is a dead end: legal calls lead from it to RESOLVED.
pub Reach-resolved : (a : IncidentStatus) → ¬ IsTerminal a → Reach a resolved
Reach-resolved a h = elim (Bool-cases (a == need_human)) [
  | inl e ↦ rw ((status_beq_iff a need_human).0 e) need_human-Reach-resolved
  | inr e ↦
      Reach-trans (next here (Step-need_human h (λ p. cc ((status_beq_iff a need_human).1 p))))
        need_human-Reach-resolved
]

-- RESOLVED is entered through VERIFYING only.
pub resolved_via_verifying :
    {a : IncidentStatus} → Reach a resolved → (a ≡ resolved) ⊎ Reach a verifying
resolved_via_verifying here = inl refl
resolved_via_verifying {a} (next {b = m} r s) = inr (subst (λ t. Reach a t) (Step-resolved s) r)

-- The text of a member is read back as that member.
pub parse_status-value : (s : IncidentStatus) → parse_status (value s) ≡ some s
unfolding parse_status
parse_status-value received = refl
parse_status-value _ = refl

-- A text that is accepted is the text of the member it is read as.
pub value-of-parse_status :
    (t : String) (s : IncidentStatus) → parse_status t ≡ some s → value s ≡ t
unfolding parse_status
value-of-parse_status t s h = (eq_iff (value s) t).0 (find_sound (λ m. value m == t) members h)

coerce_status-text : (s : IncidentStatus) → coerce_status (spelled (value s)) ≡ ok s
unfolding coerce_status
coerce_status-text received = refl
coerce_status-text _ = refl

coerce_status-status : (s : IncidentStatus) → coerce_status (member s) ≡ ok s
unfolding coerce_status
coerce_status-status s = refl

-- The two ways to pass a status give one result, errors included; any other text is refused.
pub ensure_transition-text :
    (a b : IncidentStatus)
    → ensure_transition (spelled (value a)) (spelled (value b))
      ≡ ensure_transition (member a) (member b)
unfolding ensure_transition
ensure_transition-text a b = rw (
  coerce_status-text a,
  coerce_status-text b,
  coerce_status-status a,
  coerce_status-status b,
  ensure_transition,
)
