-- ===== src/Incidents/State.antt =====
-- The lifecycle of an incident: src/oncall/incidents/state.py.
pub mod Paths
use oncall.Prelude.{
  ℕ, String, Bool, true, false, ◌≡◌, ◌↔◌, Option, none, some, List, [], ◌∷◌, arith, Eq, nat_beq,
  any, if◌then◌else◌, ◌==◌, string_eq, find, Outcome, ok, raised, ◌>>=◌, nat_eq,
}

pub data IncidentStatus : Type 0 where
  received triaging investigating diagnosed planning waiting_approval : IncidentStatus
  executing verifying resolved need_human failed : IncidentStatus

-- The position of a member in the declaration.
abbrev index : IncidentStatus → ℕ
index received = 0
index triaging = 1
index investigating = 2
index diagnosed = 3
index planning = 4
index waiting_approval = 5
index executing = 6
index verifying = 7
index resolved = 8
index need_human = 9
index failed = 10

abbrev pub status_beq : IncidentStatus → IncidentStatus → Bool
status_beq a b = nat_beq (index a) (index b)

of_index : ℕ → IncidentStatus
of_index n =
    if nat_beq n 0
    then received
    else if nat_beq n 1
    then triaging
    else if nat_beq n 2
    then investigating
    else if nat_beq n 3
    then diagnosed
    else if nat_beq n 4
    then planning
    else if nat_beq n 5
    then waiting_approval
    else if nat_beq n 6
    then executing
    else if nat_beq n 7
    then verifying
    else if nat_beq n 8
    then resolved
    else if nat_beq n 9
    then need_human
    else failed

of_index-index : (a : IncidentStatus) → of_index (index a) ≡ a
unfolding of_index
of_index-index received = ground arith
of_index-index _ = ground arith

pub status_beq_iff : (a b : IncidentStatus) → (status_beq a b ≡ true) ↔ (a ≡ b)
status_beq_iff a b = ground (arith, of_index-index a, of_index-index b)

instance abbrev pub status_eq : Eq IncidentStatus
status_eq = record { same = status_beq; same_iff = status_beq_iff }

pub data StateError : Type 0 where
  unknown_status : String → StateError
  invalid_transition : IncidentStatus → IncidentStatus → StateError

unfoldable pub allowed_transitions : IncidentStatus → List IncidentStatus
allowed_transitions received = triaging ∷ need_human ∷ failed ∷ []
allowed_transitions triaging = investigating ∷ need_human ∷ failed ∷ []
allowed_transitions investigating = diagnosed ∷ need_human ∷ failed ∷ []
allowed_transitions diagnosed = planning ∷ need_human ∷ failed ∷ []
allowed_transitions planning = waiting_approval ∷ need_human ∷ failed ∷ []
allowed_transitions waiting_approval = executing ∷ planning ∷ need_human ∷ failed ∷ []
allowed_transitions executing = verifying ∷ need_human ∷ failed ∷ []
allowed_transitions verifying = resolved ∷ planning ∷ need_human ∷ failed ∷ []
allowed_transitions need_human =
    triaging ∷ investigating ∷ planning ∷ executing ∷ verifying ∷ failed ∷ []
allowed_transitions resolved = []
allowed_transitions failed = []

-- `IncidentStatus.value`
unfoldable pub value : IncidentStatus → String
value received = "RECEIVED"
value triaging = "TRIAGING"
value investigating = "INVESTIGATING"
value diagnosed = "DIAGNOSED"
value planning = "PLANNING"
value waiting_approval = "WAITING_APPROVAL"
value executing = "EXECUTING"
value verifying = "VERIFYING"
value resolved = "RESOLVED"
value need_human = "NEED_HUMAN"
value failed = "FAILED"

unfoldable pub members : List IncidentStatus
members =
    received ∷ triaging ∷ investigating ∷ diagnosed ∷ planning ∷ waiting_approval ∷ executing
    ∷ verifying ∷ resolved ∷ need_human ∷ failed ∷ []

-- `IncidentStatus(text)`: the member with that value.
unfoldable pub parse_status : String → Option IncidentStatus
unfolding members value find
parse_status t = find (λ s. value s == t) members

-- `IncidentStatus | str`
pub data StatusOrText : Type 0 where
  member : IncidentStatus → StatusOrText
  spelled : String → StatusOrText

unfoldable pub coerce_status : StatusOrText → Outcome StateError IncidentStatus
unfolding parse_status
coerce_status (member s) = ok s
coerce_status (spelled t) = elim (parse_status t) [
  | none ↦ raised (unknown_status t)
  | some s ↦ ok s
]

abbrev pub permits : IncidentStatus → IncidentStatus → Bool
permits current target = any (λ s. s == target) (allowed_transitions current)

unfoldable pub ensure_transition : StatusOrText → StatusOrText → Outcome StateError IncidentStatus
unfolding allowed_transitions
ensure_transition current target = do
  current_status ← coerce_status current
  target_status ← coerce_status target
  if permits current_status target_status
      then ok target_status
      else raised (invalid_transition current_status target_status)
