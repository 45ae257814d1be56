-- ===== src/Graph/Incident.antt =====
-- The nodes and the routing of the outer graph: src/oncall/graph/incident.py. Validation of the
-- state on entry to a node is not modelled; a UUID's text is read by a parameter.
use Prim.Native.String.{◌++◌ as concat}
use oncall.Prelude.{
  ℕ, String, none, Bool, Option, false, if◌then◌else◌, is_some, nat_eq, not, some, string_eq, ◌&&◌,
  ◌==◌, ◌||◌, Outcome, leb, ok, raised, suc, true, ◌>>=◌,
}
use oncall.Json.{Value, Fields, as_dict, get, is_text}
use oncall.Graph.Contracts.{ActionPlanDraft}
use oncall.Incidents.State.{IncidentStatus, status_eq}
use oncall.Execution.Service.{ExecutionResult, ResultStatus}
use oncall.Execution.Workflow.{has_succeeded, VerificationOutcome, execution_status_text}

-- The keys of the state that the nodes read or write; a status is the text of a member.
pub record GraphState : Type 0 where
  pub incident_id : ℕ
  pub status : IncidentStatus
  pub has_diagnosis : Bool
  pub action_plan : Option ActionPlanDraft
  pub approval : Option Fields
  pub execution_result : Option ExecutionResult
  pub verification_result : Option VerificationOutcome
  pub verification_failures : ℕ
  pub need_human_reason : Option String

abbrev pub to_human : String → GraphState → GraphState
to_human reason s = record s { status = IncidentStatus.need_human; need_human_reason = some reason }

abbrev enter_investigation : GraphState → GraphState
enter_investigation s = record s { status = IncidentStatus.investigating }

pub data AfterInvestigation : Type 0 where
  to_plan stop : AfterInvestigation

abbrev route_after_investigation : GraphState → AfterInvestigation
route_after_investigation s =
    if s.status == IncidentStatus.need_human
    then stop
    else if s.has_diagnosis && is_some s.action_plan
    then to_plan
    else stop

abbrev plan : GraphState → GraphState
plan s =
    if not s.has_diagnosis || not (is_some s.action_plan)
    then to_human "The intelligence loop did not produce a complete plan." s
    else record s { status = IncidentStatus.waiting_approval }

-- `state.get("need_human_reason") or ...`
abbrev or_default : Option String → String → String
or_default none d = d
or_default (some r) d = if r == "" then d else r

abbrev pub need_human : GraphState → GraphState
need_human s = to_human (or_default s.need_human_reason "Graph requires human review.") s

abbrev pub resolved : GraphState → GraphState
resolved s = record s { status = IncidentStatus.resolved; need_human_reason = none }

-- The graph up to the interrupt. `investigate` is the subgraph.
unfoldable pub run_to_approval : (GraphState → GraphState) → GraphState → GraphState
run_to_approval investigate s =
    let investigated = investigate (enter_investigation s) in
    elim (route_after_investigation investigated) [
      | stop ↦ need_human investigated
      | to_plan ↦ plan investigated
    ]

abbrev result_status_text : ResultStatus → String
result_status_text ResultStatus.not_found = "NOT_FOUND"
result_status_text ResultStatus.not_approved = "NOT_APPROVED"
result_status_text ResultStatus.denied = "DENIED"
result_status_text (ResultStatus.stored e) = execution_status_text e

abbrev pub is_succeeded : ResultStatus → Bool
is_succeeded (ResultStatus.stored e) = has_succeeded e
is_succeeded _ = false

-- `min(1, failures + 1)`
abbrev one_failure : ℕ → ℕ
one_failure n = if leb 1 (suc n) then 1 else suc n

-- `UUID(str(response[key]))`, or the exception's type name
abbrev pub id_in : (Value → Option ℕ) → String → Fields → Outcome String ℕ
id_in parse_uuid key d = elim (get key d) [
  | none ↦ raised "KeyError"
  | some v ↦ elim (parse_uuid v) [ none ↦ raised "ValueError" | some n ↦ ok n ]
]

abbrev pub returns : Outcome String ℕ → Bool
returns (ok n) = true
returns (raised e) = false

-- Execution ended without an id or not as succeeded.
abbrev unsuccessful : ExecutionResult → GraphState → GraphState
unsuccessful result s = record s {
  status = IncidentStatus.need_human;
  execution_result = some result;
  need_human_reason = some (
      or_default result.error
        (concat "Recovery execution ended as " (concat (result_status_text result.status) ".")));
}

abbrev pub executed : GraphState → ExecutionResult → GraphState
executed s result =
    if not (is_succeeded result.status) || not (is_some result.execution_id)
    then unsuccessful result s
    else record s {
      status = IncidentStatus.verifying;
      execution_result = some result;
      need_human_reason = none;
    }

abbrev not_executed : String → GraphState → GraphState
not_executed e = to_human (concat "The approved recovery could not execute safely: " e)

-- `UUID(str((current.execution_result or {})["execution_id"]))`
abbrev pub execution_id_of : Option ExecutionResult → Outcome String ℕ
execution_id_of none = raised "KeyError"
execution_id_of (some r) = elim r.execution_id [ none ↦ raised "ValueError" | some n ↦ ok n ]

abbrev not_verified : String → GraphState → GraphState
not_verified e = to_human (concat "Recovery verification could not complete safely: " e)

abbrev pub verified : GraphState → VerificationOutcome → GraphState
verified s result =
    if not (result.status == IncidentStatus.resolved) || not result.passed
    then record s {
      status = IncidentStatus.need_human;
      verification_result = some result;
      verification_failures = one_failure s.verification_failures;
      need_human_reason = some (or_default result.reason "Recovery verification did not pass.");
    }
    else record s {
      status = IncidentStatus.resolved;
      verification_result = some result;
      need_human_reason = none;
    }

abbrev pub may_verify : GraphState → Bool
may_verify s = s.status == IncidentStatus.verifying && elim s.execution_result [
  | none ↦ false
  | some r ↦ is_succeeded r.status && is_some r.execution_id
]

module _ (stable_hash : ActionPlanDraft → String) (parse_uuid : Value → Option ℕ) where
  -- What the node does with the value that the interrupt was resumed with.
  unfoldable pub approval_boundary : Value → GraphState → GraphState
  approval_boundary response s = elim s.action_plan [
    | none ↦ to_human "No action plan exists at the approval boundary." s
    | some draft ↦ elim (as_dict (some response)) [
      | none ↦ to_human "The remediation plan was not approved by an authorized user." s
      | some d ↦
          if not (is_text "APPROVED" (get "decision" d))
          then to_human "The remediation plan was not approved by an authorized user." s
          else if not (is_text (stable_hash draft) (get "action_plan_hash" d))
          then to_human "The approval does not match the interrupted action plan." s
          else if not (
              returns (id_in parse_uuid "approval_id" d)
              && returns (id_in parse_uuid "action_plan_id" d))
          then to_human "The approval is missing valid durable identifiers." s
          else record s { approval = some d; status = IncidentStatus.executing }
    ]
  ]

  -- `_approved_ids`, or the type name of its exception
  unfoldable pub approved_ids : GraphState → Outcome String (ℕ × ℕ)
  approved_ids s = elim s.action_plan [
    | none ↦ raised "ValueError"
    | some draft ↦ elim s.approval [
      | none ↦ raised "ValueError"
      | some d ↦
          if is_text "APPROVED" (get "decision" d)
            && is_text (stable_hash draft) (get "action_plan_hash" d)
          then (do plan_id ← id_in parse_uuid "action_plan_id" d; ok (s.incident_id, plan_id))
          else raised "ValueError"
    ]
  ]

  -- `execute_plan` and `verify_plan` act on the outside, and may raise an exception of a type name.
  module _ {W : Type 0} (execute_plan : ℕ → ℕ → W → Outcome String ExecutionResult × W)
      (verify_plan : ℕ → ℕ → ℕ → W → Outcome String VerificationOutcome × W) where
    unfoldable pub execute : GraphState → W → GraphState × W
    execute s w = elim (approved_ids s) [
      | raised e ↦ (not_executed e s, w)
      | ok ids ↦
          let r = execute_plan ids.0 ids.1 w in
          elim r.0 [ raised e ↦ (not_executed e s, r.1) | ok result ↦ (executed s result, r.1) ]
    ]

    unfoldable pub verify : GraphState → W → GraphState × W
    verify s w = elim (approved_ids s) [
      | raised e ↦ (not_verified e s, w)
      | ok ids ↦ elim (execution_id_of s.execution_result) [
        | raised e ↦ (not_verified e s, w)
        | ok execution_id ↦
            let r = verify_plan ids.0 ids.1 execution_id w in
            elim r.0 [ raised e ↦ (not_verified e s, r.1) | ok result ↦ (verified s result, r.1) ]
      ]
    ]

    abbrev pub after_verification : GraphState × W → GraphState × W
    after_verification (s, w) =
        if s.status == IncidentStatus.resolved then (resolved s, w) else (need_human s, w)

    abbrev pub after_execution : GraphState × W → GraphState × W
    after_execution (s, w) =
        if may_verify s then after_verification (verify s w) else (need_human s, w)

    -- The graph from the interrupt to its end.
    unfoldable pub resume : Value → GraphState → W → GraphState × W
    resume response s w =
        let decided = approval_boundary response s in
        if decided.status == IncidentStatus.executing
        then after_execution (execute decided w)
        else (need_human decided, w)
