-- ===== src/Jobs/Outcomes.antt =====
-- What the jobs of src/oncall/jobs/tasks.py leave behind.
use oncall.Graph.Contracts.{ActionPlanDraft}
use oncall.Json.{get, Fields, Value, dict, uuid}
use oncall.Graph.Incident.{approval_boundary, GraphState, approved_ids}
use oncall.Execution.Service.{find_incident, find_approval, find_plan, plan_status_beq}
use mathlib.Core.Path.{subst, sym}
use oncall.Prelude.{
  ℕ, String, arith, false, ok, refl, some, true, ◌≡◌, Bool-cases, Option-cases, inl, inr, Option,
  find-update_first, find_sound, nat_beq_iff, nat_eq, string_eq, ◌==◌, eq_iff, find, update_first,
  Bool, none,
}
use oncall.Models.{Db, Incident, append_audit_event, ActionPlan, Approval, PlanStatus}
use oncall.Incidents.State.{
  IncidentStatus, ensure_transition, member, coerce_status, status_beq_iff, status_eq,
}
use oncall.Jobs.Tasks.{Report, at}
use oncall.Jobs.Resume.{
  mark_need_human, is_settled, approval_payload, check_resumption, escalate, resumes,
}

escalates :
    (s : IncidentStatus)
    → is_settled s ≡ false
    → ensure_transition (member s) (member IncidentStatus.need_human) ≡ ok IncidentStatus.need_human
unfolding ensure_transition coerce_status
escalates IncidentStatus.received h = refl
escalates _ h = ground arith

abbrev with_human : Incident → Incident
with_human i = record i { status = IncidentStatus.need_human }

escalated :
    (incident_id : ℕ) (reason actor : String) (db : Db) (incident : Incident)
    → find_incident incident_id db ≡ some incident
    → find_incident incident_id (escalate incident IncidentStatus.need_human reason actor db)
      ≡ some (with_human incident)
unfolding find_incident escalate append_audit_event
escalated incident_id reason actor db incident e =
    let found = find_sound (λ x. x.id == incident_id) db.incidents {x = incident} e in
    subst
      (λ n.
        find (λ x. x.id == incident_id) (update_first (λ x. x.id == n) with_human db.incidents)
        ≡ some (with_human incident))
      (sym ((nat_beq_iff incident.id incident_id).0 found))
      (find-update_first (λ x. x.id == incident_id) with_human db.incidents {x = incident} e found)

-- No incident, or a settled one.
abbrev pub ends_settled : Option Incident → Bool
ends_settled none = true
ends_settled (some i) = is_settled i.status

-- The escalation of an incident never raises, and leaves it settled: with a human, resolved or failed.
pub mark_need_human-total :
    (incident_id : ℕ) (reason actor : String) (db : Db)
    → (report : Report) × (db' : Db) × (mark_need_human incident_id reason actor db
        ≡ ok (report, db'))
      × (ends_settled (find_incident incident_id db') ≡ true)
unfolding mark_need_human
mark_need_human-total incident_id reason actor db =
    elim (Option-cases (find_incident incident_id db)) [
      | inl e ↦ (Report.not_found, db, rw (mark_need_human, e), rw e refl)
      | inr e ↦ elim (Bool-cases (is_settled e.0.status)) [
        | inl b ↦ (at e.0.status, db, rw (mark_need_human, e.1, b), rw e.1 b)
        | inr b ↦ (
          at IncidentStatus.need_human,
          escalate e.0 IncidentStatus.need_human reason actor db,
          rw (mark_need_human, e.1, b, escalates e.0.status b),
          rw (escalated incident_id reason actor db e.0 e.1) refl,
        )
      ]
    ]

-- The graph is resumed only for an incident that waits for the approval of this plan, which has
-- been approved by its hash. If the graph's state is that of the incident, with a plan of that hash,
-- and the text of a UUID is read back, then the resumed value passes the boundary of the graph,
-- which goes on with this incident and plan.
pub resume-passes_boundary :
    (stable_hash : ActionPlanDraft → String) (parse_uuid : Value → Option ℕ)
    (incident_id plan_id : ℕ) (db : Db) (run_id : String) (payload : Fields) (s : GraphState)
    (proposal : ActionPlanDraft) (plan : ActionPlan)
    → ((n : ℕ) → parse_uuid (uuid n) ≡ some n)
    → check_resumption incident_id plan_id db ≡ resumes run_id payload
    → find_plan plan_id incident_id db ≡ some plan
    → s.action_plan ≡ some proposal
    → s.incident_id ≡ incident_id
    → stable_hash proposal ≡ plan.plan_hash
    → let s' = approval_boundary stable_hash parse_uuid (dict payload) s in
      (incident : Incident) × (approval : Approval) × (find_incident incident_id db ≡ some incident)
      × (find_approval plan db ≡ some approval)
      × (incident.status ≡ IncidentStatus.waiting_approval)
      × (plan_status_beq plan.status PlanStatus.approved ≡ true)
      × (s'.status ≡ IncidentStatus.executing)
      × (approved_ids stable_hash parse_uuid s' ≡ ok (incident_id, plan.id))
unfolding check_resumption approval_boundary approved_ids get
resume-passes_boundary stable_hash parse_uuid incident_id plan_id db run_id payload s proposal plan
      u h f p i same =
    elim (Option-cases (find_incident incident_id db)) [
      | inl e ↦ absurd (ground arith)
      | inr e ↦ elim (Option-cases (find_approval plan db)) [
        | inl g ↦ absurd (ground arith)
        | inr g ↦
            let sent : payload ≡ approval_payload plan g.0 = ground arith in
            let same' = (eq_iff (stable_hash proposal) plan.plan_hash).1 same in
            (
              e.0,
              g.0,
              e.1,
              g.1,
              ground (arith, status_beq_iff e.0.status IncidentStatus.waiting_approval),
              ground arith,
              ground (arith, u plan.id, u g.0.id, eq_iff (stable_hash proposal) plan.plan_hash),
              ground (arith, u plan.id, u g.0.id, eq_iff (stable_hash proposal) plan.plan_hash),
            )
      ]
    ]
