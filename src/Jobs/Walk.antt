-- ===== src/Jobs/Walk.antt =====
-- The path of statuses after a run of the graph: src/oncall/jobs/tasks.py.
use oncall.Graph.Contracts.{ActionPlanDraft}
use oncall.Execution.Service.{find_incident, set_incident_status, plan_status_beq}
use oncall.Prelude.{
  ℕ, Option, ok, ◌≡◌, refl, Bool, [], arith, nat_eq, some, string_eq, true, ◌==◌, ◌||◌, ◌∷◌,
  Bool-cases, List, Outcome-cases, find-update_first, find_sound, inl, inr, ok-injective, subst,
  Mem, Option-cases, find, mem-cons_self, ◌&&◌, eq_iff, find-Mem, none, sym,
}
use oncall.Models.{Db, ActionPlan, Incident, append_audit_event, PlanStatus}
use oncall.Incidents.State.{IncidentStatus, coerce_status, ensure_transition, status_eq, member}
use oncall.Jobs.Tasks.{
  GraphResult, graph_status_path, walk, at, persist_plan, store_graph_result, add_plan, hash_of,
}

-- The row of the incident has the status; nothing else of the row, and no plan, has changed.
abbrev Leaves : Incident → IncidentStatus → Db → Db → Type 0
Leaves i t db db' =
    (find_incident i.id db' ≡ some (record i { status = t })) × (db'.plans ≡ db.plans)

set_incident_status-found :
    (i : Incident) (t : IncidentStatus) (db : Db)
    → find_incident i.id db ≡ some i
    → find_incident i.id (set_incident_status i.id t db) ≡ some (record i { status = t })
unfolding find_incident
set_incident_status-found i t db h =
    find-update_first (λ x. x.id == i.id) (λ x. record x { status = t }) db.incidents {x = i} h
      (find_sound (λ x. x.id == i.id) db.incidents {x = i} h)

-- The loop over any path leaves the status that it reports.
walk-Leaves :
    (ts : List IncidentStatus) (i : Incident) (version : ℕ) (result : GraphResult)
    (plan : Option ActionPlan) (db db' : Db) (s : IncidentStatus)
    → find_incident i.id db ≡ some i
    → walk ts i version result plan db ≡ ok (s, db')
    → Leaves i s db db'
unfolding walk append_audit_event find_incident
walk-Leaves [] i version result plan db db' s f h =
    subst (λ (r : IncidentStatus × Db). Leaves i r.0 db r.1) (ok-injective h) (f, refl)
walk-Leaves (t ∷ ts) i version result plan db db' s f h = elim (Bool-cases (i.status == t)) [
  | inl e ↦ walk-Leaves ts i version result plan db db' s f (rw (e, walk) at h)
  | inr e ↦ elim (Outcome-cases (ensure_transition (member i.status) (member t))) [
    | inr (x, r) ↦ absurd (let h' = rw (e, r, walk) at h in cc)
    | inl (target, r) ↦
        walk-Leaves ts (record i { status = target }) version result plan _ db' s
          (set_incident_status-found i target db f) (rw (e, r, walk) at h)
  ]
]

walk-waiting :
    (i : Incident) (version : ℕ) (result : GraphResult) (plan : Option ActionPlan) (db : Db)
    → i.status ≡ IncidentStatus.triaging
    → (db' : Db) × (walk graph_status_path i version result plan db
        ≡ ok (IncidentStatus.waiting_approval, db'))
unfolding walk ensure_transition coerce_status
walk-waiting i version result plan db e = rw e (_, refl)

walk-human :
    (i : Incident) (version : ℕ) (result : GraphResult) (plan : Option ActionPlan) (db : Db)
    → i.status ≡ IncidentStatus.triaging
    → (db' : Db) × (walk (IncidentStatus.need_human ∷ []) i version result plan db
        ≡ ok (IncidentStatus.need_human, db'))
unfolding walk ensure_transition coerce_status
walk-human i version result plan db e = rw e (_, refl)

-- The two statuses that a run ends with before an approval.
abbrev pub ends_run : IncidentStatus → Bool
ends_run s = s == IncidentStatus.waiting_approval || s == IncidentStatus.need_human

-- The draft is the plan of the incident that waits for an approval.
abbrev pub IsProposed : Incident → ActionPlanDraft → Db → Type 0
IsProposed i d db =
    (p : ActionPlan) × (Mem p db.plans)
    × (p.incident_id ≡ i.id)
    × (p.plan_hash ≡ hash_of d)
    × (p.status ≡ PlanStatus.pending_approval)

abbrev new_plan_of : Incident → GraphResult → ActionPlanDraft → Db → ActionPlan
new_plan_of i result d db = (add_plan i result.graph_run_id d db).0

persist_plan-IsProposed :
    (i : Incident) (result : GraphResult) (db : Db) (d : ActionPlanDraft)
    → result.action_plan ≡ some d
    → IsProposed i d (persist_plan i result db).1
unfolding persist_plan add_plan
persist_plan-IsProposed i result db d e =
    elim (Option-cases (find (λ p. p.incident_id == i.id && p.plan_hash == hash_of d) db.plans)) [
      | inl f ↦ rw (persist_plan, e, f) (new_plan_of i result d db, mem-cons_self, refl, refl, refl)
      | inr (p, f) ↦ elim (Bool-cases (plan_status_beq p.status PlanStatus.pending_approval)) [
        | inl b ↦
            rw (persist_plan, e, f, b)
              (let q =
                  find_sound (λ p. p.incident_id == i.id && p.plan_hash == hash_of d) db.plans
                    {x = p} f in
                (
                  p,
                  find-Mem _ _ f,
                  ground (arith, q),
                  ground (arith, q, eq_iff p.plan_hash (hash_of d)),
                  ground (arith, b),
                ))
        | inr b ↦
            rw (persist_plan, e, f, b) (new_plan_of i result d db, mem-cons_self, refl, refl, refl)
      ]
    ]

persist_plan-incidents :
    (i : Incident) (result : GraphResult) (db : Db)
    → (persist_plan i result db).1.incidents ≡ db.incidents
unfolding persist_plan add_plan
persist_plan-incidents i result db = ground arith

abbrev pub IsProposedIf : Incident → Option ActionPlanDraft → Db → Type 0
IsProposedIf i none db = Unit
IsProposedIf i (some d) db = IsProposed i d db

-- What the second transaction leaves.
abbrev pub LeavesResult : Incident → GraphResult → IncidentStatus → Db → Type 0
LeavesResult i result s db' =
    (find_incident i.id db' ≡ some (record i { status = s }))
    × IsProposedIf i result.action_plan db'

persist_plan-IsProposedIf :
    (i : Incident) (result : GraphResult) (o : Option ActionPlanDraft) (db db' : Db)
    → result.action_plan ≡ o
    → db'.plans ≡ (persist_plan i result db).1.plans
    → IsProposedIf i o db'
persist_plan-IsProposedIf i result none db db' e same = tt
persist_plan-IsProposedIf i result (some d) db db' e same =
    let (p, mem, id, hash, waits) = persist_plan-IsProposed i result db d e in
    (p, subst (Mem p) (sym same) mem, id, hash, waits)

found_by_id :
    (incident_id : ℕ) (i : Incident) (db : Db)
    → find_incident incident_id db ≡ some i
    → find_incident i.id db ≡ some i
unfolding find_incident
found_by_id incident_id i db h =
    let same : i.id ≡ incident_id =
      ground (arith, find_sound (λ x. x.id == incident_id) db.incidents {x = i} h) in
    subst (λ n. find_incident n db ≡ some i) (sym same) h

walked-LeavesResult :
    (ts : List IncidentStatus) (i : Incident) (version : ℕ) (result : GraphResult)
    (s : IncidentStatus) (db db' : Db)
    → find_incident i.id db ≡ some i
    → walk ts i version result (persist_plan i result db).0 (persist_plan i result db).1
      ≡ ok (s, db')
    → LeavesResult i result s db'
unfolding find_incident
walked-LeavesResult ts i version result s db db' f h =
    let p = persist_plan i result db in
    let (row, plans) =
      walk-Leaves ts i version result p.0 p.1 db' s (rw (persist_plan-incidents i result db) f) h in
    (row, persist_plan-IsProposedIf i result result.action_plan db db' refl plans)

-- For an incident in triage, the result of a run that waits for an approval or calls a human is
-- stored without an illegal transition, and that status is reported: the incident's row has that status
-- and is otherwise as it was, and a plan that the run drafted is among the plans of the incident, with
-- its hash and waiting for an approval.
pub store_graph_result-stored :
    (incident_id version : ℕ) (result : GraphResult) (s : IncidentStatus) (db : Db) (i : Incident)
    → find_incident incident_id db ≡ some i
    → i.status ≡ IncidentStatus.triaging
    → ends_run s ≡ true
    → (db' : Db) × (store_graph_result incident_id version result s db ≡ ok (at s, db'))
      × LeavesResult i result s db'
unfolding store_graph_result
store_graph_result-stored incident_id version result IncidentStatus.waiting_approval db i f e r =
    let p = persist_plan i result db in
    let (db', w) = walk-waiting i version result p.0 p.1 e in
    (
      db',
      ground (arith, f, w),
      walked-LeavesResult _ i version result _ db db' (found_by_id incident_id i db f) w,
    )
store_graph_result-stored incident_id version result IncidentStatus.need_human db i f e r =
    let p = persist_plan i result db in
    let (db', w) = walk-human i version result p.0 p.1 e in
    (
      db',
      ground (arith, f, w),
      walked-LeavesResult _ i version result _ db db' (found_by_id incident_id i db f) w,
    )
store_graph_result-stored incident_id version result s db i f e r = absurd (ground arith)
