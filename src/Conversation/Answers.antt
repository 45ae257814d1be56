-- ===== src/Conversation/Answers.antt =====
-- What a turn answers: `_knowledge_answer` and `_incident_answer` of
-- src/oncall/conversation/service.py. The knowledge search and the model are arguments, and so is
-- the text of a UUID.
use oncall.Execution.Service.{set_incident_status}
use oncall.Incidents.Router.{newest_plan}
use oncall.Knowledge.Chunking.{drop_chars}
use oncall.Conversation.Intents.{
  Intent, Action, RouterDecision, approval_blocked, investigate_action, is_blocked, no_action,
  plan_action, query_action,
}
use oncall.Json.{set_field, Value, Fields, Items, cons, dict, end, field, nil, num, text, uuid}
use Prim.Native.Nat.{◌/◌}
use Prim.Native.String.{◌++◌}
use oncall.Prelude.{
  ℕ, Bool, List, Option, Outcome, String, [], any, false, find, first_rest, if◌then◌else◌, is_alnum,
  is_version_char, join, latest_by, leb, nat_eq, none, not, ok, raised, select, size, some,
  string_eq, strip, take_chars, true, update_first, ◌&&◌, ◌-◌, ◌==◌, ◌||◌, ◌∷◌,
}
use oncall.Models.{PlanStatus, Db, ActionPlan, Incident, append_audit_event}
use oncall.Auth.Tokens.{User}
use oncall.Incidents.State.{IncidentStatus, StateError, ensure_transition, member, status_eq, value}

pub record Conversation : Type 0 where
  pub id : ℕ
  pub user_id : ℕ
  pub title : String
  pub last_intent : Option Intent
  pub linked_incident_id : Option ℕ

pub record ConversationMessage : Type 0 where
  pub conversation_id : ℕ
  pub role : String
  pub content : String
  pub route : Option RouterDecision
  pub citations : Items
  pub metadata : Fields

-- A search hit, `KnowledgeCitation` of src/oncall/rag/schemas.py.
pub record KnowledgeCitation : Type 0 where
  pub document_id : String
  pub title : String
  pub section_path : String
  pub source_path : String
  pub content : String
  pub score : Value

pub record KnowledgeQuery : Type 0 where
  pub project_id : Option String
  pub query_text : String
  pub service : Option String
  pub environment : Option String

-- What leaves a turn: the `ValidationError` of a query, or an illegal transition.
pub data TurnError : Type 0 where
  invalid_query : TurnError
  illegal_transition : StateError → TurnError

-- What a turn asks outside of the repository, and gets.
pub record Services : Type 0 where
  pub search_uuid : String → Option ℕ
  pub search_service : String → Option String
  pub str_uuid : ℕ → String
  -- `search_knowledge`; no hits where it raises
  pub search_knowledge : KnowledgeQuery → List KnowledgeCitation
  -- the router model's decision and the answering model's text, if they return
  pub routing : Option RouterDecision
  pub answering : Option String
  pub live_mode : Bool
  pub now : ℕ

-- `s[-n:]`
abbrev last_chars : ℕ → String → String
last_chars n s = drop_chars (size s - n) s

abbrev at_most : ℕ → Option String → Bool
at_most n none = true
at_most n (some s) = leb (size s) n

-- `KnowledgeQuery(...)` is valid: it wants a project.
unfoldable pub is_query : KnowledgeQuery → Bool
is_query q = elim q.project_id [
  | none ↦ false
  | some p ↦
      first_rest is_alnum is_version_char 0 127 p
      && (leb 1 (size q.query_text)
          && (leb (size q.query_text) 4000 && (at_most 128 q.service && at_most 64 q.environment)))
]

abbrev pub knowledge_query : RouterDecision → String → String → KnowledgeQuery
knowledge_query d message context = record {
  project_id = d.project_id;
  query_text = if context == "" then message else last_chars 1600 context ++ ("\n" ++ message);
  service = d.service;
  environment = d.environment;
}

abbrev citations_of : List KnowledgeCitation → Items
citations_of [] = nil
citations_of (h ∷ hits) =
    cons
      (dict (
        field "document_id" (text h.document_id) (
          field "title" (text h.title) (
            field "section" (text h.section_path) (
              field "source_path" (text h.source_path)
                (field "score" h.score (field "excerpt" (text (take_chars 600 h.content)) end)))))))
      (citations_of hits)

-- The model's text, if there is one.
abbrev model_answer : Bool → Option String → Option String
model_answer false answer = none
model_answer true none = none
model_answer true (some content) =
    if strip content == "" then none else some (take_chars 8000 (strip content))

abbrev pub no_grounds : String
no_grounds = "当前已审核的运维知识库中没有找到足够依据，请补充服务名或问题现象。"

abbrev answer_from : Option String → KnowledgeCitation → String
answer_from (some answer) first = answer
answer_from none first =
    join ""
      ("根据《" ∷ first.title ∷ "》的“" ∷ first.section_path ∷ "”：" ∷ take_chars 900 first.content ∷ [])

abbrev grounded : Services → List KnowledgeCitation → String × Items
grounded env [] = (no_grounds, nil)
grounded env (h ∷ hits) =
    (answer_from (model_answer env.live_mode env.answering) h, citations_of (h ∷ hits))

-- `_knowledge_answer`: the query is built before the search is tried.
unfoldable pub knowledge_answer :
    Services → RouterDecision → String → String → Outcome TurnError (String × Items)
unfolding is_query strip
knowledge_answer env d message context =
    let query = knowledge_query d message context in
    if is_query query then ok (grounded env (env.search_knowledge query)) else raised invalid_query

abbrev matches : Option String → String → Bool
matches none s = true
matches (some w) s = w == "" || s == w

-- `_find_incident`; of incidents opened at one time, the first row
unfoldable pub find_incident_for : RouterDecision → Db → Option Incident
unfolding find select latest_by
find_incident_for d db = elim d.incident_id [
  | some id ↦ find (λ i. i.id == id) db.incidents
  | none ↦
      latest_by (λ i. i.opened_at)
        (select (λ i. matches d.service i.service && matches d.environment i.environment)
          db.incidents)
]

-- What `_incident_answer` returns, the link that it sets and the tables.
pub record IncidentAnswer : Type 0 where
  pub answer : String
  pub metadata : Fields
  pub enqueue : Option (ℕ × ℕ)
  pub linked : Option ℕ
  pub tables : Db

abbrev pub told : String → Fields → Option ℕ → Db → IncidentAnswer
told answer metadata linked db = record {
  answer = answer;
  metadata = metadata;
  enqueue = none;
  linked = linked;
  tables = db;
}

abbrev pub may_operate : User → Bool
may_operate u = any (λ r. u.role == r) ("operator" ∷ "approver" ∷ "admin" ∷ [])

abbrev pub is_final : IncidentStatus → Bool
is_final IncidentStatus.resolved = true
is_final IncidentStatus.failed = true
is_final _ = false

abbrev pub can_start : IncidentStatus → Bool
can_start IncidentStatus.received = true
can_start IncidentStatus.need_human = true
can_start _ = false

abbrev action_text : Action → String
action_text no_action = "NONE"
action_text query_action = "QUERY"
action_text investigate_action = "INVESTIGATE"
action_text plan_action = "PLAN"
action_text approval_blocked = "APPROVAL_BLOCKED"

abbrev is_action_plan : Action → Bool
is_action_plan plan_action = true
is_action_plan _ = false

-- The status that a request leaves.
abbrev pub requested_status : IncidentStatus → Outcome StateError IncidentStatus
requested_status IncidentStatus.need_human =
    ensure_transition (member IncidentStatus.need_human) (member IncidentStatus.triaging)
requested_status status = ok status

abbrev pub can_resume : IncidentStatus → Bool
can_resume IncidentStatus.need_human = true
can_resume _ = false

-- The tables after `incident.conversation_investigation_requested`.
abbrev pub requested : Incident → IncidentStatus → Action → Conversation → User → ℕ → Db → Db
requested i next action conversation user now db =
    append_audit_event (some i.id) "incident.conversation_investigation_requested"
      (field "from" (text (value i.status)) (
        field "checkpoint_version" (num (now / 1000000)) (
          field "requested_action" (text (action_text action))
            (field "conversation_id" (uuid conversation.id) end))))
      user.username (if can_resume i.status then set_incident_status i.id next db else db)

-- An investigation of the incident is requested, or not.
unfoldable pub request_investigation :
    Services
    → RouterDecision
    → Conversation
    → User
    → Fields
    → Incident
    → Db
    → Outcome TurnError IncidentAnswer
unfolding append_audit_event value ensure_transition update_first
request_investigation env d conversation user metadata i db =
    if not (may_operate user)
    then ok (told "当前账号只有查看权限，无法发起调查或修复规划。" metadata (some i.id) db)
    else if is_final i.status
    then ok (
        told (join "" ("该 Incident 已处于终态 " ∷ value i.status ∷ "，不会重新发起调查。" ∷ [])) metadata
          (some i.id) db)
    else if not (can_start i.status)
    then ok (
        told (join "" ("该 Incident 已处于 " ∷ value i.status ∷ "，无需重复发起任务。" ∷ [])) metadata (some i.id)
          db)
    else elim (requested_status i.status) [
      | raised e ↦ raised (illegal_transition e)
      | ok next ↦ ok (record {
        answer = join "" (
            "已提交 Incident "
            ∷ take_chars 8 (env.str_uuid i.id)
            ∷ " 的调查任务"
            ∷ (if is_action_plan d.action then "并在证据充分后生成修复计划" else "")
            ∷ "。对话入口不会审批或执行任何恢复操作。"
            ∷ []);
        metadata = metadata;
        enqueue = some (i.id, env.now / 1000000);
        linked = some i.id;
        tables = requested i next d.action conversation user env.now db;
      })
    ]

abbrev plan_status_text : PlanStatus → String
plan_status_text PlanStatus.draft = "DRAFT"
plan_status_text PlanStatus.pending_approval = "PENDING_APPROVAL"
plan_status_text PlanStatus.approved = "APPROVED"
plan_status_text PlanStatus.rejected = "REJECTED"
plan_status_text PlanStatus.executed = "EXECUTED"

abbrev plan_metadata : ActionPlan → Fields → Fields
plan_metadata p metadata =
    set_field "plan_status" (text (plan_status_text p.status))
      (set_field "action_plan_hash" (text p.plan_hash) metadata)

abbrev pub is_action_query : Action → Bool
is_action_query query_action = true
is_action_query _ = false

-- `decision.action == "PLAN" and plan is not None`
abbrev pub planned : Action → Option ActionPlan → Option ActionPlan
planned plan_action plan = plan
planned _ plan = none

abbrev pub incident_metadata : Services → Incident → Fields
incident_metadata env i =
    field "incident_id" (uuid i.id)
      (field "incident_path" (text (join "" ("/incidents/" ∷ env.str_uuid i.id ∷ []))) end)

-- The answer where an incident was found.
unfoldable pub answer_for :
    Services
    → RouterDecision
    → Conversation
    → User
    → Incident
    → Db
    → Outcome TurnError IncidentAnswer
unfolding request_investigation value set_field latest_by select
answer_for env d conversation user i db =
    if is_action_query d.action
    then ok (
        told
          (join "" (
            "Incident "
            ∷ take_chars 8 (env.str_uuid i.id)
            ∷ " 当前状态为 "
            ∷ value i.status
            ∷ "，服务为 "
            ∷ i.service
            ∷ "。可打开详情页查看证据、诊断与审计时间线。"
            ∷ []))
          (incident_metadata env i) (some i.id) db)
    else elim (planned d.action (newest_plan i.id db)) [
      | none ↦ request_investigation env d conversation user (incident_metadata env i) i db
      | some p ↦ ok (
          told
            (join "" (
              "已生成修复计划："
              ∷ p.summary
              ∷ " 当前状态为 "
              ∷ plan_status_text p.status
              ∷ "。如需审批，请前往 Incident 详情页核对计划哈希。"
              ∷ []))
            (plan_metadata p (incident_metadata env i)) (some i.id) db)
    ]

abbrev pub approval_refusal : String
approval_refusal = "对话入口不允许审批或执行恢复操作。请前往 Incident 详情页核对固定计划哈希后完成审批。"

abbrev pub approval_metadata : Fields
approval_metadata = field "safety_boundary" (text "approval_ui_required") end

-- `_incident_answer`
unfoldable pub incident_answer :
    Services → RouterDecision → Conversation → User → Db → Outcome TurnError IncidentAnswer
unfolding find_incident_for answer_for
incident_answer env d conversation user db =
    if is_blocked d.action
    then ok (told approval_refusal approval_metadata conversation.linked_incident_id db)
    else elim (find_incident_for d db) [
      | none ↦
          ok
            (told "没有找到匹配的 Incident，请提供完整 Incident ID 或服务名。" end conversation.linked_incident_id db)
      | some i ↦ answer_for env d conversation user i db
    ]
