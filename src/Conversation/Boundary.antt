-- ===== src/Conversation/Boundary.antt =====
-- What a conversation can do to the incidents: src/oncall/conversation/service.py and intents.py.
use oncall.Conversation.Answers.{
  answer_for, incident_answer, Services, request_investigation, IncidentAnswer, Conversation,
  TurnError, approval_metadata, approval_refusal, can_resume, can_start, find_incident_for,
  incident_metadata, is_action_query, is_final, knowledge_answer, may_operate, planned, requested,
  requested_status, told,
}
use oncall.Conversation.Intents.{
  Action, route_message, Intent, RouterDecision, approval_blocked, is_approval, deterministic_route,
  incident_intent, is_blocked, knowledge,
}
use oncall.Incidents.Router.{newest_plan}
use oncall.Json.{Fields}
use Prim.Native.Nat.{◌/◌}
use mathlib.Core.Path.{Path}
use oncall.Conversation.Turns.{recorded, ChatDb, TurnResult, context_of, decide, handle_turn}
use oncall.Prelude.{
  ℕ, Bool-cases, Option, Outcome, Outcome-cases, String, ap, inl, inr, none, ok, ok-injective, some,
  sym, true, ◌≡◌, ◌⊎◌, Bool, Option-cases, false, refl, subst,
}
use oncall.Models.{Db, Incident, append_audit_event}
use oncall.Auth.Tokens.{User}
use oncall.Incidents.State.{IncidentStatus}

-- Nothing is asked for, and no table of the incidents changes.
abbrev pub IsIdle : Db → Option (ℕ × ℕ) → Db → Type 0
IsIdle db job db' = (job ≡ none) × (db' ≡ db)

-- An investigation of the incident that the decision finds is asked for by a user who may operate: the
-- incident has not started or waits for a person, and what changes is its status and the audit trail.
abbrev pub IsRequest :
    Services → RouterDecision → Conversation → User → Db → Option (ℕ × ℕ) → Db → Type 0
IsRequest env d conversation user db job db' =
    (i : Incident) × (next : IncidentStatus) × (find_incident_for d db ≡ some i)
    × (may_operate user ≡ true)
    × (can_start i.status ≡ true)
    × (requested_status i.status ≡ ok next)
    × (job ≡ some (i.id, env.now / 1000000))
    × (db' ≡ requested i next d.action conversation user env.now db)

told-IsIdle :
    (answer : String) (metadata : Fields) (linked : Option ℕ) (db : Db) {a : IncidentAnswer}
    → Path (Outcome TurnError IncidentAnswer) (ok (told answer metadata linked db)) (ok a)
    → IsIdle db a.enqueue a.tables
told-IsIdle answer metadata linked db h =
    let same = ok-injective h in
    (
      ap (λ (x : IncidentAnswer). x.enqueue) (sym same),
      ap (λ (x : IncidentAnswer). x.tables) (sym same),
    )

request_investigation-cases :
    (env : Services) (d : RouterDecision) (c : Conversation) (u : User) (metadata : Fields)
    (i : Incident) (db : Db) {a : IncidentAnswer}
    → find_incident_for d db ≡ some i
    → request_investigation env d c u metadata i db ≡ ok a
    → IsIdle db a.enqueue a.tables ⊎ IsRequest env d c u db a.enqueue a.tables
unfolding request_investigation
request_investigation-cases env d c u metadata i db {a = a} found h =
    elim (Bool-cases (may_operate u)) [
      | inr f ↦ inl (told-IsIdle _ _ _ db (rw (request_investigation, f) at h))
      | inl f ↦ elim (Bool-cases (is_final i.status)) [
        | inl g ↦ inl (told-IsIdle _ _ _ db (rw (request_investigation, f, g) at h))
        | inr g ↦ elim (Bool-cases (can_start i.status)) [
          | inr s ↦ inl (told-IsIdle _ _ _ db (rw (request_investigation, f, g, s) at h))
          | inl s ↦ elim (Outcome-cases (requested_status i.status)) [
            | inr (e, r) ↦ absurd (let h' = rw (request_investigation, f, g, s, r) at h in cc)
            | inl (next, r) ↦ inr (
                let same = ok-injective (rw (request_investigation, f, g, s, r) at h) in
                (
                  i,
                  next,
                  found,
                  f,
                  s,
                  r,
                  ap (λ (x : IncidentAnswer). x.enqueue) (sym same),
                  ap (λ (x : IncidentAnswer). x.tables) (sym same),
                ))
          ]
        ]
      ]
    ]

answer_for-cases :
    (env : Services) (d : RouterDecision) (c : Conversation) (u : User) (i : Incident) (db : Db)
    {a : IncidentAnswer}
    → find_incident_for d db ≡ some i
    → answer_for env d c u i db ≡ ok a
    → IsIdle db a.enqueue a.tables ⊎ IsRequest env d c u db a.enqueue a.tables
unfolding answer_for
answer_for-cases env d c u i db {a = a} found h = elim (Bool-cases (is_action_query d.action)) [
  | inl q ↦ inl (told-IsIdle _ _ _ db (rw (answer_for, q) at h))
  | inr q ↦ elim (Option-cases (planned d.action (newest_plan i.id db))) [
    | inr (p, e) ↦ inl (told-IsIdle _ _ _ db (rw (answer_for, q, e) at h))
    | inl e ↦
        request_investigation-cases env d c u (incident_metadata env i) i db {a = a} found
          (rw (answer_for, q, e) at h)
  ]
]

incident_answer-cases :
    (env : Services) (d : RouterDecision) (c : Conversation) (u : User) (db : Db)
    {a : IncidentAnswer}
    → incident_answer env d c u db ≡ ok a
    → IsIdle db a.enqueue a.tables
      ⊎ ((is_blocked d.action ≡ false) × IsRequest env d c u db a.enqueue a.tables)
unfolding incident_answer
incident_answer-cases env d c u db {a = a} h = elim (Bool-cases (is_blocked d.action)) [
  | inl b ↦ inl (told-IsIdle _ _ _ db (rw (incident_answer, b) at h))
  | inr b ↦ elim (Option-cases (find_incident_for d db)) [
    | inl e ↦ inl (told-IsIdle _ _ _ db (rw (incident_answer, b, e) at h))
    | inr (i, e) ↦
        elim (answer_for-cases env d c u i db {a = a} e (rw (incident_answer, b, e) at h)) [
          | inl k ↦ inl k
          | inr r ↦ inr (b, r)
        ]
  ]
]

-- Approval language is routed to the refusal, whatever the model decides.
pub route_message-blocks :
    (search_uuid : String → Option ℕ) (search_service : String → Option String) (message : String)
    (live_mode : Bool) (answer : Option RouterDecision)
    → is_approval message ≡ true
    → ((route_message search_uuid search_service message live_mode answer).intent ≡ incident_intent)
      × ((route_message search_uuid search_service message live_mode answer).action
          ≡ approval_blocked)
unfolding route_message deterministic_route
route_message-blocks search_uuid search_service message live_mode answer h = (
  rw (route_message, deterministic_route, h) refl,
  rw (route_message, deterministic_route, h) refl,
)

Intent-cases : (a : Intent) → (a ≡ knowledge) ⊎ (a ≡ incident_intent)
Intent-cases knowledge = inl refl
Intent-cases incident_intent = inr refl

-- What a turn decided and left in the tables of the incidents.
abbrev IsTurn : Services → Conversation → User → String → Db → TurnResult × ChatDb → Type 0
IsTurn env c u message db r =
    IsIdle db r.0.enqueue r.1.tables
    ⊎ ((is_blocked (decide env c message).action ≡ false)
        × IsRequest env (decide env c message) c u db r.0.enqueue r.1.tables)

handle_turn-cases :
    (env : Services) (c : Conversation) (u : User) (message : String) (db : ChatDb)
    {r : TurnResult × ChatDb}
    → handle_turn env c u message db ≡ ok r
    → IsTurn env c u message db.tables r
unfolding handle_turn recorded
handle_turn-cases env c u message db {r = r} h = elim (Intent-cases (decide env c message).intent) [
  | inl k ↦
      elim (Outcome-cases
        (knowledge_answer env (decide env c message) message (context_of c db.messages))) [
          | inr (e, o) ↦ absurd (let h' = rw (handle_turn, k, o) at h in cc)
          | inl (a, o) ↦
              subst (IsTurn env c u message db.tables) (ok-injective (rw (handle_turn, k, o) at h))
                (inl (refl, refl))
        ]
  | inr k ↦ elim (Outcome-cases (incident_answer env (decide env c message) c u db.tables)) [
    | inr (e, o) ↦ absurd (let h' = rw (handle_turn, k, o) at h in cc)
    | inl (a, o) ↦
        subst (IsTurn env c u message db.tables) (ok-injective (rw (handle_turn, k, o) at h))
          (incident_answer-cases env (decide env c message) c u db.tables {a = a} o)
  ]
]

decide-blocks :
    (env : Services) (c : Conversation) (message : String)
    → is_approval message ≡ true
    → ((decide env c message).intent ≡ incident_intent)
      × (is_blocked (decide env c message).action ≡ true)
unfolding decide
decide-blocks env c message h =
    let (i, a) =
      route_message-blocks env.search_uuid env.search_service message env.live_mode env.routing h in
    (i, ap is_blocked a)

-- The tables of plans, approvals and executions are left as they are.
abbrev pub IsUndecided : Db → Db → Type 0
IsUndecided db db' =
    (db'.plans ≡ db.plans)
    × (db'.steps ≡ db.steps)
    × (db'.approvals ≡ db.approvals)
    × (db'.executions ≡ db.executions)
    × (db'.checks ≡ db.checks)

requested-IsUndecided :
    (i : Incident) (next : IncidentStatus) (a : Action) (c : Conversation) (u : User) (now : ℕ)
    (db : Db)
    → IsUndecided db (requested i next a c u now db)
unfolding append_audit_event
requested-IsUndecided i next a c u now db = elim (Bool-cases (can_resume i.status)) [
  | inl e ↦ rw e (refl, refl, refl, refl, refl)
  | inr e ↦ rw e (refl, refl, refl, refl, refl)
]

IsTurn-IsUndecided :
    (env : Services) (c : Conversation) (u : User) (message : String) (db : Db)
    (r : TurnResult × ChatDb)
    → IsTurn env c u message db r
    → IsUndecided db r.1.tables
IsTurn-IsUndecided env c u message db r (inl k) =
    subst (IsUndecided db) (sym k.1) (refl, refl, refl, refl, refl)
IsTurn-IsUndecided env c u message db r (inr k) =
    let (b, request) = k in
    let (i, next, _, _, _, _, _, same) = request in
    subst (IsUndecided db) (sym same)
      (requested-IsUndecided i next (decide env c message).action c u env.now db)

-- A turn decides on no plan and executes nothing: the tables of plans, steps, approvals, executions
-- and checks stay. It changes nothing about the incidents and asks for nothing, or it asks for an
-- investigation by a user who may operate, in a message without approval language.
pub handle_turn-IsBounded :
    (env : Services) (c : Conversation) (u : User) (message : String) (db : ChatDb) (r : TurnResult)
    (db' : ChatDb)
    → handle_turn env c u message db ≡ ok (r, db')
    → IsUndecided db.tables db'.tables
      × (IsIdle db.tables r.enqueue db'.tables
          ⊎ ((is_approval message ≡ false)
              × IsRequest env (decide env c message) c u db.tables r.enqueue db'.tables))
handle_turn-IsBounded env c u message db r db' h =
    let t = handle_turn-cases env c u message db {r = (r, db')} h in
    (
      IsTurn-IsUndecided env c u message db.tables (r, db') t,
      elim t [
        | inl k ↦ inl k
        | inr k ↦ elim (Bool-cases (is_approval message)) [
          | inr e ↦ inr (e, k.1)
          | inl e ↦ (let (_, b) = decide-blocks env c message e in absurd (let x = k.0 in cc))
        ]
      ],
    )

-- A message with approval language is answered, changes no table of the incidents and asks for
-- nothing, whatever the model decides and whoever asks.
pub handle_turn-blocks :
    (env : Services) (c : Conversation) (u : User) (message : String) (db : ChatDb)
    → is_approval message ≡ true
    → (r : TurnResult) × (db' : ChatDb) × (handle_turn env c u message db ≡ ok (r, db'))
      × IsIdle db.tables r.enqueue db'.tables
unfolding handle_turn incident_answer recorded
handle_turn-blocks env c u message db h =
    let (i, b) = decide-blocks env c message h in
    let d = decide env c message in
    let told_so : incident_answer env d c u db.tables
        ≡ ok (told approval_refusal approval_metadata c.linked_incident_id db.tables) =
      rw (incident_answer, b) refl in
    rw (handle_turn, i, told_so) (_, _, refl, (refl, refl))
