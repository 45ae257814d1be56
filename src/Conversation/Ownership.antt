-- ===== src/Conversation/Ownership.antt =====
-- Who can do what through the message route: src/oncall/conversation/router.py with service.py.
use oncall.Conversation.Intents.{is_approval, RouterDecision}
use oncall.Models.{Incident, Db}
use oncall.Conversation.Boundary.{IsUndecided, handle_turn-IsBounded}
use oncall.Conversation.Turns.{ChatDb, TurnResult, handle_turn, decide}
use oncall.Conversation.Answers.{Services, Conversation, can_start, may_operate, find_incident_for}
use oncall.Conversation.Router.{send_message, owned, SendAnswer, sent}
use Prim.Native.Nat.{◌/◌}
use mathlib.Core.Option.{some-injective}
use oncall.Prelude.{
  ℕ, Bool, Bool-cases, List, Option-cases, Outcome-cases, String, [], inl, inr, leb, ok, refl, size,
  some, ◌&&◌, ◌∷◌, ◌≡◌, ◌⊎◌, ap, false, subst, sym, true, ◌∙◌, Mem, find-Mem, latest_by-select-Mem,
}
use oncall.Auth.Tokens.{User}

-- A message was handled in a conversation of the user.
abbrev pub IsHandled : Services → ℕ → User → String → ChatDb → ChatDb → List (ℕ × ℕ) → Type 0
IsHandled env conversation_id user message db db' jobs =
    (c : Conversation) × (r : TurnResult) × (owned conversation_id user db ≡ some c)
    × (handle_turn env c user message db ≡ ok (r, db'))
    × ((jobs ≡ []) ⊎ ((job : ℕ × ℕ) × (r.enqueue ≡ some job) × (jobs ≡ job ∷ [])))

sent-cases :
    (delay : ℕ × ℕ → Bool) (r : TurnResult) (db : ChatDb)
    → let s = sent delay r db in
      (s.1 ≡ db) × ((s.2 ≡ []) ⊎ ((job : ℕ × ℕ) × (r.enqueue ≡ some job) × (s.2 ≡ job ∷ [])))
sent-cases delay r db = elim (Option-cases r.enqueue) [
  | inl q ↦ rw q (refl, inl refl)
  | inr (job, q) ↦ elim (Bool-cases (delay job)) [
    | inl t ↦ rw (q, t) (refl, inr (job, refl, refl))
    | inr t ↦ rw (q, t) (refl, inl refl)
  ]
]

send_message-cases :
    (env : Services) (delay : ℕ × ℕ → Bool) (id : ℕ) (user : User) (message : String) (db : ChatDb)
    → let s = send_message env delay id user message db in
      ((s.1 ≡ db) × (s.2 ≡ [])) ⊎ IsHandled env id user message db s.1 s.2
unfolding send_message
send_message-cases env delay id user message db =
    elim (Bool-cases (leb 1 (size message) && leb (size message) 8000)) [
      | inr b ↦ inl (rw (send_message, b) (refl, refl))
      | inl b ↦ elim (Option-cases (owned id user db)) [
        | inl e ↦ inl (rw (send_message, b, e) (refl, refl))
        | inr (c, e) ↦ elim (Outcome-cases (handle_turn env c user message db)) [
          | inr (f, h) ↦ inl (rw (send_message, b, e, h) (refl, refl))
          | inl ((r, db'), h) ↦
              let same : send_message env delay id user message db ≡ sent delay r db' =
                rw (send_message, b, e, h) refl in
              let (tables, jobs) = sent-cases delay r db' in
              inr (
                subst
                  (λ (s : SendAnswer × ChatDb × List (ℕ × ℕ)).
                    IsHandled env id user message db s.1 s.2)
                  (sym same) (c, r, e, h ∙ ap (λ x. ok (r, x)) (sym tables), jobs))
        ]
      ]
    ]

-- The incident that a decision finds is a row of the table.
find_incident_for-Mem :
    (d : RouterDecision) (db : Db) (i : Incident)
    → find_incident_for d db ≡ some i
    → Mem i db.incidents
unfolding find_incident_for
find_incident_for-Mem d db i h = elim (Option-cases d.incident_id) [
  | inr (id, e) ↦ find-Mem _ db.incidents (rw (find_incident_for, e) at h)
  | inl e ↦ latest_by-select-Mem _ _ db.incidents (rw (find_incident_for, e) at h)
]

-- By a message nobody decides on a plan or executes one: the tables of plans, steps, approvals,
-- executions and checks stay, whatever the models answer. A job is queued only for a user who may
-- operate, in a conversation of that user, for a message without approval language, and it starts
-- the investigation of one of the stored incidents, one that has not started or waits for a person.
pub send_message-IsBounded :
    (env : Services) (delay : ℕ × ℕ → Bool) (id : ℕ) (user : User) (message : String) (db : ChatDb)
    → let s = send_message env delay id user message db in
      IsUndecided db.tables s.1.tables
      × ((s.2 ≡ [])
          ⊎ ((c : Conversation) × (i : Incident) × (owned id user db ≡ some c)
              × Mem i db.tables.incidents
              × (may_operate user ≡ true)
              × (can_start i.status ≡ true)
              × (is_approval message ≡ false)
              × (s.2 ≡ (i.id, env.now / 1000000) ∷ [])))
send_message-IsBounded env delay id user message db =
    elim (send_message-cases env delay id user message db) [
      | inl u ↦ (
        subst (λ (x : ChatDb). IsUndecided db.tables x.tables) (sym u.0)
            (refl, refl, refl, refl, refl),
        inl u.1,
      )
      | inr (c, r, e, h, jobs) ↦
          let (kept, asked) =
            handle_turn-IsBounded env c user message db r
              (send_message env delay id user message db).1 h in
          (
            kept,
            elim jobs [
              | inl none_sent ↦ inl none_sent
              | inr (job, q, one) ↦ elim asked [
                | inl k ↦ absurd (let k0 = k.0 in cc)
                | inr (a, request) ↦
                    let (i, next, found, m, s, _, j, _) = request in
                    inr (
                      c,
                      i,
                      e,
                      find_incident_for-Mem (decide env c message) db.tables i found,
                      m,
                      s,
                      a,
                      one ∙ ap (λ x. x ∷ []) (some-injective _ _ (sym q ∙ j)),
                    )
              ]
            ],
          )
    ]
