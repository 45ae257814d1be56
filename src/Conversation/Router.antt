-- ===== src/Conversation/Router.antt =====
-- The routes of a conversation that write: src/oncall/conversation/router.py. The tables are committed
-- before the job is queued.
use oncall.Conversation.Answers.{Services, Conversation}
use oncall.Conversation.Turns.{handle_turn, ChatDb, TurnResult}
use oncall.Prelude.{
  ℕ, Bool, List, Option, Outcome, String, [], find, if◌then◌else◌, leb, nat_eq, none, not, ok,
  raised, size, some, string_eq, true, ◌&&◌, ◌==◌, ◌∷◌,
}
use oncall.Auth.Tokens.{User}

pub data SendAnswer : Type 0 where
  answered : TurnResult → SendAnswer
  -- 422, 404 and 500
  invalid_message no_conversation turn_failed : SendAnswer

-- `_owned`
unfoldable pub owned : ℕ → User → ChatDb → Option Conversation
unfolding find
owned conversation_id user db =
    find (λ c. c.id == conversation_id && c.user_id == user.id) db.conversations

abbrev pub sent : (ℕ × ℕ → Bool) → TurnResult → ChatDb → SendAnswer × ChatDb × List (ℕ × ℕ)
sent delay r db = elim r.enqueue [
  | none ↦ (answered r, db, [])
  | some job ↦ if delay job then (answered r, db, job ∷ []) else (turn_failed, db, [])
]

-- `send_message`; `delay` tells whether the queue takes a job.
unfoldable pub send_message :
    Services → (ℕ × ℕ → Bool) → ℕ → User → String → ChatDb → SendAnswer × ChatDb × List (ℕ × ℕ)
unfolding owned handle_turn
send_message env delay conversation_id user message db =
    if not (leb 1 (size message) && leb (size message) 8000)
    then (invalid_message, db, [])
    else elim (owned conversation_id user db) [
      | none ↦ (no_conversation, db, [])
      | some c ↦ elim (handle_turn env c user message db) [
        | raised e ↦ (turn_failed, db, [])
        | ok r ↦ sent delay r.0 r.1
      ]
    ]

-- `create_conversation`; `id` is fresh.
unfoldable pub create_conversation :
    ℕ → Option String → User → ChatDb → Outcome SendAnswer (Conversation × ChatDb)
create_conversation id title user db =
    if (elim title [ none ↦ true | some t ↦ leb (size t) 256 ])
    then (let c : Conversation = record {
      id = id;
      user_id = user.id;
      title = elim title [ none ↦ "新对话" | some t ↦ if t == "" then "新对话" else t ];
      last_intent = none;
      linked_incident_id = none;
    } in
        ok (c, record db { conversations = c ∷ db.conversations }))
    else raised invalid_message
