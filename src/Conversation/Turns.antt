-- ===== src/Conversation/Turns.antt =====
-- One turn of a conversation: `handle_turn` of src/oncall/conversation/service.py. What the long-term
-- memory returns goes only into the model's prompt, and what is added to it after the turn cannot
-- make the turn fail; it is left out.
use oncall.Conversation.Intents.{route_message, RouterDecision, Intent, incident_intent, knowledge}
use oncall.Conversation.Answers.{
  ConversationMessage, Conversation, knowledge_answer, Services, TurnError, incident_answer,
}
use oncall.Json.{Fields, Items, end, nil}
use oncall.Prelude.{
  ℕ, List, Option, Outcome, String, [], if◌then◌else◌, join, nat_eq, none, ok, raised, select, some,
  string_eq, strip, take_chars, update_first, ◌==◌, ◌∷◌, take,
}
use oncall.Models.{Db}
use oncall.Auth.Tokens.{User}
use oncall.Incidents.State.{status_eq}

pub record ChatDb : Type 0 where
  pub tables : Db
  pub conversations : List Conversation
  pub messages : List ConversationMessage

pub record TurnResult : Type 0 where
  pub answer : String
  pub route : RouterDecision
  pub enqueue : Option (ℕ × ℕ)

abbrev reversed : List ConversationMessage → List String → List String
reversed [] lines = lines
reversed (m ∷ ms) lines =
    reversed ms (join "" (m.role ∷ ": " ∷ take_chars 1000 m.content ∷ []) ∷ lines)

-- The twelve newest messages of the conversation, the oldest of them first; the rows of `messages`
-- stand with the newest first.
unfoldable pub context_of : Conversation → List ConversationMessage → String
unfolding select
context_of conversation messages =
    join "\n" (reversed (take 12 (select (λ m. m.conversation_id == conversation.id) messages)) [])

-- An incident that the message does not name is the conversation's.
abbrev incident_named : Intent → Option ℕ → Option ℕ → Option ℕ
incident_named knowledge named linked = named
incident_named incident_intent none linked = linked
incident_named incident_intent (some id) linked = some id

-- The decision on a message.
unfoldable pub decide : Services → Conversation → String → RouterDecision
unfolding route_message
decide env conversation message =
    let d = route_message env.search_uuid env.search_service message env.live_mode env.routing in
    record d { incident_id = incident_named d.intent d.incident_id conversation.linked_incident_id }

abbrev user_message : Conversation → String → ConversationMessage
user_message conversation message = record {
  conversation_id = conversation.id;
  role = "user";
  content = strip message;
  route = none;
  citations = nil;
  metadata = end;
}

abbrev assistant_message :
    Conversation → String → RouterDecision → Items → Fields → ConversationMessage
assistant_message conversation answer d citations metadata = record {
  conversation_id = conversation.id;
  role = "assistant";
  content = answer;
  route = some d;
  citations = citations;
  metadata = metadata;
}

-- The assignments to the row of the conversation.
abbrev updated : String → Intent → Option ℕ → Conversation → Conversation
updated message intent linked c = record c {
  title = if c.title == "新对话" then take_chars 80 (strip message) else c.title;
  last_intent = some intent;
  linked_incident_id = linked;
}

-- The two messages and the conversation, as they are flushed.
unfoldable pub recorded :
    Conversation
    → String
    → RouterDecision
    → String
    → Items
    → Fields
    → Option ℕ
    → Db
    → ChatDb
    → ChatDb
unfolding strip update_first
recorded conversation message d answer citations metadata linked tables db = record {
  tables = tables;
  conversations =
      update_first (λ c. c.id == conversation.id) (updated message d.intent linked)
        db.conversations;
  messages =
      assistant_message conversation answer d citations metadata
      ∷ user_message conversation message
      ∷ db.messages;
}

-- `handle_turn`, up to the long-term memory, which is written after the turn is flushed.
unfoldable pub handle_turn :
    Services → Conversation → User → String → ChatDb → Outcome TurnError (TurnResult × ChatDb)
unfolding knowledge_answer incident_answer recorded decide context_of
handle_turn env conversation user message db =
    let d = decide env conversation message in
    elim d.intent [
      | knowledge ↦ (elim (knowledge_answer env d message (context_of conversation db.messages)) [
        | raised e ↦ raised e
        | ok r ↦ ok (
          record { answer = r.0; route = d; enqueue = none },
          recorded conversation message d r.0 r.1 end conversation.linked_incident_id db.tables db,
        )
      ])
      | incident_intent ↦ (elim (incident_answer env d conversation user db.tables) [
        | raised e ↦ raised e
        | ok r ↦ ok (
          record { answer = r.answer; route = d; enqueue = r.enqueue },
          recorded conversation message d r.answer nil r.metadata r.linked r.tables db,
        )
      ])
    ]
