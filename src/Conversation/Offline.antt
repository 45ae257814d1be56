-- ===== src/Conversation/Offline.antt =====
-- The turns without the router model: src/oncall/conversation/service.py and intents.py.
use oncall.Conversation.Answers.{knowledge_answer, Conversation, Services, invalid_query, is_query}
use oncall.Conversation.Turns.{handle_turn, ChatDb, context_of, decide}
use oncall.Conversation.Intents.{
  route_message, RouterDecision, deterministic_route, is_approval, asks_investigation,
  asks_knowledge, asks_plan, asks_query, asks_to_act, is_blocked, knowledge, names_incident,
}
use oncall.Prelude.{
  ℕ, Option, String, ap, none, true, ◌≡◌, Bool, false, refl, raised, if◌then◌else◌, is_some, leb,
  not, ◌&&◌, ◌||◌, ◌∙◌,
}
use oncall.Auth.Tokens.{User}

or_true : (a : Bool) → (a || true) ≡ true
or_true true = refl
or_true false = refl

project_id-if :
    (b : Bool) (x y : RouterDecision)
    → x.project_id ≡ none
    → y.project_id ≡ none
    → (if b then x else y).project_id ≡ none
project_id-if true x y h k = h
project_id-if false x y h k = k

project_id-deterministic_route :
    (search_uuid : String → Option ℕ) (search_service : String → Option String) (message : String)
    → (deterministic_route search_uuid search_service message).project_id ≡ none
unfolding deterministic_route
project_id-deterministic_route search_uuid search_service message =
    project_id-if (is_approval message) _ _ refl (
      project_id-if (asks_knowledge message && not (asks_to_act message)) _ _ refl (
        project_id-if (asks_plan message) _ _ refl (
          project_id-if (asks_investigation message) _ _ refl (
            project_id-if
              (asks_query message && (names_incident message || is_some (search_uuid message))) _ _
              refl refl))))

route_message_offline :
    (search_uuid : String → Option ℕ) (search_service : String → Option String) (message : String)
    (live_mode : Bool) (answer : Option RouterDecision)
    → live_mode ≡ false
    → route_message search_uuid search_service message live_mode answer
      ≡ deterministic_route search_uuid search_service message
unfolding route_message
route_message_offline search_uuid search_service message live_mode answer live =
    let both : (is_blocked (deterministic_route search_uuid search_service message).action
          || (not live_mode
              || leb 90 (deterministic_route search_uuid search_service message).confidence))
        ≡ true =
      rw live
        (or_true (is_blocked (deterministic_route search_uuid search_service message).action)) in
    rw (route_message, both) refl

-- Without the router model no knowledge question is answered: the deterministic route names no
-- project, which the query wants, and the turn raises.
pub handle_turn-knowledge_raises :
    (env : Services) (c : Conversation) (u : User) (message : String) (db : ChatDb)
    → env.live_mode ≡ false
    → (deterministic_route env.search_uuid env.search_service message).intent ≡ knowledge
    → handle_turn env c u message db ≡ raised invalid_query
unfolding handle_turn knowledge_answer
handle_turn-knowledge_raises env c u message db live k =
    let same : route_message env.search_uuid env.search_service message env.live_mode env.routing
        ≡ deterministic_route env.search_uuid env.search_service message =
      route_message_offline env.search_uuid env.search_service message env.live_mode env.routing
        live in
    let d = decide env c message in
    let i : d.intent ≡ knowledge = ap (λ (x : RouterDecision). x.intent) same ∙ k in
    let p : d.project_id ≡ none =
      ap (λ (x : RouterDecision). x.project_id) same
      ∙ project_id-deterministic_route env.search_uuid env.search_service message in
    let refused : knowledge_answer env d message (context_of c db.messages) ≡ raised invalid_query =
      rw (knowledge_answer, is_query, p) refl in
    rw (handle_turn, i, refused) refl
