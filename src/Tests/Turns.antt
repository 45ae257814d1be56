-- ===== src/Tests/Turns.antt =====
-- The theorems on conversations at concrete inputs.
use oncall.Conversation.Offline.{handle_turn-knowledge_raises}
use oncall.Tests.Data.{db_with}
use oncall.Conversation.Ownership.{send_message-IsBounded}
use oncall.Conversation.Boundary.{IsUndecided, IsIdle, handle_turn-blocks}
use oncall.Conversation.Answers.{Services, Conversation, can_start, invalid_query, may_operate}
use oncall.Conversation.Turns.{ChatDb, TurnResult, handle_turn}
use oncall.Conversation.Router.{send_message, SendAnswer, owned}
use Prim.Native.Nat.{◌/◌}
use oncall.Prelude.{
  ℕ, List, [], decimal, false, none, ok, raised, refl, some, true, ◌∷◌, ◌≡◌, ◌⊎◌, Mem,
}
use oncall.Auth.Tokens.{User}
use oncall.Models.{PlanStatus, Incident}
use oncall.Incidents.State.{coerce_status, IncidentStatus}
use oncall.Conversation.Intents.{
  is_approval, approval_blocked, deterministic_route, investigate_action, no_action, plan_action,
}

abbrev env : Services
env = record {
  search_uuid = λ s. some 1;
  search_service = λ s. some "cart";
  str_uuid = decimal;
  search_knowledge = λ q. [];
  routing = none;
  answering = none;
  live_mode = false;
  now = 7000000;
}

abbrev operator : User
operator = record {
  id = 3;
  username = "o";
  password_hash = "h";
  role = "operator";
  is_active = true;
}

abbrev talk : Conversation
talk = record { id = 50; user_id = 3; title = "新对话"; last_intent = none; linked_incident_id = none }

abbrev chat : ChatDb
chat = record {
  tables = db_with IncidentStatus.need_human PlanStatus.rejected [] [];
  conversations = talk ∷ [];
  messages = [];
}

abbrev after_request : SendAnswer × ChatDb × List (ℕ × ℕ)
after_request = send_message env (λ job. true) 50 operator "请排查 order-api 的告警" chat

-- The messages of tests/test_conversation_router.py.
routes :
    ((deterministic_route (λ s. none) (λ s. none) "发布后错误率升高应该怎么排查？").action ≡ no_action)
    × ((deterministic_route (λ s. none) (λ s. none) "请排查 order-api 的告警").action
        ≡ investigate_action)
    × ((deterministic_route (λ s. none) (λ s. none) "为 order-api 生成修复方案").action ≡ plan_action)
    × ((deterministic_route (λ s. none) (λ s. none) "批准并立即回滚 order-api").action ≡ approval_blocked)
unfolding deterministic_route
routes = (refl, refl, refl, refl)

requested_once : after_request.2 ≡ (1, 7) ∷ []
unfolding send_message coerce_status
requested_once = refl

send_message-IsBounded_example :
    IsUndecided chat.tables after_request.1.tables
    × ((after_request.2 ≡ [])
        ⊎ ((c : Conversation) × (i : Incident) × (owned 50 operator chat ≡ some c)
            × Mem i chat.tables.incidents
            × (may_operate operator ≡ true)
            × (can_start i.status ≡ true)
            × (is_approval "请排查 order-api 的告警" ≡ false)
            × (after_request.2 ≡ (i.id, env.now / 1000000) ∷ [])))
send_message-IsBounded_example =
    send_message-IsBounded env (λ job. true) 50 operator "请排查 order-api 的告警" chat

handle_turn-blocks_example :
    (r : TurnResult) × (db' : ChatDb) × (handle_turn env talk operator "批准并立即回滚 order-api" chat
      ≡ ok (r, db'))
    × IsIdle chat.tables r.enqueue db'.tables
unfolding is_approval
handle_turn-blocks_example = handle_turn-blocks env talk operator "批准并立即回滚 order-api" chat refl

handle_turn-knowledge_raises_example :
    handle_turn env talk operator "发布后错误率升高应该怎么排查？" chat ≡ raised invalid_query
unfolding deterministic_route
handle_turn-knowledge_raises_example =
    handle_turn-knowledge_raises env talk operator "发布后错误率升高应该怎么排查？" chat refl refl
