-- ===== src/Conversation/Intents.antt =====
-- The routing of a message: src/oncall/conversation/intents.py and `RouterDecision` of
-- src/oncall/conversation/schemas.py. Confidences are in percent. The searches for a UUID and for the
-- name of a service are parameters, and so is the model's answer.
use Prim.Native.Char.{code}
use oncall.Prelude.{
  ℕ, Bool, List, Option, String, [], any, false, if◌then◌else◌, is_some, is_upper, leb, nat_beq,
  none, not, size, some, suc, true, zero, ◌&&◌, ◌+◌, ◌||◌, ◌∷◌,
}

pub data Intent : Type 0 where
  knowledge incident_intent : Intent

pub data Action : Type 0 where
  no_action query_action investigate_action plan_action approval_blocked : Action

pub record RouterDecision : Type 0 where
  pub intent : Intent
  pub action : Action
  pub incident_id : Option ℕ
  pub project_id : Option String
  pub environment : Option String
  pub service : Option String
  pub confidence : ℕ
  pub rationale : String

-- `validate_intent_action` does not raise.
abbrev pub fits_intent : Intent → Action → Bool
fits_intent knowledge no_action = true
fits_intent knowledge _ = false
fits_intent incident_intent no_action = false
fits_intent incident_intent _ = true

-- `RouterDecision(...)` is valid.
abbrev pub is_decision : RouterDecision → Bool
is_decision d =
    fits_intent d.intent d.action && (leb d.confidence 100 && leb (size d.rationale) 512)

-- The ASCII letter in lower case; three letters beyond ASCII match one under `re.I`.
abbrev fold_case : ℕ → ℕ
fold_case c =
    if is_upper c
    then c + 32
    else if nat_beq c 304 || nat_beq c 305
    then b'i'
    else if nat_beq c 383
    then b's'
    else c

abbrev begins_with : String → String → Bool
begins_with String.[] t = true
begins_with (String.◌∷◌ c s) String.[] = false
begins_with (String.◌∷◌ c s) (String.◌∷◌ d t) =
    nat_beq (code c) (fold_case (code d)) && begins_with s t

-- A pattern that is one text, in lower case, is found in a message.
unfoldable pub has : String → String → Bool
has w String.[] = begins_with w String.[]
has w (String.◌∷◌ c s) = begins_with w (String.◌∷◌ c s) || has w s

abbrev pub has_any : List String → String → Bool
has_any ws s = any (λ w. has w s) ws

-- `.{0,n}(w|...)` at the start of a text
abbrev soon : ℕ → List String → String → Bool
soon zero ws s = any (λ w. begins_with w s) ws
soon (suc n) ws String.[] = any (λ w. begins_with w String.[]) ws
soon (suc n) ws (String.◌∷◌ c s) =
    any (λ w. begins_with w (String.◌∷◌ c s)) ws || (not (nat_beq (code c) 10) && soon n ws s)

-- `.{0,n}(w|...)` after `first`, which matches at the start of a text or not
abbrev after_first : String → ℕ → List String → String → Bool
after_first String.[] n ws t = soon n ws t
after_first (String.◌∷◌ c s) n ws String.[] = false
after_first (String.◌∷◌ c s) n ws (String.◌∷◌ d t) =
    nat_beq (code c) (fold_case (code d)) && after_first s n ws t

-- `first.{0,n}(w|...)` is found in a message.
unfoldable pub has_near : String → ℕ → List String → String → Bool
has_near first n ws String.[] = after_first first n ws String.[]
has_near first n ws (String.◌∷◌ c s) =
    after_first first n ws (String.◌∷◌ c s) || has_near first n ws s

unfoldable pub is_approval : String → Bool
unfolding has
is_approval = has_any ("批准" ∷ "审批通过" ∷ "同意执行" ∷ "确认执行" ∷ "立即回滚" ∷ "直接回滚" ∷ "执行回滚" ∷ [])

unfoldable pub asks_plan : String → Bool
unfolding has has_near
asks_plan s = has_any ("修复方案" ∷ "处置方案" ∷ "回滚计划" ∷ "修复计划" ∷ []) s || has_near "生成" 4 ("方案" ∷ []) s

unfoldable pub asks_investigation : String → Bool
unfolding has has_near
asks_investigation s =
    has_any ("排查" ∷ "调查" ∷ "诊断" ∷ "定位" ∷ "处理故障" ∷ []) s
    || has_near "分析" 6 ("故障" ∷ "异常" ∷ "告警" ∷ []) s

unfoldable pub asks_query : String → Bool
unfolding has has_near
asks_query s =
    has_any ("查看" ∷ "查询" ∷ "状态" ∷ "进展" ∷ "证据" ∷ "报告" ∷ []) s
    || has_near "当前" 4 ("故障" ∷ "告警" ∷ "事件" ∷ []) s

unfoldable pub names_incident : String → Bool
unfolding has
names_incident = has_any ("incident" ∷ "故障" ∷ "告警" ∷ "异常" ∷ "事故" ∷ "事件" ∷ [])

unfoldable pub asks_knowledge : String → Bool
unfolding has
asks_knowledge = has_any ("怎么" ∷ "如何" ∷ "为什么" ∷ "什么原因" ∷ "有哪些" ∷ "sop" ∷ "知识" ∷ "教程" ∷ [])

unfoldable pub asks_to_act : String → Bool
unfolding has
asks_to_act = has_any ("请" ∷ "帮我" ∷ "立即" ∷ "开始" ∷ "发起" ∷ [])

abbrev pub is_blocked : Action → Bool
is_blocked approval_blocked = true
is_blocked _ = false

module _ (search_uuid : String → Option ℕ) (search_service : String → Option String) where
  abbrev routed : Intent → Action → ℕ → String → String → RouterDecision
  routed intent action confidence rationale message = record {
    intent = intent;
    action = action;
    incident_id = search_uuid message;
    project_id = none;
    environment = none;
    service = search_service message;
    confidence = confidence;
    rationale = rationale;
  }

  unfoldable pub deterministic_route : String → RouterDecision
  unfolding is_approval asks_plan asks_investigation asks_query names_incident asks_knowledge
      asks_to_act
  deterministic_route message =
      if is_approval message
      then routed incident_intent approval_blocked 100
          "Approval and execution language is blocked at the conversation boundary." message
      else if asks_knowledge message && not (asks_to_act message)
      then routed knowledge no_action 90 "" message
      else if asks_plan message
      then routed incident_intent plan_action 95 "" message
      else if asks_investigation message
      then routed incident_intent investigate_action 90 "" message
      else if asks_query message && (names_incident message || is_some (search_uuid message))
      then routed incident_intent query_action 90 "" message
      else routed knowledge no_action 75 "" message

  -- `answer` is what the model decided, if it returned.
  unfoldable pub route_message : String → Bool → Option RouterDecision → RouterDecision
  unfolding deterministic_route is_approval
  route_message message live_mode answer =
      let guarded = deterministic_route message in
      if is_blocked guarded.action || (not live_mode || leb 90 guarded.confidence)
      then guarded
      else elim answer [
        | none ↦ guarded
        | some decision ↦
            if not (is_decision decision)
            then guarded
            else if is_approval message
            then guarded
            else decision
      ]
