-- ===== src/Recovery/Tat.antt =====
-- The adapter of Tencent Cloud TAT: src/oncall/execution/tencent_tat.py. The SDK's two calls are
-- parameters, and so are `json.dumps` and the readings of the monotonic clock, one for each
-- round of the polling loop. Times are in milliseconds.
use oncall.Json.{Items, Value, Fields, dict, end, field, list, num, text, cons, nil, set_field}
use oncall.Recovery.Proof.{RollbackReleaseRequest}
use Prim.Native.Char.{code}
use oncall.Prelude.{
  ℕ, String, Bool, Option, Outcome, all_chars, if◌then◌else◌, is_alnum, leb, ltb, nat_beq, nat_eq,
  none, ok, raised, size, some, string_eq, suc, true, zero, ◌&&◌, ◌+◌, ◌==◌, ◌||◌, false, is_digit,
  is_lower,
}

pub record TencentTatConfig : Type 0 where
  pub region : String
  pub command_id : String
  pub instance_ids : Items
  pub parameters : Fields
  pub target_version_parameter : String
  pub current_version_parameter : Option String
  pub username : Option String
  pub working_directory : Option String
  pub command_timeout_seconds : Option ℕ
  pub poll_timeout : ℕ
  pub poll_interval : ℕ

-- An exception of the SDK's calls: a `TencentTatError`, with its message, or another one.
pub data ApiError : Type 0 where
  tat_error : String → ApiError
  other_error : ApiError

-- [a-z]+\d*, where `seen` says that a letter was read
abbrev in_second : Bool → String → Bool
in_second seen String.[] = seen
in_second seen (String.◌∷◌ c s) =
    let later = in_second true s in
    if is_lower (code c) then later else seen && (is_digit (code c) && all_chars is_digit s)

-- [a-z]+-[a-z]+\d*
abbrev in_first : Bool → String → Bool
in_first seen String.[] = false
in_first seen (String.◌∷◌ c s) =
    let later = in_first true s in
    if is_lower (code c) then later else seen && (nat_beq (code c) b'-' && in_second false s)

abbrev is_region : String → Bool
is_region s = in_first false s && leb (size s) 64

-- [A-Za-z0-9_-]
abbrev pub is_parameter_char : ℕ → Bool
is_parameter_char c = is_alnum c || (nat_beq c b'_' || nat_beq c b'-')

abbrev pub is_parameter_name : String → Bool
is_parameter_name s = all_chars is_parameter_char s && (leb 1 (size s) && leb (size s) 64)

-- `validate_parameter_names`
abbrev pub are_parameter_names : Fields → Bool
are_parameter_names end = true
are_parameter_names (field name v rest) = is_parameter_name name && are_parameter_names rest

abbrev pub when_set {ℓ} : {A : Type ℓ} → (A → Bool) → Option A → Bool
when_set p none = true
when_set p (some a) = p a

abbrev pub is_length : ℕ → ℕ → String → Bool
is_length low high s = leb low (size s) && leb (size s) high

-- `len(xs)`
abbrev pub items_length : Items → ℕ
items_length nil = 0
items_length (cons v rest) = suc (items_length rest)

-- The bounds of the polling: `poll_timeout_seconds` and `poll_interval_seconds`
unfoldable pub are_poll_bounds : ℕ → ℕ → Bool
are_poll_bounds timeout interval =
    leb 5000 timeout && (leb timeout 60000 && (leb 500 interval && leb interval 10000))

-- The patterns and the lengths of the other fields
unfoldable are_valid_fields : TencentTatConfig → Bool
are_valid_fields c =
    is_region c.region
    && (all_chars (λ d. is_alnum d || nat_beq d b'-') c.command_id
        && (is_length 1 128 c.command_id
            && (leb 1 (items_length c.instance_ids)
                && (leb (items_length c.instance_ids) 200
                    && (are_parameter_names c.parameters
                        && (is_parameter_name c.target_version_parameter
                            && (when_set is_parameter_name c.current_version_parameter
                                && (when_set (is_length 1 256) c.username
                                    && (when_set (is_length 1 1024) c.working_directory
                                        && when_set (λ t. leb 1 t && leb t 86400)
                                            c.command_timeout_seconds)))))))))

unfoldable pub is_valid_config : TencentTatConfig → Bool
unfolding are_valid_fields are_poll_bounds
is_valid_config c = are_valid_fields c && are_poll_bounds c.poll_timeout c.poll_interval

-- The parameters of the command.
unfoldable pub command_parameters : RollbackReleaseRequest → TencentTatConfig → Fields
unfolding set_field
command_parameters r c =
    let parameters = set_field c.target_version_parameter (text r.target_version) c.parameters in
    elim c.current_version_parameter [
      | none ↦ parameters
      | some name ↦ set_field name (text r.current_version) parameters
    ]

-- `if value: payload[key] = value`
abbrev add_text : String → Option String → Fields → Fields
add_text key (some s) rest = if nat_beq (size s) 0 then rest else field key (text s) rest
add_text key none rest = rest

abbrev add_timeout : Option ℕ → Fields
add_timeout (some t) = field "Timeout" (num t) end
add_timeout none = end

-- `_command_payload`
unfoldable pub command_payload :
    (Fields → String) → RollbackReleaseRequest → TencentTatConfig → Fields
unfolding command_parameters
command_payload dumps r c = field "CommandId" (text c.command_id) (
    field "InstanceIds" (list c.instance_ids) (
      field "Parameters" (text (dumps (command_parameters r c))) (
        add_text "Username" c.username (
          add_text "WorkingDirectory" c.working_directory
            (add_timeout c.command_timeout_seconds)))))

pub data Verdict : Type 0 where
  succeeded failed waiting : Verdict

-- The two tests of a reported status.
unfoldable pub verdict : Option String → Verdict
verdict none = waiting
verdict (some s) =
    if s == "SUCCESS"
    then succeeded
    else if s == "FAILED"
        || (s == "TIMEOUT"
            || (s == "CANCELLED" || (s == "PARTIAL_FAILED" || s == "PARTIAL_CANCELLED")))
    then failed
    else waiting

-- What the loop ends with.
pub data Polled : Type 0 where
  reported : Verdict → Option String → Polled
  deadline_passed : Option String → Polled

-- The loop from round `i` on, `last` the status that the round before read; `none` is out of fuel.
unfoldable pub poll :
    (ℕ → ℕ)
    → (ℕ → Outcome ApiError (Option String))
    → ℕ
    → ℕ
    → ℕ
    → Option String
    → Option (Outcome ApiError Polled)
unfolding verdict
poll reading describe deadline zero i last = none
poll reading describe deadline (suc fuel) i last =
    let rest = poll reading describe deadline fuel (suc i) in
    if ltb (reading i) deadline
    then elim (describe i) [
      | raised e ↦ some (raised e)
      | ok status ↦ elim (verdict status) [
        | succeeded ↦ some (ok (reported Verdict.succeeded status))
        | failed ↦ some (ok (reported Verdict.failed status))
        | waiting ↦ rest status
      ]
    ]
    else some (ok (deadline_passed last))

-- `status or d`
abbrev status_or : String → Option String → String
status_or d none = d
status_or d (some String.[]) = d
status_or d (some (String.◌∷◌ c s)) = String.◌∷◌ c s

abbrev result : String → String → String → TencentTatConfig → Fields → Value
result status id invocation_status c rest = dict (
    field "status" (text status) (
      field "provider" (text "tencent_tat") (
        field "invocation_id" (text id) (
          field "invocation_status" (text invocation_status)
            (field "instance_ids" (list c.instance_ids) rest)))))

-- The dictionary that the adapter returns.
unfoldable pub polled_result : String → TencentTatConfig → Polled → Value
polled_result id c (reported Verdict.succeeded status) =
    result "succeeded" id (status_or "PENDING" status) c end
polled_result id c (reported _ status) = result "failed" id (status_or "PENDING" status) c end
polled_result id c (deadline_passed last) =
    result "failed" id (status_or "PENDING" last) c
      (field "error" (text "Timed out while waiting for Tencent Cloud TAT.") end)

abbrev pub error_text : ApiError → String
error_text (tat_error message) = message
error_text other_error = "Tencent Cloud TAT request failed"

-- `invoke_tencent_tat_rollback`: the deadline counts from the reading at `start`.
unfoldable pub invoke_tencent_tat_rollback :
    (Fields → String)
    → (Fields → Outcome ApiError String)
    → (ℕ → ℕ)
    → (ℕ → Outcome ApiError (Option String))
    → ℕ
    → ℕ
    → TencentTatConfig
    → RollbackReleaseRequest
    → Option (Outcome String Value)
unfolding command_payload poll polled_result
invoke_tencent_tat_rollback dumps invoke_command reading describe start fuel c r =
    elim (invoke_command (command_payload dumps r c)) [
      | raised e ↦ some (raised (error_text e))
      | ok id ↦ elim (poll reading describe (start + c.poll_timeout) fuel 0 none) [
        | none ↦ none
        | some (raised e) ↦ some (raised (error_text e))
        | some (ok polled) ↦ some (ok (polled_result id c polled))
      ]
    ]
