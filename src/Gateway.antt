-- ===== src/Gateway.antt =====
-- The gateway of the read-only MCP tools: src/oncall/mcp_gateway/client.py with the request of
-- src/oncall/mcp_gateway/schemas.py. The transport, the size of a value's JSON, the validation of
-- a result and the query of the service's binding are parameters.
use oncall.Json.{Value, get, dict, is_text}
use Prim.Native.Char.{code}
use oncall.Prelude.{
  ℕ, String, List, [], Bool, false, nat_beq, true, ◌&&◌, ◌||◌, ◌∷◌, Option, Outcome, all, any,
  first_rest, if◌then◌else◌, is_lower, is_slug, is_slug_char, join, leb, length, ltb, nat_eq, none,
  not, raised, some, string_eq, ◌++◌, ◌-◌, ◌==◌, contains,
}
pub mod Size
pub mod Logs
pub mod Entries
pub mod Search
pub mod Bounds

pub data FailureCategory : Type 0 where
  retryable need_human terminal : FailureCategory

-- `McpGatewayError`, without the call's name and identifier
pub record McpGatewayError : Type 0 where
  pub category : FailureCategory
  pub error_code : String

-- An exception's text, and those that an exception group nests.
mutual
  pub data Raised : Type 0 where
    exception : String → Group → Raised

  pub data Group : Type 0 where
    empty : Group
    nested : Raised → Group → Group

unfoldable mutual
  -- `collect`: the texts in lower case, joined by spaces
  pub messages : (String → String) → Raised → List String
  messages lower (exception message group) = lower message ∷ group_messages lower group

  pub group_messages : (String → String) → Group → List String
  group_messages lower empty = []
  group_messages lower (nested e rest) = messages lower e ++ group_messages lower rest

-- `_transport_failure`
unfoldable pub transport_failure : (String → String) → Raised → McpGatewayError
unfolding messages
transport_failure lower e =
    let combined = join " " (messages lower e) in
    if any (λ marker. contains marker combined)
      ("401" ∷ ("403" ∷ ("unauthorized" ∷ ("forbidden" ∷ []))))
    then record { category = terminal; error_code = "MCP_AUTH_FAILED" }
    else record { category = retryable; error_code = "MCP_TRANSPORT_ERROR" }

-- `QueryLogsRequest`: the times in milliseconds, both with a time zone
pub record QueryLogsRequest : Type 0 where
  pub project_id : String
  pub environment : String
  pub service : String
  pub start_time : ℕ
  pub end_time : ℕ
  pub limit : ℕ
  pub levels : List String

-- ^[a-z][a-z0-9-]{1,high}$
abbrev is_scope_name : ℕ → String → Bool
is_scope_name high s = first_rest is_lower is_slug_char 1 high s

unfoldable pub is_valid_query : QueryLogsRequest → Bool
unfolding is_slug
is_valid_query q =
    is_slug 63 q.project_id
    && (is_scope_name 31 q.environment
        && (is_scope_name 63 q.service
            && (ltb q.start_time q.end_time
                && (leb (q.end_time - q.start_time) 86400000
                    && (leb 1 q.limit
                        && (leb q.limit 100
                            && (leb 1 (length q.levels)
                                && all (λ l. l == "ERROR" || (l == "WARNING" || l == "INFO"))
                                    q.levels)))))))

abbrev pub terminal_error : String → McpGatewayError
terminal_error error_code = record { category = terminal; error_code = error_code }

abbrev is_cls : Option Value → Bool
is_cls (some (dict config)) = is_text "cls" (get "provider" config)
is_cls _ = false

-- `call_read_tool` up to the call of the transport: `request` is what the arguments parse to,
-- `observability_config` the column of the service's row, `none` where there is no row or the
-- query raises. `call_cls_logs` is the rest of the call.
unfoldable pub call_read_tool :
    {A : Type 0}
    → Bool
    → (String → String → String → Option Value)
    → (QueryLogsRequest → Outcome McpGatewayError A)
    → String
    → Option QueryLogsRequest
    → Outcome McpGatewayError A
unfolding is_valid_query get
call_read_tool has_url observability_config call_cls_logs name request =
    if not (name == "query_service_logs")
    then raised (terminal_error "TOOL_NOT_ALLOWED")
    else elim request [
      | none ↦ raised (terminal_error "INVALID_TOOL_ARGUMENTS")
      | some q ↦
          if not (is_valid_query q)
          then raised (terminal_error "INVALID_TOOL_ARGUMENTS")
          else if not has_url
          then raised (terminal_error "CLS_NOT_CONFIGURED")
          else if not (is_cls (observability_config q.project_id q.environment q.service))
          then raised (terminal_error "CLS_SERVICE_NOT_CONFIGURED")
          else call_cls_logs q
    ]
