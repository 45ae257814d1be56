-- ===== src/Agents/Loop.antt =====
-- The tools of the agents' run and what is made of its output: src/oncall/agents/openai_loop.py.
-- The SDK that runs the agents is outside: the calls of the tools that it makes are a list, its
-- output is an argument. So are the answers of the MCP gateway and of the knowledge search.
use oncall.Json.{Fields, set_field, field, boolean, dict, end, text}
use oncall.Prelude.{
  take_chars, ℕ, String, List, [], Bool, Option, any, false, if◌then◌else◌, join, leb, length, map,
  nat_eq, none, not, some, string_eq, suc, true, ◌&&◌, ◌++◌, ◌==◌, ◌∷◌, take,
}
use oncall.Incidents.State.{status_eq}

pub record EvidenceItem : Type 0 where
  pub source_type : String
  pub source_ref : String
  pub observation : String
  pub payload : Fields

pub record KnowledgeCitationDraft : Type 0 where
  pub document_id : String
  pub document_version : Option String
  pub section : Option String
  pub file_path : Option String
  pub locator : Option String
  pub excerpt : Option String
  pub score : Option ℕ

-- The fields of the graph's state that the run reads.
pub record IncidentGraphState : Type 0 where
  pub incident_id : String
  pub graph_run_id : Option String
  pub project_id : String
  pub environment : String
  pub service : String
  pub evidence : List EvidenceItem
  pub knowledge_citations : List KnowledgeCitationDraft
  pub investigation_rounds : ℕ
  pub model_call_count : ℕ
  pub no_progress_rounds : ℕ

pub record IncidentAgentContext : Type 0 where
  pub state : IncidentGraphState
  pub allowed_read_tools : List String
  pub max_tool_calls : ℕ
  pub evidence : List EvidenceItem
  pub citations : List KnowledgeCitationDraft
  pub tool_call_count : ℕ

-- What `call_read_tool` returns, or raises as an `McpGatewayError`, each with the call's identifier; or
-- another exception.
pub data GatewayReply : Type 0 where
  read : String → Bool → Fields → GatewayReply
  failed : String → String → String → GatewayReply
  broken : GatewayReply

-- A document that `search_knowledge` found.
pub record Hit : Type 0 where
  pub document_id : String
  pub version : Option String
  pub section_path : String
  pub source_path : String
  pub content : String
  pub score : ℕ

-- What goes to the gateway, with the incident and the run, and to the knowledge search.
pub data Sent : Type 0 where
  to_gateway : String → Fields → Sent
  to_knowledge : String → String → String → String → Sent

abbrev pub add_evidence : List EvidenceItem → IncidentAgentContext → IncidentAgentContext
add_evidence items c = record c { evidence = c.evidence ++ items }

abbrev pub one_more_tool_call : IncidentAgentContext → IncidentAgentContext
one_more_tool_call c = record c { tool_call_count = suc c.tool_call_count }

-- `{**arguments, **scope}`
unfoldable pub scoped : IncidentGraphState → Fields → Fields
unfolding set_field
scoped s arguments = set_field "service" (text s.service) (
    set_field "environment" (text s.environment)
      (set_field "project_id" (text s.project_id) arguments))

abbrev pub evidence_of : String → GatewayReply → List EvidenceItem
evidence_of name (read tool_call_id truncated data_read) =
    (record {
      source_type = "mcp";
      source_ref = join ":" (name ∷ (tool_call_id ∷ []));
      observation = join "" (name ∷ (" returned validated read-only data" ∷ []));
      payload = field "truncated" (boolean truncated) (field "data" (dict data_read) end);
    })
    ∷ []
evidence_of name (failed tool_call_id error_code category) =
    (record {
      source_type = "mcp";
      source_ref = join ":" (name ∷ (tool_call_id ∷ []));
      observation = join "" (name ∷ (" failed with safe category " ∷ (category ∷ [])));
      payload = field "code" (text error_code) (field "category" (text category) end);
    })
    ∷ []
evidence_of name broken = []

-- The dictionary for the agent; `none` where the exception leaves `_read_mcp`.
abbrev pub read_answer : String → GatewayReply → Option Fields
read_answer name (read tool_call_id truncated data_read) = some (
    field "ok" (boolean true) (
      field "tool" (text name) (
        field "evidence_ref" (text (join ":" (name ∷ (tool_call_id ∷ []))))
          (field "truncated" (boolean truncated) (field "data" (dict data_read) end)))))
read_answer name (failed tool_call_id error_code category) = some (
    field "ok" (boolean false) (
      field "tool" (text name) (
        field "evidence_ref" (text (join ":" (name ∷ (tool_call_id ∷ []))))
          (field "code" (text error_code) (field "category" (text category) end)))))
read_answer name broken = none

abbrev pub refused : String → String → Fields
refused error_code name =
    field "ok" (boolean false) (field "code" (text error_code) (field "tool" (text name) end))

abbrev pub is_named : String → List String → Bool
is_named name names = any (λ t. t == name) names

-- `_read_mcp`: the answer to the agent, what was sent, and the context after it
unfoldable pub read_mcp :
    (String → Fields → GatewayReply)
    → String
    → Fields
    → IncidentAgentContext
    → Option Fields × List Sent × IncidentAgentContext
unfolding scoped
read_mcp call_read_tool name arguments c =
    if not (is_named name c.allowed_read_tools)
    then (some (refused "TOOL_NOT_ALLOWED_BY_SKILL" name), [], c)
    else if leb c.max_tool_calls c.tool_call_count
    then (some (refused "TOOL_CALL_BUDGET_EXHAUSTED" name), [], c)
    else (
      read_answer name (call_read_tool name (scoped c.state arguments)),
      to_gateway name (scoped c.state arguments) ∷ [],
      add_evidence (evidence_of name (call_read_tool name (scoped c.state arguments)))
          (one_more_tool_call c),
    )

abbrev pub option_beq : Option String → Option String → Bool
option_beq none none = true
option_beq (some a) (some b) = a == b
option_beq _ _ = false

abbrev pub same_key : KnowledgeCitationDraft → KnowledgeCitationDraft → Bool
same_key a b =
    a.document_id == b.document_id
    && (option_beq a.locator b.locator && option_beq a.section b.section)

abbrev pub citation_of : Hit → KnowledgeCitationDraft
citation_of h = record {
  document_id = h.document_id;
  document_version = h.version;
  section = some (take_chars 512 h.section_path);
  file_path = some h.source_path;
  locator = some h.source_path;
  excerpt = some (take_chars 2048 h.content);
  score = some h.score;
}

-- `known` is the keys of what the context has.
unfoldable pub add_citations :
    List KnowledgeCitationDraft → List KnowledgeCitationDraft → List KnowledgeCitationDraft
add_citations [] known = known
add_citations (c ∷ rest) known =
    if any (same_key c) known
    then add_citations rest known
    else add_citations rest (known ++ (c ∷ []))

-- `search_approved_knowledge`; `none` is an exception of the search. Its answer to the agent holds
-- the citations, whose dump is left out.
unfoldable pub search_approved_knowledge :
    (String → Option (List Hit))
    → String
    → IncidentAgentContext
    → Bool × List Sent × IncidentAgentContext
unfolding add_citations
search_approved_knowledge search_knowledge query c =
    if leb c.max_tool_calls c.tool_call_count
    then (false, [], c)
    else let sent =
        to_knowledge c.state.project_id c.state.environment c.state.service
          (take_chars 4000 query) in
      elim (search_knowledge (take_chars 4000 query)) [
        | none ↦ (false, sent ∷ [], one_more_tool_call c)
        | some hits ↦ (
          leb 1 (length hits),
          sent ∷ [],
          record c {
            tool_call_count = suc c.tool_call_count;
            citations = add_citations (map citation_of (take 5 hits)) c.citations;
          },
        )
      ]
