-- ===== src/Lib.antt =====
-- A model of the OnCall incident service: how alerts become incidents, how a remediation plan is
-- approved, executed once and verified, and how the sessions of its users work.
--
-- The program. Webhooks bring alerts (src/oncall/alerts), which are grouped into incidents
-- (src/oncall/incidents). A worker (src/oncall/jobs) runs the graph of an incident
-- (src/oncall/graph), in which agents (src/oncall/agents) investigate and draft a plan. The graph
-- stops until a user decides on the plan (src/oncall/incidents/router.py); an approval resumes it,
-- and it executes the plan through the Recovery MCP and verifies the recovery
-- (src/oncall/execution), under the policy (src/oncall/policy). The agents read logs through the MCP
-- gateway (src/oncall/mcp_gateway); the Recovery MCP (mcp_servers/recovery) checks the proof of the
-- approval and runs the rollback through Tencent TAT. From a resolved incident an experience is
-- extracted, reviewed and published, and from it a skill (src/oncall/experience, src/oncall/skills),
-- which later runs of the agents select. In conversations (src/oncall/conversation) users ask for
-- knowledge and request investigations. Users log in with rotating refresh tokens (src/oncall/auth).
--
-- The files.
--   Prelude, Json, Models: shared helpers, JSON values, and the rows of src/oncall/models.py. The
--     tables are a record of lists, Db. A select is find, select or latest_by, an assignment to a
--     loaded row is update_first, a bulk update is update_where.
--   Incidents/State: src/oncall/incidents/state.py, with the sequences of transitions in State/Paths.
--   Incidents/Service: src/oncall/incidents/service.py, correlation and links.
--   Incidents/Router: approve_incident, reject_incident and retry_investigation of
--     src/oncall/incidents/router.py, with their laws in Incidents/Decisions.
--   Alerts/Service: src/oncall/alerts/service.py, one loop round per envelope; the proofs are in its
--     children Counting, Induction and Identity.
--   Alerts/Webhook: src/oncall/alerts/router.py, with the adapters of
--     src/oncall/alerts/adapters/tencent.py in Alerts/Readers and Adapters, and
--     src/oncall/alerts/fingerprint.py in Fingerprint; the laws are in Webhook/Admission,
--     Webhook/Scoped, Adapters/Scope and Adapters/Replay.
--   Knowledge/Tokens, Chunking, Sections, Documents: src/oncall/rag/chunking.py, with the laws in
--     Windows and Chunks.
--   Conversation/Intents, Answers, Turns, Router: src/oncall/conversation, the routing of a message and
--     its turn; the laws are in Boundary, Offline and Ownership.
--   Graph/Contracts, Graph/Incident: ActionPlanDraft, and the nodes and routes of the outer graph.
--   Policy: evaluate_action_plan of src/oncall/policy/engine.py.
--   Execution/Service, Begin, Finish: execute_approved_plan of src/oncall/execution/service.py as its
--     two transactions; Claims and Concurrency hold what is proved of them, the latter for every
--     interleaving of workers.
--   Execution/Verification, Workflow, Recording: verify_recovery and verify_executed_plan of
--     src/oncall/execution, with the laws in Recovered.
--   Jobs/Tasks, Jobs/Resume: start_incident and resume_incident of src/oncall/jobs/tasks.py, with the
--     laws in Jobs/Walk and Jobs/Outcomes.
--   Agents/Supervisor: src/oncall/agents/supervisor.py, with the laws in Gates.
--   Agents/Loop, Agents/Output: the agents' tools and the result of their run, of
--     src/oncall/agents/openai_loop.py, with the laws in Reads and Plans.
--   Gateway, Gateway/Logs, Gateway/Size: src/oncall/mcp_gateway/client.py, the checks before a call, the
--     query of CLS and the entries of its answer, and the bounding of the result, with the laws in
--     Search, Entries and Bounds.
--   Recovery/Proof, Recovery/Server: create_approval_proof of src/oncall/execution/service.py and its
--     check by mcp_servers/recovery/server.py, with the laws in Signed and Once.
--   Recovery/Tat: src/oncall/execution/tencent_tat.py, with the laws in Polling and Command.
--   Learning: the rows of experiences and skills; Material, Manifest, Versions and Skills are
--     src/oncall/skills/evolution.py with the manifest of src/oncall/skills/schemas.py, Router the
--     routes of src/oncall/experience/router.py; Extraction, Grounds, Experiences and Reviews are
--     src/oncall/experience/extraction.py and service.py; the laws are in Names, Active, Served and
--     Eligible.
--   Skills/Registry, Skills/Selection: src/oncall/skills/registry.py and selection.py, with the laws of
--     the registry in Ranking.
--   Auth/Tokens, Auth/Router: src/oncall/auth/tokens.py and the three session routes; the laws are in
--     Families, Sessions and Replay.
--   Auth/Admin: the administration of users of src/oncall/auth/admin_router.py with the checks of
--     src/oncall/auth/dependencies.py; the laws are in Admins.
--   Tests: the theorems at concrete inputs.
--
-- Conventions. A UUID and a point in time (in microseconds) are natural numbers; a fresh UUID is the
-- counter next_id. A transaction is a function on the tables that returns new tables or an exception,
-- which rolls back; row and advisory locks make transactions on one row follow one another, so their
-- interleavings are sequences. What other sessions do between two transactions is an argument.
-- Services are parameters or arguments: the Recovery MCP's reply, the log query's answer, the model's
-- answer, SHA-256 and HMAC, password verification, the text of a JSON value. The polling loop of
-- Recovery/Tat runs on fuel, of which 121 rounds are proved enough, and the loop over the windows of
-- Knowledge/Chunking on as many rounds as there are tokens, which are proved enough too; every other
-- loop is a recursion over a list.
--
-- Not modelled: the SDK's run of the agents with its prompts, the import and search of the knowledge
-- base (Milvus and embeddings are services), the long-term memory of conversations and their patterns
-- of UUIDs and service names, evaluation, the reading routes and the frontend.
pub mod Prelude
pub mod Json
pub mod Models
pub mod Incidents
pub mod Alerts
pub mod Graph
pub mod Policy
pub mod Recovery
pub mod Gateway
pub mod Learning
pub mod Execution
pub mod Auth
pub mod Conversation
pub mod Agents
pub mod Jobs
pub mod Knowledge
pub mod Skills
pub mod Tests
