-- ===== src/Alerts/Webhook.antt =====
-- The webhook routes: src/oncall/alerts/router.py, with src/oncall/projects/security.py. A request
-- is one transaction, committed before the investigations are queued. Base64, the queue and the
-- clocks are parameters.
pub mod Admission
pub mod Scoped
use oncall.Alerts.Readers.{Platform, AdapterError, overflow_error}
use oncall.Json.{Value, Fields, as_dict}
use oncall.Alerts.Adapters.{normalize}
use oncall.Prelude.{
  ℕ, Bool, List, Option, String, [], false, find, if◌then◌else◌, nat_eq, none, not, ok, raised,
  some, split_once, string_eq, strip, true, update_first, ◌&&◌, ◌==◌, ◌∷◌,
}
use oncall.Models.{CloudProject, Db}
use oncall.Alerts.Service.{AlertEnvelope, Gathered, ingest_normalized_alerts}

pub record AlertIntegration : Type 0 where
  pub id : ℕ
  pub cloud_project_id : ℕ
  pub integration_key : String
  pub source : String
  pub environment : String
  pub service : String
  pub secret_hash : String
  pub active : Bool
  pub last_received_at : Option ℕ

pub record HubDb : Type 0 where
  pub integrations : List AlertIntegration
  pub tables : Db

-- The answer: 202, 404, 401, 409, 422, 503 and 500.
pub data WebhookAnswer : Type 0 where
  received : Gathered → WebhookAnswer
  unknown_integration authentication_failed project_unavailable : WebhookAnswer
  invalid_delivery queue_unavailable internal_error : WebhookAnswer

-- `202 Accepted`
abbrev pub is_received : WebhookAnswer → Bool
is_received (received g) = true
is_received _ = false

abbrev pub answer_of : Gathered → Bool → WebhookAnswer
answer_of g true = received g
answer_of g false = queue_unavailable

-- An `OverflowError` is not caught.
abbrev pub refused : AdapterError → WebhookAnswer
refused overflow_error = internal_error
refused _ = invalid_delivery

-- What the route calls outside of the repository.
pub record Hub : Type 0 where
  pub os : Platform
  -- the decoded text of valid Base64 of UTF-8
  pub b64decode : String → Option String
  -- whether the queue takes the job of an incident
  pub delay : ℕ → Bool
  -- the time when ingestion starts, and when the reception is stamped
  pub received_at : ℕ
  pub stamped_at : ℕ
  -- `datetime.now` of the adapter's rounds, and the database's clock in the rounds of ingestion
  pub adapter_clock : ℕ → ℕ
  pub db_clock : ℕ → ℕ

module _ (hub : Hub) where
  abbrev pub verify_integration_secret : String → String → Bool
  verify_integration_secret secret expected_hash = hub.os.sha256 secret == expected_hash

  abbrev after_colon : Option String → Option String
  after_colon none = none
  after_colon (some decoded) = elim (split_once b':' decoded) [
    | none ↦ none
    | some parts ↦ some parts.1
  ]

  -- the secret that an `Authorization` header shows
  unfoldable pub supplied : Option String → Option String
  unfolding split_once strip
  supplied none = none
  supplied (some header) = elim (split_once b' ' header) [
    | none ↦ none
    | some parts ↦
        if hub.os.lower parts.0 == "bearer"
        then some (strip parts.1)
        else if hub.os.lower parts.0 == "basic"
        then after_colon (hub.b64decode parts.1)
        else none
  ]

  -- `_verify_integration_auth` does not raise.
  unfoldable pub authenticates : AlertIntegration → Option String → Bool
  unfolding supplied
  authenticates integration authorization = elim (supplied authorization) [
    | none ↦ false
    | some secret ↦
        not (secret == "")
        && (integration.active && verify_integration_secret secret integration.secret_hash)
  ]

  -- The jobs that the queue took, and whether it took them all.
  unfoldable pub enqueue : List ℕ → List ℕ × Bool
  enqueue [] = ([], true)
  enqueue (id ∷ ids) =
      let rest = enqueue ids in if hub.delay id then (id ∷ rest.0, rest.1) else ([], false)

  abbrev stamp : ℕ → AlertIntegration → AlertIntegration
  stamp now i = record i { last_received_at = some now }

  -- From the normalized alerts on.
  unfoldable pub ingest :
      AlertIntegration
      → CloudProject
      → Fields
      → List AlertEnvelope
      → HubDb
      → WebhookAnswer × HubDb × List ℕ
  unfolding ingest_normalized_alerts enqueue update_first
  ingest integration project payload es db =
      elim (ingest_normalized_alerts project.project_id integration.source payload es
        hub.received_at hub.db_clock db.tables) [
          | raised e ↦ (invalid_delivery, db, [])
          | ok (g, tables) ↦
              let db1 : HubDb = record {
                integrations =
                    update_first (λ i. i.id == integration.id) (stamp hub.stamped_at)
                      db.integrations;
                tables = tables;
              } in
              let sent = enqueue g.incident_ids in (answer_of g sent.1, db1, sent.0)
        ]

  -- After authentication; the body is `none` where it is not JSON.
  unfoldable pub deliver :
      AlertIntegration → CloudProject → Option Value → HubDb → WebhookAnswer × HubDb × List ℕ
  unfolding normalize ingest
  deliver integration project body db = elim (as_dict body) [
    | none ↦ (invalid_delivery, db, [])
    | some payload ↦
        elim (normalize hub.os integration.source project.project_id integration.environment
          integration.service hub.adapter_clock payload) [
            | raised e ↦ (refused e, db, [])
            | ok es ↦ ingest integration project payload es db
          ]
  ]

  -- `_receive_catalog_webhook`: the answer, the committed tables and the queued jobs
  unfoldable pub receive_catalog_webhook :
      String → String → Option String → Option Value → HubDb → WebhookAnswer × HubDb × List ℕ
  unfolding find authenticates deliver
  receive_catalog_webhook expected_source integration_key authorization body db =
      elim (find (λ i. i.integration_key == integration_key) db.integrations) [
        | none ↦ (unknown_integration, db, [])
        | some i ↦
            if not (i.source == expected_source)
            then (unknown_integration, db, [])
            else if not (authenticates i authorization)
            then (authentication_failed, db, [])
            else elim (find (λ p. p.id == i.cloud_project_id) db.tables.projects) [
              | none ↦ (project_unavailable, db, [])
              | some p ↦ if not p.active then (project_unavailable, db, []) else deliver i p body db
            ]
      ]

  abbrev pub receive_tencent_monitor_webhook :
      String → Option String → Option Value → HubDb → WebhookAnswer × HubDb × List ℕ
  receive_tencent_monitor_webhook = receive_catalog_webhook "tencent_monitor"

  abbrev pub receive_tencent_cls_webhook :
      String → Option String → Option Value → HubDb → WebhookAnswer × HubDb × List ℕ
  receive_tencent_cls_webhook = receive_catalog_webhook "tencent_cls"
