-- ===== src/Alerts/Webhook/Admission.antt =====
-- Who can write through a webhook, and what a failure leaves: src/oncall/alerts/router.py.
use oncall.Alerts.Readers.{AdapterError, invalid_payload, overflow_error, value_error}
use oncall.Alerts.Adapters.{normalize}
use oncall.Json.{Value, Fields, dict, as_dict, boolean, list, null, num, text, uuid}
use oncall.Alerts.Webhook.{
  enqueue, Hub, AlertIntegration, HubDb, WebhookAnswer, authenticates, is_received,
  queue_unavailable, received, ingest, answer_of, deliver, receive_catalog_webhook, refused,
}
use oncall.Prelude.{
  ℕ, List, Option, String, [], false, find, if◌then◌else◌, nat_eq, ok, some, string_eq, true, ◌==◌,
  ◌∷◌, ◌≡◌, ◌⊎◌, Bool-cases, Outcome-cases, arith, inl, inr, refl, Bool, ap, sym, Option-cases,
  eq_iff, none, subst, ◌∙◌,
}
use oncall.Models.{CloudProject}
use oncall.Alerts.Service.{AlertEnvelope, Gathered, ingest_normalized_alerts}

-- The delivery came through a known integration of the expected source that it authenticated to,
-- for an active project; what is committed is what ingestion made of its normalized alerts, and of
-- the incidents they belong to the queue was offered each, up to the first that it refused.
pub record Admitted (hub : Hub) (source key : String) (authorization : Option String)
    (body : Option Value) (db : HubDb) (answer : WebhookAnswer) (db' : HubDb) (jobs : List ℕ)
    : Type 0 where
  pub integration : AlertIntegration
  pub project : CloudProject
  pub payload : Fields
  pub envelopes : List AlertEnvelope
  pub gathered : Gathered
  pub known : find (λ i. i.integration_key == key) db.integrations ≡ some integration
  pub expected : integration.source ≡ source
  pub authenticated : authenticates hub integration authorization ≡ true
  pub owned : find (λ p. p.id == integration.cloud_project_id) db.tables.projects ≡ some project
  pub in_service : project.active ≡ true
  pub object : body ≡ some (dict payload)
  pub normalized :
      normalize hub.os integration.source project.project_id integration.environment
        integration.service hub.adapter_clock payload
      ≡ ok envelopes
  pub stored :
      ingest_normalized_alerts project.project_id integration.source payload envelopes
        hub.received_at hub.db_clock db.tables
      ≡ ok (gathered, db'.tables)
  pub queued : enqueue hub gathered.incident_ids ≡ (jobs, is_received answer)
  pub answered : answer ≡ (if is_received answer then received gathered else queue_unavailable)

pub enqueue-all : (hub : Hub) (ids jobs : List ℕ) → enqueue hub ids ≡ (jobs, true) → jobs ≡ ids
unfolding enqueue
enqueue-all hub [] jobs h = cc
enqueue-all hub (id ∷ ids) jobs h = ground (
  arith,
  enqueue-all hub ids (enqueue hub ids).0,
  Bool-cases (hub.delay id),
  Bool-cases (enqueue hub ids).1,
)

abbrev pub Result : Type 0
Result = WebhookAnswer × HubDb × List ℕ

abbrev pub IsUnchanged : HubDb → Result → Type 0
IsUnchanged db r = (r.1 ≡ db) × (r.2 ≡ []) × (is_received r.0 ≡ false)

-- What ingestion made of the alerts is what is committed.
abbrev Stored :
    Hub → AlertIntegration → CloudProject → Fields → List AlertEnvelope → HubDb → Result → Type 0
Stored hub i p payload es db r =
    (g : Gathered) × (ingest_normalized_alerts p.project_id i.source payload es hub.received_at
        hub.db_clock db.tables
      ≡ ok (g, r.1.tables))
    × (enqueue hub g.incident_ids ≡ (r.2, is_received r.0))
    × (r.0 ≡ (if is_received r.0 then received g else queue_unavailable))

answer_of_lem :
    (g : Gathered) (took : Bool)
    → (is_received (answer_of g took) ≡ took)
      × (answer_of g took
          ≡ (if is_received (answer_of g took) then received g else queue_unavailable))
answer_of_lem g true = (refl, refl)
answer_of_lem g false = (refl, refl)

ingest-cases :
    (hub : Hub) (i : AlertIntegration) (p : CloudProject) (payload : Fields)
    (es : List AlertEnvelope) (db : HubDb)
    → IsUnchanged db (ingest hub i p payload es db)
      ⊎ Stored hub i p payload es db (ingest hub i p payload es db)
unfolding ingest
ingest-cases hub i p payload es db =
    elim (Outcome-cases (
      ingest_normalized_alerts p.project_id i.source payload es hub.received_at hub.db_clock
        db.tables)) [
          | inr (e, h) ↦ inl (rw (ingest, h) (refl, refl, refl))
          | inl ((g, tables), h) ↦
              (let (took, answered) = answer_of_lem g (enqueue hub g.incident_ids).1 in
                rw (h, ingest)
                  (inr
                    (g, refl, ap (λ b. ((enqueue hub g.incident_ids).0, b)) (sym took), answered)))
        ]

abbrev Normalized : Hub → AlertIntegration → CloudProject → Fields → List AlertEnvelope → Type 0
Normalized hub i p payload es =
    normalize hub.os i.source p.project_id i.environment i.service hub.adapter_clock payload ≡ ok es

as_dict-eq-some : (v : Option Value) (d : Fields) → as_dict v ≡ some d → v ≡ some (dict d)
as_dict-eq-some (some (dict e)) d h = cc
as_dict-eq-some (some null) d h = absurd (cc)
as_dict-eq-some (some (boolean b)) d h = absurd (cc)
as_dict-eq-some (some (num n)) d h = absurd (cc)
as_dict-eq-some (some (text t)) d h = absurd (cc)
as_dict-eq-some (some (uuid n)) d h = absurd (cc)
as_dict-eq-some (some (list l)) d h = absurd (cc)
as_dict-eq-some none d h = absurd (cc)

refused_lem : (e : AdapterError) → is_received (refused e) ≡ false
refused_lem invalid_payload = refl
refused_lem value_error = refl
refused_lem overflow_error = refl

deliver-cases :
    (hub : Hub) (i : AlertIntegration) (p : CloudProject) (body : Option Value) (db : HubDb)
    → IsUnchanged db (deliver hub i p body db)
      ⊎ ((payload : Fields) × (es : List AlertEnvelope) × (body ≡ some (dict payload))
          × Normalized hub i p payload es
          × (deliver hub i p body db ≡ ingest hub i p payload es db))
unfolding deliver
deliver-cases hub i p body db = elim (Option-cases (as_dict body)) [
  | inl e ↦ inl (rw (deliver, e) (refl, refl, refl))
  | inr (payload, e) ↦
      elim (Outcome-cases (
        normalize hub.os i.source p.project_id i.environment i.service hub.adapter_clock payload)) [
          | inr (f, h) ↦ inl (rw (deliver, e, h) (refl, refl, refused_lem f))
          | inl (es, h) ↦
              inr (payload, es, as_dict-eq-some body payload e, h, rw (deliver, e, h) refl)
        ]
]

abbrev integration_for : String → HubDb → Option AlertIntegration
integration_for key db = find (λ i. i.integration_key == key) db.integrations

abbrev project_of : AlertIntegration → HubDb → Option CloudProject
project_of i db = find (λ p. p.id == i.cloud_project_id) db.tables.projects

receive-cases :
    (hub : Hub) (source key : String) (authorization : Option String) (body : Option Value)
    (db : HubDb)
    → IsUnchanged db (receive_catalog_webhook hub source key authorization body db)
      ⊎ ((i : AlertIntegration) × (p : CloudProject) × (integration_for key db ≡ some i)
          × (i.source ≡ source)
          × (authenticates hub i authorization ≡ true)
          × (project_of i db ≡ some p)
          × (p.active ≡ true)
          × (receive_catalog_webhook hub source key authorization body db
              ≡ deliver hub i p body db))
unfolding receive_catalog_webhook
receive-cases hub source key authorization body db = elim (Option-cases (integration_for key db)) [
  | inl e ↦ inl (rw (receive_catalog_webhook, e) (refl, refl, refl))
  | inr (i, e) ↦ elim (Bool-cases (i.source == source)) [
    | inr f ↦ inl (rw (receive_catalog_webhook, e, f) (refl, refl, refl))
    | inl f ↦ elim (Bool-cases (authenticates hub i authorization)) [
      | inr a ↦ inl (rw (receive_catalog_webhook, e, f, a) (refl, refl, refl))
      | inl a ↦ elim (Option-cases (project_of i db)) [
        | inl o ↦ inl (rw (receive_catalog_webhook, e, f, a, o) (refl, refl, refl))
        | inr (p, o) ↦ elim (Bool-cases p.active) [
          | inr c ↦ inl (rw (receive_catalog_webhook, e, f, a, o, c) (refl, refl, refl))
          | inl c ↦ inr (
            i,
            p,
            e,
            (eq_iff i.source source).0 f,
            a,
            o,
            c,
            rw (receive_catalog_webhook, e, f, a, o, c) refl,
          )
        ]
      ]
    ]
  ]
]

-- A webhook that stores or queues anything was admitted; any other answer leaves the tables as they
-- were and queues nothing.
pub receive-IsAdmitted :
    (hub : Hub) (source key : String) (authorization : Option String) (body : Option Value)
    (db : HubDb)
    → let r = receive_catalog_webhook hub source key authorization body db in
      IsUnchanged db r ⊎ Admitted hub source key authorization body db r.0 r.1 r.2
receive-IsAdmitted hub source key authorization body db =
    elim (receive-cases hub source key authorization body db) [
      | inl u ↦ inl u
      | inr (i, p, e, f, a, o, c, same) ↦ elim (deliver-cases hub i p body db) [
        | inl u ↦ inl (subst (IsUnchanged db) (sym same) u)
        | inr (payload, es, b, n, same') ↦ elim (ingest-cases hub i p payload es db) [
          | inl u ↦ inl (subst (IsUnchanged db) (sym (same ∙ same')) u)
          | inr stored ↦ inr (
              let (g, s, q, w) = subst (Stored hub i p payload es db) (sym (same ∙ same')) stored in
              record {
                integration = i;
                project = p;
                payload = payload;
                envelopes = es;
                gathered = g;
                known = e;
                expected = f;
                authenticated = a;
                owned = o;
                in_service = c;
                object = b;
                normalized = n;
                stored = s;
                queued = q;
                answered = w;
              })
        ]
      ]
    ]
