-- ===== src/Alerts/Service.antt =====
-- Ingestion of a normalized webhook: src/oncall/alerts/service.py, with `AlertEnvelope` of
-- src/oncall/alerts/schemas.py. A request is one transaction: an exception leaves the tables as
-- they were. The advisory lock of an identity lets the transactions for one identity happen one
-- after the other.
pub mod Counting
pub mod Induction
pub mod Identity
use oncall.Prelude.{
  ℕ, Bool, List, Option, Outcome, String, [], false, find, if◌then◌else◌, is_some, leb, ltb,
  nat_beq, nat_eq, none, not, ok, raised, some, string_eq, suc, true, update_first, ◌&&◌, ◌+◌, ◌==◌,
  ◌>>=◌, ◌∷◌, any, sort_by, text_leb, ◌||◌,
}
use oncall.Json.{Fields, end, field, text, uuid}
use oncall.Models.{Db, Alert, AlertStatus, Incident, append_audit_event, firing, resolved}
use oncall.Incidents.Service.{
  alert_status_text, find_latest_linked_incident, find_linked_open_incident, get_or_create_incident,
  link_alert_to_incident,
}

pub record AlertEnvelope : Type 0 where
  pub source : String
  pub project_id : String
  pub environment : String
  pub service : String
  pub alert_name : String
  pub severity : String
  pub status : AlertStatus
  pub starts_at : ℕ
  pub ends_at : Option ℕ
  pub fingerprint : String
  pub correlation_key : String
  pub labels : Fields
  pub annotations : Fields

pub data IngestError : Type 0 where
  no_alerts scope_mismatch identity_conflict : IngestError

abbrev pub status_beq : AlertStatus → AlertStatus → Bool
status_beq AlertStatus.firing AlertStatus.firing = true
status_beq AlertStatus.resolved AlertStatus.resolved = true
status_beq _ _ = false

-- The `where` of the query in `_upsert_alert`.
abbrev pub same_identity : AlertEnvelope → Alert → Bool
same_identity e a =
    a.source == e.source && (a.project_id == e.project_id && a.fingerprint == e.fingerprint)

abbrev pub same_facts : AlertEnvelope → Alert → Bool
same_facts e a =
    a.environment == e.environment && (a.service == e.service && a.alert_name == e.alert_name)

abbrev pub new_alert : AlertEnvelope → ℕ → ℕ → ℕ → Alert
new_alert e raw_event_id received_at id = record {
  id = id;
  raw_event_id = raw_event_id;
  source = e.source;
  fingerprint = e.fingerprint;
  project_id = e.project_id;
  environment = e.environment;
  service = e.service;
  alert_name = e.alert_name;
  severity = e.severity;
  status = e.status;
  correlation_key = e.correlation_key;
  labels = e.labels;
  annotations = e.annotations;
  starts_at = e.starts_at;
  ends_at = e.ends_at;
  last_seen = received_at;
  occurrence_count = 1;
}

-- The assignments to a known alert: a delivery that is older than `last_seen` is counted only.
abbrev pub refresh : AlertEnvelope → ℕ → Alert → Alert
refresh e received_at a =
    let counted : Alert = record a { occurrence_count = a.occurrence_count + 1 } in
    if leb a.last_seen received_at
    then record counted { status = e.status; last_seen = received_at }
    else counted

-- `_upsert_alert`: the alert, whether it was known, and its previous status
unfoldable pub upsert_alert :
    ℕ → AlertEnvelope → ℕ → Db → Outcome IngestError (Alert × Bool × Option AlertStatus × Db)
upsert_alert raw_event_id e received_at db = elim (find (same_identity e) db.alerts) [
  | none ↦
      let a = new_alert e raw_event_id received_at db.next_id in
      ok (a, false, none, record db { next_id = suc db.next_id; alerts = a ∷ db.alerts })
  | some a ↦
      if same_facts e a
      then ok (
        refresh e received_at a,
        true,
        some a.status,
        record db { alerts = update_first (same_identity e) (refresh e received_at) db.alerts },
      )
      else raised identity_conflict
]

-- `alert.status_changed` of one alert, in the audit trail of its incident
unfoldable pub status_changed : Alert → AlertStatus → Option Incident → Db → Db
unfolding append_audit_event
status_changed alert previous incident db = elim incident [
  | none ↦ db
  | some i ↦
      append_audit_event (some i.id) "alert.status_changed"
        (field "alert_id" (uuid alert.id) (
          field "from" (text (alert_status_text previous))
            (field "to" (text (alert_status_text alert.status)) end)))
        "alert-hub" db
]

-- The last part of a round: a change of status goes to the incident that owns the alert, else to
-- the latest one.
unfoldable pub audit_change : Alert → Option AlertStatus → Option Incident → Db → Db
unfolding status_changed find_latest_linked_incident
audit_change alert none incident db = db
audit_change alert (some previous) none db =
    if status_beq previous alert.status
    then db
    else status_changed alert previous (find_latest_linked_incident alert.id db) db
audit_change alert (some previous) (some i) db =
    if status_beq previous alert.status then db else status_changed alert previous (some i) db

-- The incident of a round: a firing alert that no open incident owns is given one.
unfoldable pub own_incident : Alert → ℕ → Db → Option Incident × Db
own_incident alert now db =
    let linked = find_linked_open_incident alert.id db in
    if status_beq alert.status AlertStatus.firing && not (is_some linked)
    then (let (i, created, db1) = get_or_create_incident alert now db in
        let (new, db2) = link_alert_to_incident i alert db1 in (some i, db2))
    else (linked, db)

-- What the loop has gathered: `incident_ids`, without repetition and in order, and `deduplicated`.
pub record Gathered : Type 0 where
  pub incident_ids : List ℕ
  pub deduplicated : ℕ

unfoldable pub insert_id : ℕ → List ℕ → List ℕ
insert_id n [] = n ∷ []
insert_id n (m ∷ ms) =
    if ltb n m then n ∷ m ∷ ms else if nat_beq n m then m ∷ ms else m ∷ insert_id n ms

abbrev gather : Option Incident → Bool → Gathered → Gathered
gather incident duplicate g = record {
  incident_ids = elim incident [ none ↦ g.incident_ids | some i ↦ insert_id i.id g.incident_ids ];
  deduplicated = g.deduplicated + (if duplicate then 1 else 0);
}

-- One round of the loop; `now` is the database's clock.
unfoldable pub ingest_one :
    ℕ → ℕ → ℕ → AlertEnvelope → Gathered → Db → Outcome IngestError (Gathered × Db)
unfolding audit_change insert_id
ingest_one raw_event_id received_at now e g db = do
  (alert, duplicate, previous, db1) ← upsert_alert raw_event_id e received_at db
  let owned = own_incident alert now db1
  ok (gather owned.0 duplicate g, audit_change alert previous owned.0 owned.1)

-- The loop from round `k` on; `clock k` is what the database's clock shows in that round.
unfoldable pub ingest_all :
    ℕ → ℕ → (ℕ → ℕ) → ℕ → List AlertEnvelope → Gathered → Db → Outcome IngestError (Gathered × Db)
ingest_all raw_event_id received_at clock k [] g db = ok (g, db)
ingest_all raw_event_id received_at clock k (e ∷ es) g db = do
  (g1, db1) ← ingest_one raw_event_id received_at (clock k) e g db
  ingest_all raw_event_id received_at clock (suc k) es g1 db1

-- The order of the rounds, which is the order in which the locks are taken.
abbrev pub texts_leb : List String → List String → Bool
texts_leb [] t = true
texts_leb (a ∷ s) [] = false
texts_leb (a ∷ s) (b ∷ t) = if a == b then texts_leb s t else text_leb a b

abbrev pub lock_order : AlertEnvelope → AlertEnvelope → Bool
lock_order d e =
    let key : AlertEnvelope → List String =
      λ x. x.project_id ∷ x.environment ∷ x.service ∷ x.correlation_key ∷ x.fingerprint ∷ [] in
    texts_leb (key d) (key e)

abbrev pub stage_raw_event : String → String → Fields → ℕ → Db → Db
stage_raw_event project_id source raw_payload received_at db = record db {
  next_id = suc db.next_id;
  raw_events =
      record {
        id = db.next_id;
        source = source;
        project_id = project_id;
        payload = raw_payload;
        received_at = received_at;
      }
      ∷ db.raw_events;
}

abbrev pub nothing_gathered : Gathered
nothing_gathered = record { incident_ids = []; deduplicated = 0 }

unfoldable pub ingest_normalized_alerts :
    String
    → String
    → Fields
    → List AlertEnvelope
    → ℕ
    → (ℕ → ℕ)
    → Db
    → Outcome IngestError (Gathered × Db)
ingest_normalized_alerts project_id source raw_payload [] received_at clock db = raised no_alerts
ingest_normalized_alerts project_id source raw_payload (e ∷ es) received_at clock db =
    if any (λ item. not (item.project_id == project_id) || not (item.source == source)) (e ∷ es)
    then raised scope_mismatch
    else ingest_all db.next_id received_at clock 0 (sort_by lock_order (e ∷ es)) nothing_gathered
        (stage_raw_event project_id source raw_payload received_at db)
