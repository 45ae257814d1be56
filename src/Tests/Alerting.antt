-- ===== src/Tests/Alerting.antt =====
-- The theorems on the ingestion of alerts at concrete inputs.
use oncall.Alerts.Service.Identity.{
  IsUnique, row_of, IsKept, ingest_normalized_alerts-IsKept, ingest_normalized_alerts-IsUnique,
}
use oncall.Alerts.Service.Counting.{occurrences, occurrences-ingest_normalized_alerts}
use oncall.Incidents.Service.{
  find_linked_open_incident, find_correlated, get_or_create_incident, link_alert_to_incident,
}
use oncall.Tests.Data.{value_or, db_with}
use oncall.Prelude.{ℕ, List, [], find, none, ok, refl, some, sort_by, ◌+◌, ◌∷◌, ◌≡◌, update_first}
use oncall.Json.{end}
use oncall.Models.{PlanStatus, AlertStatus, Db, Alert}
use oncall.Incidents.State.{IncidentStatus}
use oncall.Alerts.Service.{
  AlertEnvelope, Gathered, audit_change, ingest_all, ingest_normalized_alerts, ingest_one,
  new_alert, nothing_gathered, own_incident, upsert_alert, insert_id,
}

abbrev firing_at : ℕ → AlertEnvelope
firing_at t = record {
  source = "cls";
  project_id = "shop";
  environment = "prod";
  service = "cart";
  alert_name = "errors";
  severity = "critical";
  status = AlertStatus.firing;
  starts_at = t;
  ends_at = none;
  fingerprint = "f";
  correlation_key = "k";
  labels = end;
  annotations = end;
}

abbrev quiet_db : Db
quiet_db = db_with IncidentStatus.need_human PlanStatus.rejected [] []

abbrev clock : ℕ → ℕ
clock k = 100 + k

abbrev deliver : List AlertEnvelope → Db → Gathered × Db
deliver es db =
    value_or (nothing_gathered, db) (ingest_normalized_alerts "shop" "cls" end es 90 clock db)

abbrev first_db : Db
first_db = (deliver (firing_at 1 ∷ []) quiet_db).1

abbrev second : Gathered × Db
second = deliver (firing_at 2 ∷ firing_at 3 ∷ []) first_db

-- A delivery of two envelopes of one alert that has been seen.
delivered :
    ingest_normalized_alerts "shop" "cls" end (firing_at 2 ∷ firing_at 3 ∷ []) 90 clock first_db
    ≡ ok second
unfolding ingest_normalized_alerts ingest_all ingest_one upsert_alert own_incident sort_by
    find_linked_open_incident get_or_create_incident link_alert_to_incident find_correlated
    audit_change insert_id find update_first
delivered = refl

occurrences-ingest_normalized_alerts_example :
    occurrences second.1.alerts ≡ occurrences first_db.alerts + 2
occurrences-ingest_normalized_alerts_example =
    occurrences-ingest_normalized_alerts "shop" "cls" end (firing_at 2 ∷ firing_at 3 ∷ []) 90 clock
      first_db second.1 second.0 delivered

ingest_normalized_alerts-IsUnique_example : IsUnique second.1.alerts
unfolding ingest_normalized_alerts ingest_all ingest_one upsert_alert own_incident sort_by
    find_linked_open_incident get_or_create_incident link_alert_to_incident find_correlated
    audit_change insert_id find
ingest_normalized_alerts-IsUnique_example =
    ingest_normalized_alerts-IsUnique "shop" "cls" end (firing_at 2 ∷ firing_at 3 ∷ []) 90 clock
      first_db second.1 second.0 delivered (refl, tt)

abbrev seen_once : Alert
seen_once = new_alert (firing_at 1) 10 90 11

ingest_normalized_alerts-IsKept_example :
    (b : Alert) × (row_of "cls" "shop" "f" second.1.alerts ≡ some b) × IsKept seen_once b
unfolding ingest_normalized_alerts ingest_all ingest_one upsert_alert own_incident sort_by
    find_linked_open_incident get_or_create_incident link_alert_to_incident find_correlated
    audit_change insert_id find
ingest_normalized_alerts-IsKept_example =
    ingest_normalized_alerts-IsKept "shop" "cls" end (firing_at 2 ∷ firing_at 3 ∷ []) 90 clock
      first_db second.1 second.0 "cls" "shop" "f" seen_once delivered refl
