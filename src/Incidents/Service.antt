-- ===== src/Incidents/Service.antt =====
-- Aggregation of alerts into incidents: src/oncall/incidents/service.py. A call of it stands
-- inside the caller's transaction; the advisory lock of a correlation group lets the calls for
-- one group happen one after the other.
use Prim.Native.String.{◌++◌ as concat}
use oncall.Prelude.{
  ℕ, Bool, Option, String, false, if◌then◌else◌, leb, nat_eq, none, not, select, some, string_eq,
  suc, true, ◌&&◌, ◌+◌, ◌==◌, ◌||◌, ◌∷◌, any, latest_by,
}
use oncall.Json
use oncall.Json.{Value, end, field, get, text, uuid}
use oncall.Incidents.State.{IncidentStatus, status_eq}
use oncall.Models.{Db, Alert, AlertStatus, Incident, append_audit_event}

abbrev is_open : IncidentStatus → Bool
is_open s = not (s == IncidentStatus.resolved || s == IncidentStatus.failed)

-- microseconds of `INCIDENT_CORRELATION_WINDOW`
abbrev pub correlation_window : ℕ
correlation_window = 300_000_000

-- the join of `Incident` and `IncidentAlert`
abbrev pub is_linked : ℕ → Db → Incident → Bool
is_linked alert_id db i =
    any (λ l. l.incident_id == i.id && l.alert_id == alert_id) db.incident_alerts

unfoldable pub find_linked_open_incident : ℕ → Db → Option Incident
unfolding select latest_by
find_linked_open_incident alert_id db =
    latest_by (λ i. i.opened_at)
      (select (λ i. is_linked alert_id db i && is_open i.status) db.incidents)

unfoldable pub find_latest_linked_incident : ℕ → Db → Option Incident
unfolding select latest_by
find_latest_linked_incident alert_id db =
    latest_by (λ i. i.opened_at) (select (is_linked alert_id db) db.incidents)

abbrev pub same_group : Alert → Incident → Bool
same_group alert i =
    i.project_id == alert.project_id
    && (i.environment == alert.environment
        && (i.service == alert.service && i.correlation_key == alert.correlation_key))

-- `opened_at >= now - window` and `opened_at <= now`
abbrev pub in_window : ℕ → Incident → Bool
in_window now i = leb now (i.opened_at + correlation_window) && leb i.opened_at now

unfoldable pub find_correlated : Alert → ℕ → Db → Option Incident
unfolding select latest_by
find_correlated alert now db =
    latest_by (λ i. i.opened_at)
      (select (λ i. same_group alert i && (is_open i.status && in_window now i)) db.incidents)

abbrev pub new_incident : Alert → ℕ → ℕ → Incident
new_incident alert now id = record {
  id = id;
  title =
      concat "[" (
        concat alert.severity
          (concat "] " (concat alert.alert_name (concat " on " alert.service))));
  status = IncidentStatus.received;
  project_id = alert.project_id;
  environment = alert.environment;
  service = alert.service;
  correlation_key = alert.correlation_key;
  summary = Json.get "summary" alert.annotations;
  opened_at = now;
  resolved_at = none;
}

-- `now` is the database's `clock_timestamp()` under the group's lock.
unfoldable pub get_or_create_incident : Alert → ℕ → Db → Incident × Bool × Db
get_or_create_incident alert now db = elim (find_linked_open_incident alert.id db) [
  | some i ↦ (i, false, db)
  | none ↦ elim (find_correlated alert now db) [
    | some i ↦ (i, false, db)
    | none ↦
        let i = new_incident alert now db.next_id in
        (
          i,
          true,
          append_audit_event (some i.id) "incident.created"
              (field "alert_id" (uuid alert.id) (
                field "correlation_key" (text alert.correlation_key)
                  (field "status" (text "RECEIVED") end)))
              "alert-hub" (record db { next_id = suc db.next_id; incidents = i ∷ db.incidents }),
        )
  ]
]

abbrev pub alert_status_text : AlertStatus → String
alert_status_text AlertStatus.firing = "firing"
alert_status_text AlertStatus.resolved = "resolved"

-- `INSERT ... ON CONFLICT DO NOTHING RETURNING id`
unfoldable pub link_alert_to_incident : Incident → Alert → Db → Bool × Db
unfolding append_audit_event
link_alert_to_incident incident alert db = if is_linked alert.id db incident then (false, db) else (
  true,
  append_audit_event (some incident.id) "incident.alert_linked"
      (field "alert_id" (uuid alert.id) (
        field "fingerprint" (text alert.fingerprint)
          (field "status" (text (alert_status_text alert.status)) end)))
      "alert-hub"
      (record db {
        incident_alerts =
            record { incident_id = incident.id; alert_id = alert.id } ∷ db.incident_alerts;
      }),
)
