-- ===== src/Tests/Webhooks.antt =====
-- The theorems on webhooks at concrete inputs.
use oncall.Tests.Data.{db_with}
use oncall.Alerts.Fingerprint.{stable_fingerprint, distinct, stable_labels}
use oncall.Alerts.Webhook.Scoped.{ingest-of-normalize}
use oncall.Alerts.Webhook.Admission.{IsUnchanged, Admitted, receive-IsAdmitted}
use oncall.Alerts.Adapters.Replay.{callback_identity, same_fingerprint_iff}
use oncall.Alerts.Service.{
  ingest_all, ingest_one, upsert_alert, own_incident, Gathered, AlertEnvelope, identity_conflict,
  ingest_normalized_alerts,
}
use oncall.Alerts.Webhook.{
  HubDb, AlertIntegration, Hub, WebhookAnswer, receive_catalog_webhook, is_received,
}
use oncall.Alerts.Adapters.{
  normalize_tencent_monitor, normalize, copy_labels, is_envelope, monitor_envelope, monitor_id_keys,
  subject,
}
use oncall.Alerts.Adapters.Scope.{InScope, normalize-InScope}
use oncall.Alerts.Readers.{
  Platform, text_of, fingerprint_of, naive, severity_of, status_of, time_of,
}
use oncall.Incidents.Service.{find_linked_open_incident}
use oncall.Prelude.{
  ℕ, All, List, Option, String, [], if◌then◌else◌, left_strip, nat_eq, none, ok, raised, refl,
  right_strip, some, sort_by, string_eq, strip, true, ◌+◌, ◌==◌, ◌↔◌, ◌∷◌, ◌≡◌, ◌≢◌, ◌⊎◌, length,
}
use oncall.Models.{AlertStatus, Db, PlanStatus}
use oncall.Json.{Fields, dict, end, field, get, num, set_field, text}
use oncall.Incidents.State.{IncidentStatus, status_eq}

abbrev callback : String → String → Fields
callback name id =
    field "policyName" (text name) (field "alertId" (text id) (field "alarmStatus" (num 1) end))

-- What stands for JSON: the name in the identity of an alert.
abbrev name_of : Fields → String
name_of (field k (text s) rest) = s
name_of _ = ""

abbrev os : Platform
os = record {
  lower = λ s. s;
  repr = λ v. "[]";
  fromisoformat = λ s. some (naive 5);
  strptime = λ s. none;
  fromtimestamp = λ n. ok n;
  astimezone = λ zone n. ok n;
  dumps = name_of;
  sha256 = λ s. s;
}

abbrev cpu : AlertEnvelope
cpu =
    monitor_envelope os (subject "shop" "prod" "cart" "cpu") AlertStatus.firing 7 none
      (callback "cpu" "1")

abbrev disk : AlertEnvelope
disk =
    monitor_envelope os (subject "shop" "prod" "cart" "disk") AlertStatus.firing 7 none
      (callback "disk" "2")

abbrev identity_named : String → Option Fields
identity_named s =
    if s == "cpu"
    then some (callback_identity "shop" "prod" "cart" (callback "cpu" "1") cpu)
    else some (callback_identity "shop" "prod" "cart" (callback "disk" "2") disk)

cpu_normalized :
    normalize_tencent_monitor os "shop" "prod" "cart" 7 (callback "cpu" "1") ≡ ok (cpu ∷ [])
unfolding normalize_tencent_monitor text_of strip left_strip right_strip get status_of time_of
    is_envelope severity_of fingerprint_of stable_fingerprint distinct stable_labels sort_by
    copy_labels set_field
cpu_normalized = refl

disk_normalized :
    normalize_tencent_monitor os "shop" "prod" "cart" 7 (callback "disk" "2") ≡ ok (disk ∷ [])
unfolding normalize_tencent_monitor text_of strip left_strip right_strip get status_of time_of
    is_envelope severity_of fingerprint_of stable_fingerprint distinct stable_labels sort_by
    copy_labels set_field
disk_normalized = refl

same_fingerprint_iff_example : (cpu.fingerprint ≡ disk.fingerprint) ↔ (
    (text_of monitor_id_keys (callback "cpu" "1") ≡ text_of monitor_id_keys (callback "disk" "2"))
    × (◌≡◌ {A = String} "shop" "shop")
    × (◌≡◌ {A = String} "prod" "prod")
    × (◌≡◌ {A = String} "cart" "cart")
    × (cpu.alert_name ≡ disk.alert_name))
unfolding text_of strip left_strip right_strip get
same_fingerprint_iff_example =
    same_fingerprint_iff os identity_named "shop" "shop" "prod" "prod" "cart" "cart" 7 7
      (callback "cpu" "1") (callback "disk" "2") cpu disk cpu_normalized disk_normalized refl refl
      (λ h. h)

abbrev hub : Hub
hub = record {
  os = os;
  b64decode = λ s. some "user:secret";
  delay = λ id. true;
  received_at = 90;
  stamped_at = 91;
  adapter_clock = λ k. 7;
  db_clock = λ k. 100 + k;
}

abbrev monitor : AlertIntegration
monitor = record {
  id = 40;
  cloud_project_id = 4;
  integration_key = "key";
  source = "tencent_monitor";
  environment = "prod";
  service = "cart";
  secret_hash = "secret";
  active = true;
  last_received_at = none;
}

abbrev hub_db : HubDb
hub_db = record {
  integrations = monitor ∷ [];
  tables = db_with IncidentStatus.need_human PlanStatus.rejected [] [];
}

monitor_normalized :
    normalize os "tencent_monitor" "shop" "prod" "cart" (λ k. 7) (callback "cpu" "1")
    ≡ ok (cpu ∷ [])
unfolding normalize
monitor_normalized = cpu_normalized

normalize-InScope_example :
    All (InScope "tencent_monitor" "shop" "prod" "cart") (cpu ∷ []) × (cpu ∷ [] ≢ [])
normalize-InScope_example =
    normalize-InScope os "tencent_monitor" "shop" "prod" "cart" (λ k. 7) (callback "cpu" "1")
      (cpu ∷ []) monitor_normalized

ingest-of-normalize_example :
    ((g : Gathered) × (db' : Db) × (ingest_normalized_alerts "shop" "tencent_monitor"
          (callback "cpu" "1")
          (cpu ∷ [])
          90
          (λ k. 100 + k)
          hub_db.tables
        ≡ ok (g, db')))
    ⊎ (ingest_normalized_alerts "shop" "tencent_monitor"
          (callback "cpu" "1")
          (cpu ∷ [])
          90
          (λ k. 100 + k)
          hub_db.tables
        ≡ raised identity_conflict)
ingest-of-normalize_example =
    ingest-of-normalize os "tencent_monitor" "shop" "prod" "cart" (λ k. 7) (callback "cpu" "1")
      (cpu ∷ []) 90 (λ k. 100 + k) hub_db.tables monitor_normalized

abbrev first_delivery : WebhookAnswer × HubDb × List ℕ
first_delivery =
    receive_catalog_webhook hub "tencent_monitor" "key" (some "basic dXNlcjpzZWNyZXQ=")
      (some (dict (callback "cpu" "1"))) hub_db

receive-IsAdmitted_example :
    IsUnchanged hub_db first_delivery
    ⊎ Admitted hub "tencent_monitor" "key"
        (some "basic dXNlcjpzZWNyZXQ=")
        (some (dict (callback "cpu" "1")))
        hub_db
        first_delivery.0
        first_delivery.1
        first_delivery.2
receive-IsAdmitted_example =
    receive-IsAdmitted hub "tencent_monitor" "key" (some "basic dXNlcjpzZWNyZXQ=")
      (some (dict (callback "cpu" "1"))) hub_db

-- The delivery is stored, and its incident is queued.
delivered_once : (is_received first_delivery.0 ≡ true) × (length first_delivery.2 ≡ 1)
unfolding receive_catalog_webhook normalize_tencent_monitor ingest_all ingest_one upsert_alert
    own_incident find_linked_open_incident
delivered_once = (refl, refl)
