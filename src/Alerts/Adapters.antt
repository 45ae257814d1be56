-- ===== src/Alerts/Adapters.antt =====
-- The payloads of Tencent Cloud Monitor and of custom callbacks, normalized:
-- src/oncall/alerts/adapters/tencent.py, with the validation of `AlertEnvelope` of
-- src/oncall/alerts/schemas.py.
pub mod Inversion
pub mod Scope
pub mod Replay
use oncall.Json.{
  set_field, Value, Fields, Items, boolean, cons, dict, end, field, get, list, nil, null, num, text,
  as_dict,
}
use oncall.Alerts.Readers.{
  AdapterError, Platform, fingerprint_of, get_default, invalid_payload, severity_of, status_of,
  text_of, time_of,
}
use oncall.Alerts.Fingerprint.{Subject}
use oncall.Prelude.{
  ℕ, Bool, List, Option, Outcome, String, [], false, first_rest, if◌then◌else◌, is_lower,
  is_slug_char, leb, nat_beq, none, ok, raised, size, some, suc, true, ◌&&◌, ◌>>=◌, ◌||◌, ◌∷◌,
  nat_eq, string_eq, ◌==◌,
}
use oncall.Models.{AlertStatus, firing, resolved}
use oncall.Alerts.Service.{AlertEnvelope}

-- [a-z0-9_-]
abbrev is_source_char : ℕ → Bool
is_source_char c = is_slug_char c || nat_beq c b'_'

abbrev between : ℕ → ℕ → String → Bool
between low high s = leb low (size s) && leb (size s) high

-- `AlertEnvelope(...)` is valid.
unfoldable pub is_envelope : AlertEnvelope → Bool
is_envelope e =
    first_rest is_lower is_source_char 1 63 e.source
    && (between 1 128 e.project_id
        && (between 1 64 e.environment
            && (between 1 128 e.service
                && (between 1 256 e.alert_name
                    && (between 1 32 e.severity
                        && (between 1 128 e.fingerprint && between 1 256 e.correlation_key))))))

abbrev pub envelope : AlertEnvelope → Outcome AdapterError AlertEnvelope
envelope e = if is_envelope e then ok e else raised invalid_payload

-- `for key in (...)`: the labels that are copied from the payload
abbrev pub is_scalar : Option Value → Bool
is_scalar (some (text s)) = true
is_scalar (some (num n)) = true
is_scalar (some (boolean b)) = true
is_scalar _ = false

unfoldable pub copy_labels : List String → Fields → Fields → Fields
unfolding set_field get
copy_labels [] p labels = labels
copy_labels (key ∷ keys) p labels = copy_labels keys p (elim (get key p) [
  | none ↦ labels
  | some v ↦ if is_scalar (some v) then set_field key v labels else labels
])

abbrev pub or_else : Option String → String → String
or_else none d = d
or_else (some s) d = s

-- `x.get(key)`, or an empty dictionary
abbrev pub dict_or_end : Option Value → Fields
dict_or_end (some (dict d)) = d
dict_or_end _ = end

abbrev pub subject : String → String → String → String → Subject
subject project_id environment service alert_name = record {
  project_id = project_id;
  environment = environment;
  service = service;
  alert_name = alert_name;
}

abbrev pub required : Option String → Outcome AdapterError String
required none = raised invalid_payload
required (some s) = ok s

abbrev pub started : Option ℕ → Outcome AdapterError ℕ
started none = raised invalid_payload
started (some t) = ok t

-- the labels that the integration decides, written over those of the payload
abbrev pub scope_labels : String → Subject → Fields → Fields
scope_labels source s labels = set_field "source" (text source) (
    set_field "service" (text s.service) (
      set_field "environment" (text s.environment)
        (set_field "project_id" (text s.project_id) labels)))

abbrev pub with_event_id : Option String → Fields → Fields
with_event_id none labels = labels
with_event_id (some e) labels = set_field "source_event_id" (text e) labels

abbrev pub copied_names : List String
copied_names = "namespace" ∷ "metricName" ∷ "region" ∷ "productName" ∷ "policyId" ∷ []

abbrev pub monitor_name_keys : List String
monitor_name_keys = "policyName" ∷ "alarmPolicyName" ∷ "alarmName" ∷ "metricName" ∷ []

abbrev pub monitor_id_keys : List String
monitor_id_keys = "alertId" ∷ "alarmId" ∷ "sessionId" ∷ "eventId" ∷ []

abbrev pub generic_name_keys : List String
generic_name_keys = "alert_name" ∷ "alertName" ∷ "name" ∷ "alarmName" ∷ []

abbrev pub generic_id_keys : List String
generic_id_keys = "event_id" ∷ "eventId" ∷ "fingerprint" ∷ []

-- `{**annotations, "summary": summary}`, where there is a summary
abbrev pub with_summary : Option String → Fields → Fields
with_summary none annotations = annotations
with_summary (some s) annotations = set_field "summary" (text s) annotations

-- the items of a list; nothing else has any
abbrev pub as_items : Value → Items
as_items (list vs) = vs
as_items _ = nil

module _ (os : Platform) where
  abbrev pub ended : AlertStatus → Value → Outcome AdapterError (Option ℕ)
  ended AlertStatus.firing value = ok none
  ended AlertStatus.resolved value = time_of os value none

  abbrev pub monitor_labels : Subject → Fields → Fields
  monitor_labels s p =
      copy_labels copied_names p
        (with_event_id (text_of monitor_id_keys p) (scope_labels "tencent_monitor" s end))

  -- The constructor call of `normalize_tencent_monitor`, before validation.
  abbrev pub monitor_envelope : Subject → AlertStatus → ℕ → Option ℕ → Fields → AlertEnvelope
  monitor_envelope s status starts_at ends_at p = record {
    source = "tencent_monitor";
    project_id = s.project_id;
    environment = s.environment;
    service = s.service;
    alert_name = s.alert_name;
    severity = severity_of os (get_default "alarmLevel" (get_default "severity" null p) p);
    status = status;
    starts_at = starts_at;
    ends_at = ends_at;
    fingerprint = fingerprint_of os (text_of monitor_id_keys p) s (monitor_labels s p);
    correlation_key = or_else (text_of ("correlationKey" ∷ []) p) s.alert_name;
    labels = monitor_labels s p;
    annotations =
        field "summary"
          (text (or_else (text_of ("content" ∷ "alarmContent" ∷ "message" ∷ []) p) s.alert_name))
          end;
  }

  unfoldable pub normalize_tencent_monitor :
      String → String → String → ℕ → Fields → Outcome AdapterError (List AlertEnvelope)
  unfolding text_of status_of time_of severity_of fingerprint_of copy_labels is_envelope
  normalize_tencent_monitor project_id environment service now p = do
    alert_name ← required (text_of monitor_name_keys p)
    status ← status_of (get_default "alarmStatus" (get_default "status" (num 1) p) p)
    first ← time_of os (get_default "firstOccurTime" (get_default "startsAt" null p) p) (some now)
    last ← ended status (get_default "recoverTime" (get_default "endsAt" null p) p)
    starts_at ← started first
    e ← envelope (
        monitor_envelope (subject project_id environment service alert_name) status starts_at last
          p)
    ok (e ∷ [])

  abbrev pub generic_labels : String → Subject → Fields → Fields
  generic_labels source s p = scope_labels source s (dict_or_end (get "labels" p))

  abbrev pub generic_envelope :
      String → Subject → AlertStatus → ℕ → Option ℕ → Fields → AlertEnvelope
  generic_envelope source s status starts_at ends_at p = record {
    source = source;
    project_id = s.project_id;
    environment = s.environment;
    service = s.service;
    alert_name = s.alert_name;
    severity = severity_of os (get_default "severity" null p);
    status = status;
    starts_at = starts_at;
    ends_at = ends_at;
    fingerprint = fingerprint_of os (text_of generic_id_keys p) s (generic_labels source s p);
    correlation_key = or_else (text_of ("correlation_key" ∷ "correlationKey" ∷ []) p) s.alert_name;
    labels = generic_labels source s p;
    annotations =
        with_summary (text_of ("summary" ∷ "message" ∷ []) p) (dict_or_end (get "annotations" p));
  }

  -- A round of the loop over `items`, for an item that is an object.
  unfoldable pub generic_alert :
      String → String → String → String → ℕ → Fields → Outcome AdapterError AlertEnvelope
  unfolding text_of status_of time_of severity_of fingerprint_of is_envelope
  generic_alert source project_id environment service now p = do
    alert_name ← required (text_of generic_name_keys p)
    status ← status_of (get_default "status" (text "firing") p)
    first ← time_of os (get_default "starts_at" (get_default "startsAt" null p) p) (some now)
    last ← ended status (get_default "ends_at" (get_default "endsAt" null p) p)
    starts_at ← started first
    envelope (
        generic_envelope source (subject project_id environment service alert_name) status starts_at
          last p)

  unfoldable pub generic_item :
      String → String → String → String → ℕ → Value → Outcome AdapterError AlertEnvelope
  generic_item source project_id environment service now v = elim (as_dict (some v)) [
    | none ↦ raised invalid_payload
    | some p ↦ generic_alert source project_id environment service now p
  ]

  unfoldable pub generic_items :
      String
      → String
      → String
      → String
      → (ℕ → ℕ)
      → ℕ
      → Items
      → Outcome AdapterError (List AlertEnvelope)
  generic_items source project_id environment service clock k nil = ok []
  generic_items source project_id environment service clock k (cons v vs) = do
    e ← generic_item source project_id environment service (clock k) v
    es ← generic_items source project_id environment service clock (suc k) vs
    ok (e ∷ es)

  -- No list, or an empty one, is refused.
  unfoldable pub batch :
      String
      → String
      → String
      → String
      → (ℕ → ℕ)
      → Items
      → Outcome AdapterError (List AlertEnvelope)
  unfolding generic_items
  batch source project_id environment service clock nil = raised invalid_payload
  batch source project_id environment service clock (cons v vs) =
      generic_items source project_id environment service clock 0 (cons v vs)

  -- `clock k` is what `datetime.now` gives in round `k`.
  unfoldable pub normalize_generic_alert :
      String
      → String
      → String
      → String
      → (ℕ → ℕ)
      → Fields
      → Outcome AdapterError (List AlertEnvelope)
  unfolding get
  normalize_generic_alert source project_id environment service clock p =
      batch source project_id environment service clock
        (as_items (get_default "alerts" (list (cons (dict p) nil)) p))

  -- The choice of an adapter in `_receive_catalog_webhook`; both take the time of the call.
  unfoldable pub normalize :
      String
      → String
      → String
      → String
      → (ℕ → ℕ)
      → Fields
      → Outcome AdapterError (List AlertEnvelope)
  normalize source project_id environment service clock p =
      if source == "tencent_monitor"
      then normalize_tencent_monitor project_id environment service (clock 0) p
      else normalize_generic_alert source project_id environment service clock p
