-- ===== src/Alerts/Readers.antt =====
-- What the adapters read out of a payload: `_text`, `_time`, `_status`, `_severity` and
-- `_fingerprint` of src/oncall/alerts/adapters/tencent.py. A payload's numbers are whole and not
-- negative. What the standard library does with times,
-- and SHA-256, `json.dumps`, `str.lower` and `str` of a container are parameters.
use oncall.Alerts.Fingerprint.{stable_fingerprint, Subject}
use oncall.Json.{
  get, Value, Fields, boolean, cons, dict, end, field, list, nil, null, num, set_field, text, uuid,
}
use Prim.Native.Char.{code}
use Prim.Native.String.{◌++◌}
use oncall.Prelude.{
  ℕ, List, Option, Outcome, String, [], any, decimal, false, if◌then◌else◌, ltb, nat_beq, nat_eq,
  none, ok, raised, some, string_eq, strip, true, ◌*◌, ◌==◌, ◌∷◌,
}
use oncall.Models.{AlertStatus}

-- A parsed time: the clock shows so many microseconds, in no zone or in the named one.
pub data Moment : Type 0 where
  naive : ℕ → Moment
  in_zone : String → ℕ → Moment

-- `InvalidTencentAlertPayload`, another `ValueError`, and `OverflowError`
pub data AdapterError : Type 0 where
  invalid_payload value_error overflow_error : AdapterError

pub record Platform : Type 0 where
  pub lower : String → String
  pub repr : Value → String
  pub fromisoformat : String → Option Moment
  pub strptime : String → Option Moment
  -- the moment that is so many microseconds after the epoch
  pub fromtimestamp : ℕ → Outcome AdapterError ℕ
  -- the moment at which a zone's clock shows the time, in UTC
  pub astimezone : String → ℕ → Outcome AdapterError ℕ
  pub dumps : Fields → String
  pub sha256 : String → String

-- `payload.get(key, default)`
abbrev pub get_default : String → Value → Fields → Value
get_default key d p = elim (get key p) [ none ↦ d | some v ↦ v ]

abbrev pub usable : Option Value → Option String
usable (some (text s)) = if strip s == "" then none else some (strip s)
usable (some (num n)) = some (decimal n)
usable (some (boolean true)) = some "True"
usable (some (boolean false)) = some "False"
usable _ = none

-- `_text`
unfoldable pub text_of : List String → Fields → Option String
unfolding strip decimal get
text_of [] p = none
text_of (key ∷ keys) p = elim (usable (get key p)) [ some s ↦ some s | none ↦ text_of keys p ]

-- `s.replace("Z", "+00:00")`
unfoldable pub replace_z : String → String
replace_z String.[] = String.[]
replace_z (String.◌∷◌ c s) =
    let rest = replace_z s in if nat_beq (code c) b'Z' then "+00:00" ++ rest else String.◌∷◌ c rest

abbrev shanghai : Moment → String × ℕ
shanghai (naive wall) = ("Asia/Shanghai", wall)
shanghai (in_zone zone wall) = (zone, wall)

abbrev found : Outcome AdapterError ℕ → Outcome AdapterError (Option ℕ)
found (ok t) = ok (some t)
found (raised e) = raised e

module _ (os : Platform) where
  abbrev seconds : ℕ → Outcome AdapterError (Option ℕ)
  seconds n = found (os.fromtimestamp (if ltb 10000000000 n then n * 1000 else n * 1000000))

  abbrev parsed_time : Option Moment → Outcome AdapterError (Option ℕ)
  parsed_time none = raised invalid_payload
  parsed_time (some m) = found (os.astimezone (shanghai m).0 (shanghai m).1)

  -- `_time`; `default` where there is no value
  unfoldable pub time_of : Value → Option ℕ → Outcome AdapterError (Option ℕ)
  unfolding strip replace_z
  time_of null default = ok default
  time_of (num n) default = seconds n
  time_of (boolean b) default = seconds (if b then 1 else 0)
  time_of (text s) default =
      if s == ""
      then ok default
      else let normalized = replace_z (strip s) in
        elim (os.fromisoformat normalized) [
          | some m ↦ parsed_time (some m)
          | none ↦ parsed_time (os.strptime normalized)
        ]
  time_of _ default = raised invalid_payload

-- `_status`
unfoldable pub status_of : Value → Outcome AdapterError AlertStatus
status_of (num n) =
    if n == 0
    then ok AlertStatus.resolved
    else if n == 1
    then ok AlertStatus.firing
    else raised invalid_payload
status_of (boolean b) = ok (if b then AlertStatus.firing else AlertStatus.resolved)
status_of (text s) =
    if any (λ t. s == t) ("0" ∷ "resolved" ∷ "recovered" ∷ "RECOVERED" ∷ "恢复" ∷ [])
    then ok AlertStatus.resolved
    else if any (λ t. s == t) ("1" ∷ "firing" ∷ "FIRING" ∷ "triggered" ∷ "告警" ∷ [])
    then ok AlertStatus.firing
    else raised invalid_payload
status_of _ = raised invalid_payload

module _ (os : Platform) where
  -- `str(value or "warning")`
  abbrev severity_text : Value → String
  severity_text null = "warning"
  severity_text (boolean b) = if b then "True" else "warning"
  severity_text (num n) = if n == 0 then "warning" else decimal n
  severity_text (text s) = if s == "" then "warning" else s
  severity_text (uuid n) = os.repr (uuid n)
  severity_text (list nil) = "warning"
  severity_text (list (cons v vs)) = os.repr (list (cons v vs))
  severity_text (dict end) = "warning"
  severity_text (dict (field k v rest)) = os.repr (dict (field k v rest))

  -- `_severity`
  unfoldable pub severity_of : Value → String
  unfolding strip decimal
  severity_of value =
      let normalized = os.lower (strip (severity_text value)) in
      if any (λ t. normalized == t) ("serious" ∷ "critical" ∷ "严重" ∷ [])
      then "critical"
      else if any (λ t. normalized == t) ("remind" ∷ "info" ∷ "提醒" ∷ [])
      then "info"
      else "warning"

  -- `_fingerprint`
  unfoldable pub fingerprint_of : Option String → Subject → Fields → String
  unfolding stable_fingerprint set_field
  fingerprint_of none s labels = stable_fingerprint os.dumps os.sha256 s labels []
  fingerprint_of (some e) s labels =
      if e == ""
      then stable_fingerprint os.dumps os.sha256 s labels []
      else stable_fingerprint os.dumps os.sha256 s (set_field "source_event_id" (text e) labels)
          ("source_event_id" ∷ [])
