-- ===== src/Tests/Entries.antt =====
-- The theorems on log queries at concrete inputs.
use oncall.Gateway.Entries.{logs_result-one_bad}
use oncall.Gateway.{QueryLogsRequest}
use oncall.Gateway.Logs.{
  LogsPlatform, LogEntry, LogsResult, logs_result, LogsError, entry_of, is_entry,
}
use oncall.Gateway.Logs.{records_of}
use oncall.Prelude.{String, [], false, none, ok, raised, refl, size, some, ◌∷◌, ◌≡◌}
use oncall.Json.{Fields, Value, cons, dict, end, field, list, nil, num, text}

abbrev os : LogsPlatform
os = record {
  upper = λ s. s;
  repr = λ v. "[]";
  loads = λ s. none;
  utf8_size = size;
  isdigit = λ s. false;
  int_of = λ s. none;
  fromtimestamp = λ n. some n;
  now = 9;
}

abbrev log_record : String → Fields
log_record version = field "Time" (num 5) (
    field "LogJson"
      (dict (
        field "level" (text "ERR")
          (field "message" (text "boom") (field "version" (text version) end))))
      end)

abbrev entry : String → LogEntry
entry version = record {
  timestamp = 5000000;
  level = "ERROR";
  message = "boom";
  trace_id = none;
  status_code = none;
  version = some version;
}

abbrev request : QueryLogsRequest
request = record {
  project_id = "shop";
  environment = "prod";
  service = "cart";
  start_time = 0;
  end_time = 60000;
  limit = 20;
  levels = "ERROR" ∷ [];
}

abbrev answer : String → Value
answer version = dict (field "Results" (list (cons (dict (log_record version)) nil)) end)

abbrev result : LogsResult
result = record {
  project_id = "shop";
  environment = "prod";
  service = "cart";
  entries = entry "v1" ∷ [];
  returned_bytes = 40;
  truncated = false;
}

logged : logs_result os end (λ es. 40) request (answer "v1") ≡ ok result
unfolding logs_result
logged = refl

-- A version with a space.
logs_result-one_bad_example :
    (e : LogsError) × (logs_result os end (λ es. 40) request (answer "v 1") ≡ raised e)
unfolding records_of entry_of is_entry
logs_result-one_bad_example =
    logs_result-one_bad os end (λ es. 40) request (answer "v 1")
      (cons (dict (log_record "v 1")) nil) 0 (log_record "v 1") (entry "v 1") refl refl refl refl
