-- ===== src/Gateway/Logs.antt =====
-- The call of CLS: `_call_cls_logs` and `_structured_content_any` of
-- src/oncall/mcp_gateway/client.py, with `LogEntry` and `LogsResult` of
-- src/oncall/mcp_gateway/schemas.py. The numbers of a record are whole and not negative; the names
-- that a configuration gives to the fields of a log are texts. `str.upper`, `str` of a container,
-- `json.loads`, `isdigit`, `int` and the times are parameters.
use oncall.Gateway.{QueryLogsRequest}
use oncall.Prelude.{
  ℕ, Bool, List, Option, Outcome, String, [], decimal, false, if◌then◌else◌, is_version, join, leb,
  ltb, nat_eq, none, not, ok, raised, size, some, string_eq, suc, take_chars, true, zero, ◌&&◌, ◌*◌,
  ◌+◌, ◌==◌, ◌>>=◌, ◌||◌, ◌∷◌, all, length, map,
}
use oncall.Json.{
  Fields, Items, Value, boolean, cons, dict, end, field, get, list, nil, null, num, text, uuid,
  as_dict,
}

pub record LogEntry : Type 0 where
  pub timestamp : ℕ
  pub level : String
  pub message : String
  pub trace_id : Option String
  pub status_code : Option ℕ
  pub version : Option String

pub record LogsResult : Type 0 where
  pub project_id : String
  pub environment : String
  pub service : String
  pub entries : List LogEntry
  pub returned_bytes : ℕ
  pub truncated : Bool

-- A result without readable content, a value of a wrong type, a time or number that cannot be read,
-- and the `ValidationError` of an entry.
pub data LogsError : Type 0 where
  no_content type_error bad_time bad_number invalid_entry : LogsError

pub record LogsPlatform : Type 0 where
  pub upper : String → String
  pub repr : Value → String
  pub loads : String → Option Value
  pub utf8_size : String → ℕ
  pub isdigit : String → Bool
  pub int_of : String → Option ℕ
  pub fromtimestamp : ℕ → Option ℕ
  pub now : ℕ

-- `records[:n]`
abbrev pub first_items : ℕ → Items → Items
first_items zero vs = nil
first_items (suc n) nil = nil
first_items (suc n) (cons v vs) = cons v (first_items n vs)

abbrev pub count_items : Items → ℕ
count_items nil = 0
count_items (cons v vs) = suc (count_items vs)

-- A text as what it is iterated to: as many items that are no objects.
abbrev characters : String → Items
characters String.[] = nil
characters (String.◌∷◌ c s) = cons null (characters s)

abbrev least : ℕ → ℕ → ℕ
least a b = if leb a b then a else b

abbrev is_truthy : Value → Bool
is_truthy null = false
is_truthy (boolean b) = b
is_truthy (num n) = not (n == 0)
is_truthy (text s) = not (s == "")
is_truthy (uuid n) = true
is_truthy (list nil) = false
is_truthy (list (cons v vs)) = true
is_truthy (dict end) = false
is_truthy (dict (field k v rest)) = true

-- `d.get(a) or d.get(b) or ... or []`
abbrev first_truthy : List String → Fields → Value
first_truthy [] d = list nil
first_truthy (key ∷ keys) d = elim (get key d) [
  | none ↦ first_truthy keys d
  | some v ↦ if is_truthy v then v else first_truthy keys d
]

-- What can be sliced.
abbrev sliced : Value → Outcome LogsError Items
sliced (list vs) = ok vs
sliced (text s) = ok (characters s)
sliced _ = raised type_error

abbrev inner_records : Value → Value
inner_records (dict d) = first_truthy ("Results" ∷ "results" ∷ []) d
inner_records v = v

-- The records of a raw result.
unfoldable pub records_of : Value → Outcome LogsError Items
unfolding get
records_of (list vs) = ok vs
records_of (dict d) =
    sliced (inner_records (first_truthy ("Results" ∷ "results" ∷ "Logs" ∷ "logs" ∷ "data" ∷ []) d))
records_of _ = ok nil

abbrev level_of : String → String
level_of raw =
    if raw == "WARN" || raw == "WARNING"
    then "WARNING"
    else if raw == "ERR" || raw == "ERROR"
    then "ERROR"
    else "INFO"

abbrev get_or : String → Value → Fields → Value
get_or key d fields = elim (get key fields) [ none ↦ d | some v ↦ v ]

abbrev whole : Option ℕ → Outcome LogsError (Option ℕ)
whole none = raised bad_number
whole (some n) = ok (some n)

abbrev loaded : Option Value → Outcome LogsError Value
loaded none = raised no_content
loaded (some v) = ok v

module _ (os : LogsPlatform) where
  -- The texts of the parts, up to the limit.
  unfoldable pub joined_text : ℕ → List String → Option (List String)
  joined_text used [] = some []
  joined_text used (part ∷ parts) =
      let rest = joined_text (used + os.utf8_size part) parts in
      if ltb 262144 (used + os.utf8_size part)
      then none
      else elim rest [ none ↦ none | some more ↦ some (part ∷ more) ]

  -- `_structured_content_any`
  unfoldable pub structured_content_any : Option Value → List String → Outcome LogsError Value
  unfolding joined_text
  structured_content_any (some v) parts = ok v
  structured_content_any none parts = elim (joined_text 0 parts) [
    | none ↦ raised no_content
    | some texts ↦ loaded (os.loads (join "" texts))
  ]

  -- `str(v)`
  abbrev pub str_of : Value → String
  str_of (text s) = s
  str_of (num n) = decimal n
  str_of (boolean b) = if b then "True" else "False"
  str_of null = "None"
  str_of v = os.repr v

  -- The name of a log's field in the configuration.
  abbrev pub name_of : String → String → Fields → String
  name_of key d names = elim (get key names) [ none ↦ d | some v ↦ str_of v ]

  abbrev as_log : Value → Fields
  as_log (dict d) = d
  as_log (text s) = elim (os.loads s) [
    | some (dict d) ↦ d
    | some v ↦ field "message" (text (str_of v)) end
    | none ↦ field "message" (text s) end
  ]
  as_log v = field "message" (text (str_of v)) end

  -- The log of a record.
  abbrev pub log_of : Fields → Fields
  log_of record_fields =
      as_log (get_or "LogJson" (get_or "log_json" (dict record_fields) record_fields) record_fields)

  abbrev timestamp_of : Value → Outcome LogsError ℕ
  timestamp_of (num n) =
      elim (os.fromtimestamp (if ltb 10000000000 n then n * 1000 else n * 1000000)) [
        | none ↦ raised bad_time
        | some t ↦ ok t
      ]
  timestamp_of (boolean b) = elim (os.fromtimestamp (if b then 1000000 else 0)) [
    | none ↦ raised bad_time
    | some t ↦ ok t
  ]
  timestamp_of _ = ok os.now

  -- `str(v) if v is not None else None`
  abbrev optional_text : Option Value → Option String
  optional_text none = none
  optional_text (some null) = none
  optional_text (some v) = some (str_of v)

  abbrev status_code_of : Option Value → Outcome LogsError (Option ℕ)
  status_code_of none = ok none
  status_code_of (some (num n)) = ok (some n)
  status_code_of (some v) = if os.isdigit (str_of v) then whole (os.int_of (str_of v)) else ok none

-- `LogEntry(...)` is valid.
unfoldable pub is_entry : LogEntry → Bool
unfolding is_version
is_entry e =
    leb (size e.message) 2048
    && (elim e.trace_id [ none ↦ true | some t ↦ leb (size t) 128 ]
        && (elim e.status_code [ none ↦ true | some c ↦ leb 100 c && leb c 599 ]
            && elim e.version [ none ↦ true | some v ↦ is_version v ]))

module _ (os : LogsPlatform) (names : Fields) where
  -- The entry of a record, before validation.
  unfoldable pub entry_of : Fields → Outcome LogsError LogEntry
  unfolding get decimal
  entry_of record_fields = do
    let log = log_of os record_fields
    timestamp ← timestamp_of os (
        get_or (name_of os "timestamp" "Time" names)
          (get_or "Time" (get_or "timestamp" null log) record_fields) record_fields)
    status_code ← status_code_of os (get (name_of os "status_code" "status_code" names) log)
    ok (record {
      timestamp = timestamp;
      level = level_of (
          os.upper (
            str_of os
              (get_or (name_of os "level" "level" names) (get_or "level" (text "INFO") log) log)));
      message = take_chars 2048 (
          str_of os
            (get_or (name_of os "message" "message" names) (get_or "message" (text "") log) log));
      trace_id = optional_text os (get (name_of os "trace_id" "trace_id" names) log);
      status_code = status_code;
      version = optional_text os (get (name_of os "version" "version" names) log);
    })

  -- The loop over the first hundred records.
  unfoldable pub entries_of : Items → Outcome LogsError (List LogEntry)
  unfolding entry_of
  entries_of nil = ok []
  entries_of (cons v rest) = elim (as_dict (some v)) [
    | none ↦ entries_of rest
    | some fields ↦ (do e ← entry_of fields; es ← entries_of rest; ok (e ∷ es))
  ]

  -- The rest of `_call_cls_logs` up to the bounding of the result; `json_size` is of the dumped
  -- entries, and the entries are validated when the result is built.
  unfoldable pub logs_result :
      (List LogEntry → ℕ) → QueryLogsRequest → Value → Outcome LogsError LogsResult
  unfolding records_of entries_of is_entry
  logs_result json_size q raw = do
    records ← records_of raw
    entries ← entries_of (first_items 100 records)
    if all is_entry entries
        then ok (record {
          project_id = q.project_id;
          environment = q.environment;
          service = q.service;
          entries = entries;
          returned_bytes = least (json_size entries) 20480;
          truncated = ltb (length entries) (count_items records);
        })
        else raised invalid_entry

-- `config["log_fields"]`, if it is an object
abbrev names_of : Fields → Fields
names_of config = elim (as_dict (get "log_fields" config)) [ none ↦ end | some d ↦ d ]

-- `f'"{level.value}"'`
abbrev pub quoted : String → String
quoted s = join "" ("\"" ∷ s ∷ "\"" ∷ [])

-- `SearchLog`'s query; the service and the levels are the values between the quotes.
unfoldable pub cql : LogsPlatform → Fields → QueryLogsRequest → String
unfolding get decimal
cql os names q = join "" (
    name_of os "service" "service" names
    ∷ "="
    ∷ quoted q.service
    ∷ " AND "
    ∷ name_of os "level" "level" names
    ∷ " IN ("
    ∷ join "," (map quoted q.levels)
    ∷ ")"
    ∷ [])

-- The arguments of `SearchLog`, from the configuration of the service and the request.
unfoldable pub search_arguments : LogsPlatform → Fields → QueryLogsRequest → Fields
unfolding cql get decimal
search_arguments os config q = field "Region" (text (name_of os "region" "" config)) (
    field "TopicId" (text (name_of os "topic_id" "" config)) (
      field "From" (num q.start_time) (
        field "To" (num q.end_time) (
          field "Query" (text (cql os (names_of config) q)) (
            field "Sort" (text "desc")
              (field "Limit" (num q.limit) (field "Offset" (num 0) end)))))))
