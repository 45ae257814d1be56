-- ===== src/Learning/Extraction.antt =====
-- The redaction and the fingerprints of src/oncall/experience/extraction.py. `re.sub`, the case
-- folding of the regular expressions, `str.split` and the hash of a value are parameters.
use oncall.Json.{
  Value, Fields, Items, boolean, cons, dict, end, field, list, nil, null, num, text, uuid,
}
use oncall.Prelude.{String, List, [], Bool, any, contains, if◌then◌else◌, join, ◌∷◌}

abbrev sensitive_words : List String
sensitive_words =
    "authorization"
    ∷ ("cookie"
        ∷ ("password"
            ∷ ("secret"
                ∷ ("token"
                    ∷ ("apikey"
                        ∷ ("api_key"
                            ∷ ("api-key"
                                ∷ ("connectionstring"
                                    ∷ ("connection_string" ∷ ("connection-string" ∷ []))))))))))

-- `_SENSITIVE_KEYS.search(key)`
unfoldable pub is_sensitive : (String → String) → String → Bool
is_sensitive fold key = any (λ word. contains word (fold key)) sensitive_words

-- `redact_text`; `re_sub` takes the name of a pattern, the replacement and the text.
abbrev pub redact_text : (String → String → String → String) → String → String
redact_text re_sub value = re_sub "_URL_CREDENTIAL" "\\g<scheme><SECRET>@" (
    re_sub "_IPV4" "<INTERNAL_IP>"
      (re_sub "_EMAIL" "<USER_EMAIL>" (re_sub "_BEARER" "Bearer <SECRET>" value)))

-- `redact_value`, of a value, of the items of a list and of the fields of a dictionary
unfoldable mutual
  unfolding is_sensitive

  pub redact_value : (String → String) → (String → String → String → String) → Value → Value
  redact_value fold re_sub (dict d) = dict (redact_fields fold re_sub d)
  redact_value fold re_sub (list items) = list (redact_items fold re_sub items)
  redact_value fold re_sub (text s) = text (redact_text re_sub s)
  redact_value fold re_sub null = null
  redact_value fold re_sub (boolean b) = boolean b
  redact_value fold re_sub (num n) = num n
  redact_value fold re_sub (uuid n) = uuid n

  pub redact_items : (String → String) → (String → String → String → String) → Items → Items
  redact_items fold re_sub nil = nil
  redact_items fold re_sub (cons v rest) =
      cons (redact_value fold re_sub v) (redact_items fold re_sub rest)

  pub redact_fields : (String → String) → (String → String → String → String) → Fields → Fields
  redact_fields fold re_sub end = end
  redact_fields fold re_sub (field key v rest) =
      field key (if is_sensitive fold key then text "<REDACTED>" else redact_value fold re_sub v)
        (redact_fields fold re_sub rest)

-- `pattern_fingerprint`; `normalize` is `s.strip().lower()`, `words` is `s.lower().split()`.
abbrev pub pattern_fingerprint :
    (Value → String)
    → (String → String)
    → (String → List String)
    → String
    → String
    → String
    → String
    → String
    → String
pattern_fingerprint canonical_hash normalize words project_id environment service root_cause
      action_type =
    canonical_hash (
      dict (
        field "project_id" (text (normalize project_id)) (
          field "environment" (text (normalize environment)) (
            field "service" (text (normalize service)) (
              field "root_cause" (text (join " " (words root_cause)))
                (field "action_type" (text (normalize action_type)) end))))))
