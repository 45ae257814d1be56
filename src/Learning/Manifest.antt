-- ===== src/Learning/Manifest.antt =====
-- The manifest of a learned skill: `build_skill_material` of src/oncall/skills/evolution.py and its
-- validation, src/oncall/skills/schemas.py. `str.lower`, `str` of a value, `canonical_hash` and
-- the normalization of a text (`strip` and `lower`) are parameters.
use oncall.Learning.Material.{or_default, is_skill_name, learned_skill_name}
use oncall.Json.{
  Fields, Items, Value, get, boolean, cons, dict, end, field, list, nil, null, text, uuid, num,
}
use oncall.Learning.{Experience, Version, SkillManifest}
use Prim.Native.String.{◌++◌}
use oncall.Prelude.{
  ℕ, String, List, [], Bool, Option, all, any, decimal, false, if◌then◌else◌, join, leb, length,
  map, nat_beq, nat_eq, none, not, size, some, sort_by, string_eq, suc, text_leb, true, zero, ◌&&◌,
  ◌==◌, ◌∷◌,
}

abbrev pub version_text : Version → String
version_text v = decimal v.major ++ ("." ++ (decimal v.minor ++ ("." ++ decimal v.patch)))

abbrev pub forbidden_names : List String
forbidden_names = "rollback" ∷ ("restart" ∷ ("scale" ∷ ("arbitrary_write" ∷ [])))

abbrev property : String → String → Fields → Fields → Fields
property name kind described rest = field name (dict (field "type" (text kind) described)) rest

abbrev described : String → Bool → Fields
described description false = field "description" (text description) end
described description true =
    field "description" (text description)
      (field "items" (dict (field "type" (text "string") end)) end)

abbrev pub texts : List String → Items
texts [] = nil
texts (s ∷ rest) = cons (text s) (texts rest)

-- `_output_schema`
abbrev output_schema : Value
output_schema = dict (
    field "type" (text "object") (
      field "properties"
        (dict (
          property "observations" "array"
            (described "Bounded observations backed by read-only tool results." true)
            (property "release_correlation" "string"
              (described "Whether current evidence matches the reviewed experience." false)
              (property "confidence" "number"
                (described "Confidence from zero to one based only on current evidence." false)
                (property "missing_evidence" "array"
                  (described "Facts still required before diagnosis or planning." true) end)))))
        (field "required"
          (list (
            texts (
              "observations"
              ∷ ("release_correlation" ∷ ("confidence" ∷ ("missing_evidence" ∷ []))))))
          (field "additionalProperties" (boolean false) end))))

-- The value that is hashed.
abbrev pub manifest_value : SkillManifest → Value
manifest_value m = dict (
    field "name" (text m.name) (
      field "version" (text (version_text m.version)) (
        field "description" (text m.description) (
          field "triggers"
            (dict (
              field "alert_names" (list (texts m.alert_names)) (
                field "service_types" (list (texts m.service_types))
                  (field "labels" (dict m.labels) end))))
            (field "allowed_tools" (list (texts m.allowed_tools)) (
              field "forbidden_actions" (list (texts m.forbidden_actions))
                (field "output_schema" m.output_schema end)))))))

abbrev pub uuids : List ℕ → Items
uuids [] = nil
uuids (id ∷ rest) = cons (uuid id) (uuids rest)

abbrev pub is_among : String → List String → Bool
is_among s = any (λ t. t == s)

-- `sorted(set(xs))`
abbrev distinct : List String → List String
distinct [] = []
distinct (s ∷ rest) = let tail = distinct rest in if is_among s rest then tail else s ∷ tail

abbrev or_names : List String → List String
or_names [] = "HighErrorRate" ∷ []
or_names (s ∷ rest) = s ∷ rest

-- The validators of `SkillTrigger` and `SkillManifest`, without those of the output schema;
-- `normalize` is `s.strip().lower()`.
module _ (normalize : String → String) where
  abbrev pub is_blank : String → Bool
  is_blank s = normalize s == ""

  -- at least one, and none is blank
  abbrev pub are_texts : List String → Bool
  are_texts names = leb 1 (length names) && not (any is_blank names)

  abbrev pub are_labels : Fields → Bool
  are_labels end = true
  are_labels (field key (text v) rest) = not (is_blank key) && (not (is_blank v) && are_labels rest)
  are_labels (field key _ rest) = false

  unfoldable pub is_valid_manifest : SkillManifest → Bool
  is_valid_manifest m =
      is_skill_name m.name
      && (leb 1 (size m.description)
          && (leb (size m.description) 1024
              && (are_texts m.alert_names
                  && (are_texts m.service_types
                      && (are_labels m.labels
                          && (all (λ t. t == "query_service_logs") m.allowed_tools
                              && (nat_beq (length m.allowed_tools) 1
                                  && (are_texts m.forbidden_actions
                                      && all (λ a. is_among a (map normalize m.forbidden_actions))
                                          forbidden_names))))))))

-- `value or default`, where the value is what `d.get(key)` returned
abbrev or_text : (Value → String) → Option Value → String → String
or_text py_str none d = d
or_text py_str (some null) d = d
or_text py_str (some (boolean false)) d = d
or_text py_str (some (num zero)) d = d
or_text py_str (some (list nil)) d = d
or_text py_str (some (dict end)) d = d
or_text py_str (some (text String.[])) d = d
or_text py_str (some v) d = py_str v

-- `content.get("symptoms", [])[:10]`, each as a text: the content holds a list
abbrev first_texts : (Value → String) → ℕ → Items → List String
first_texts py_str zero items = []
first_texts py_str (suc n) nil = []
first_texts py_str (suc n) (cons v rest) = py_str v ∷ first_texts py_str n rest

abbrev symptoms_of : (Value → String) → Option Value → List String
symptoms_of py_str (some (list items)) = first_texts py_str 10 items
symptoms_of py_str _ = []

abbrev dict_or_empty : Option Value → Fields
dict_or_empty (some (dict d)) = d
dict_or_empty _ = end

abbrev bulleted : List String → String
bulleted symptoms =
    or_default (join "\n" (map (λ s. "- " ++ s) symptoms)) "- No reusable symptom text."

abbrev instructions_for : String → String → List String → String → String
instructions_for service root_cause symptoms action = join "" (
    "# Learned investigation Skill for "
    ∷ (service
        ∷ ("\n\nThis Skill was derived from a reviewed, successfully verified Incident. Treat it as a historical investigation pattern, not as proof that the same root cause applies now.\n\n## Reviewed pattern\n\nRoot cause: "
            ∷ (root_cause
                ∷ ("\n\nSymptoms:\n"
                    ∷ (bulleted symptoms
                        ∷ ("\n\n## Investigation procedure\n\n1. Query bounded Tencent CLS error and warning logs around the alert window.\n2. Extract only release/version facts that are explicitly present in indexed log fields.\n3. Compare current observations with the reviewed pattern and list opposing evidence.\n4. If version or recovery-target evidence is missing, request human review.\n5. Return only structured observations; never execute or authorize remediation.\n\n## Historical action context\n\nThe source Incident used this verified action as context: "
                            ∷ (action
                                ∷ (". Do not repeat it directly. Any new action must be created by the Remediation Planner and pass plan-hash approval, Policy Engine, and Recovery Executor controls.\n"
                                    ∷ [])))))))))

-- What `build_skill_material` validates.
unfoldable pub proposed_manifest :
    (String → String) → Experience → List String → Version → SkillManifest
proposed_manifest lower experience alert_names version = record {
  name = learned_skill_name lower experience.service;
  version = version;
  description =
      "Investigate "
      ++ (experience.service
          ++ " incidents that resemble reviewed recovery experience; this Skill never authorizes remediation.");
  alert_names = or_names (sort_by text_leb (distinct alert_names));
  service_types = "http-api" ∷ [];
  labels = end;
  allowed_tools = "query_service_logs" ∷ [];
  forbidden_actions = forbidden_names;
  output_schema = output_schema;
}

pub record Material : Type 0 where
  pub manifest : SkillManifest
  pub instructions : String
  pub material_hash : String

-- `build_skill_material`; `none` is a manifest that its validation refuses.
unfoldable pub build_skill_material :
    (String → String)
    → (String → String)
    → (Value → String)
    → (Value → String)
    → Experience
    → List String
    → Version
    → Option Material
unfolding get
build_skill_material lower normalize py_str canonical_hash experience alert_names version =
    let manifest = proposed_manifest lower experience alert_names version in
    let instructions =
      instructions_for experience.service
        (or_text py_str (get "root_cause" experience.content) "reviewed incident pattern")
        (symptoms_of py_str (get "symptoms" experience.content))
        (py_str (dict (dict_or_empty (get "action" experience.content)))) in
    if is_valid_manifest normalize manifest
    then some (record {
      manifest = manifest;
      instructions = instructions;
      material_hash = canonical_hash (
          dict (
            field "manifest" (manifest_value manifest) (
              field "instructions" (text instructions)
                (field "experience_id" (uuid experience.id) end))));
    })
    else none
