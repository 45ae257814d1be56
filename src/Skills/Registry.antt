-- ===== src/Skills/Registry.antt =====
-- The registry of checked-in skills: src/oncall/skills/registry.py, with `SkillDefinition` of
-- src/oncall/skills/schemas.py. The files, YAML and the validation of a manifest are a list of
-- packages; `fnmatchcase` and `str` of a container are parameters.
use oncall.Prelude.{
  ℕ, Bool, List, Option, Outcome, String, [], any, decimal, if◌then◌else◌, leb, ltb, nat_beq,
  nat_eq, none, not, ok, raised, select, size, some, sort_by, string_eq, strip, suc, take, text_leb,
  true, ◌&&◌, ◌*◌, ◌++◌, ◌+◌, ◌==◌, ◌||◌, ◌∷◌, is_slug,
}
use oncall.Json.{Fields, Value, end, field, get, is_text, num, text}
use oncall.Learning.{SkillManifest}

pub record SkillDefinition : Type 0 where
  pub project_id : String
  pub manifest : SkillManifest
  pub instructions : String
  pub source_path : String

-- A `skill.yaml`: its project, the manifest that it validates to, if any, and the file of instructions
-- beside it, if there is one, with the text that a reading returns, if it does.
pub record Package : Type 0 where
  pub path : String
  pub project_id : String
  pub instructions : Option (Option String)
  pub manifest : Option SkillManifest

-- `SkillRegistryError`, and the `ValidationError` of a definition
pub data SkillRegistryError : Type 0 where
  missing_instructions invalid_manifest duplicate_name : SkillRegistryError
  unreadable_instructions invalid_definition : SkillRegistryError

abbrev pub same_identity : String → String → SkillDefinition → Bool
same_identity project_id name s = s.project_id == project_id && s.manifest.name == name

-- `SkillDefinition(...)` is valid.
abbrev pub is_definition : SkillDefinition → Bool
is_definition s =
    is_slug 63 s.project_id && (leb 1 (size s.instructions) && leb (size s.instructions) 50000)

-- The rounds of `load`; the identities that were seen are those of `loaded`.
unfoldable pub load_packages :
    List SkillDefinition → List Package → Outcome SkillRegistryError (List SkillDefinition)
unfolding strip
load_packages loaded [] = ok loaded
load_packages loaded (p ∷ ps) = elim p.instructions [
  | none ↦ raised missing_instructions
  | some file ↦ elim p.manifest [
    | none ↦ raised invalid_manifest
    | some manifest ↦
        if any (same_identity p.project_id manifest.name) loaded
        then raised duplicate_name
        else elim file [
          | none ↦ raised unreadable_instructions
          | some instructions ↦
              let skill : SkillDefinition = record {
                project_id = p.project_id;
                manifest = manifest;
                instructions = strip instructions;
                source_path = p.path;
              } in
              let rest = load_packages (loaded ++ skill ∷ []) ps in
              if not (is_definition skill) then raised invalid_definition else rest
        ]
  ]
]

-- `load`: whether it raised, and the skills that the registry holds afterwards.
unfoldable pub load :
    List Package
    → List SkillDefinition
    → Outcome SkillRegistryError (List SkillDefinition) × List SkillDefinition
unfolding load_packages
load packages skills = elim (load_packages [] packages) [
  | raised e ↦ (raised e, skills)
  | ok loaded ↦ (ok loaded, loaded)
]

abbrev count_fields : Fields → ℕ
count_fields end = 0
count_fields (field k v rest) = suc (count_fields rest)

-- What an alert is matched by: its project, its name and its labels.
pub record AlertFacts : Type 0 where
  pub project_id : String
  pub alert_name : String
  pub labels : Fields

module _ (fnmatchcase : String → String → Bool) (repr : Value → String) where
  -- `str(v)`
  abbrev label_text : Option Value → String
  label_text none = ""
  label_text (some (text s)) = s
  label_text (some (num n)) = decimal n
  label_text (some v) = repr v

  -- Every label of the trigger is there with its value; the values of a trigger are texts.
  unfoldable pub labels_match : Fields → Fields → Bool
  unfolding get decimal
  labels_match end labels = true
  labels_match (field key v rest) labels =
      is_text (label_text (get key labels)) (some v) && labels_match rest labels

  abbrev pub matching_names : String → List String → List String
  matching_names alert_name patterns = select (λ p. fnmatchcase alert_name p) patterns

  -- The tests of a round do not skip the skill.
  unfoldable pub is_candidate : AlertFacts → String → SkillDefinition → Bool
  unfolding labels_match
  is_candidate alert service_type s =
      s.project_id == alert.project_id
      && (any (fnmatchcase alert.alert_name) s.manifest.alert_names
          && (any (λ t. t == service_type) s.manifest.service_types
              && labels_match s.manifest.labels alert.labels))

  unfoldable pub score : AlertFacts → SkillDefinition → ℕ
  unfolding select
  score alert s =
      100
      + (if any (λ p. p == alert.alert_name)
            (matching_names alert.alert_name s.manifest.alert_names)
          then 20
          else 0)
      + 10 * count_fields s.manifest.labels

  -- The order of the ranking: the higher score first, then the name.
  abbrev pub ranks_before : AlertFacts → SkillDefinition → SkillDefinition → Bool
  ranks_before alert s t =
      ltb (score alert t) (score alert s)
      || (nat_beq (score alert s) (score alert t) && text_leb s.manifest.name t.manifest.name)

  -- `find_candidate_skills`
  unfoldable pub find_candidate_skills :
      AlertFacts → String → List SkillDefinition → List SkillDefinition
  unfolding select sort_by score text_leb is_candidate
  find_candidate_skills alert service_type skills =
      take 3 (sort_by (ranks_before alert) (select (is_candidate alert service_type) skills))
