-- ===== src/Skills/Selection.antt =====
-- The skill of an investigation: src/oncall/skills/selection.py.
use oncall.Skills.Ranking.{find_candidate_skills-IsFit, candidate_project}
use oncall.Skills.Registry.{
  AlertFacts, load, Package, SkillDefinition, SkillRegistryError, find_candidate_skills,
  invalid_definition, is_candidate, is_definition,
}
use mathlib.Core.Option.{some-injective}
use oncall.Prelude.{
  ℕ, All, Bool, List, Option, Option-cases, Outcome, Outcome-cases, String, [], and_true, ap,
  contains, eq_iff, false, if◌then◌else◌, inl, inr, is_slug, join, latest_by,
  latest_by-select_sound, nat_eq, none, ok, ok-injective, ok-of-if_else_raised, raised, select,
  some, string_eq, subst, sym, true, ◌&&◌, ◌==◌, ◌∙◌, ◌∷◌, ◌≡◌, ◌⊎◌,
}
use oncall.Json.{Value, end, field, text}
use oncall.Learning.{VersionStatus, SkillVersion}

-- `_alert_name`
unfoldable pub alert_name_of : (String → String) → String → String
alert_name_of lower summary =
    if contains (lower "HighErrorRate") (lower summary)
    then "HighErrorRate"
    else if contains (lower "HighLatency") (lower summary)
    then "HighLatency"
    else "HighErrorRate"

abbrev is_active_status : VersionStatus → Bool
is_active_status VersionStatus.active = true
is_active_status _ = false

abbrev pub in_scope : String → String → String → SkillVersion → Bool
in_scope project_id environment service v =
    v.project_id == project_id
    && (v.environment == environment && (v.service == service && is_active_status v.status))

abbrev pub newest_active : String → String → String → List SkillVersion → Option SkillVersion
newest_active project_id environment service versions =
    latest_by (λ v. v.published_at) (select (in_scope project_id environment service) versions)

-- `SkillDefinition(...)` of a learned version
abbrev pub learned_definition : (ℕ → String) → SkillVersion → SkillDefinition
learned_definition str_uuid v = record {
  project_id = v.project_id;
  manifest = v.manifest;
  instructions = v.instructions;
  source_path = join "" ("database:skill_versions:" ∷ str_uuid v.id ∷ []);
}

abbrev pub head : List SkillDefinition → Option SkillDefinition
head [] = none
head (s ∷ rest) = some s

-- `find_candidate_skills` of the module: a registry that holds nothing is loaded first.
abbrev pub loaded_registry :
    List Package → List SkillDefinition → Outcome SkillRegistryError (List SkillDefinition)
loaded_registry packages [] = (load packages []).0
loaded_registry packages (s ∷ skills) = ok (s ∷ skills)

-- What the selection calls outside of the repository.
pub record Matching : Type 0 where
  pub lower : String → String
  pub fnmatchcase : String → String → Bool
  pub repr : Value → String
  pub str_uuid : ℕ → String

abbrev pub alert_facts : Matching → String → String → AlertFacts
alert_facts env project_id summary = record {
  project_id = project_id;
  alert_name = alert_name_of env.lower summary;
  labels = field "correlation_key" (text "release-regression") end;
}

-- `select_investigation_skill`; `skills` is what the registry holds.
unfoldable pub select_investigation_skill :
    Matching
    → List Package
    → List SkillDefinition
    → List SkillVersion
    → String
    → String
    → String
    → String
    → Outcome SkillRegistryError (Option SkillDefinition)
unfolding alert_name_of select latest_by load find_candidate_skills is_slug
select_investigation_skill env packages skills versions project_id environment service summary =
    elim (newest_active project_id environment service versions) [
      | some v ↦
          let s = learned_definition env.str_uuid v in
          if is_definition s then ok (some s) else raised invalid_definition
      | none ↦ elim (loaded_registry packages skills) [
        | raised e ↦ raised e
        | ok held ↦ ok (
            head (
              find_candidate_skills env.fnmatchcase env.repr (alert_facts env project_id summary)
                "http-api" held))
      ]
    ]

head-All :
    (P : SkillDefinition → Type 0) (l : List SkillDefinition) {s : SkillDefinition}
    → head l ≡ some s
    → All P l
    → P s
head-All P [] h a = absurd (cc)
head-All P (x ∷ l) h a = subst P (some-injective _ _ h) a.0

-- The skill of an investigation is of the incident's project. It is that of the newest active
-- version for the project, the environment and the service, if there is one, and else one of the
-- registry that fits the alert.
pub select_investigation_skill-IsOwn :
    (env : Matching) (packages : List Package) (skills : List SkillDefinition)
    (versions : List SkillVersion) (project_id environment service summary : String)
    (s : SkillDefinition)
    → select_investigation_skill env packages skills versions project_id environment service summary
      ≡ ok (some s)
    → (s.project_id ≡ project_id)
      × (((v : SkillVersion) × (newest_active project_id environment service versions ≡ some v)
            × (in_scope project_id environment service v ≡ true)
            × (s ≡ learned_definition env.str_uuid v))
          ⊎ ((newest_active project_id environment service versions ≡ none)
              × (is_candidate env.fnmatchcase env.repr
                    (alert_facts env project_id summary)
                    "http-api"
                    s
                  ≡ true)))
unfolding select_investigation_skill
select_investigation_skill-IsOwn env packages skills versions project_id environment service summary
      s h =
    elim (Option-cases (newest_active project_id environment service versions)) [
      | inr (v, e) ↦
          let (valid, same) =
            ok-of-if_else_raised (is_definition (learned_definition env.str_uuid v))
              invalid_definition (ok (some (learned_definition env.str_uuid v)))
              (rw (select_investigation_skill, e) at h) in
          let own : learned_definition env.str_uuid v ≡ s =
            some-injective _ _ (ok-injective same) in
          let scope =
            latest_by-select_sound (λ (x : SkillVersion). x.published_at)
              (in_scope project_id environment service) versions {x = v} e in
          let (p, _) =
            and_true (v.project_id == project_id)
              (v.environment == environment && (v.service == service && is_active_status v.status))
              scope in
          (
            ap (λ (x : SkillDefinition). x.project_id) (sym own)
                ∙ (eq_iff v.project_id project_id).0 p,
            inl (v, e, scope, sym own),
          )
      | inl e ↦ elim (Outcome-cases (loaded_registry packages skills)) [
        | inr (f, l) ↦ absurd (let h' = rw (select_investigation_skill, e, l) at h in cc)
        | inl (held, l) ↦
            let found : head (
                  find_candidate_skills env.fnmatchcase env.repr
                    (alert_facts env project_id summary) "http-api" held)
                ≡ some s =
              ok-injective (rw (select_investigation_skill, e, l) at h) in
            let fit =
              find_candidate_skills-IsFit env.fnmatchcase env.repr
                (alert_facts env project_id summary) "http-api" held in
            let here =
              head-All
                (λ x.
                  is_candidate env.fnmatchcase env.repr (alert_facts env project_id summary)
                    "http-api" x
                  ≡ true)
                (find_candidate_skills env.fnmatchcase env.repr (alert_facts env project_id summary)
                  "http-api" held)
                {s = s} found fit.0 in
            (
              candidate_project env.fnmatchcase env.repr (alert_facts env project_id summary)
                  "http-api" s here,
              inr (e, here),
            )
      ]
    ]
