-- ===== src/Tests/Selections.antt =====
-- The theorems on the registry and selection of skills at concrete inputs.
use oncall.Skills.Ranking.{IsDistinct, load-IsAtomic}
use oncall.Skills.Registry.{
  SkillRegistryError, SkillDefinition, Package, load, duplicate_name, is_candidate, is_definition,
}
use oncall.Skills.Selection.{
  Matching, select_investigation_skill, newest_active, alert_facts, in_scope, learned_definition,
  select_investigation_skill-IsOwn,
}
use oncall.Prelude.{
  All, List, String, [], decimal, is_slug, length, nat_eq, none, ok, raised, refl, some, string_eq,
  true, ◌==◌, ◌∷◌, ◌≡◌, ◌⊎◌,
}
use oncall.Json.{dict, end, field, text}
use oncall.Learning.{SkillVersion, SkillManifest}

abbrev errors_manifest : String → SkillManifest
errors_manifest name = record {
  name = name;
  version = record { major = 1; minor = 0; patch = 0 };
  description = "error rate after a release";
  alert_names = "HighErrorRate" ∷ [];
  service_types = "http-api" ∷ [];
  labels = field "correlation_key" (text "release-regression") end;
  allowed_tools = "query_service_logs" ∷ [];
  forbidden_actions = "rollback" ∷ "restart" ∷ "scale" ∷ "arbitrary_write" ∷ [];
  output_schema = dict end;
}

abbrev packed : String → String → Package
packed project name = record {
  path = "skill.yaml";
  project_id = project;
  instructions = some (some "Look at the release.");
  manifest = some (errors_manifest name);
}

abbrev definition : String → String → SkillDefinition
definition project name = record {
  project_id = project;
  manifest = errors_manifest name;
  instructions = "Look at the release.";
  source_path = "skill.yaml";
}

abbrev matching : Matching
matching = record {
  lower = λ s. s;
  fnmatchcase = λ name pattern. name == pattern;
  repr = λ v. "[]";
  str_uuid = decimal;
}

abbrev checked_in : List Package
checked_in = packed "other" "errors" ∷ packed "shop" "errors" ∷ packed "shop" "releases" ∷ []

loaded_three :
    (load checked_in []).1
    ≡ definition "other" "errors" ∷ definition "shop" "errors" ∷ definition "shop" "releases" ∷ []
unfolding load is_slug
loaded_three = refl

-- A second package of one project with one name leaves the registry as it was.
duplicate :
    load (packed "shop" "errors" ∷ packed "shop" "errors" ∷ []) (definition "shop" "old" ∷ [])
    ≡ (raised duplicate_name, definition "shop" "old" ∷ [])
unfolding load is_slug
duplicate = refl

load-IsAtomic_example :
    ((e : SkillRegistryError) × (load checked_in [] ≡ (raised e, [])))
    ⊎ ((loaded : List SkillDefinition) × (load checked_in [] ≡ (ok loaded, loaded))
        × (IsDistinct loaded)
        × (All (λ s. is_definition s ≡ true) loaded)
        × (length loaded ≡ length checked_in))
load-IsAtomic_example = load-IsAtomic checked_in []

selected :
    select_investigation_skill matching checked_in [] [] "shop" "prod" "cart"
      "HighErrorRate of cart"
    ≡ ok (some (definition "shop" "errors"))
unfolding select_investigation_skill
selected = refl

select_investigation_skill-IsOwn_example :
    ((definition "shop" "errors").project_id ≡ "shop")
    × (((v : SkillVersion) × (newest_active "shop" "prod" "cart" [] ≡ some v)
          × (in_scope "shop" "prod" "cart" v ≡ true)
          × (definition "shop" "errors" ≡ learned_definition decimal v))
        ⊎ ((newest_active "shop" "prod" "cart" [] ≡ none)
            × (is_candidate
                  (λ name pattern. name == pattern)
                  (λ v. "[]")
                  (alert_facts matching "shop" "HighErrorRate of cart")
                  "http-api"
                  (definition "shop" "errors")
                ≡ true)))
select_investigation_skill-IsOwn_example =
    select_investigation_skill-IsOwn matching checked_in [] [] "shop" "prod" "cart"
      "HighErrorRate of cart" (definition "shop" "errors") selected
