-- ===== src/Tests/Skills.antt =====
-- The theorems on learned skills at concrete inputs.
use oncall.Learning.Manifest.{is_valid_manifest, forbidden_names}
use oncall.Auth.Tokens.{User}
use oncall.Learning.Served.{Refines, serve-Refines}
use oncall.Tests.Data.{db_with}
use oncall.Learning.Active.{active_versions}
use oncall.Learning.Material.{is_skill_name}
use oncall.Json.{Value, end, null}
use oncall.Prelude.{ℕ, String, List, [], none, refl, true, ◌∷◌, ◌≡◌}
use oncall.Learning.{LearningDb, SkillCandidate, SkillManifest, pending_review, SkillVersion}
use oncall.Learning.Router.{Request, publish, reject, serve}
use oncall.Incidents.State.{IncidentStatus}
use oncall.Models.{PlanStatus}

abbrev manifest : SkillManifest
manifest = record {
  name = "learned_cart_recovery";
  version = record { major = 1; minor = 0; patch = 0 };
  description = "Investigate";
  alert_names = "HighErrorRate" ∷ [];
  service_types = "http-api" ∷ [];
  labels = end;
  allowed_tools = "query_service_logs" ∷ [];
  forbidden_actions = forbidden_names;
  output_schema = null;
}

abbrev candidate : ℕ → SkillCandidate
candidate id = record {
  id = id;
  experience_id = id;
  project_id = "shop";
  environment = "prod";
  service = "cart";
  skill_name = "learned_cart_recovery";
  proposed_version = record { major = 1; minor = 0; patch = 0 };
  manifest = manifest;
  instructions = "look";
  content_hash = "h";
  source_experience_ids = id ∷ [];
  status = pending_review;
  reviewed_by = none;
  review_comment = none;
  reviewed_at = none;
}

abbrev db : LearningDb
db = record {
  tables = db_with IncidentStatus.waiting_approval PlanStatus.approved [] [];
  evidence = [];
  citations = [];
  hypotheses = [];
  experience_candidates = [];
  experiences = [];
  skill_candidates = candidate 1 ∷ candidate 2 ∷ [];
  skill_versions = [];
}

abbrev admin : User
admin = record { id = 7; username = "ada"; password_hash = ""; role = "ADMIN"; is_active = true }

abbrev same : String → String
same s = s

abbrev hash : Value → String
hash v = "h"

-- Two publications of one skill, and a request for a candidate that is not there.
abbrev requests : List Request
requests = publish 1 admin none 100 ∷ publish 2 admin none 200 ∷ reject 3 admin none 300 ∷ []

serve-Refines_example :
    Refines "shop" "learned_cart_recovery" db (serve same same hash hash requests db)
serve-Refines_example = serve-Refines same same hash hash requests db "shop" "learned_cart_recovery"

abbrev patches : List SkillVersion → List ℕ
patches [] = []
patches (v ∷ vs) = v.version.patch ∷ patches vs

-- Only the second one is active, as version 1.0.1.
second_active :
    patches
      (active_versions "shop" "learned_cart_recovery" (serve same same hash hash requests db).1)
    ≡ 1 ∷ []
unfolding serve active_versions is_valid_manifest is_skill_name
second_active = refl
