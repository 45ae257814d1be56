-- ===== src/Learning.antt =====
-- Experience and skills: src/oncall/experience and src/oncall/skills/evolution.py. This file has the
-- rows, of src/oncall/models.py.
use oncall.Json.{Value, Fields}
use oncall.Models.{Db}
use oncall.Prelude.{ℕ, String, List, Option}
pub mod Material
pub mod Names
pub mod Manifest
pub mod Versions
pub mod Skills
pub mod Router
pub mod Active
pub mod Served
pub mod Extraction
pub mod Grounds
pub mod Experiences
pub mod Reviews
pub mod Eligible

-- `ExperienceCandidate.status`, `Experience.status` and `SkillCandidate.status`
pub data ReviewStatus : Type 0 where
  pending_review published rejected : ReviewStatus

pub data VersionStatus : Type 0 where
  active retired : VersionStatus

-- The text `major.minor.patch` of a skill version.
pub record Version : Type 0 where
  pub major : ℕ
  pub minor : ℕ
  pub patch : ℕ

pub record SkillManifest : Type 0 where
  pub name : String
  pub version : Version
  pub description : String
  pub alert_names : List String
  pub service_types : List String
  pub labels : Fields
  pub allowed_tools : List String
  pub forbidden_actions : List String
  pub output_schema : Value

pub record ExperienceCandidate : Type 0 where
  pub id : ℕ
  pub incident_id : ℕ
  pub project_id : String
  pub environment : String
  pub service : String
  pub pattern_fingerprint : String
  pub content_hash : String
  pub title : String
  pub summary : Value
  pub symptoms : Value
  pub root_cause : Value
  pub action : Value
  pub verification : Value
  pub warnings : Value
  pub source_refs : Value
  pub confidence : ℕ
  pub redaction_version : String
  pub status : ReviewStatus
  pub duplicate_of_id : Option ℕ
  pub reviewed_by : Option ℕ
  pub review_comment : Option String
  pub reviewed_at : Option ℕ
  pub created_at : ℕ

pub record Experience : Type 0 where
  pub id : ℕ
  pub candidate_id : ℕ
  pub project_id : String
  pub environment : String
  pub service : String
  pub pattern_fingerprint : String
  pub content_hash : String
  pub version : ℕ
  pub title : String
  pub content : Fields
  pub source_incident_ids : List ℕ
  pub published_by : Option ℕ
  pub published_at : ℕ
  pub status : ReviewStatus

pub record SkillCandidate : Type 0 where
  pub id : ℕ
  pub experience_id : ℕ
  pub project_id : String
  pub environment : String
  pub service : String
  pub skill_name : String
  pub proposed_version : Version
  pub manifest : SkillManifest
  pub instructions : String
  pub content_hash : String
  pub source_experience_ids : List ℕ
  pub status : ReviewStatus
  pub reviewed_by : Option ℕ
  pub review_comment : Option String
  pub reviewed_at : Option ℕ

pub record SkillVersion : Type 0 where
  pub id : ℕ
  pub candidate_id : ℕ
  pub project_id : String
  pub environment : String
  pub service : String
  pub skill_name : String
  pub version : Version
  pub manifest : SkillManifest
  pub instructions : String
  pub content_hash : String
  pub source_experience_ids : List ℕ
  pub status : VersionStatus
  pub published_by : Option ℕ
  pub published_at : ℕ

pub record Evidence : Type 0 where
  pub id : ℕ
  pub incident_id : ℕ
  pub observation : String
  pub collected_at : ℕ

pub record KnowledgeCitation : Type 0 where
  pub id : ℕ
  pub incident_id : ℕ
  pub created_at : ℕ

-- The confidence in thousandths, as in the candidates
pub record Hypothesis : Type 0 where
  pub incident_id : ℕ
  pub description : String
  pub confidence : Option ℕ
  pub updated_at : ℕ

-- The tables of the incidents, and those of what is learned from them.
pub record LearningDb : Type 0 where
  pub tables : Db
  pub evidence : List Evidence
  pub citations : List KnowledgeCitation
  pub hypotheses : List Hypothesis
  pub experience_candidates : List ExperienceCandidate
  pub experiences : List Experience
  pub skill_candidates : List SkillCandidate
  pub skill_versions : List SkillVersion
