-- ===== src/Learning/Versions.antt =====
-- The queries and the rows of skill versions: src/oncall/skills/evolution.py.
use oncall.Auth.Tokens.{User}
use oncall.Learning.Manifest.{is_valid_manifest, version_text}
use oncall.Json.{end, field, text, uuid}
use oncall.Models.{Alert, IncidentAlert, append_audit_event}
use oncall.Learning.{
  ReviewStatus, Version, VersionStatus, LearningDb, SkillVersion, SkillCandidate, active,
  pending_review, retired,
}
use oncall.Prelude.{
  ℕ, String, List, [], Bool, Option, Outcome, any, false, find, if◌then◌else◌, latest_by, nat_eq,
  none, not, ok, raised, select, some, string_eq, suc, true, update_first, update_where, ◌&&◌, ◌==◌,
  ◌∷◌,
}

-- What the functions raise: a `ValueError`, or the database's refusal of a row.
pub data SkillError : Type 0 where
  not_published not_pending invalid_manifest integrity_error : SkillError

abbrev pub is_published : ReviewStatus → Bool
is_published ReviewStatus.published = true
is_published _ = false

abbrev pub is_pending : ReviewStatus → Bool
is_pending pending_review = true
is_pending _ = false

abbrev pub is_active : VersionStatus → Bool
is_active active = true
is_active retired = false

abbrev pub same_skill : String → String → SkillVersion → Bool
same_skill project_id skill_name v = v.project_id == project_id && v.skill_name == skill_name

-- `order_by(SkillVersion.published_at.desc()).limit(1)`
unfoldable pub latest_version : String → String → LearningDb → Option Version
unfolding select latest_by
latest_version project_id skill_name db =
    elim (latest_by (λ v. v.published_at)
      (select (same_skill project_id skill_name) db.skill_versions)) [
        | none ↦ none
        | some v ↦ some v.version
      ]

-- The names of the alerts that the links join to the incidents.
unfoldable pub alert_names_of : List ℕ → List Alert → List IncidentAlert → List String
unfolding find
alert_names_of ids alerts [] = []
alert_names_of ids alerts (link ∷ links) =
    let rest = alert_names_of ids alerts links in
    if any (λ id. id == link.incident_id) ids
    then elim (find (λ a. a.id == link.alert_id) alerts) [
      | none ↦ rest
      | some a ↦ a.alert_name ∷ rest
    ]
    else rest

abbrev pub version_beq : Version → Version → Bool
version_beq a b = a.major == b.major && (a.minor == b.minor && a.patch == b.patch)

-- `uq_skill_versions_identity`
abbrev pub same_identity : SkillVersion → SkillVersion → Bool
same_identity a b = same_skill a.project_id a.skill_name b && version_beq a.version b.version

-- The row that a publication adds.
abbrev pub published_version : SkillCandidate → User → Version → String → ℕ → ℕ → SkillVersion
published_version candidate actor version content_hash id now = record {
  id = id;
  candidate_id = candidate.id;
  project_id = candidate.project_id;
  environment = candidate.environment;
  service = candidate.service;
  skill_name = candidate.skill_name;
  version = version;
  manifest = record candidate.manifest { version = version };
  instructions = candidate.instructions;
  content_hash = content_hash;
  source_experience_ids = candidate.source_experience_ids;
  status = active;
  published_by = some actor.id;
  published_at = now;
}

abbrev pub retire : SkillVersion → SkillVersion
retire v = record v { status = retired }

-- The first reading of a publication: the version it is to have, or the end of the call.
unfoldable pub publication : SkillCandidate → LearningDb → Outcome SkillError (Option SkillVersion)
unfolding find is_valid_manifest latest_version
publication candidate db = elim (find (λ v. v.candidate_id == candidate.id) db.skill_versions) [
  | some existing ↦ ok (some existing)
  | none ↦ if not (is_pending candidate.status) then raised not_pending else ok none
]

-- The rows and the assignments of a publication.
unfoldable pub stored_version :
    SkillCandidate → User → Option String → ℕ → SkillVersion → LearningDb → LearningDb
unfolding update_where update_first append_audit_event
stored_version candidate actor comment now row db = record db {
  skill_versions =
      row
      ∷ update_where
          (λ v. same_skill candidate.project_id candidate.skill_name v && is_active v.status) retire
          db.skill_versions;
  skill_candidates =
      update_first (λ c. c.id == candidate.id)
        (λ c. record c {
          proposed_version = row.version;
          manifest = row.manifest;
          content_hash = row.content_hash;
          status = ReviewStatus.published;
          reviewed_by = some actor.id;
          review_comment = comment;
          reviewed_at = some now;
        })
        db.skill_candidates;
  tables =
      append_audit_event none "skill.published"
        (field "skill_version_id" (uuid row.id) (
          field "candidate_id" (uuid candidate.id) (
            field "skill_name" (text candidate.skill_name) (
              field "version" (text (version_text row.version))
                (field "content_hash" (text row.content_hash) end)))))
        actor.username (record db.tables { next_id = suc db.tables.next_id });
}

-- The manifest's validation comes before the rows, the constraint with the flush.
abbrev pub flushed :
    Bool → Bool → SkillVersion → LearningDb → Outcome SkillError (SkillVersion × LearningDb)
flushed is_valid clashes row db =
    if not is_valid
    then raised invalid_manifest
    else if clashes
    then raised integrity_error
    else ok (row, db)
