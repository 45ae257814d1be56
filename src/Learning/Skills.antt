-- ===== src/Learning/Skills.antt =====
-- Candidates and versions of skills: src/oncall/skills/evolution.py.
use oncall.Learning.Versions.{
  publication, SkillError, flushed, invalid_manifest, is_pending, is_published, latest_version,
  not_pending, not_published, published_version, same_identity, stored_version, alert_names_of,
}
use oncall.Learning.Material.{learned_skill_name, next_patch_version}
use oncall.Auth.Tokens.{User}
use oncall.Learning.Manifest.{
  build_skill_material, is_valid_manifest, version_text, manifest_value, uuids,
}
use oncall.Json.{Value, dict, end, field, list, text, uuid}
use oncall.Models.{append_audit_event}
use oncall.Learning.{ReviewStatus, LearningDb, SkillVersion, SkillCandidate, pending_review}
use oncall.Prelude.{
  ℕ, String, [], Option, Outcome, any, find, if◌then◌else◌, nat_eq, none, not, ok, raised, some,
  string_eq, suc, update_first, ◌&&◌, ◌==◌, ◌∷◌, take,
}

module _ (lower normalize : String → String) (py_str canonical_hash : Value → String) where
  -- `create_skill_candidate`
  unfoldable pub create_skill_candidate :
      ℕ → LearningDb → Outcome SkillError (SkillCandidate × LearningDb)
  unfolding find alert_names_of latest_version build_skill_material append_audit_event
  create_skill_candidate experience_id db =
      elim (find (λ e. e.id == experience_id && is_published e.status) db.experiences) [
        | none ↦ raised not_published
        | some experience ↦
            elim (find (λ c. c.experience_id == experience.id) db.skill_candidates) [
              | some existing ↦ ok (existing, db)
              | none ↦
                  let skill_name = learned_skill_name lower experience.service in
                  let version =
                    next_patch_version (latest_version experience.project_id skill_name db) in
                  let alert_names =
                    alert_names_of (take 20 experience.source_incident_ids) db.tables.alerts
                      db.tables.incident_alerts in
                  elim (build_skill_material lower normalize py_str canonical_hash experience
                    alert_names version) [
                      | none ↦ raised invalid_manifest
                      | some material ↦
                          let candidate : SkillCandidate = record {
                            id = db.tables.next_id;
                            experience_id = experience.id;
                            project_id = experience.project_id;
                            environment = experience.environment;
                            service = experience.service;
                            skill_name = skill_name;
                            proposed_version = version;
                            manifest = material.manifest;
                            instructions = material.instructions;
                            content_hash = material.material_hash;
                            source_experience_ids = experience.id ∷ [];
                            status = pending_review;
                            reviewed_by = none;
                            review_comment = none;
                            reviewed_at = none;
                          } in
                          ok (
                            candidate,
                            record db {
                              skill_candidates = candidate ∷ db.skill_candidates;
                              tables =
                                  append_audit_event none "skill.candidate_created"
                                    (field "candidate_id" (uuid candidate.id) (
                                      field "experience_id" (uuid experience.id) (
                                        field "skill_name" (text skill_name) (
                                          field "proposed_version" (text (version_text version))
                                            end))))
                                    "system:skill_evolution"
                                    (record db.tables { next_id = suc db.tables.next_id });
                            },
                          )
                    ]
            ]
      ]

  -- `publish_skill_candidate`: the version and the tables
  unfoldable pub publish_skill_candidate :
      SkillCandidate
      → User
      → Option String
      → ℕ
      → LearningDb
      → Outcome SkillError (SkillVersion × LearningDb)
  unfolding publication stored_version is_valid_manifest latest_version append_audit_event
  publish_skill_candidate candidate actor comment now db = elim (publication candidate db) [
    | raised e ↦ raised e
    | ok (some existing) ↦ ok (existing, db)
    | ok none ↦
        let version =
          next_patch_version (latest_version candidate.project_id candidate.skill_name db) in
        let manifest = record candidate.manifest { version = version } in
        let content_hash = canonical_hash (
          dict (
            field "manifest" (manifest_value manifest) (
              field "instructions" (text candidate.instructions) (
                field "source_experience_ids" (list (uuids candidate.source_experience_ids))
                  end)))) in
        let row = published_version candidate actor version content_hash db.tables.next_id now in
        flushed (is_valid_manifest normalize manifest) (any (same_identity row) db.skill_versions)
          row (stored_version candidate actor comment now row db)
  ]

-- `reject_skill_candidate`
unfoldable pub reject_skill_candidate :
    SkillCandidate → User → Option String → ℕ → LearningDb → Outcome SkillError LearningDb
unfolding update_first append_audit_event
reject_skill_candidate candidate actor comment now db =
    if not (is_pending candidate.status)
    then raised not_pending
    else ok (record db {
      skill_candidates =
          update_first (λ c. c.id == candidate.id)
            (λ c. record c {
              status = ReviewStatus.rejected;
              reviewed_by = some actor.id;
              review_comment = comment;
              reviewed_at = some now;
            })
            db.skill_candidates;
      tables =
          append_audit_event none "skill.rejected"
            (field "candidate_id" (uuid candidate.id)
              (field "skill_name" (text candidate.skill_name) end))
            actor.username db.tables;
    })
