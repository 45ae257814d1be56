-- ===== src/Learning/Reviews.antt =====
-- The review of an experience: src/oncall/experience/service.py and the routes that call it, of
-- src/oncall/experience/router.py.
use oncall.Learning.Skills.{create_skill_candidate}
use oncall.Learning.Versions.{is_pending, SkillError}
use oncall.Learning.Experiences.{hashed, published_content}
use oncall.Auth.Tokens.{User}
use oncall.Json.{Value, end, field, null, text, uuid}
use oncall.Models.{append_audit_event}
use oncall.Prelude.{
  ℕ, String, [], Option, Outcome, find, if◌then◌else◌, is_some, nat_eq, none, not, ok, raised, some,
  string_eq, suc, update_first, ◌==◌, ◌∷◌,
}
use oncall.Learning.{ReviewStatus, Experience, ExperienceCandidate, LearningDb, SkillCandidate}

pub data ReviewError : Type 0 where
  no_candidate not_pending_review duplicate_pattern : ReviewError

-- The row of a published experience.
abbrev pub new_experience : ExperienceCandidate → User → ℕ → ℕ → Experience
new_experience c actor id now = record {
  id = id;
  candidate_id = c.id;
  project_id = c.project_id;
  environment = c.environment;
  service = c.service;
  pattern_fingerprint = c.pattern_fingerprint;
  content_hash = c.content_hash;
  version = 1;
  title = c.title;
  content = published_content c;
  source_incident_ids = c.incident_id ∷ [];
  published_by = some actor.id;
  published_at = now;
  status = ReviewStatus.published;
}

abbrev pub reviewed :
    ReviewStatus → User → Option String → ℕ → ExperienceCandidate → ExperienceCandidate
reviewed s actor comment now c = record c {
  status = s;
  reviewed_by = some actor.id;
  review_comment = comment;
  reviewed_at = some now;
}

abbrev comment_value : Option String → Value
comment_value none = null
comment_value (some s) = text s

-- `reject_candidate`
unfoldable pub reject_candidate :
    ExperienceCandidate → User → Option String → ℕ → LearningDb → Outcome ReviewError LearningDb
unfolding update_first append_audit_event
reject_candidate candidate actor comment now db =
    if not (is_pending candidate.status)
    then raised not_pending_review
    else ok (record db {
      experience_candidates =
          update_first (λ c. c.id == candidate.id)
            (reviewed ReviewStatus.rejected actor comment now) db.experience_candidates;
      tables =
          append_audit_event (some candidate.incident_id) "experience.rejected"
            (field "candidate_id" (uuid candidate.id) (field "comment" (comment_value comment) end))
            actor.username db.tables;
    })

module _ (canonical_hash : Value → String) where
  -- The rows and the assignments of a publication; `c` has the hash of its content.
  abbrev stored_experience :
      ExperienceCandidate → Experience → User → Option String → ℕ → LearningDb → LearningDb
  stored_experience c e actor comment now db = record db {
    experiences = e ∷ db.experiences;
    experience_candidates =
        update_first (λ d. d.id == c.id)
          (λ d. reviewed ReviewStatus.published actor comment now (hashed canonical_hash d))
          db.experience_candidates;
    tables =
        append_audit_event (some c.incident_id) "experience.published"
          (field "candidate_id" (uuid c.id)
            (field "experience_id" (uuid e.id) (field "content_hash" (text c.content_hash) end)))
          actor.username (record db.tables { next_id = suc db.tables.next_id });
  }

  -- `publish_candidate`
  unfoldable pub publish_candidate :
      ExperienceCandidate
      → User
      → Option String
      → ℕ
      → LearningDb
      → Outcome ReviewError (Experience × LearningDb)
  unfolding find update_first append_audit_event
  publish_candidate candidate actor comment now db =
      elim (find (λ e. e.candidate_id == candidate.id) db.experiences) [
        | some existing ↦ ok (existing, db)
        | none ↦
            if not (is_pending candidate.status)
            then raised not_pending_review
            else if is_some candidate.duplicate_of_id
            then raised duplicate_pattern
            else let c = hashed canonical_hash candidate in
              let e = new_experience c actor db.tables.next_id now in
              ok (e, stored_experience c e actor comment now db)
      ]

-- The skill candidate of an experience that was published, in a transaction of its own: what it
-- raises is rolled back, and the publication stays.
abbrev best_effort : LearningDb → Outcome SkillError (SkillCandidate × LearningDb) → LearningDb
best_effort db (ok (c, db')) = db'
best_effort db (raised e) = db

module _ (lower normalize : String → String) (py_str canonical_hash : Value → String) where
  -- The route `publish`
  unfoldable pub publish :
      ℕ → User → Option String → ℕ → LearningDb → Outcome ReviewError (Experience × LearningDb)
  unfolding find publish_candidate create_skill_candidate
  publish candidate_id actor comment now db =
      elim (find (λ c. c.id == candidate_id) db.experience_candidates) [
        | none ↦ raised no_candidate
        | some c ↦ elim (publish_candidate canonical_hash c actor comment now db) [
          | raised e ↦ raised e
          | ok (e, db') ↦ ok (
            e,
            best_effort db' (create_skill_candidate lower normalize py_str canonical_hash e.id db'),
          )
        ]
      ]

-- The route `reject`
unfoldable pub reject : ℕ → User → Option String → ℕ → LearningDb → Outcome ReviewError LearningDb
unfolding find reject_candidate
reject candidate_id actor comment now db =
    elim (find (λ c. c.id == candidate_id) db.experience_candidates) [
      | none ↦ raised no_candidate
      | some c ↦ reject_candidate c actor comment now db
    ]
