-- ===== src/Learning/Router.antt =====
-- The routes that change skills: src/oncall/experience/router.py. A `ValueError` of the service is a
-- 409; what raises commits nothing.
use oncall.Learning.Versions.{SkillError, publication, integrity_error}
use oncall.Learning.Skills.{publish_skill_candidate, reject_skill_candidate, create_skill_candidate}
use oncall.Auth.Tokens.{User}
use oncall.Json.{Value}
use oncall.Prelude.{
  ℕ, String, List, [], Option, Outcome, find, nat_eq, none, ok, raised, some, string_eq, ◌==◌, ◌∷◌,
  ◌++◌,
}
use oncall.Learning.{LearningDb, SkillCandidate, SkillVersion}

pub data HttpError : Type 0 where
  not_found : HttpError
  conflict : SkillError → HttpError
  server_error : HttpError

abbrev pub answered {ℓ} : {A : Type ℓ} → Outcome SkillError A → Outcome HttpError A
answered (ok a) = ok a
answered (raised integrity_error) = raised server_error
answered (raised e) = raised (conflict e)

-- A request, with the user and the time it is served at.
pub data Request : Type 0 where
  generate : ℕ → Request
  publish : ℕ → User → Option String → ℕ → Request
  reject : ℕ → User → Option String → ℕ → Request

abbrev no_rows {ℓ} : {A : Type ℓ} → A × LearningDb → List SkillVersion × LearningDb
no_rows (a, db) = ([], db)

-- The rows that a publication added, kept as a log for the reader.
abbrev pub added :
    LearningDb → SkillCandidate → SkillVersion × LearningDb → List SkillVersion × LearningDb
added db c (v, db') = elim (publication c db) [ ok none ↦ (v ∷ [], db') | _ ↦ ([], db') ]

abbrev pub and_then :
    List SkillVersion → List SkillVersion × LearningDb → List SkillVersion × LearningDb
and_then log (rest, db) = (rest ++ log, db)

module _ (lower normalize : String → String) (py_str canonical_hash : Value → String) where
  -- `publish_skill`
  unfoldable pub publish_skill :
      ℕ → User → Option String → ℕ → LearningDb → Outcome HttpError (List SkillVersion × LearningDb)
  unfolding find publish_skill_candidate
  publish_skill candidate_id actor comment now db =
      elim (find (λ c. c.id == candidate_id) db.skill_candidates) [
        | none ↦ raised not_found
        | some c ↦
            elim (answered (
              publish_skill_candidate lower normalize py_str canonical_hash c actor comment now
                db)) [ ok r ↦ ok (added db c r) | raised e ↦ raised e ]
      ]

  -- `reject_skill`
  unfoldable pub reject_skill :
      ℕ → User → Option String → ℕ → LearningDb → Outcome HttpError (List SkillVersion × LearningDb)
  unfolding find reject_skill_candidate
  reject_skill candidate_id actor comment now db =
      elim (find (λ c. c.id == candidate_id) db.skill_candidates) [
        | none ↦ raised not_found
        | some c ↦ elim (answered (reject_skill_candidate c actor comment now db)) [
          | ok db' ↦ ok ([], db')
          | raised e ↦ raised e
        ]
      ]

  -- `generate_skill_candidate`
  unfoldable pub generate_skill_candidate :
      ℕ → LearningDb → Outcome HttpError (List SkillVersion × LearningDb)
  unfolding create_skill_candidate
  generate_skill_candidate experience_id db =
      elim (answered
        (create_skill_candidate lower normalize py_str canonical_hash experience_id db)) [
          | ok r ↦ ok (no_rows r)
          | raised e ↦ raised e
        ]

  unfoldable pub handle : Request → LearningDb → Outcome HttpError (List SkillVersion × LearningDb)
  unfolding publish_skill reject_skill generate_skill_candidate
  handle (generate experience_id) db = generate_skill_candidate experience_id db
  handle (publish candidate_id actor comment now) db =
      publish_skill candidate_id actor comment now db
  handle (reject candidate_id actor comment now) db = reject_skill candidate_id actor comment now db

  -- A sequence of requests: what they published, the newest first, and the tables. A request that
  -- is refused leaves the tables.
  unfoldable pub serve : List Request → LearningDb → List SkillVersion × LearningDb
  unfolding handle
  serve [] db = ([], db)
  serve (r ∷ rs) db = elim (handle r db) [
    | raised e ↦ serve rs db
    | ok (log, db') ↦ and_then log (serve rs db')
  ]
