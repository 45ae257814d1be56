-- ===== src/Learning/Experiences.antt =====
-- The life of an experience: src/oncall/experience/service.py.
use oncall.Learning.Versions.{is_pending, is_published}
use oncall.Learning.Grounds.{Grounds, first, grounds_of, NotEligible, not_resolved, or_zero}
use oncall.Learning.Extraction.{redact_fields, pattern_fingerprint, redact_text}
use oncall.Learning.Manifest.{uuids, texts}
use oncall.Execution.Service.{find_incident}
use oncall.Json.{
  Items, Value, Fields, cons, dict, end, field, get, list, nil, null, num, text, uuid,
}
use oncall.Prelude.{
  ℕ, List, [], Bool, Option, Outcome, if◌then◌else◌, leb, nat_eq, none, not, ok, raised, select,
  some, sort_by, string_eq, ◌&&◌, ◌==◌, ◌||◌, ◌∷◌, String, find, join, map, suc, take, update_first,
}
use oncall.Learning.{Evidence, LearningDb, ExperienceCandidate, pending_review}
use oncall.Incidents.State.{status_eq, IncidentStatus, status_beq}
use oncall.Models.{Conclusion, VerificationCheck, CheckStatus, Rollback, append_audit_event}

abbrev check_text : CheckStatus → String
check_text CheckStatus.passed = "PASSED"
check_text CheckStatus.failed = "FAILED"
check_text CheckStatus.unavailable = "UNAVAILABLE"

abbrev conclusion_text : Conclusion → String
conclusion_text Conclusion.passed = "PASSED"
conclusion_text Conclusion.failed = "FAILED"

abbrev verification_items : List VerificationCheck → Items
verification_items [] = nil
verification_items (c ∷ rest) =
    cons
      (dict (
        field "name" (text c.name) (
          field "status" (text (check_text c.status)) (
            field "observed_value" (dict c.observed_value)
              (field "conclusion" (text (conclusion_text c.conclusion)) end)))))
      (verification_items rest)

-- `incident.summary or incident.title`
abbrev summary_or : Option Value → String → Value
summary_or none title = text title
summary_or (some null) title = text title
summary_or (some (text String.[])) title = text title
summary_or (some v) title = v

abbrev rollback_fields : Rollback → Fields
rollback_fields r = field "action_type" (text "rollback_release") (
    field "project_id" (text r.project_id) (
      field "environment" (text r.environment) (
        field "service" (text r.service) (
          field "current_version" (text r.current_version)
            (field "target_version" (text r.target_version) end)))))

-- the observations that are not blank
abbrev symptom_items : (String → String) → List Evidence → Items
symptom_items strip [] = nil
symptom_items strip (e ∷ rest) =
    let later = symptom_items strip rest in
    if strip e.observation == "" then later else cons (text e.observation) later

abbrev ids_of {ℓ} : {A : Type ℓ} → (A → ℕ) → List A → Value
ids_of id xs = list (uuids (map id xs))

-- The document before its redaction.
abbrev document_of : (String → String) → Grounds → Fields
document_of strip g =
    field "title" (text (join "" (g.incident.service ∷ (": verified recovery experience" ∷ [])))) (
      field "summary" (summary_or g.incident.summary g.incident.title) (
        field "symptoms" (list (symptom_items strip (take 10 g.evidence))) (
          field "root_cause" (text g.hypothesis.description) (
            field "action"
              (dict (
                field "action_type" (text "rollback_release")
                  (field "rollback" (dict (rollback_fields g.plan.rollback)) end)))
              (field "verification" (list (verification_items (take 20 g.checks))) (
                field "warnings"
                  (list (
                    texts (
                      "Re-check the current release before reusing this action."
                      ∷ ("Human approval and deterministic policy evaluation remain mandatory."
                          ∷ []))))
                  end))))))

abbrev or_null : Option Value → Value
or_null none = null
or_null (some v) = v

-- `str(v)` of a text
abbrev text_of : Value → String
text_of (text s) = s
text_of _ = ""

-- `_published_content`
abbrev pub published_content : ExperienceCandidate → Fields
published_content c = field "title" (text c.title) (
    field "summary" c.summary (
      field "symptoms" c.symptoms (
        field "root_cause" c.root_cause (
          field "action" c.action (
            field "verification" c.verification (
              field "warnings" c.warnings (
                field "provenance" c.source_refs (
                  field "confidence" (num c.confidence)
                    (field "redaction_version" (text c.redaction_version) end)))))))))

abbrev is_current_pattern : String → ExperienceCandidate → Bool
is_current_pattern fingerprint c =
    c.pattern_fingerprint == fingerprint && (is_pending c.status || is_published c.status)

abbrev source_refs_of : Grounds → Value
source_refs_of g = dict (
    field "incident_ids" (list (cons (uuid g.incident.id) nil)) (
      field "evidence_ids" (ids_of (λ e. e.id) g.evidence) (
        field "knowledge_citation_ids" (ids_of (λ c. c.id) g.citations) (
          field "action_plan_ids" (list (cons (uuid g.plan.id) nil)) (
            field "execution_ids" (list (cons (uuid g.execution.id) nil))
              (field "verification_check_ids" (ids_of (λ c. c.id) g.checks) end))))))

abbrev maybe_uuid : Option ℕ → Value
maybe_uuid none = null
maybe_uuid (some id) = uuid id

-- The candidate with the hash of its content.
abbrev pub hashed : (Value → String) → ExperienceCandidate → ExperienceCandidate
hashed canonical_hash c = record c { content_hash = canonical_hash (dict (published_content c)) }

module _ (canonical_hash : Value → String) (fold strip normalize : String → String)
    (words : String → List String) (re_sub : String → String → String → String) where
  unfoldable pub new_candidate : Grounds → Option ℕ → String → ℕ → ℕ → ExperienceCandidate
  unfolding redact_fields get
  new_candidate g duplicate fingerprint id now =
      let document = redact_fields fold re_sub (document_of strip g) in
      hashed canonical_hash (record {
        id = id;
        incident_id = g.incident.id;
        project_id = g.incident.project_id;
        environment = g.incident.environment;
        service = g.incident.service;
        pattern_fingerprint = fingerprint;
        content_hash = "";
        title = text_of (or_null (get "title" document));
        summary = or_null (get "summary" document);
        symptoms = or_null (get "symptoms" document);
        root_cause = or_null (get "root_cause" document);
        action = or_null (get "action" document);
        verification = or_null (get "verification" document);
        warnings = or_null (get "warnings" document);
        source_refs = source_refs_of g;
        confidence = or_zero g.hypothesis.confidence;
        redaction_version = "1.0";
        status = pending_review;
        duplicate_of_id = duplicate;
        reviewed_by = none;
        review_comment = none;
        reviewed_at = none;
        created_at = now;
      })

  -- The fingerprint of the redacted root cause, and the candidate that has it already
  unfoldable pub fingerprint_of : Grounds → String
  unfolding redact_fields
  fingerprint_of g =
      pattern_fingerprint canonical_hash normalize words g.incident.project_id
        g.incident.environment g.incident.service (redact_text re_sub g.hypothesis.description)
        (redact_text re_sub "rollback_release")

  unfoldable pub duplicate_of : String → LearningDb → Option ℕ
  unfolding select sort_by
  duplicate_of fingerprint db =
      elim (first (
        sort_by (λ a b. leb a.created_at b.created_at)
          (select (is_current_pattern fingerprint) db.experience_candidates))) [
            | none ↦ none
            | some c ↦ some c.id
          ]

  -- `session.add(candidate)`, with the audit event
  unfoldable pub add_candidate : ExperienceCandidate → LearningDb → LearningDb
  unfolding append_audit_event
  add_candidate c db = record db {
    experience_candidates = c ∷ db.experience_candidates;
    tables =
        append_audit_event (some c.incident_id) "experience.candidate_created"
          (field "candidate_id" (uuid c.id) (
            field "content_hash" (text c.content_hash)
              (field "duplicate_of_id" (maybe_uuid c.duplicate_of_id) end)))
          "system:experience_extractor" (record db.tables { next_id = suc db.tables.next_id });
  }

  -- A candidate that waits for its review is hashed again.
  unfoldable pub rehash : ExperienceCandidate → LearningDb → LearningDb
  unfolding update_first
  rehash existing db =
      if is_pending existing.status
      then record db {
        experience_candidates =
            update_first (λ c. c.id == existing.id) (hashed canonical_hash)
              db.experience_candidates;
      }
      else db

  -- `create_candidate_from_resolved_incident`
  unfoldable pub create_candidate_from_resolved_incident :
      ℕ → ℕ → LearningDb → Outcome NotEligible (Option ExperienceCandidate × LearningDb)
  unfolding find_incident find rehash grounds_of add_candidate new_candidate
  create_candidate_from_resolved_incident incident_id now db =
      elim (find_incident incident_id db.tables) [
        | none ↦ raised not_resolved
        | some incident ↦
            if not (status_beq incident.status IncidentStatus.resolved)
            then raised not_resolved
            else elim (find (λ c. c.incident_id == incident_id) db.experience_candidates) [
              | some existing ↦ ok (none, rehash existing db)
              | none ↦ elim (grounds_of incident db) [
                | raised e ↦ raised e
                | ok g ↦
                    let fingerprint = fingerprint_of g in
                    let c =
                      new_candidate g (duplicate_of fingerprint db) fingerprint db.tables.next_id
                        now in
                    ok (some c, add_candidate c db)
              ]
            ]
      ]
