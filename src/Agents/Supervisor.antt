-- ===== src/Agents/Supervisor.antt =====
-- The choice of the next step and the diagnosis: src/oncall/agents/supervisor.py. What the model
-- answers is an argument, `none` for an exception or an answer that does not validate.
use oncall.Prelude.{
  ℕ, Bool, String, none, List, Option, [], false, if◌then◌else◌, leb, ltb, nat_eq, not, some,
  string_eq, suc, true, ◌&&◌, ◌==◌, ◌||◌, ◌∷◌,
}

pub data SupervisorStep : Type 0 where
  call_investigation call_knowledge submit_diagnosis request_human : SupervisorStep

pub record SupervisorDecision : Type 0 where
  pub next_step : SupervisorStep
  pub rationale : String

-- The counters of the graph's state.
pub record Budget : Type 0 where
  pub investigation_rounds : ℕ
  pub no_progress_rounds : ℕ
  pub model_call_count : ℕ

abbrev decide : SupervisorStep → String → SupervisorDecision
decide next_step rationale = record { next_step = next_step; rationale = rationale }

unfoldable pub deterministic_decision : ℕ → ℕ → Budget → SupervisorDecision
deterministic_decision evidence_count citation_count b =
    if leb 12 b.model_call_count
    then decide request_human "Model-call budget is exhausted; a human must review the incident."
    else if leb 2 b.no_progress_rounds
    then decide request_human "Two bounded evidence or knowledge attempts made no progress."
    else if leb 4 b.investigation_rounds && (evidence_count == 0 || citation_count == 0)
    then decide request_human "Investigation budget exhausted before enough evidence was collected."
    else if evidence_count == 0
    then decide call_investigation "Collect scoped read-only evidence from Tencent CLS logs."
    else if citation_count == 0
    then decide call_knowledge "Retrieve approved SOP references before diagnosis."
    else decide submit_diagnosis
        "Evidence and knowledge are sufficient for V1 post-deployment regression."

abbrev pub is_human : SupervisorStep → Bool
is_human request_human = true
is_human _ = false

abbrev pub is_submit : SupervisorStep → Bool
is_submit submit_diagnosis = true
is_submit _ = false

abbrev pub is_investigation : SupervisorStep → Bool
is_investigation call_investigation = true
is_investigation _ = false

abbrev pub is_call : SupervisorStep → Bool
is_call call_investigation = true
is_call call_knowledge = true
is_call _ = false

unfoldable pub guard_decision : SupervisorDecision → ℕ → ℕ → Budget → SupervisorDecision
guard_decision decision evidence_count citation_count b =
    let baseline = deterministic_decision evidence_count citation_count b in
    if is_human baseline.next_step
    then baseline
    else if is_submit decision.next_step && (evidence_count == 0 || citation_count == 0)
    then baseline
    else if is_call decision.next_step && (ltb 0 evidence_count && ltb 0 citation_count)
    then baseline
    else if is_investigation decision.next_step && leb 4 b.investigation_rounds
    then decide request_human "Investigation-round budget is exhausted."
    else decision

abbrev one_more_call : Budget → Budget
one_more_call b = record b { model_call_count = suc b.model_call_count }

-- The decision, and how many model calls it took.
unfoldable pub decide_next_step :
    Bool → ℕ → ℕ → Budget → Option SupervisorDecision → SupervisorDecision × ℕ
decide_next_step live_mode evidence_count citation_count b answer =
    let deterministic = deterministic_decision evidence_count citation_count b in
    if not live_mode || is_human deterministic.next_step then (deterministic, 0) else elim answer [
      | none ↦ (
        decide request_human
            "Supervisor model was unavailable or returned an invalid structured decision.",
        1,
      )
      | some decision ↦ (guard_decision decision evidence_count citation_count (one_more_call b), 1)
    ]

-- `confidence` is a fraction in the source, here in thousandths.
pub record DiagnosisDraft : Type 0 where
  pub root_cause : String
  pub confidence : ℕ
  pub summary : String

abbrev larger_of : ℕ → ℕ → ℕ
larger_of a b = if leb a b then b else a

abbrev max_of : ℕ → List ℕ → ℕ
max_of a [] = a
max_of a (b ∷ rest) = max_of (larger_of a b) rest

-- `max(..., default=0.7)`
abbrev pub max_confidence : List ℕ → ℕ
max_confidence [] = 700
max_confidence (a ∷ rest) = max_of a rest

-- The draft, the model calls it took, and why there is none. `confidences` are those of the
-- state's hypotheses.
unfoldable pub draft_diagnosis :
    Bool → ℕ → ℕ → List ℕ → ℕ → Option DiagnosisDraft → Option DiagnosisDraft × ℕ × Option String
draft_diagnosis live_mode evidence_count citation_count confidences model_call_count answer =
    if evidence_count == 0 || citation_count == 0
    then (none, 0, some "Diagnosis requires read-only evidence and an approved SOP citation.")
    else if not live_mode
    then (
      some (record {
        root_cause =
            "The latest Tencent Cloud service release likely caused a post-deployment error regression.";
        confidence = max_confidence confidences;
        summary = "Read-only investigation and SOP retrieval support preparing a rollback plan.";
      }),
      0,
      none,
    )
    else if leb 12 model_call_count
    then (none, 0, some "Model-call budget is exhausted before diagnosis.")
    else elim answer [
      | none ↦
          (none, 1, some "Diagnosis model was unavailable or returned invalid structured output.")
      | some draft ↦ (some draft, 1, none)
    ]
