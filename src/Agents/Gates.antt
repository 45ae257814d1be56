-- ===== src/Agents/Gates.antt =====
-- The gates around the model's choices: src/oncall/agents/supervisor.py.
use oncall.Prelude.{
  ℕ, Bool, List, Option, arith, is_some, leb, ltb, not, true, ◌+◌, ◌≡◌, ◌⊎◌, implies, ◌&&◌,
}
use oncall.Agents.Supervisor.{
  Budget, decide_next_step, DiagnosisDraft, SupervisorDecision, deterministic_decision,
  draft_diagnosis, guard_decision, is_human, is_investigation, is_submit,
}

-- Whatever the model answers: a diagnosis is submitted only with evidence and a citation, evidence is
-- collected only in the first four rounds, a step other than the call of a human is chosen only
-- within the budget, and a call of the model is counted and within the budget.
pub decide_next_step-gates :
    (live_mode : Bool) (evidence_count citation_count : ℕ) (b : Budget)
    (answer : Option SupervisorDecision) (d : SupervisorDecision) (calls : ℕ)
    → decide_next_step live_mode evidence_count citation_count b answer ≡ (d, calls)
    → (implies (is_submit d.next_step) (ltb 0 evidence_count && ltb 0 citation_count) ≡ true)
      × (implies (is_investigation d.next_step) (ltb b.investigation_rounds 4) ≡ true)
      × (implies
            (not (is_human d.next_step))
            (ltb b.model_call_count 12 && ltb b.no_progress_rounds 2)
          ≡ true)
      × (leb calls 1 ≡ true)
      × (implies (ltb 0 calls) (live_mode && ltb b.model_call_count 12) ≡ true)
unfolding decide_next_step guard_decision deterministic_decision
decide_next_step-gates live_mode evidence_count citation_count b answer d calls h =
    (ground arith, ground arith, ground arith, ground arith, ground arith)

-- A diagnosis exists only with evidence and a citation, there is a reason exactly if there is no
-- diagnosis, and a call of the model is made only within the budget of twelve.
pub draft_diagnosis-supported :
    (live_mode : Bool) (evidence_count citation_count : ℕ) (confidences : List ℕ) (model_calls : ℕ)
    (answer : Option DiagnosisDraft)
    → let r =
        draft_diagnosis live_mode evidence_count citation_count confidences model_calls answer in
      (implies (is_some r.0) (ltb 0 evidence_count && ltb 0 citation_count) ≡ true)
      × (is_some r.0 ≡ not (is_some r.2))
      × (leb (model_calls + r.1) 12 ≡ true ⊎ (r.1 ≡ 0))
unfolding draft_diagnosis
draft_diagnosis-supported live_mode evidence_count citation_count confidences model_calls answer =
    (ground arith, ground arith, ground arith)
