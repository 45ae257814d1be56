-- ===== src/Recovery/Polling.antt =====
-- The polling loop of src/oncall/execution/tencent_tat.py ends, and what its end means.
use oncall.Recovery.Proof.{RollbackReleaseRequest}
use oncall.Json.{Fields, Value, dict, get, text}
use oncall.Recovery.Tat.{
  ApiError, poll, Verdict, reported, verdict, waiting, TencentTatConfig, failed,
  invoke_tencent_tat_rollback, is_valid_config, polled_result, command_payload, Polled,
  deadline_passed, are_poll_bounds,
}
use oncall.Prelude.{
  ℕ, String, Option, Outcome, arith, none, suc, zero, ◌*◌, ◌+◌, ◌≢◌, ◌≤◌, ap, ok, some, ◌<◌, ◌≡◌,
  Bool-cases, Outcome-cases, inl, inr, ltb, ◌⊎◌, refl, true, Option-cases, eq_iff, ◌∙◌, and_true,
}

-- `time.sleep(s)` takes at least `s`, and the clock does not go back.
pub record IsClock (interval start : ℕ) (reading : ℕ → ℕ) : Type 0 where
  pub first : start ≤ reading 0
  pub sleeps : (i : ℕ) → reading i + interval ≤ reading (suc i)

the_round : (i n : ℕ) → i ≤ n → n ≤ i + 0 → n ≡ i
the_round i n from near = omega arith

Verdict-cases : (v : Verdict) → (v ≡ waiting) ⊎ (v ≢ waiting)
Verdict-cases waiting = inl refl
Verdict-cases Verdict.succeeded = inr (λ e. absurd (cc))
Verdict-cases failed = inr (λ e. absurd (cc))

module _ (reading : ℕ → ℕ) (describe : ℕ → Outcome ApiError (Option String)) where
  reading_lower :
      (interval start : ℕ)
      → IsClock interval start reading
      → (i : ℕ) → start + i * interval ≤ reading i
  reading_lower interval start clock zero = omega (arith, clock.first)
  reading_lower interval start clock (suc i) =
      omega (arith, clock.sleeps i, reading_lower interval start clock i)

  -- The loop at round `i` ends by round `n`, if the clock has reached the deadline by then.
  poll-Ends :
      (deadline fuel i n : ℕ) (last : Option String)
      → n ≤ i + fuel
      → deadline ≤ reading n
      → i ≤ n
      → poll reading describe deadline (suc fuel) i last ≢ none
  unfolding poll
  poll-Ends deadline zero i n last near late from h =
      ground (arith, ap reading (the_round i n from near))
  poll-Ends deadline (suc fuel) i n last near late from h = elim (Outcome-cases (describe i)) [
    | inr (x, e) ↦ ground arith
    | inl (status, e) ↦ ground (arith, poll-Ends deadline fuel (suc i) n status)
  ]

  -- What the loop reports, a round before the deadline read.
  poll-reported :
      (deadline fuel i : ℕ) (last s : Option String) (v : Verdict)
      → poll reading describe deadline fuel i last ≡ some (ok (reported v s))
      → (n : ℕ) × (describe n ≡ ok s) × (verdict s ≡ v) × (reading n < deadline)
  unfolding poll
  poll-reported deadline zero i last s v h = absurd (cc)
  poll-reported deadline (suc fuel) i last s v h = elim (Outcome-cases (describe i)) [
    | inr (x, e) ↦ absurd (ground arith)
    | inl (status, e) ↦ elim (Bool-cases (ltb (reading i) deadline)) [
      | inr past ↦ absurd (ground arith)
      | inl before ↦ elim (Verdict-cases (verdict status)) [
        | inl w ↦ poll-reported deadline fuel (suc i) status s v (ground arith)
        | inr w ↦ (i, ground arith, ground arith, ground arith)
      ]
    ]
  ]

verdict-succeeded : (s : Option String) → verdict s ≡ Verdict.succeeded → s ≡ some "SUCCESS"
unfolding verdict
verdict-succeeded none h = absurd (cc)
verdict-succeeded (some t) h = ground (arith, eq_iff t "SUCCESS")

polled_result-succeeded :
    (id : String) (c : TencentTatConfig) (polled : Polled) (answer : Fields)
    → polled_result id c polled ≡ dict answer
    → get "status" answer ≡ some (text "succeeded")
    → (s : Option String) × (polled ≡ reported Verdict.succeeded s)
unfolding polled_result get
polled_result-succeeded id c (reported Verdict.succeeded s) answer e says = (s, refl)
polled_result-succeeded id c (reported failed s) answer e says =
    absurd (ground (arith, eq_iff "failed" "succeeded"))
polled_result-succeeded id c (reported waiting s) answer e says =
    absurd (ground (arith, eq_iff "failed" "succeeded"))
polled_result-succeeded id c (deadline_passed s) answer e says =
    absurd (ground (arith, eq_iff "failed" "succeeded"))

are_poll_bounds-le :
    (timeout interval : ℕ)
    → are_poll_bounds timeout interval ≡ true
    → (timeout ≤ 60000) × (500 ≤ interval)
unfolding are_poll_bounds
are_poll_bounds-le timeout interval h = ground arith

is_valid_config-bounds :
    (c : TencentTatConfig)
    → is_valid_config c ≡ true
    → (c.poll_timeout ≤ 60000) × (500 ≤ c.poll_interval)
unfolding is_valid_config
is_valid_config-bounds c h =
    are_poll_bounds-le c.poll_timeout c.poll_interval
      (and_true _ (are_poll_bounds c.poll_timeout c.poll_interval) h).1

module _ (dumps : Fields → String) (invoke_command : Fields → Outcome ApiError String)
    (reading : ℕ → ℕ) (describe : ℕ → Outcome ApiError (Option String)) where
  -- With a well-formed configuration, and a clock that a sleep advances by the interval or more, the
  -- call ends after at most 121 rounds of its loop, whatever TAT reports.
  pub invoke_tencent_tat_rollback-Ends :
      (start fuel : ℕ) (c : TencentTatConfig) (r : RollbackReleaseRequest)
      → is_valid_config c ≡ true
      → IsClock c.poll_interval start reading
      → 121 ≤ fuel
      → (answer : Outcome String Value) × (invoke_tencent_tat_rollback dumps invoke_command reading
            describe start fuel c r
          ≡ some answer)
  unfolding invoke_tencent_tat_rollback
  invoke_tencent_tat_rollback-Ends start zero c r valid clock enough = absurd (omega arith)
  invoke_tencent_tat_rollback-Ends start (suc fuel) c r valid clock enough =
      elim (Option-cases
        (invoke_tencent_tat_rollback dumps invoke_command reading describe start (suc fuel) c r)) [
          | inr some_answer ↦ some_answer
          | inl e ↦ absurd (
              ground (
                arith,
                poll-Ends reading describe (start + c.poll_timeout) fuel 0 120 none,
                reading_lower reading describe c.poll_interval start clock 120,
                is_valid_config-bounds c valid,
              ))
        ]

  -- The answer says "succeeded" only if TAT reported SUCCESS for the invocation before the deadline.
  pub invoke_tencent_tat_rollback-succeeded :
      (start fuel : ℕ) (c : TencentTatConfig) (r : RollbackReleaseRequest) (answer : Fields)
      → invoke_tencent_tat_rollback dumps invoke_command reading describe start fuel c r
        ≡ some (ok (dict answer))
      → get "status" answer ≡ some (text "succeeded")
      → (n : ℕ) × (describe n ≡ ok (some "SUCCESS")) × (reading n < start + c.poll_timeout)
  unfolding invoke_tencent_tat_rollback get polled_result
  invoke_tencent_tat_rollback-succeeded start fuel c r answer h says =
      elim (Outcome-cases (invoke_command (command_payload dumps r c))) [
        | inr (x, e) ↦ absurd (ground arith)
        | inl (id, e) ↦
            elim (Option-cases (poll reading describe (start + c.poll_timeout) fuel 0 none)) [
              | inl none_left ↦ absurd (ground arith)
              | inr (ended, f) ↦ elim (Outcome-cases ended) [
                | inr (x, g) ↦ absurd (ground arith)
                | inl (polled, g) ↦
                    (let p = polled_result-succeeded id c polled answer (ground arith) says in
                      let n =
                        poll-reported reading describe (start + c.poll_timeout) fuel 0 none p.0
                          Verdict.succeeded (f ∙ ap some (g ∙ ap ok p.1)) in
                      (n.0, n.1 ∙ ap ok (verdict-succeeded p.0 n.2), n.3))
              ]
            ]
      ]
