-- ===== src/Recovery/Once.antt =====
-- A proof serves once: sequences of calls of `rollback_release` on one nonce store,
-- src/mcp_servers/recovery/server.py.
use oncall.Recovery.Signed.{IsAccepted, verify_approval_proof_iff}
use oncall.Recovery.Server.{
  NonceKey, rollback_release, seconds, verify_approval_proof, ProofError, distance, failure,
  is_live, message, tat_answer,
}
use oncall.Json.{Value}
use oncall.Recovery.Proof.{RollbackReleaseRequest}
use oncall.Prelude.{
  ℕ, String, List, [], Bool, Outcome, any, arith, leb, nat_eq, string_eq, true, ◌&&◌, ◌++◌, ◌==◌,
  ◌≡◌, ◌≤◌, count, ok, ◌+◌, Outcome-cases, inl, inr, refl, ◌<◌, ◌∷◌, ◌⊎◌, count-append, eq_iff,
}

-- `q` has the nonce and the time of `r`.
abbrev pub carries : RollbackReleaseRequest → RollbackReleaseRequest → Bool
carries r q = q.nonce == r.nonce && q.issued_at == r.issued_at

-- A key of the nonce that lives until `until` or longer
abbrev lives : String → ℕ → NonceKey → Bool
lives nonce until k = k.nonce == nonce && leb until k.expires_at

abbrev HasKey : String → ℕ → List NonceKey → Type 0
HasKey nonce until keys = any (lives nonce until) keys ≡ true

HasKey-live :
    (nonce : String) (until now : ℕ) (keys : List NonceKey)
    → now < until
    → HasKey nonce until keys
    → any (is_live nonce now) keys ≡ true
HasKey-live nonce until now [] before h = h
HasKey-live nonce until now (k ∷ keys) before h =
    ground (arith, HasKey-live nonce until now keys before)

-- Before that time, a proof that was signed by then and is fresh at `later` is used.
still_before :
    (issued_at first later : ℕ)
    → issued_at ≤ seconds first
    → distance (seconds later) issued_at ≤ 300
    → later < first + 600000000
still_before issued_at first later past fresh = omega arith

module _ (str_uuid : ℕ → String) (hmac : String → String → String) (secret : String)
    (invoke : RollbackReleaseRequest → Outcome String Value) where
  -- The calls that the server answers from one time and store to a later time and store, with the
  -- requests that went to TAT.
  pub data Serves
      : ℕ → List NonceKey → ℕ → List NonceKey → List RollbackReleaseRequest → Type 0 where
    start : (now : ℕ) (keys : List NonceKey) → Serves now keys now keys []
    call :
        {t now later : ℕ} {keys0 keys : List NonceKey} {sent : List RollbackReleaseRequest}
        (reachable : Bool) (r : RollbackReleaseRequest)
        → Serves t keys0 now keys sent
        → now ≤ later
        → Serves t keys0 later
            ((rollback_release str_uuid hmac secret reachable invoke later r keys).2)
            ((rollback_release str_uuid hmac secret reachable invoke later r keys).1 ++ sent)

  -- A call that is accepted, or one that sends nothing.
  rollback_release-cases :
      (reachable : Bool) (now : ℕ) (r : RollbackReleaseRequest) (keys : List NonceKey)
      → (IsAccepted str_uuid hmac secret reachable now r keys
          × (rollback_release str_uuid hmac secret reachable invoke now r keys ≡ (
            tat_answer (invoke r),
            r ∷ [],
            record { nonce = r.nonce; expires_at = now + 600000000 } ∷ keys,
          )))
        ⊎ ((e : ProofError) × (rollback_release str_uuid hmac secret reachable invoke now r keys
              ≡ (failure (message e), [], keys)))
  unfolding rollback_release
  rollback_release-cases reachable now r keys =
      elim (Outcome-cases (verify_approval_proof str_uuid hmac secret reachable now r keys)) [
        | inl (keys', e) ↦
            (let a =
                (verify_approval_proof_iff str_uuid hmac secret reachable now r keys keys').0 e in
              inl (a.0, rw (rollback_release, e, a.1) refl))
        | inr (x, e) ↦ inr (x, rw (rollback_release, e) refl)
      ]

  rollback_release-HasKey :
      (nonce : String) (until : ℕ) (reachable : Bool) (now : ℕ) (r : RollbackReleaseRequest)
      (keys : List NonceKey)
      → HasKey nonce until keys
      → HasKey nonce until (rollback_release str_uuid hmac secret reachable invoke now r keys).2
  rollback_release-HasKey nonce until reachable now r keys h =
      elim (rollback_release-cases reachable now r keys) [
        | inl (a, e) ↦ rw (e) (ground arith)
        | inr (x, e) ↦ rw (e) h
      ]

  Serves-HasKey :
      (nonce : String) (until : ℕ) {t now : ℕ} {keys0 keys : List NonceKey}
      {sent : List RollbackReleaseRequest}
      → Serves t keys0 now keys sent
      → HasKey nonce until keys0
      → HasKey nonce until keys
  Serves-HasKey nonce until (Serves.start now keys) h = h
  Serves-HasKey nonce until (Serves.call {later = later} {keys = keys} reachable r s le) h =
      rollback_release-HasKey nonce until reachable later r keys (Serves-HasKey nonce until s h)

  -- While the key lives, a request with its nonce and time does not reach TAT.
  refused :
      (r : RollbackReleaseRequest) (first : ℕ) (reachable : Bool) (later : ℕ)
      (q : RollbackReleaseRequest) (keys : List NonceKey)
      → r.issued_at ≤ seconds first
      → HasKey r.nonce (first + 600000000) keys
      → count (carries r) (rollback_release str_uuid hmac secret reachable invoke later q keys).1
        ≡ 0
  unfolding count
  refused r first reachable later q keys past key =
      elim (rollback_release-cases reachable later q keys) [
        | inr (x, e) ↦ rw (e) refl
        | inl (a, e) ↦ rw (e) (
            let before = still_before r.issued_at first later past in
            ground (
              arith,
              HasKey-live r.nonce (first + 600000000) later keys,
              before,
              eq_iff q.nonce r.nonce,
            ))
      ]

  none_sent :
      (r : RollbackReleaseRequest) (first now : ℕ) (keys1 keys : List NonceKey)
      (sent : List RollbackReleaseRequest)
      → r.issued_at ≤ seconds first
      → HasKey r.nonce (first + 600000000) keys1
      → Serves first keys1 now keys sent
      → count (carries r) sent ≡ 0
  unfolding count
  none_sent r first now keys1 keys sent past key (Serves.start _ _) = refl
  none_sent r first now keys1 keys sent past key
        (Serves.call {now = before} {later = later} {keys = mid} {sent = earlier} reachable q s
          le) =
      rw (count-append) (
        rw
          (
            refused r first reachable later q mid past
                (Serves-HasKey r.nonce (first + 600000000) s key),
            none_sent r first before keys1 mid earlier past key s,
          )
          refl)

  -- After a request was accepted whose proof was not signed ahead of the server's clock, no later
  -- call, whatever calls come between, sends a request with its nonce and time to TAT.
  pub rolled_back_once :
      (r : RollbackReleaseRequest) (reachable : Bool) (first now : ℕ)
      (keys0 keys1 keys : List NonceKey) (sent : List RollbackReleaseRequest)
      → r.issued_at ≤ seconds first
      → verify_approval_proof str_uuid hmac secret reachable first r keys0 ≡ ok keys1
      → Serves first keys1 now keys sent
      → count (carries r) sent ≡ 0
  rolled_back_once r reachable first now keys0 keys1 keys sent past accepted calls =
      none_sent r first now keys1 keys sent past
        (let a =
            (verify_approval_proof_iff str_uuid hmac secret reachable first r keys0 keys1).0
              accepted in
          rw (a.1) (ground (arith, eq_iff r.nonce r.nonce)))
        calls
