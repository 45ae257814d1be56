-- ===== src/Recovery/Server.antt =====
-- `verify_approval_proof` and `rollback_release` of src/mcp_servers/recovery/server.py. The clock
-- counts microseconds; the nonce store is Redis, whose keys `SET NX EX 600` writes: a key that is
-- there and has not expired refuses the claim.
use oncall.Json.{Value, dict, end, field, text}
use oncall.Recovery.Proof.{proof_payload, RollbackReleaseRequest}
use Prim.Native.Nat.{◌/◌, ◌-◌}
use oncall.Prelude.{
  ℕ, String, List, [], Bool, Outcome, any, false, if◌then◌else◌, ltb, nat_eq, not, ok, raised,
  string_eq, true, ◌&&◌, ◌+◌, ◌==◌, ◌>>=◌, ◌∷◌,
}

pub data ProofError : Type 0 where
  expired mismatch replayed store_unavailable : ProofError

-- A key of the store and when it expires.
pub record NonceKey : Type 0 where
  pub nonce : String
  pub expires_at : ℕ

-- `int(time.time())` of a clock in microseconds
abbrev pub seconds : ℕ → ℕ
seconds now = now / 1000000

-- `abs(a - b)` of integers
abbrev pub distance : ℕ → ℕ → ℕ
distance a b = (a - b) + (b - a)

abbrev pub is_live : String → ℕ → NonceKey → Bool
is_live nonce now k = k.nonce == nonce && ltb now k.expires_at

-- `_claim_nonce`, with whether Redis can be reached: the answer and the keys after it
unfoldable pub claim_nonce :
    Bool → String → ℕ → List NonceKey → Outcome ProofError (Bool × List NonceKey)
claim_nonce reachable nonce now keys =
    if not reachable
    then raised store_unavailable
    else if any (is_live nonce now) keys
    then ok (false, keys)
    else ok (true, record { nonce = nonce; expires_at = now + 600000000 } ∷ keys)

abbrev accept : Bool × List NonceKey → Outcome ProofError (List NonceKey)
accept (true, keys) = ok keys
accept (false, keys) = raised replayed

-- A call that raises leaves the keys.
unfoldable pub verify_approval_proof :
    (ℕ → String)
    → (String → String → String)
    → String
    → Bool
    → ℕ
    → RollbackReleaseRequest
    → List NonceKey
    → Outcome ProofError (List NonceKey)
unfolding claim_nonce proof_payload
verify_approval_proof str_uuid hmac secret reachable now r keys =
    if ltb 300 (distance (seconds now) r.issued_at)
    then raised expired
    else if not (hmac secret (proof_payload str_uuid r) == r.approval_proof)
    then raised mismatch
    else (claim_nonce reachable r.nonce now keys >>= accept)

abbrev pub message : ProofError → String
message expired = "approval proof expired"
message mismatch = "approval proof mismatch"
message replayed = "approval proof nonce replayed"
message store_unavailable = "approval nonce store is unavailable"

abbrev pub failure : String → Value
failure error = dict (
    field "status" (text "failed")
      (field "provider" (text "tencent_tat") (field "error" (text error) end)))

abbrev pub tat_answer : Outcome String Value → Value
tat_answer (ok v) = v
tat_answer (raised e) = failure e

-- `rollback_release`: the answer, the requests that went to TAT and the keys. `invoke` is the
-- adapter with its configuration; its error is the text of a `TencentTatError`.
unfoldable pub rollback_release :
    (ℕ → String)
    → (String → String → String)
    → String
    → Bool
    → (RollbackReleaseRequest → Outcome String Value)
    → ℕ
    → RollbackReleaseRequest
    → List NonceKey
    → Value × List RollbackReleaseRequest × List NonceKey
rollback_release str_uuid hmac secret reachable invoke now r keys =
    elim (verify_approval_proof str_uuid hmac secret reachable now r keys) [
      | raised e ↦ (failure (message e), [], keys)
      | ok keys' ↦ (tat_answer (invoke r), r ∷ [], keys')
    ]
