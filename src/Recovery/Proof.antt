-- ===== src/Recovery/Proof.antt =====
-- The approval proof: `create_approval_proof` of src/oncall/execution/service.py and
-- `_proof_payload` of src/mcp_servers/recovery/server.py.
use oncall.Execution.Service.{RecoveryRequest, Claim}
use oncall.Execution.Finish.{is_nonce_char, request_of}
use oncall.Prelude.{
  ℕ, String, List, [], Bool, all_chars, decimal, is_hex64, is_slug, is_version, join, leb, size,
  ◌&&◌, ◌∷◌,
}
use oncall.Models.{ActionPlan, Approval, Rollback}

-- `RollbackReleaseRequest`: what arrives from `RecoveryRequest.model_dump`
pub record RollbackReleaseRequest : Type 0 where
  pub project_id : String
  pub environment : String
  pub service : String
  pub current_version : String
  pub target_version : String
  pub action_plan_hash : String
  pub approval_id : ℕ
  pub nonce : String
  pub issued_at : ℕ
  pub approval_proof : String

-- What `create_approval_proof` returns.
pub record ApprovalProof : Type 0 where
  pub nonce : String
  pub issued_at : ℕ
  pub approval_proof : String

-- The patterns of the request's fields; the MCP framework refuses other arguments.
unfoldable pub is_valid_release : RollbackReleaseRequest → Bool
unfolding is_slug is_version is_hex64
is_valid_release r =
    is_slug 63 r.project_id
    && (is_slug 63 r.environment
        && (is_slug 127 r.service
            && (is_version r.current_version
                && (is_version r.target_version
                    && (is_hex64 r.action_plan_hash
                        && (leb 16 (size r.nonce)
                            && (leb (size r.nonce) 128
                                && (all_chars is_nonce_char r.nonce
                                    && is_hex64 r.approval_proof))))))))

abbrev pub payload_parts : (ℕ → String) → Rollback → String → ℕ → String → ℕ → List String
payload_parts str_uuid r plan_hash approval_id nonce issued_at =
    r.project_id
    ∷ (r.environment
        ∷ (r.service
            ∷ (r.current_version
                ∷ (r.target_version
                    ∷ (plan_hash ∷ (str_uuid approval_id ∷ (nonce ∷ (decimal issued_at ∷ []))))))))

abbrev pub rollback_of : RollbackReleaseRequest → Rollback
rollback_of r = record {
  project_id = r.project_id;
  environment = r.environment;
  service = r.service;
  current_version = r.current_version;
  target_version = r.target_version;
}

-- `_proof_payload`
unfoldable pub proof_payload : (ℕ → String) → RollbackReleaseRequest → String
proof_payload str_uuid r =
    join ":"
      (payload_parts str_uuid (rollback_of r) r.action_plan_hash r.approval_id r.nonce r.issued_at)

-- `create_approval_proof`, with the nonce (`uuid4().hex`) and the clock's seconds given
unfoldable pub create_approval_proof :
    (ℕ → String)
    → (String → String → String)
    → String
    → ActionPlan
    → Approval
    → String
    → ℕ
    → ApprovalProof
create_approval_proof str_uuid hmac secret plan approval nonce issued_at = record {
  nonce = nonce;
  issued_at = issued_at;
  approval_proof =
      hmac secret (
        join ":" (payload_parts str_uuid plan.rollback plan.plan_hash approval.id nonce issued_at));
}

-- `request.model_dump(mode="json")`, as the server parses it
unfoldable pub dumped : RecoveryRequest → RollbackReleaseRequest
dumped q = record {
  project_id = q.rollback.project_id;
  environment = q.rollback.environment;
  service = q.rollback.service;
  current_version = q.rollback.current_version;
  target_version = q.rollback.target_version;
  action_plan_hash = q.action_plan_hash;
  approval_id = q.approval_id;
  nonce = q.nonce;
  issued_at = q.issued_at;
  approval_proof = q.approval_proof;
}

-- The request that the executor sends for a claim.
unfoldable pub signed_request :
    (ℕ → String) → (String → String → String) → String → Claim → String → ℕ → RecoveryRequest
unfolding create_approval_proof
signed_request str_uuid hmac secret claim nonce issued_at =
    let proof =
      create_approval_proof str_uuid hmac secret claim.plan claim.approval nonce issued_at in
    request_of claim proof.nonce proof.issued_at proof.approval_proof
