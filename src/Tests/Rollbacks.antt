-- ===== src/Tests/Rollbacks.antt =====
-- The theorems on the Recovery MCP at concrete inputs.
use oncall.Tests.Executions.{the_claim}
use oncall.Recovery.Command.{get-command_parameters}
use oncall.Recovery.Signed.{
  IsUuidText, verify_approval_proof-IsSigned, verify_approval_proof-signed,
}
use oncall.Json.{get, Fields, Value, cons, dict, end, field, list, nil, text}
use oncall.Recovery.Proof.{
  dumped, is_valid_release, RollbackReleaseRequest, create_approval_proof, signed_request,
}
use oncall.Recovery.Once.{carries, Serves, rolled_back_once}
use oncall.Recovery.Tat.{
  invoke_tencent_tat_rollback, TencentTatConfig, ApiError, is_valid_config, command_parameters,
}
use oncall.Recovery.Server.{verify_approval_proof, NonceKey, rollback_release}
use oncall.Prelude.{
  ℕ, String, List, [], Option, Outcome, arith, count, decimal, decimal-lacks_colon, decimal_inj,
  is_hex64, is_slug, is_version, none, ok, raised, refl, some, suc, true, zero, ◌*◌, ◌++◌, ◌+◌, ◌∷◌,
  ◌≡◌,
}
use oncall.Tests.Data.{hash64}
use oncall.Recovery.Polling.{IsClock, invoke_tencent_tat_rollback-Ends}

abbrev hmac : String → String → String
hmac secret payload = hash64

abbrev nonce : String
nonce = "0123456789abcdef"

abbrev sent_request : RollbackReleaseRequest
sent_request = record {
  project_id = "shop";
  environment = "prod";
  service = "cart";
  current_version = "v2";
  target_version = "v1";
  action_plan_hash = hash64;
  approval_id = 3;
  nonce = nonce;
  issued_at = 1000;
  approval_proof = hash64;
}

decimal-IsUuidText : IsUuidText decimal
decimal-IsUuidText = record { plain = decimal-lacks_colon; distinct = decimal_inj }

abbrev claimed_key : NonceKey
claimed_key = record { nonce = nonce; expires_at = 1602000000 }

-- The signature of the claim, by the code.
signed_now : sent_request ≡ dumped (signed_request decimal hmac "secret" the_claim nonce 1000)
unfolding dumped signed_request create_approval_proof
signed_now = refl

sent_request-valid : is_valid_release sent_request ≡ true
unfolding is_valid_release is_slug is_version is_hex64
sent_request-valid = refl

-- Two seconds later the server accepts it.
accepted_now :
    verify_approval_proof decimal hmac "secret" true 1002000000 sent_request []
    ≡ ok (claimed_key ∷ [])
unfolding verify_approval_proof
accepted_now = refl

verify_approval_proof-IsSigned_example :
    sent_request ≡ dumped (signed_request decimal hmac "secret" the_claim nonce 1000)
unfolding dumped signed_request
verify_approval_proof-IsSigned_example =
    verify_approval_proof-IsSigned decimal hmac "secret" decimal-IsUuidText the_claim nonce 1000
      sent_request (dumped (signed_request decimal hmac "secret" the_claim nonce 1000)) refl
      (λ e. refl) sent_request-valid sent_request-valid refl true 1002000000 [] (claimed_key ∷ [])
      accepted_now

verify_approval_proof-signed_example :
    verify_approval_proof decimal hmac "secret" true 1002000000
      (dumped (signed_request decimal hmac "secret" the_claim nonce 1000))
      []
    ≡ ok (claimed_key ∷ [])
verify_approval_proof-signed_example =
    verify_approval_proof-signed decimal hmac "secret" the_claim nonce 1000 1002000000 []
      (omega arith) refl

abbrev invoke : RollbackReleaseRequest → Outcome String Value
invoke r = raised "down"

-- The request comes again a second later.
abbrev again : Value × List RollbackReleaseRequest × List NonceKey
again =
    rollback_release decimal hmac "secret" true invoke 1003000000 sent_request (claimed_key ∷ [])

rolled_back_once_example : count (carries sent_request) (again.1 ++ []) ≡ 0
rolled_back_once_example =
    rolled_back_once decimal hmac "secret" invoke sent_request true 1002000000 1003000000 []
      (claimed_key ∷ []) again.2 (again.1 ++ []) (omega arith) accepted_now
      (Serves.call true sent_request (Serves.start 1002000000 (claimed_key ∷ [])) (omega arith))

abbrev tat_config : TencentTatConfig
tat_config = record {
  region = "ap-guangzhou";
  command_id = "cmd-1";
  instance_ids = cons (text "ins-1") nil;
  parameters = field "mode" (text "fast") end;
  target_version_parameter = "target_version";
  current_version_parameter = some "current_version";
  username = none;
  working_directory = none;
  command_timeout_seconds = none;
  poll_timeout = 55000;
  poll_interval = 2000;
}

tat_config-valid : is_valid_config tat_config ≡ true
unfolding is_valid_config
tat_config-valid = refl

abbrev reading : ℕ → ℕ
reading i = 7 + i * 2000

reading-IsClock : IsClock 2000 7 reading
reading-IsClock = record { first = omega arith; sleeps = λ i. omega arith }

-- The second answer of TAT is SUCCESS.
abbrev describe : ℕ → Outcome ApiError (Option String)
describe zero = ok (some "RUNNING")
describe (suc i) = ok (some "SUCCESS")

abbrev dumps : Fields → String
dumps d = "{}"

abbrev invoke_command : Fields → Outcome ApiError String
invoke_command d = ok "inv-1"

abbrev success : Fields
success = field "status" (text "succeeded") (
    field "provider" (text "tencent_tat") (
      field "invocation_id" (text "inv-1") (
        field "invocation_status" (text "SUCCESS")
          (field "instance_ids" (list (cons (text "ins-1") nil)) end))))

polled_success :
    invoke_tencent_tat_rollback dumps invoke_command reading describe 7 121 tat_config sent_request
    ≡ some (ok (dict success))
unfolding invoke_tencent_tat_rollback
polled_success = refl

invoke_tencent_tat_rollback-Ends_example :
    (answer : Outcome String Value) × (invoke_tencent_tat_rollback dumps invoke_command reading
        describe 7 121 tat_config sent_request
      ≡ some answer)
invoke_tencent_tat_rollback-Ends_example =
    invoke_tencent_tat_rollback-Ends dumps invoke_command reading describe 7 121 tat_config
      sent_request tat_config-valid reading-IsClock (omega arith)

get-command_parameters_example :
    get "target_version" (command_parameters sent_request tat_config) ≡ some (text "v1")
unfolding get
get-command_parameters_example = get-command_parameters "target_version" sent_request tat_config
