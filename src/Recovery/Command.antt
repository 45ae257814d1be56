-- ===== src/Recovery/Command.antt =====
-- The parameters of the command that src/oncall/execution/tencent_tat.py sends.
use oncall.Recovery.Proof.{RollbackReleaseRequest}
use oncall.Recovery.Tat.{command_parameters, TencentTatConfig}
use oncall.Json.{set_field, get, text, get-set_field}
use oncall.Prelude.{
  String, Bool, Option, Option-cases, arith, false, if◌then◌else◌, inl, inr, nat_eq, none, some,
  string_eq, ◌==◌, ◌≡◌,
}

abbrev is_current : String → Option String → Bool
is_current k none = false
is_current k (some name) = name == k

-- Every parameter of the command: under the name for the current version stands the request's
-- current version, under the name for the target, where it is another name, the request's target
-- version, and under every other name what the configuration says.
pub get-command_parameters :
    (k : String) (r : RollbackReleaseRequest) (c : TencentTatConfig)
    → get k (command_parameters r c) ≡ (
        if is_current k c.current_version_parameter
        then some (text r.current_version)
        else if c.target_version_parameter == k
        then some (text r.target_version)
        else get k c.parameters)
unfolding command_parameters
get-command_parameters k r c = elim (Option-cases c.current_version_parameter) [
  | inl e ↦
      ground
        (arith, get-set_field k c.target_version_parameter (text r.target_version) c.parameters)
  | inr (name, e) ↦ ground (
    arith,
    get-set_field k c.target_version_parameter (text r.target_version) c.parameters,
    get-set_field k name (text r.current_version)
        (set_field c.target_version_parameter (text r.target_version) c.parameters),
  )
]
