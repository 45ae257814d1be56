-- ===== src/Graph/Contracts.antt =====
-- The plan of a graph run: `ActionPlanDraft` of src/oncall/graph/contracts.py and its validation.
use oncall.Prelude.{
  Bool, List, String, is_version, leb, length, nat_eq, size, string_eq, ◌&&◌, ◌==◌, ◌||◌, Option,
  is_hex64, none, some, true,
}
use oncall.Models.{Rollback}

pub record ActionPlanDraft : Type 0 where
  pub summary : String
  pub risk_level : String
  pub prerequisites : List String
  pub rollback : Rollback
  pub verification_criteria : List String
  pub plan_hash : Option String

abbrev is_valid_hash : Option String → Bool
is_valid_hash none = true
is_valid_hash (some h) = is_hex64 h

-- The field constraints of the model and of `RollbackReleaseAction`.
unfoldable pub is_valid_draft : ActionPlanDraft → Bool
unfolding is_version
is_valid_draft d =
    leb (size d.summary) 4096
    && ((d.risk_level == "low" || (d.risk_level == "medium" || d.risk_level == "high"))
        && (leb (length d.prerequisites) 20
            && (leb (length d.verification_criteria) 20
                && (is_version d.rollback.current_version
                    && (is_version d.rollback.target_version && is_valid_hash d.plan_hash)))))
