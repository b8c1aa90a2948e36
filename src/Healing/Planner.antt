-- ===== src/Healing/Planner.antt =====
-- The choice of a strategy (services/self_healing/planner.py, models.py). The seconds of a backoff
-- are a number of the configuration's unit.
use cyber_tracker_ai.Base.{
  ℕ, ◌+◌, ◌*◌, ◌^◌, ◌<◌, min, String, ◌≡◌, Bool, true, false, not, ◌&&◌, ◌||◌, none, some, List,
  arith, ltb, leb, ◌==◌, nat_eq, string_eq, if◌then◌else◌, last?,
}
use cyber_tracker_ai.Healing.Diagnosis.{DiagnosisConfidence, low, unknown, Diagnosis, RootCause}

pub data HealingStrategyKind : Type 0 where
  retry_with_backoff install_missing_dependency use_alternative_tool adjust_timeout :
      HealingStrategyKind
  reduce_scope escalate_to_user abandon : HealingStrategyKind

pub data Parameters : Type 0 where
  nothing : Parameters
  timeout_multiplier backoff_seconds : ℕ → Parameters
  hint : RootCause → Parameters

pub record HealingStrategy : Type 0 where
  pub kind : HealingStrategyKind
  pub parameters : Parameters
  pub requires_policy_recheck : Bool
  pub requires_user_approval : Bool

pub record HealingPlannerConfig : Type 0 where
  pub max_retries : ℕ
  pub backoff_base_seconds : ℕ
  pub max_timeout_multiplier : ℕ

abbrev strategy : HealingStrategyKind → Parameters → Bool → Bool → HealingStrategy
strategy kind parameters recheck approval = record {
  kind = kind;
  parameters = parameters;
  requires_policy_recheck = recheck;
  requires_user_approval = approval;
}

-- `prior and prior[-1] == category and category != "timeout"`.
unfoldable pub is_repeated : List String → String → Bool
is_repeated prior category = elim (last? prior) [
  | none ↦ false
  | some c ↦ c == category && not (category == "timeout")
]

abbrev is_low : DiagnosisConfidence → Bool
is_low low = true
is_low unknown = true
is_low _ = false

-- The end of `propose`: the category has no rule of its own.
unfoldable pub propose_otherwise : HealingPlannerConfig → Diagnosis → ℕ → HealingStrategy
propose_otherwise config diagnosis retries_used =
    if is_low diagnosis.confidence || leb config.max_retries retries_used
    then strategy escalate_to_user nothing false true
    else strategy retry_with_backoff (backoff_seconds config.backoff_base_seconds) false false

-- The rules from `network_connectivity` on.
unfoldable pub propose_rest : HealingPlannerConfig → Diagnosis → ℕ → HealingStrategy
propose_rest config diagnosis retries_used =
    let category = diagnosis.error_category in
    if category == "network_connectivity" && ltb retries_used config.max_retries
    then strategy retry_with_backoff
        (backoff_seconds (config.backoff_base_seconds * 2 ^ retries_used)) false false
    else if category == "incompatible_version"
    then strategy use_alternative_tool nothing false true
    else if category == "permission_issue" || category == "disk_space"
    then strategy escalate_to_user nothing false true
    else if category == "invalid_argument"
    then strategy reduce_scope nothing true true
    else propose_otherwise config diagnosis retries_used

unfoldable pub propose : HealingPlannerConfig → Diagnosis → ℕ → List String → HealingStrategy
propose config diagnosis retries_used prior =
    let category = diagnosis.error_category in
    if is_repeated prior category
    then strategy abandon nothing false false
    else if category == "policy_restriction"
    then strategy escalate_to_user nothing false true
    else if category == "timeout" && ltb retries_used config.max_retries
    then strategy adjust_timeout
        (timeout_multiplier (min (2 ^ (retries_used + 1)) config.max_timeout_multiplier)) true false
    else if category == "missing_package" || category == "missing_executable"
    then strategy install_missing_dependency (hint diagnosis.root_cause) true true
    else propose_rest config diagnosis retries_used

-- The strategies that run the failed command again on their own.
abbrev pub is_automatic : HealingStrategyKind → Bool
is_automatic retry_with_backoff = true
is_automatic adjust_timeout = true
is_automatic _ = false

propose_otherwise_bounded :
    (config : HealingPlannerConfig) (d : Diagnosis) (retries : ℕ)
    → is_automatic (propose_otherwise config d retries).kind ≡ true
    → retries < config.max_retries
unfolding propose_otherwise
propose_otherwise_bounded config d retries h = ground (arith, h)

propose_rest_bounded :
    (config : HealingPlannerConfig) (d : Diagnosis) (retries : ℕ)
    → is_automatic (propose_rest config d retries).kind ≡ true
    → retries < config.max_retries
unfolding propose_rest
propose_rest_bounded config d retries h =
    ground (arith, h, propose_otherwise_bounded config d retries)

-- A strategy that runs the failed command again is proposed only while retries are left.
pub propose_bounded :
    (config : HealingPlannerConfig) (d : Diagnosis) (retries : ℕ) (prior : List String)
    → is_automatic (propose config d retries prior).kind ≡ true
    → retries < config.max_retries
unfolding propose
propose_bounded config d retries prior h = ground (arith, h, propose_rest_bounded config d retries)
