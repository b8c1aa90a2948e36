-- ===== src/Agent/Recovery.antt =====
-- Classification of failures and the bounded adaptation (services/agent_orchestrator/recovery.py).
-- A category is the source's string.
use cyber_tracker_ai.Base.{
  ◌<◌, String, ◌≡◌, ◌≢◌, ◌⊎◌, ◌↔◌, inl, inr, Option-cases, Bool, false, not, ◌||◌, Option, none,
  some, List, [], ◌∷◌, ◌++◌, arith, ◌==◌, nat_eq, string_eq, if◌then◌else◌,
}
use cyber_tracker_ai.Base.Int.{ℤ, is_zero}
use cyber_tracker_ai.Base.Text.{Text, codes, contains, lower, text_eq}
use cyber_tracker_ai.Agent.Models.{
  AgentTaskState, AgentBudgetConfig, check_retry_budget, retries_of,
}

-- `_STDERR_HINTS`, in order.
abbrev stderr_hints : List (Text × String)
stderr_hints =
    (codes "permission denied", "permission_issue")
    ∷ (codes "not found", "missing_executable")
    ∷ (codes "no such file", "missing_executable")
    ∷ (codes "could not resolve", "network_connectivity")
    ∷ (codes "network is unreachable", "network_connectivity")
    ∷ (codes "connection refused", "network_connectivity")
    ∷ (codes "unsupported platform", "unsupported_platform")
    ∷ (codes "incompatible", "incompatible_version")
    ∷ (codes "invalid argument", "invalid_argument")
    ∷ (codes "dependency", "missing_dependency")
    ∷ []

unfoldable pub from_stderr : Text → List (Text × String) → String → String
from_stderr text [] otherwise = otherwise
from_stderr text ((hint, category) ∷ hints) otherwise =
    let rest = from_stderr text hints otherwise in if contains hint text then category else rest

-- `exit_code is not None and exit_code != 0`.
abbrev is_nonzero : Option ℤ → Bool
is_nonzero none = false
is_nonzero (some code) = not (is_zero code)

unfoldable pub classify : Bool → Bool → Option ℤ → Option Text → String
classify timed_out policy_denied exit_code stderr =
    if policy_denied
    then "policy_restriction"
    else if timed_out
    then "timeout"
    else from_stderr (elim stderr [ none ↦ [] | some t ↦ lower t ]) stderr_hints
        (if is_nonzero exit_code then "unexpected_output" else "unknown")

-- `AdaptationDecision`: the strategy, with a reason as a constructor in place of its sentence.
pub data AdaptationReason : Type 0 where
  repeated_failure not_retryable budget_exhausted : AdaptationReason

pub data AdaptationDecision : Type 0 where
  retry ask_user : AdaptationDecision
  fail : AdaptationReason → AdaptationDecision

abbrev pub is_never_retried : String → Bool
is_never_retried category =
    category == "policy_restriction"
    || category == "permission_issue"
    || category == "unsupported_platform"

abbrev pub needs_other_tool : String → Bool
needs_other_tool category = category == "missing_dependency" || category == "tool_unavailable"

-- `f"{action_key}:{failure.value}"`.
unfoldable pub signature_of : String → String → Text
signature_of action_key category = codes action_key ++ b':' ∷ codes category

unfoldable pub is_last_error : AgentTaskState → Text → Bool
is_last_error state signature = elim state.last_error_signature [
  | none ↦ false
  | some s ↦ s == signature
]

unfoldable pub decide : AgentBudgetConfig → AgentTaskState → String → String → AdaptationDecision
decide config state action_key category =
    if is_last_error state (signature_of action_key category)
    then fail repeated_failure
    else if is_never_retried category
    then fail not_retryable
    else if not (check_retry_budget config state action_key)
    then fail budget_exhausted
    else if needs_other_tool category
    then ask_user
    else retry

-- The categories that are given up at once, and those for which the user is asked.
abbrev pub IsFinal : String → Type 0
IsFinal category =
    (category ≡ "policy_restriction")
    ⊎ (category ≡ "permission_issue")
    ⊎ (category ≡ "unsupported_platform")
    ⊎ (category ≡ "missing_dependency")
    ⊎ (category ≡ "tool_unavailable")

IsFinal-iff :
    (category : String)
    → ((is_never_retried category ≡ false) × (needs_other_tool category ≡ false))
      ↔ (¬ IsFinal category)
IsFinal-iff category = ground (
  arith,
  string_eq.equals_iff category "policy_restriction",
  string_eq.equals_iff category "permission_issue",
  string_eq.equals_iff category "unsupported_platform",
  string_eq.equals_iff category "missing_dependency",
  string_eq.equals_iff category "tool_unavailable",
)

is_last_error_iff :
    (state : AgentTaskState) (signature : Text)
    → (is_last_error state signature ≡ false) ↔ (state.last_error_signature ≢ some signature)
unfolding is_last_error
is_last_error_iff state signature = elim (Option-cases state.last_error_signature) [
  | inl nothing ↦ ground (arith, nothing)
  | inr (s, last) ↦ ground (arith, last, text_eq.equals_iff s signature)
]

-- The answer to a failure is RETRY exactly when its signature, the kind of action and the category
-- with a colon between them, is not the one that was retried last, the category is none of
-- policy_restriction, permission_issue, unsupported_platform, missing_dependency and
-- tool_unavailable, and fewer retries than the maximum were counted for the kind of action.
pub decide_retry_iff :
    (config : AgentBudgetConfig) (state : AgentTaskState) (action_key category : String)
    → (decide config state action_key category ≡ retry) ↔ (
        (state.last_error_signature ≢ some (codes action_key ++ b':' ∷ codes category))
        × (¬ IsFinal category)
        × (retries_of state action_key < config.max_retries_per_action))
unfolding decide check_retry_budget signature_of
decide_retry_iff config state action_key category = ground (
  arith,
  IsFinal-iff category,
  is_last_error_iff state (codes action_key ++ b':' ∷ codes category),
)
