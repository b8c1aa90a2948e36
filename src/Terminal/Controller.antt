-- ===== src/Terminal/Controller.antt =====
-- The execution controller (services/terminal/controller.py) and the adapter contract
-- (services/terminal/adapters/base.py).
use cyber_tracker_ai.Base.{
  ℕ, String, ◌≡◌, ◌↔◌, ◌⊎◌, Bool, true, false, Option, none, some, List, arith, nat_eq, string_eq,
  if◌then◌else◌,
}
use cyber_tracker_ai.Base.Dict.{Dict}
use cyber_tracker_ai.Base.Int.{ℤ}
use cyber_tracker_ai.Base.Text.{Text}
use cyber_tracker_ai.Policy.{
  PolicyVerdict, allow, deny, require_approval, PolicyDecision, ActionRequest, evaluate,
  is_authorized_now, is_registered, is_above_low,
}

pub data ExecutionStatus : Type 0 where
  pending running succeeded failed recovering cancelled : ExecutionStatus

pub record CommandSpec : Type 0 where
  pub argv : List Text
  pub timeout_seconds : ℕ
  pub working_dir : Option Text
  pub env_overrides : Dict Text Text
  pub env_allowlist : Option (List String)
  pub max_stdout_bytes : Option ℕ
  pub max_stderr_bytes : Option ℕ

pub record ExecutionResult : Type 0 where
  pub status : ExecutionStatus
  pub exit_code : Option ℤ
  pub stdout : Option Text
  pub stderr : Option Text
  pub stdout_truncated : Bool
  pub stderr_truncated : Bool
  pub timed_out : Bool
  pub started_at : ℕ
  pub finished_at : Option ℕ

pub record ApprovedExecution : Type 0 where
  pub action_id : ℕ
  pub command : CommandSpec

abbrev pub is_approved : PolicyVerdict → Bool → Bool
is_approved allow approved_by_user = true
is_approved require_approval approved_by_user = approved_by_user
is_approved deny approved_by_user = false

-- `none` stands for `ExecutionNotApprovedError`.
unfoldable pub from_policy_decision :
    ℕ → CommandSpec → PolicyDecision → Bool → Option ApprovedExecution
from_policy_decision action_id command decision approved_by_user =
    if is_approved decision.verdict approved_by_user
    then some (record { action_id = action_id; command = command })
    else none

-- A command that the controller approves on the policy engine's own decision is for a target that
-- is authorized at that time and a registered action type, and carries low risk or a user's
-- approval; and whatever fulfils these is approved, with the command as it was given.
from_policy_decision_iff :
    (id : ℕ) (c : CommandSpec) (r : ActionRequest) (now : ℕ) (user : Bool)
    → (from_policy_decision id c (evaluate r now) user
        ≡ some (record { action_id = id; command = c }))
      ↔ ((is_authorized_now r.target now ≡ true)
          × (is_registered r.action_type ≡ true)
          × ((is_above_low r.risk_tier ≡ false) ⊎ (user ≡ true)))
unfolding from_policy_decision evaluate
from_policy_decision_iff id c r now user =
    (λ h. (ground arith, ground arith, ground arith), λ h. ground arith)
