-- ===== src/Installation/Requests.antt =====
-- The answers of the services, and the approval, rejection and cancellation of a request
-- (services/installation/service.py).
use cyber_tracker_ai.Base.{
  ℕ, String, Bool, true, false, not, Option, some, ◌∷◌, nat_eq, string_eq, if◌then◌else◌,
}
use cyber_tracker_ai.Base.Text.{Text}
use cyber_tracker_ai.Base.Result.{Result, ok, err}
use cyber_tracker_ai.Policy.{PolicyVerdict, PolicyDecision, TargetScope, RiskTier, evaluate}
use cyber_tracker_ai.Terminal.Models.{CommandStatus}
use cyber_tracker_ai.Terminal.Commands.{TerminalCommandResult}
use cyber_tracker_ai.Terminal.Templates.{install_action_type, verify_action_type}
use cyber_tracker_ai.Installation.Models.{
  InstallEvent, Installation, InstallationError, InstallationPlan, InstallationRequest,
  InstallationState, ToolRecord, cancelled, install_approved, install_cancelled, install_rejected,
  invalid_state_transition, is_terminal, is_waiting, preparing, published,
}

-- What the services answer: `execute` to each attempt by its number, none where the engine raises.
pub record Answers : Type 0 where
  pub now : ℕ
  pub executable : Text
  pub tool : Option ToolRecord
  pub execute : ℕ → Option TerminalCommandResult
  pub check : Option TerminalCommandResult
  pub target_scope : TargetScope

abbrev pub publish : InstallEvent → Installation → Installation
publish event i = record i { log = published event ∷ i.log }

abbrev pub with_state : InstallationState → Installation → Installation
with_state state i = record i { request = record i.request { state = state } }

unfoldable pub approve :
    Text → ℕ → Installation → Result InstallationError (Unit {0}) × Installation
approve approved_by now i =
    if not (is_waiting i.request.state) then (err invalid_state_transition, i) else (
      ok tt,
      record {
        request = record i.request {
          approved_by = some approved_by;
          approved_at = some now;
          state = preparing;
        };
        log = published install_approved ∷ i.log;
      },
    )

unfoldable pub reject : Text → Installation → Result InstallationError (Unit {0}) × Installation
reject reason i = if is_terminal i.request.state then (err invalid_state_transition, i) else (
  ok tt,
  record {
    request = record i.request { state = cancelled; rejection_reason = some reason };
    log = published install_rejected ∷ i.log;
  },
)

-- `cancel`, with the question whether a command of the request runs, which the engine then stops.
unfoldable pub cancel : Bool → Installation → Installation
cancel runs i =
    if is_terminal i.request.state
    then i
    else if runs
    then i
    else publish install_cancelled (with_state cancelled i)

abbrev pub is_allow : PolicyVerdict → Bool
is_allow PolicyVerdict.allow = true
is_allow _ = false

abbrev pub is_deny : PolicyVerdict → Bool
is_deny PolicyVerdict.deny = true
is_deny _ = false

abbrev pub is_completed : CommandStatus → Bool
is_completed CommandStatus.completed = true
is_completed _ = false

abbrev pub is_cancelled : CommandStatus → Bool
is_cancelled CommandStatus.cancelled = true
is_cancelled _ = false

abbrev pub status_value : CommandStatus → String
status_value CommandStatus.queued = "QUEUED"
status_value CommandStatus.running = "RUNNING"
status_value CommandStatus.completed = "COMPLETED"
status_value CommandStatus.failed = "FAILED"
status_value CommandStatus.timeout = "TIMEOUT"
status_value CommandStatus.cancelled = "CANCELLED"
status_value CommandStatus.rejected = "REJECTED"

abbrev pub install_decision : Answers → InstallationPlan → InstallationRequest → PolicyDecision
install_decision answers plan request =
    evaluate
      (record {
        action_id = request.id;
        action_type = install_action_type;
        risk_tier = plan.risk_level;
        target = answers.target_scope;
      })
      answers.now

abbrev pub check_decision : Answers → InstallationRequest → PolicyDecision
check_decision answers request =
    evaluate
      (record {
        action_id = request.id;
        action_type = verify_action_type;
        risk_tier = RiskTier.low;
        target = answers.target_scope;
      })
      answers.now
