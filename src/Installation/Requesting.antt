-- ===== src/Installation/Requesting.antt =====
-- The request of an installation (`request_installation` of services/installation/service.py). Who
-- asks, and for which target, is kept in no field here.
pub mod Agreement
use cyber_tracker_ai.Base.{
  ℕ, String, Bool, true, false, not, ◌||◌, Option, none, some, List, [], ◌∷◌, ◌++◌, map, nat_eq,
  string_eq, if◌then◌else◌, filter, length, ltb,
}
use cyber_tracker_ai.Base.Result.{Result, ok, err}
use cyber_tracker_ai.Policy.{PolicyDecision, TargetScope}
use cyber_tracker_ai.Tools.Verification.{ToolRecord}
use cyber_tracker_ai.Installation.Models.{
  InstallationState, discovered, waiting_for_approval, preparing, blocked, InstallationPlan,
  InstallationRequest, ErrorMessage, not_ready, denied, CheckName, Installation, install_requested,
  install_readiness_checked, install_plan_generated, install_blocked,
}
use cyber_tracker_ai.Installation.Requests.{publish, is_deny}
use cyber_tracker_ai.Installation.Readiness.{ReadinessCheck, ReadinessReport, fails, ready, check}
use cyber_tracker_ai.Installation.Planner.{build_plan}

-- The request as it is constructed.
abbrev new_request : ℕ → ℕ → Installation
new_request fresh tool_id = record {
  request = record {
    id = fresh;
    tool_id = tool_id;
    session_id = none;
    plan = none;
    state = discovered;
    approved_by = none;
    approved_at = none;
    rejection_reason = none;
    attempts = [];
    verification = none;
    error_message = none;
  };
  log = [];
}

abbrev block : ErrorMessage → Installation → Installation
block message i =
    publish install_blocked
      (record i { request = record i.request { state = blocked; error_message = some message } })

-- The names of the checks whose sentences are joined.
abbrev failed_checks : ReadinessReport → List CheckName
failed_checks report =
    map (λ (c : ReadinessCheck). c.name) (filter (λ c. fails c.status) report.checks)

abbrev is_denied : Option PolicyDecision → Bool
is_denied none = false
is_denied (some decision) = is_deny decision.verdict

abbrev reasons_of : Option PolicyDecision → ErrorMessage
reasons_of none = denied []
reasons_of (some decision) = denied decision.reasons

-- The part after `build_plan`.
unfoldable pub planned : ReadinessReport → InstallationPlan → Installation → Installation
planned report plan i =
    let with_plan =
      publish install_plan_generated
        (record i { request = record i.request { plan = some plan } }) in
    if is_denied report.policy_decision
    then block (reasons_of report.policy_decision) with_plan
    else record with_plan {
      request = record with_plan.request {
        state = if plan.approval_required then waiting_for_approval else preparing;
      };
    }

-- The part for a tool that is ready.
unfoldable pub plan_for :
    ReadinessReport → ToolRecord → List String → String → Installation → Installation
unfolding planned
plan_for report tool available platform i = elim (build_plan tool available platform) [
  | err message ↦ block message i
  | ok plan ↦ planned report plan i
]

-- `request_installation`, with what the registry answers and the managers that the inspector finds;
-- the request that `create` stores is given back.
unfoldable pub request_installation :
    ℕ → ℕ → Option ToolRecord → List String → TargetScope → String → ℕ → Installation
unfolding plan_for
request_installation fresh tool_id found available scope platform now =
    let report = check found scope platform now in
    let checked =
      publish install_readiness_checked (publish install_requested (new_request fresh tool_id)) in
    elim report.tool [
      | none ↦ block (not_ready (failed_checks report)) checked
      | some tool ↦
          if not (ready report)
          then block (not_ready (failed_checks report)) checked
          else plan_for report tool available platform checked
    ]
