-- ===== src/Installation/Service.antt =====
-- One installation request and the service's operations on it (services/installation/service.py,
-- models.py, verifier.py, config.py). What the tool registry and the terminal engine answer are
-- arguments; the log holds, newest first, the events and the commands given to the engine.
use cyber_tracker_ai.Base.{
  ℕ, zero, suc, ◌+◌, String, Bool, false, not, ◌||◌, Option, none, some, List, [], ◌∷◌, ◌++◌, ◌==◌,
  nat_eq, string_eq, if◌then◌else◌, length,
}
use cyber_tracker_ai.Base.Dict.{is_some}
use cyber_tracker_ai.Base.Text.{Text}
use cyber_tracker_ai.Base.Result.{Result, ok, err}
use cyber_tracker_ai.Policy.{PolicyDecision}
use cyber_tracker_ai.Terminal.Commands.{TerminalCommandResult}
use cyber_tracker_ai.Terminal.Templates.{TemplateError, build_install_command}
use cyber_tracker_ai.Installation.Checking.{verify}
use cyber_tracker_ai.Installation.Models.{
  Installation, InstallationAttempt, InstallationError, InstallationPlan, InstallationServiceConfig,
  InstallationStep, ToolRecord, approval_required, blocked, cancelled, denied, engine_raised,
  failed, failed_after, install_blocked, install_cancelled, install_failed, install_started,
  install_step_completed, install_step_failed, installing, installs, invalid_state_transition,
  is_preparing, is_waiting, no_step, published, template, tool_not_approved, tool_not_found,
}
use cyber_tracker_ai.Installation.Requests.{
  Answers, install_decision, is_allow, is_cancelled, is_completed, is_deny, publish, status_value,
  with_state,
}

-- How the loop over the attempts ends, and how one attempt does: `next` is another attempt, after the
-- category of this one.
pub data Outcome : Type 0 where
  succeeded exhausted returned : Outcome
  raised : InstallationError → Outcome

pub data Attempted : Type 0 where
  next : String → Attempted
  ended : Outcome → Attempted

-- `last_error_category is not None and last_error_category == category`.
abbrev is_repeated : Option String → String → Bool
is_repeated none category = false
is_repeated (some last) category = last == category

abbrev attempt_of : ℕ → TerminalCommandResult → InstallationAttempt
attempt_of number r = record {
  attempt_number = number;
  completed_at = r.completed_at;
  exit_code = r.exit_code;
  error_category = if is_completed r.status then none else some (status_value r.status);
}

abbrev add_attempt : InstallationAttempt → Installation → Installation
add_attempt attempt i = record i {
  request = record i.request { attempts = i.request.attempts ++ attempt ∷ [] };
}

-- What follows the engine's answer to an attempt.
unfoldable pub after_execute :
    ℕ → Option String → TerminalCommandResult → Installation → Attempted × Installation
after_execute number last r i =
    let tried = add_attempt (attempt_of number r) i in
    if is_cancelled r.status
    then (ended returned, publish install_cancelled (with_state cancelled tried))
    else if is_completed r.status
    then (ended succeeded, publish install_step_completed tried)
    else if is_repeated last (status_value r.status)
    then (ended exhausted, publish install_step_failed tried)
    else (next (status_value r.status), publish install_step_failed tried)

-- The answer of the engine to the vector of an attempt.
unfoldable pub execute_attempt :
    ℕ → Option String → Option TerminalCommandResult → Installation → Attempted × Installation
execute_attempt number last none i = (ended (raised engine_raised), i)
execute_attempt number last (some r) i = after_execute number last r i

-- An attempt with its vector and its decision.
unfoldable pub decided :
    ℕ
    → Option String
    → List Text
    → PolicyDecision
    → Option TerminalCommandResult
    → Installation
    → Attempted × Installation
decided number last argv decision answer i =
    let approved = is_allow decision.verdict || is_some i.request.approved_by in
    if is_deny decision.verdict
    then (
      ended returned,
      record {
        request = record i.request {
          state = blocked;
          error_message = some (denied decision.reasons);
        };
        log = published install_blocked ∷ i.log;
      },
    )
    else execute_attempt number last answer
        (record i { log = installs argv decision approved ∷ i.log })

unfoldable pub attempt_with :
    Answers
    → InstallationPlan
    → Result TemplateError (List Text)
    → ℕ
    → Option String
    → Installation
    → Attempted × Installation
attempt_with answers plan (err e) number last i = (ended (raised (template e)), i)
attempt_with answers plan (ok argv) number last i =
    decided number last argv (install_decision answers plan i.request) (answers.execute number) i

unfoldable pub attempt :
    Answers
    → InstallationPlan
    → InstallationStep
    → ℕ
    → Option String
    → Installation
    → Attempted × Installation
attempt answers plan step number last i =
    attempt_with answers plan
      (build_install_command answers.executable step.package_manager step.package_name step.version)
      number last i

-- The attempts that are left, from the given number on.
unfoldable pub attempts_from :
    Answers
    → InstallationPlan
    → InstallationStep
    → ℕ
    → ℕ
    → Option String
    → Installation
    → Outcome × Installation
attempts_from answers plan step zero number last i = (exhausted, i)
attempts_from answers plan step (suc left) number last i =
    let r = attempt answers plan step number last i in
    elim r.0 as (λ a. Outcome × Installation) [
      | ended outcome ↦ (outcome, r.1)
      | next category ↦ attempts_from answers plan step left (number + 1) (some category) r.1
    ]

-- What follows the attempts.
unfoldable pub conclude :
    Answers
    → ToolRecord
    → InstallationStep
    → Outcome
    → Installation
    → Result InstallationError (Unit {0}) × Installation
conclude answers tool step succeeded i = verify answers tool step i
conclude answers tool step exhausted i = (
  ok tt,
  record {
    request = record i.request {
      state = failed;
      error_message = some (failed_after (length i.request.attempts));
    };
    log = published install_failed ∷ i.log;
  },
)
conclude answers tool step returned i = (ok tt, i)
conclude answers tool step (raised e) i = (err e, i)

unfoldable pub install_step :
    InstallationServiceConfig
    → Answers
    → ToolRecord
    → InstallationPlan
    → List InstallationStep
    → Installation
    → Result InstallationError (Unit {0}) × Installation
install_step config answers tool plan [] i = (err no_step, i)
install_step config answers tool plan (step ∷ steps) i =
    let r = attempts_from answers plan step config.max_install_attempts 1 none i in
    conclude answers tool step r.0 r.1

-- From the look at the tool on.
unfoldable pub install_tool :
    InstallationServiceConfig
    → Answers
    → InstallationPlan
    → Option ToolRecord
    → Installation
    → Result InstallationError (Unit {0}) × Installation
install_tool config answers plan none i = (err tool_not_found, i)
install_tool config answers plan (some tool) i =
    let r = install_step config answers tool plan plan.installation_steps i in
    if not tool.is_approved then (err tool_not_approved, i) else r

abbrev pub begun : ℕ → Installation → Installation
begun session i = record {
  request = record i.request { session_id = some session; state = installing };
  log = published install_started ∷ i.log;
}

unfoldable pub start_planned :
    InstallationServiceConfig
    → Answers
    → ℕ
    → Option InstallationPlan
    → Installation
    → Result InstallationError (Unit {0}) × Installation
start_planned config answers session none i = (err invalid_state_transition, i)
start_planned config answers session (some plan) i =
    install_tool config answers plan answers.tool (begun session i)

unfoldable pub start_installation :
    InstallationServiceConfig
    → Answers
    → ℕ
    → Installation
    → Result InstallationError (Unit {0}) × Installation
start_installation config answers session i =
    let r = start_planned config answers session i.request.plan i in
    if is_waiting i.request.state
    then (err approval_required, i)
    else if not (is_preparing i.request.state)
    then (err invalid_state_transition, i)
    else r
