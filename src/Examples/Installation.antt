-- ===== src/Examples/Installation.antt =====
-- An installation through apt (services/installation/service.py).
use cyber_tracker_ai.Base.{
  ◌≡◌, refl, Bool, true, false, Option, none, some, [], ◌∷◌, nat_eq, string_eq, any, count,
}
use cyber_tracker_ai.Base.Int.{pos}
use cyber_tracker_ai.Base.Text.{Text, codes, strip}
use cyber_tracker_ai.Policy.{evaluate, RiskTier, is_authorized_now, is_registered}
use cyber_tracker_ai.Terminal.Models.{CommandStatus, PlatformIdentifier}
use cyber_tracker_ai.Terminal.Commands.{TerminalCommandResult}
use cyber_tracker_ai.Terminal.Templates.{
  build_install_command, build_verification_command, matches, install_argv, verification_argv,
}
use cyber_tracker_ai.Installation.Service.{
  start_planned, start_installation, decided, attempt_with, attempt, attempts_from, execute_attempt,
  after_execute, install_step, install_tool, conclude,
}
use cyber_tracker_ai.Installation.Requests.{Answers}
use cyber_tracker_ai.Installation.Checking.{
  verify, verify_with, checked, verified_by, verification_of,
}
use cyber_tracker_ai.Installation.Models.{
  InstallationState, InstallationPlan, Installation, InstallationServiceConfig,
}
use cyber_tracker_ai.Installation.Attempts.{is_installed, is_success, is_launchable}
use cyber_tracker_ai.Installation.Outcomes.{
  confirms, start_installation-installed, start_installation-launched,
}

abbrev printed : TerminalCommandResult
printed = record {
  command_id = 1;
  session_id = 2;
  status = CommandStatus.completed;
  platform = PlatformIdentifier.linux;
  started_at = 10;
  completed_at = some 12;
  exit_code = some (pos 0);
  stdout = some (codes "nmap 7");
  stderr = none;
  stdout_truncated = false;
  stderr_truncated = false;
  error_message = none;
}

abbrev answers : Bool → Answers
answers approved = record {
  now = 10;
  executable = codes "python";
  tool = some (record { is_approved = approved; entrypoint = none });
  execute = λ number. some printed;
  check = some printed;
  target_scope = record { id = 1; is_active = true; expires_at = none };
}

abbrev plan : InstallationPlan
plan = record {
  installation_steps =
      record { package_manager = "apt"; package_name = codes "nmap"; version = none } ∷ [];
  risk_level = RiskTier.medium;
  approval_required = true;
}

abbrev request : Option Text → Installation
request approved_by = record {
  request = record {
    id = 4;
    tool_id = 5;
    session_id = none;
    plan = some plan;
    state = InstallationState.preparing;
    approved_by = approved_by;
    approved_at = none;
    rejection_reason = none;
    attempts = [];
    verification = none;
    error_message = none;
  };
  log = [];
}

abbrev config : InstallationServiceConfig
config = record { max_install_attempts = 2 }

abbrev ready : Installation
ready = request (some (codes "alice"))

ends_installed :
    is_installed (start_installation config (answers true) 2 ready).1.request.state ≡ true
unfolding start_installation start_planned install_tool install_step attempts_from attempt
    attempt_with build_install_command evaluate conclude verify verify_with checked verified_by
    verification_of build_verification_command matches codes install_argv decided is_authorized_now
    is_registered execute_attempt after_execute verification_argv strip
ends_installed = refl

start_installation-installed_example :
    (confirms (some printed) ≡ true)
    × (any is_success (start_installation config (answers true) 2 ready).1.request.attempts ≡ true)
start_installation-installed_example =
    start_installation-installed config (answers true) 2 ready refl ends_installed

start_installation-launched_example :
    count is_launchable (start_installation config (answers true) 2 (request none)).1.log ≡ 0
start_installation-launched_example =
    start_installation-launched config (answers true) 2 plan (request none) refl refl refl
