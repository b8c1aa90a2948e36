-- ===== src/Examples/Engine.antt =====
-- A terminal engine (services/terminal/engine.py) with one ready session.
use cyber_tracker_ai.Base.{
  ℕ, ◌+◌, ◌≡◌, refl, ◌≢◌, false, none, some, List, [], ◌∷◌, nat_eq, string_eq, length, count,
}
use cyber_tracker_ai.Base.Dict.{get}
use cyber_tracker_ai.Policy.{PolicyDecision}
use cyber_tracker_ai.Terminal.Models.{PlatformIdentifier, SessionStatus, CommandStatus}
use cyber_tracker_ai.Terminal.Sessions.{
  SessionManager, SessionError, emit, store, require_active_session, get_session,
}
use cyber_tracker_ai.Terminal.Validation.{
  ValidationError, validate_argv, validate_working_directory,
}
use cyber_tracker_ai.Terminal.Controller.{ExecutionStatus, ExecutionResult, from_policy_decision}
use cyber_tracker_ai.Terminal.Engine.{prepare, reject, begin}
use cyber_tracker_ai.Terminal.Interleavings.{
  Event, execute, adapter_ended, stop, open_session, step, run, idle, create_session,
}
use cyber_tracker_ai.Terminal.Commands.{
  TerminalCommandRequest, TerminalCommandResult, TerminalEngine, Flight, answered, suspended,
  returned, failed, invalid,
}
use cyber_tracker_ai.Base.Text.{Text, codes}
use cyber_tracker_ai.Policy.{allow}
use cyber_tracker_ai.Terminal.Models.{is_expired}
use cyber_tracker_ai.Terminal.Engine.Authorization.{
  IsLaunched, begin-IsLaunched, begin-IsContained, IsContained,
}
use cyber_tracker_ai.Terminal.Engine.Accounting.{is_started, is_ended, run_accounts, AllOrderly}
use cyber_tracker_ai.Examples.Sessions.{small, holding}

abbrev plain : Text → Text
plain path = path

abbrev decision : PolicyDecision
decision = record { verdict = allow; reasons = []; requires_approval = false }

abbrev request : List Text → TerminalCommandRequest
request argv = record {
  id = 11;
  session_id = 4;
  command = argv;
  authorization_context = decision;
  task_id = none;
  working_directory = none;
  environment = [];
  timeout_seconds = none;
  approved_by_user = false;
}

abbrev echo : TerminalCommandRequest
echo = request (codes "echo" ∷ [])

abbrev linux : PlatformIdentifier
linux = PlatformIdentifier.linux

abbrev engine : TerminalEngine
engine = record { manager = holding SessionStatus.ready; running = []; last_result = [] }

launched : (begin small plain linux echo 100 engine).0 ≡ suspended
unfolding begin prepare require_active_session get_session get is_expired validate_argv
    validate_working_directory from_policy_decision codes
launched = refl

begin-IsLaunched_example : IsLaunched small plain linux echo 100 engine
begin-IsLaunched_example = begin-IsLaunched small plain linux echo 100 engine launched

begin-IsContained_example :
    (flight : Flight) × (get (begin small plain linux echo 100 engine).1.running 11 ≡ some flight)
    × IsContained small plain linux echo flight.approved.command
begin-IsContained_example = begin-IsContained small plain linux echo 100 engine launched

abbrev refusal : TerminalCommandResult
refusal = record {
  command_id = 11;
  session_id = 4;
  status = CommandStatus.rejected;
  platform = PlatformIdentifier.linux;
  started_at = 100;
  completed_at = some 100;
  exit_code = none;
  stdout = none;
  stderr = none;
  stdout_truncated = false;
  stderr_truncated = false;
  error_message = some (invalid ValidationError.empty_command);
}

empty_refused : (begin small plain linux (request []) 100 engine).0 ≡ answered refusal
unfolding begin prepare require_active_session get_session get is_expired validate_argv reject
empty_refused = refl

abbrev done : ExecutionResult
done = record {
  status = ExecutionStatus.succeeded;
  exit_code = none;
  stdout = none;
  stderr = none;
  stdout_truncated = false;
  stderr_truncated = false;
  timed_out = false;
  started_at = 3;
  finished_at = none;
}

abbrev events : List (ℕ × Event)
events =
    (1, open_session none none 4)
    ∷ (2, execute echo)
    ∷ (3, stop 11)
    ∷ (4, adapter_ended 11 (returned done))
    ∷ []

returned-ne-failed : (r : ExecutionResult) → returned r ≢ failed
returned-ne-failed r h = cc

events_orderly : AllOrderly small plain linux events idle
unfolding step create_session get cyber_tracker_ai.Terminal.Sessions.create_session
    cyber_tracker_ai.Terminal.Sessions.reap_expired cyber_tracker_ai.Terminal.Sessions.reap_loop
events_orderly = (tt, (refl, (tt, (returned-ne-failed done, tt))))

run_accounts_example :
    count is_started (run small plain linux events idle).manager.audit
    ≡ count is_ended (run small plain linux events idle).manager.audit
      + length (run small plain linux events idle).running
run_accounts_example = run_accounts small plain linux events events_orderly
