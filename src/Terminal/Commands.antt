-- ===== src/Terminal/Commands.antt =====
-- The commands of the terminal engine and the state that it keeps (services/terminal/engine.py,
-- models.py).
use cyber_tracker_ai.Base.{
  ℕ, String, Bool, false, Option, none, some, List, nat_eq, string_eq, if◌then◌else◌,
}
use cyber_tracker_ai.Base.Dict.{Dict, put}
use cyber_tracker_ai.Base.Int.{ℤ}
use cyber_tracker_ai.Base.Text.{Text}
use cyber_tracker_ai.Policy.{PolicyVerdict, PolicyDecision}
use cyber_tracker_ai.Terminal.Models.{
  PlatformIdentifier, SessionStatus, CommandStatus, EventType, command_completed, command_failed,
  command_timeout, AuditEvent,
}
use cyber_tracker_ai.Terminal.Sessions.{SessionManager, SessionError, emit}
use cyber_tracker_ai.Terminal.Validation.{ValidationError}
use cyber_tracker_ai.Terminal.Controller.{ExecutionStatus, ExecutionResult, ApprovedExecution}

pub record TerminalCommandRequest : Type 0 where
  pub id : ℕ
  pub session_id : ℕ
  pub command : List Text
  pub authorization_context : PolicyDecision
  pub task_id : Option String
  pub working_directory : Option Text
  pub environment : Dict Text Text
  pub timeout_seconds : Option ℤ
  pub approved_by_user : Bool

-- The sentences of `error_message`.
pub data ErrorMessage : Type 0 where
  invalid : ValidationError → ErrorMessage
  not_approved : PolicyVerdict → ErrorMessage
  was_cancelled : ErrorMessage

pub record TerminalCommandResult : Type 0 where
  pub command_id : ℕ
  pub session_id : ℕ
  pub status : CommandStatus
  pub platform : PlatformIdentifier
  pub started_at : ℕ
  pub completed_at : Option ℕ
  pub exit_code : Option ℤ
  pub stdout : Option Text
  pub stderr : Option Text
  pub stdout_truncated : Bool
  pub stderr_truncated : Bool
  pub error_message : Option ErrorMessage

-- A coroutine that awaits the adapter.
pub record Flight : Type 0 where
  pub request : TerminalCommandRequest
  pub approved : ApprovedExecution
  pub started_at : ℕ
  pub cancel_requested : Bool

pub record TerminalEngine : Type 0 where
  pub manager : SessionManager
  pub running : Dict ℕ Flight
  pub last_result : Dict ℕ TerminalCommandResult

abbrev pub event : EventType → TerminalCommandRequest → AuditEvent
event type request = record {
  event_type = type;
  session_id = request.session_id;
  command_id = some request.id;
  task_id = request.task_id;
}

abbrev pub notify : EventType → TerminalCommandRequest → TerminalEngine → TerminalEngine
notify type request e = record e { manager = emit e.manager (event type request) }

-- A result without output, as for a rejected or a cancelled command.
abbrev pub bare_result :
    TerminalCommandRequest
    → CommandStatus
    → PlatformIdentifier
    → ℕ
    → ℕ
    → ErrorMessage
    → TerminalCommandResult
bare_result request status platform started_at now message = record {
  command_id = request.id;
  session_id = request.session_id;
  status = status;
  platform = platform;
  started_at = started_at;
  completed_at = some now;
  exit_code = none;
  stdout = none;
  stderr = none;
  stdout_truncated = false;
  stderr_truncated = false;
  error_message = some message;
}

-- `self._last_result_by_session[request.session_id] = result`, at the end of `execute`.
abbrev pub remember : TerminalCommandResult → TerminalEngine → TerminalEngine
remember result e = record e { last_result = put e.last_result result.session_id result }

-- How the first part of `execute` ends: it raises, returns, or waits for the adapter.
pub data Begun : Type 0 where
  raised : SessionError → Begun
  answered : TerminalCommandResult → Begun
  suspended : Begun

-- How the adapter's task ends.
pub data Outcome : Type 0 where
  returned : ExecutionResult → Outcome
  cancelled failed : Outcome

pub data Ended : Type 0 where
  result : TerminalCommandResult → Ended
  propagated not_running : Ended

-- The status and the event of a command whose adapter returned.
unfoldable pub final_status : ExecutionResult → CommandStatus
final_status r = if r.timed_out then CommandStatus.timeout else elim r.status [
  | ExecutionStatus.succeeded ↦ CommandStatus.completed
  | _ ↦ CommandStatus.failed
]

abbrev pub final_event : CommandStatus → EventType
final_event CommandStatus.completed = command_completed
final_event CommandStatus.timeout = command_timeout
final_event _ = command_failed

abbrev pub or_now : Option ℕ → ℕ → ℕ
or_now none now = now
or_now (some t) now = t

abbrev pub after_run : SessionStatus → SessionStatus
after_run SessionStatus.running = SessionStatus.ready
after_run status = status
