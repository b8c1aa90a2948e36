-- ===== src/Terminal/Interleavings.antt =====
-- The calls of the terminal engine in any order (services/terminal/engine.py).
use cyber_tracker_ai.Base.{
  ℕ, String, Bool, true, false, Option, none, List, [], ◌∷◌, nat_eq, string_eq, if◌then◌else◌,
}
use cyber_tracker_ai.Base.Text.{Text}
use cyber_tracker_ai.Base.Result.{Result, ok, err}
use cyber_tracker_ai.Terminal.Models.{
  PlatformIdentifier, TerminalSession, TerminalEngineConfig, platform_session_created, AuditEvent,
}
use cyber_tracker_ai.Terminal.Sessions.{
  SessionManager, SessionError, emit, store, require_active_session, get_session, close_session,
}
use cyber_tracker_ai.Terminal.Sessions
use cyber_tracker_ai.Terminal.Commands.{Outcome, TerminalCommandRequest, TerminalEngine, event}
use cyber_tracker_ai.Terminal.Engine.{terminate, begin, finish}

-- The adapters of these platforms have a session event of their own.
abbrev has_session_event : PlatformIdentifier → Bool
has_session_event PlatformIdentifier.windows = true
has_session_event PlatformIdentifier.linux = true
has_session_event PlatformIdentifier.macos = true
has_session_event _ = false

abbrev platform_event : TerminalSession → Option String → AuditEvent
platform_event session task = record {
  event_type = platform_session_created;
  session_id = session.id;
  command_id = none;
  task_id = task;
}

unfoldable pub create_session :
    TerminalEngineConfig
    → PlatformIdentifier
    → Option String
    → Option Text
    → ℕ
    → ℕ
    → TerminalEngine
    → Result SessionError TerminalSession × TerminalEngine
create_session config platform task working fresh now e =
    let (made, m) = Sessions.create_session config platform task working fresh now e.manager in
    elim made [
      | err x ↦ (err x, record e { manager = m })
      | ok session ↦ (
        ok session,
        record e {
          manager = if has_session_event platform then emit m (platform_event session task) else m;
        },
      )
    ]

-- What can happen to the engine between two awaits.
pub data Event : Type 0 where
  execute : TerminalCommandRequest → Event
  adapter_ended : ℕ → Outcome → Event
  stop status close : ℕ → Event
  open_session : Option String → Option Text → ℕ → Event

unfoldable pub step :
    TerminalEngineConfig
    → (Text → Text)
    → PlatformIdentifier
    → ℕ
    → Event
    → TerminalEngine
    → TerminalEngine
step config realpath platform now (execute request) e =
    (begin config realpath platform request now e).1
step config realpath platform now (adapter_ended command_id outcome) e =
    (finish config realpath platform command_id outcome now e).1
step config realpath platform now (stop command_id) e = (terminate command_id e).1
step config realpath platform now (status session_id) e = record e {
  manager = (get_session config session_id now e.manager).1;
}
step config realpath platform now (close session_id) e = record e {
  manager = (close_session config session_id now e.manager).1;
}
step config realpath platform now (open_session task working fresh) e =
    (create_session config platform task working fresh now e).1

unfoldable pub run :
    TerminalEngineConfig
    → (Text → Text)
    → PlatformIdentifier
    → List (ℕ × Event)
    → TerminalEngine
    → TerminalEngine
run config realpath platform [] e = e
run config realpath platform ((now, event) ∷ events) e =
    run config realpath platform events (step config realpath platform now event e)

abbrev pub idle : TerminalEngine
idle = record { manager = Sessions.new; running = []; last_result = [] }
