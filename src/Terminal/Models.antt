-- ===== src/Terminal/Models.antt =====
-- The data of the terminal engine (services/terminal/models.py, config.py, audit.py). Times are
-- microseconds from the epoch, and an identifier (a UUID) is a number.
use cyber_tracker_ai.Base.{
  ℕ, ◌+◌, ◌*◌, min, max, String, Bool, true, false, Option, none, some, List, ltb, nat_eq,
  string_eq,
}
use cyber_tracker_ai.Base.Int.{ℤ, pos, negsuc}
use cyber_tracker_ai.Base.Text.{Text}
use cyber_tracker_ai.Policy.{PolicyDecision}

pub data PlatformIdentifier : Type 0 where
  windows linux macos android_termux unknown : PlatformIdentifier

pub data SessionStatus : Type 0 where
  created ready running stopping stopped failed expired : SessionStatus

pub data CommandStatus : Type 0 where
  queued running completed failed timeout cancelled rejected : CommandStatus

pub record TerminalSession : Type 0 where
  pub id : ℕ
  pub platform : PlatformIdentifier
  pub created_at : ℕ
  pub status : SessionStatus
  pub working_directory : Option Text
  pub task_id : Option String
  pub authorization_context : Option PolicyDecision
  pub last_activity_at : ℕ

unfoldable pub touch : TerminalSession → ℕ → TerminalSession
touch session now = record session { last_activity_at = now }

abbrev second : ℕ
second = 1000000

-- `age > ttl_seconds`; where the clock went backwards the age is negative, and the test fails.
unfoldable pub is_expired : TerminalSession → ℕ → ℕ → Bool
is_expired session ttl_seconds now = ltb (session.last_activity_at + ttl_seconds * second) now

-- `status in (READY, RUNNING)`.
abbrev pub is_active : SessionStatus → Bool
is_active SessionStatus.ready = true
is_active SessionStatus.running = true
is_active _ = false

-- `status in (STOPPED, FAILED, EXPIRED)`.
abbrev pub is_over : SessionStatus → Bool
is_over SessionStatus.stopped = true
is_over SessionStatus.failed = true
is_over SessionStatus.expired = true
is_over _ = false

pub record TerminalEngineConfig : Type 0 where
  pub workspace_root : Text
  pub default_timeout_seconds : ℕ
  pub max_timeout_seconds : ℕ
  pub max_stdout_bytes : ℕ
  pub max_stderr_bytes : ℕ
  pub session_ttl_seconds : ℕ
  pub max_concurrent_sessions : ℕ
  pub env_allowlist : List String

-- `max(1, min(requested_seconds, max_timeout_seconds))`: a negative request gives 1.
unfoldable pub clamp_timeout : TerminalEngineConfig → Option ℤ → ℕ
clamp_timeout config none = config.default_timeout_seconds
clamp_timeout config (some (pos n)) = max 1 (min n config.max_timeout_seconds)
clamp_timeout config (some (negsuc n)) = 1

pub data EventType : Type 0 where
  session_created session_closed session_expired platform_session_created : EventType
  command_requested command_approved command_rejected command_started command_completed : EventType
  command_failed command_timeout command_cancelled : EventType

-- An event without the time and the free-form `data` of the log line.
pub record AuditEvent : Type 0 where
  pub event_type : EventType
  pub session_id : ℕ
  pub command_id : Option ℕ
  pub task_id : Option String
