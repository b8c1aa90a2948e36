-- ===== src/Examples/Sessions.antt =====
-- A small session manager (services/terminal/session_manager.py).
use cyber_tracker_ai.Base.{ℕ, none, some, List, [], ◌∷◌, arith, nat_eq, string_eq}
use cyber_tracker_ai.Base.Dict.{get}
use cyber_tracker_ai.Base.Text.{codes}
use cyber_tracker_ai.Terminal.Models.{
  PlatformIdentifier, SessionStatus, TerminalSession, TerminalEngineConfig,
}
use cyber_tracker_ai.Terminal.Sessions.{SessionManager, Call, create, run}
use cyber_tracker_ai.Terminal.Sessions.Capacity.{IsKeyed, IsBounded, run-IsBounded}

-- Room for one session, which expires after ten idle seconds.
abbrev pub small : TerminalEngineConfig
small = record {
  workspace_root = codes "/work";
  default_timeout_seconds = 30;
  max_timeout_seconds = 120;
  max_stdout_bytes = 10;
  max_stderr_bytes = 10;
  session_ttl_seconds = 10;
  max_concurrent_sessions = 1;
  env_allowlist = "PATH" ∷ [];
}

abbrev pub session : SessionStatus → TerminalSession
session status = record {
  id = 4;
  platform = PlatformIdentifier.linux;
  created_at = 0;
  status = status;
  working_directory = some (codes "/work");
  task_id = none;
  authorization_context = none;
  last_activity_at = 0;
}

abbrev pub holding : SessionStatus → SessionManager
holding status = record { sessions = (4, session status) ∷ []; audit = [] }

holding-IsKeyed : (status : SessionStatus) → IsKeyed (holding status)
unfolding get
holding-IsKeyed status = record { key = λ k s h. ground arith }

abbrev opening : List (ℕ × Call)
opening =
    (1, create PlatformIdentifier.linux none none 4)
    ∷ (2, create PlatformIdentifier.linux none none 5)
    ∷ []

run-IsBounded_example : IsBounded small (run small opening (holding SessionStatus.failed))
run-IsBounded_example =
    run-IsBounded small opening (holding SessionStatus.failed)
      (record { keyed = holding-IsKeyed SessionStatus.failed; bounded = omega arith })
