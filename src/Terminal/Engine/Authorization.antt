-- ===== src/Terminal/Engine/Authorization.antt =====
-- When the terminal engine (services/terminal/engine.py) hands a command to the adapter.
use cyber_tracker_ai.Base.{
  ℕ, ◌≡◌, ◌⊎◌, ◌≤◌, ◌++◌, max, refl, inl, inr, true, false, some, none, arith, nat_eq, string_eq,
  Bool-cases,
}
use cyber_tracker_ai.Base.Int.{ℤ, pos, negsuc}
use cyber_tracker_ai.Base.Dict.{get, get-put}
use cyber_tracker_ai.Base.Text.{Text, codes, text_eq}
use cyber_tracker_ai.Base.Result.{Result, ok, is_ok, Result-cases}
use cyber_tracker_ai.Terminal.Models.{
  PlatformIdentifier, CommandStatus, TerminalEngineConfig, clamp_timeout,
}
use cyber_tracker_ai.Terminal.Sessions.{require_active_session}
use cyber_tracker_ai.Terminal.Validation.{
  ValidationError, validate_argv, filter_environment, validate_working_directory,
  validate_working_directory_confined, is_secret, get-filter_environment,
}
use cyber_tracker_ai.Terminal.Controller.{CommandSpec, from_policy_decision, is_approved}
use cyber_tracker_ai.Terminal.Engine.{prepare, begin}
use cyber_tracker_ai.Terminal.Commands.{
  TerminalCommandRequest, TerminalCommandResult, Flight, TerminalEngine, answered, suspended,
}

module _ (config : TerminalEngineConfig) (realpath : Text → Text)
    (platform : PlatformIdentifier) where
  -- What a command that was launched has passed, and what the adapter is given.
  pub record IsLaunched (request : TerminalCommandRequest) (now : ℕ) (e : TerminalEngine)
      : Type 0 where
    session_active : is_ok (require_active_session config request.session_id now e.manager).0 ≡ true
    argv_valid : validate_argv request.command ≡ ok tt
    directory_valid :
        is_ok (validate_working_directory realpath request.working_directory config.workspace_root)
        ≡ true
    pub approved : is_approved request.authorization_context.verdict request.approved_by_user ≡ true

  -- A command is handed to the adapter only if its session is active, its argument vector and its
  -- working directory are valid, and its policy decision allows it or was approved by the user.
  pub begin-IsLaunched :
      (request : TerminalCommandRequest) (now : ℕ) (e : TerminalEngine)
      → (begin config realpath platform request now e).0 ≡ suspended
      → IsLaunched request now e
  unfolding begin prepare from_policy_decision
  begin-IsLaunched request now e h = ground arith

  -- Whatever passes those checks is launched.
  IsLaunched-begin :
      (request : TerminalCommandRequest) (now : ℕ) (e : TerminalEngine)
      → IsLaunched request now e
      → (begin config realpath platform request now e).0 ≡ suspended
  unfolding begin prepare from_policy_decision
  IsLaunched-begin request now e h =
      ground (arith, h.session_active, h.argv_valid, h.directory_valid, h.approved)

  -- The command of a flight: the requested arguments in the checked directory, the clamped timeout,
  -- the filtered environment, and the limits of the configuration.
  abbrev spec_of : TerminalCommandRequest → Text → CommandSpec
  spec_of request working_dir = record {
    argv = request.command;
    timeout_seconds = clamp_timeout config request.timeout_seconds;
    working_dir = some working_dir;
    env_overrides = filter_environment request.environment;
    env_allowlist = some config.env_allowlist;
    max_stdout_bytes = some config.max_stdout_bytes;
    max_stderr_bytes = some config.max_stderr_bytes;
  }

  abbrev pub flight_of : TerminalCommandRequest → Text → ℕ → Flight
  flight_of request working_dir now = record {
    request = request;
    approved = record { action_id = request.id; command = spec_of request working_dir };
    started_at = now;
    cancel_requested = false;
  }

  abbrev pub directory_of : TerminalCommandRequest → Result ValidationError Text
  directory_of request =
      validate_working_directory realpath request.working_directory config.workspace_root

  begin-stored :
      (request : TerminalCommandRequest) (now : ℕ) (e : TerminalEngine) (working_dir : Text)
      → directory_of request ≡ ok working_dir
      → (begin config realpath platform request now e).0 ≡ suspended
      → get (begin config realpath platform request now e).1.running request.id
        ≡ some (flight_of request working_dir now)
  unfolding begin prepare from_policy_decision
  begin-stored request now e working_dir p h =
      ground (arith, get-put e.running request.id request.id (flight_of request working_dir now))

  begin-flight :
      (request : TerminalCommandRequest) (now : ℕ) (e : TerminalEngine)
      → (begin config realpath platform request now e).0 ≡ suspended
      → (working_dir : Text) × (directory_of request ≡ ok working_dir)
        × (get (begin config realpath platform request now e).1.running request.id
            ≡ some (flight_of request working_dir now))
  begin-flight request now e h = elim (Result-cases (directory_of request)) [
    | inl v ↦ (v.0, v.1, begin-stored request now e v.0 v.1 h)
    | inr x ↦ absurd (ground (arith, x.1, (begin-IsLaunched request now e h).directory_valid))
  ]

  -- What the adapter may do with a command: it has the requested arguments, a directory that is the
  -- resolved root or stands below it, a timeout between 1 second and the longest one where the request
  -- gives one, and no override whose name looks like a secret.
  pub record IsContained (request : TerminalCommandRequest) (spec : CommandSpec) : Type 0 where
    pub argv : spec.argv ≡ request.command
    pub directory :
        (p : Text) × (spec.working_dir ≡ some p)
        × ((p ≡ realpath config.workspace_root)
            ⊎ ((rest : Text) × (p ≡ (realpath config.workspace_root ++ codes "/") ++ rest)))
    pub requested :
        (z : ℤ)
        → request.timeout_seconds ≡ some z
        → (1 ≤ spec.timeout_seconds) × (spec.timeout_seconds ≤ max 1 config.max_timeout_seconds)
    pub default :
        request.timeout_seconds ≡ none → spec.timeout_seconds ≡ config.default_timeout_seconds
    pub environment :
        (key value : Text)
        → get spec.env_overrides key ≡ some value
        → (is_secret key ≡ false) × (get request.environment key ≡ some value)

  clamp_timeout_bounded :
      (z : ℤ)
      → (1 ≤ clamp_timeout config (some z))
        × (clamp_timeout config (some z) ≤ max 1 config.max_timeout_seconds)
  unfolding clamp_timeout
  clamp_timeout_bounded (pos n) = (omega arith, omega arith)
  clamp_timeout_bounded (negsuc n) = (omega arith, omega arith)

  spec_of-IsContained :
      (request : TerminalCommandRequest) (p : Text)
      → directory_of request ≡ ok p
      → IsContained request (spec_of request p)
  unfolding clamp_timeout
  spec_of-IsContained request p found = record {
    argv = refl;
    directory = (
      p,
      refl,
      validate_working_directory_confined realpath request.working_directory config.workspace_root p
          found,
    );
    requested = λ z e. rw e (clamp_timeout_bounded z);
    default = λ e. rw e refl;
    environment = λ key value h.
        let kept = get-filter_environment request.environment key in
        elim (Bool-cases (is_secret key)) [
          | inl secret ↦ absurd (ground (arith, kept, secret, h))
          | inr open' ↦ (open', ground (arith, kept, open', h))
        ];
  }

  -- A launched command is in flight under its identifier, and what the adapter is given for it is
  -- contained: the requested arguments, in the resolved workspace root or below it, for at least 1 and
  -- at most the longest number of seconds where the request asks for a timeout and the default where
  -- it does not, with overrides of the request alone, none of which has the name of a secret.
  pub begin-IsContained :
      (request : TerminalCommandRequest) (now : ℕ) (e : TerminalEngine)
      → (begin config realpath platform request now e).0 ≡ suspended
      → (flight : Flight) × (get (begin config realpath platform request now e).1.running request.id
          ≡ some flight)
        × IsContained request flight.approved.command
  begin-IsContained request now e h =
      let (p, found, stored) = begin-flight request now e h in
      (flight_of request p now, stored, spec_of-IsContained request p found)

  -- A command that is answered at once was rejected: nothing is added to the commands in flight, and
  -- the session's last result is that answer.
  begin-answered :
      (request : TerminalCommandRequest) (now : ℕ) (e : TerminalEngine) (r : TerminalCommandResult)
      → (begin config realpath platform request now e).0 ≡ answered r
      → (r.status ≡ CommandStatus.rejected)
        × ((begin config realpath platform request now e).1.running ≡ e.running)
        × (get (begin config realpath platform request now e).1.last_result request.session_id
            ≡ some r)
  unfolding begin prepare from_policy_decision
  begin-answered request now e r h = (
    ground arith,
    ground arith,
    ground (arith, get-put e.last_result request.session_id request.session_id r),
  )
