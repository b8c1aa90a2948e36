-- ===== src/Terminal/Engine.antt =====
-- The terminal engine (services/terminal/engine.py). `execute` runs without interruption up to the
-- await of the adapter and again from there to its end, so it is two operations, `begin` and
-- `finish`, between which other calls may come; `running` keeps what the coroutine remembers.
pub mod Authorization
pub mod Accounting
use cyber_tracker_ai.Base.{
  ℕ, zero, suc, ◌+◌, ◌-◌, ◌*◌, ◌^◌, ◌≤◌, ◌<◌, min, max, String, ◌≡◌, refl, sym, ap, ◌∙◌, ◌≢◌, ◌↔◌,
  ◌⊎◌, inl, inr, Bool, true, false, not, ◌&&◌, ◌||◌, Option, none, some, List, [], ◌∷◌, ◌++◌, map,
  arith, ltb, leb, Comparable, ◌==◌, nat_eq, string_eq, if◌then◌else◌, Bool-cases, Option-cases,
  length, any, all, find, filter, count, last?, All, length-append, count-append, count-le-length,
  All-append,
}
use cyber_tracker_ai.Base.Dict.{Dict, get, put, remove}
use cyber_tracker_ai.Base.Int.{ℤ}
use cyber_tracker_ai.Base.Text.{Text}
use cyber_tracker_ai.Base.Result.{Result, ok, err, ◌>>=◌, ◌>>◌}
use cyber_tracker_ai.Policy.{PolicyVerdict, PolicyDecision}
use cyber_tracker_ai.Terminal.Models.{
  PlatformIdentifier, SessionStatus, CommandStatus, TerminalSession, TerminalEngineConfig, touch,
  clamp_timeout, EventType, platform_session_created, command_requested, command_approved,
  command_rejected, command_started, command_completed, command_failed, command_timeout,
  command_cancelled, AuditEvent,
}
use cyber_tracker_ai.Terminal.Sessions.{
  SessionManager, SessionError, emit, store, require_active_session, get_session, close_session,
}
use cyber_tracker_ai.Terminal.Sessions
use cyber_tracker_ai.Terminal.Validation.{
  ValidationError, validate_argv, filter_environment, validate_working_directory,
}
use cyber_tracker_ai.Terminal.Controller.{
  ExecutionStatus, CommandSpec, ExecutionResult, ApprovedExecution, from_policy_decision,
}
use cyber_tracker_ai.Terminal.Commands.{
  Begun, Ended, ErrorMessage, Flight, Outcome, TerminalCommandRequest, TerminalCommandResult,
  TerminalEngine, after_run, answered, bare_result, cancelled, event, failed, final_event,
  final_status, invalid, not_approved, not_running, notify, or_now, propagated, raised, remember,
  result, returned, suspended, was_cancelled,
}

module _ (config : TerminalEngineConfig) (realpath : Text → Text)
    (platform : PlatformIdentifier) where
  -- The checks before the policy decision is looked at, in their order.
  unfoldable pub prepare : TerminalCommandRequest → Result ValidationError CommandSpec
  prepare request = do
    validate_argv request.command
    working_dir ←
        validate_working_directory realpath request.working_directory config.workspace_root
    ok (record {
      argv = request.command;
      timeout_seconds = clamp_timeout config request.timeout_seconds;
      working_dir = some working_dir;
      env_overrides = filter_environment request.environment;
      env_allowlist = some config.env_allowlist;
      max_stdout_bytes = some config.max_stdout_bytes;
      max_stderr_bytes = some config.max_stderr_bytes;
    })

  unfoldable pub reject :
      TerminalCommandRequest → ℕ → ErrorMessage → TerminalEngine → Begun × TerminalEngine
  reject request now message e =
      let r = bare_result request CommandStatus.rejected platform now now message in
      (answered r, remember r e)

  unfoldable pub start :
      TerminalCommandRequest
      → TerminalSession
      → ℕ
      → ApprovedExecution
      → TerminalEngine
      → Begun × TerminalEngine
  start request session now approved e =
      let approved_e = notify command_approved request e in
      let flight : Flight = record {
        request = request;
        approved = approved;
        started_at = now;
        cancel_requested = false;
      } in
      let launched : TerminalEngine = record {
        manager = store approved_e.manager (record session { status = SessionStatus.running });
        running = put e.running request.id flight;
        last_result = e.last_result;
      } in
      (suspended, notify command_started request launched)

  unfoldable pub decide :
      TerminalCommandRequest
      → TerminalSession
      → ℕ
      → CommandSpec
      → TerminalEngine
      → Begun × TerminalEngine
  unfolding reject start
  decide request session now spec e =
      elim (from_policy_decision request.id spec request.authorization_context
        request.approved_by_user) [
          | none ↦
              reject request now (not_approved request.authorization_context.verdict)
                (notify command_rejected request e)
          | some approved ↦ start request session now approved e
        ]

  unfoldable pub admit :
      TerminalCommandRequest → TerminalSession → ℕ → TerminalEngine → Begun × TerminalEngine
  unfolding decide
  admit request session now e =
      let touched = touch session now in
      let requested =
        notify command_requested request (record e { manager = store e.manager touched }) in
      elim (prepare request) [
        | err v ↦ reject request now (invalid v) requested
        | ok spec ↦ decide request touched now spec requested
      ]

  unfoldable pub begin : TerminalCommandRequest → ℕ → TerminalEngine → Begun × TerminalEngine
  unfolding admit
  begin request now e =
      let (found, m) = require_active_session config request.session_id now e.manager in
      elim found [
        | err x ↦ (raised x, record e { manager = m })
        | ok session ↦ admit request session now (record e { manager = m })
      ]

  -- `session.touch()` and the reset of RUNNING, on the session object that the flight holds.
  abbrev settled : TerminalSession → ℕ → TerminalSession
  settled session now = record session { status = after_run session.status; last_activity_at = now }

  abbrev settle_in : SessionManager → Option TerminalSession → ℕ → SessionManager
  settle_in m none now = m
  settle_in m (some session) now = store m (settled session now)

  -- The `finally` block.
  unfoldable pub release : TerminalCommandRequest → ℕ → TerminalEngine → TerminalEngine
  release request now e = record e {
    manager = settle_in e.manager (get e.manager.sessions request.session_id) now;
    running = remove e.running request.id;
  }

  unfoldable pub conclude : Flight → Outcome → ℕ → TerminalEngine → Ended × TerminalEngine
  unfolding release final_status
  conclude flight (returned r) now e =
      let status = final_status r in
      let answer : TerminalCommandResult = record {
        command_id = flight.request.id;
        session_id = flight.request.session_id;
        status = status;
        platform = platform;
        started_at = flight.started_at;
        completed_at = some (or_now r.finished_at now);
        exit_code = r.exit_code;
        stdout = r.stdout;
        stderr = r.stderr;
        stdout_truncated = r.stdout_truncated;
        stderr_truncated = r.stderr_truncated;
        error_message = none;
      } in
      (
        result answer,
        remember answer (notify (final_event status) flight.request (release flight.request now e)),
      )
  conclude flight cancelled now e =
      let answer =
        bare_result flight.request CommandStatus.cancelled platform flight.started_at now
          was_cancelled in
      (
        result answer,
        remember answer (release flight.request now (notify command_cancelled flight.request e)),
      )
  conclude flight failed now e = (propagated, release flight.request now e)

  unfoldable pub finish : ℕ → Outcome → ℕ → TerminalEngine → Ended × TerminalEngine
  unfolding conclude
  finish command_id outcome now e = elim (get e.running command_id) [
    | none ↦ (not_running, e)
    | some flight ↦ conclude flight outcome now e
  ]

unfoldable pub terminate : ℕ → TerminalEngine → Bool × TerminalEngine
terminate command_id e = elim (get e.running command_id) [
  | none ↦ (false, e)
  | some flight ↦ (
    true,
    record e { running = put e.running command_id (record flight { cancel_requested = true }) },
  )
]

-- `get_last_result`.
unfoldable get_last_result : ℕ → TerminalEngine → Option TerminalCommandResult
get_last_result session_id e = get e.last_result session_id
