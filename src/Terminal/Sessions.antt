-- ===== src/Terminal/Sessions.antt =====
-- The session manager (services/terminal/session_manager.py). Every method takes the time of its
-- call, and returns what it raises or returns together with the manager that it leaves behind.
pub mod Capacity
pub mod Activity
use cyber_tracker_ai.Base.{
  ℕ, zero, suc, ◌+◌, ◌-◌, ◌*◌, ◌^◌, ◌≤◌, ◌<◌, min, max, String, ◌≡◌, refl, sym, ap, ◌∙◌, ◌≢◌, ◌↔◌,
  ◌⊎◌, inl, inr, Bool, true, false, not, ◌&&◌, ◌||◌, Option, none, some, List, [], ◌∷◌, ◌++◌, map,
  arith, ltb, leb, Comparable, ◌==◌, nat_eq, string_eq, if◌then◌else◌, Bool-cases, Option-cases,
  length, any, all, find, filter, count, last?, All, length-append, count-append, count-le-length,
  All-append,
}
use cyber_tracker_ai.Base.Dict.{Dict, get, put}
use cyber_tracker_ai.Base.Text.{Text, text_eq}
use cyber_tracker_ai.Base.Result.{Result, ok, err}
use cyber_tracker_ai.Terminal.Models.{
  PlatformIdentifier, SessionStatus, TerminalSession, TerminalEngineConfig, touch, is_expired,
  is_active, is_over, EventType, session_created, session_closed, session_expired, AuditEvent,
}

pub data SessionError : Type 0 where
  too_many_sessions session_not_found idle_too_long : SessionError
  not_active : SessionStatus → SessionError

pub record SessionManager : Type 0 where
  pub sessions : Dict ℕ TerminalSession
  pub audit : List AuditEvent

abbrev pub new : SessionManager
new = record { sessions = []; audit = [] }

abbrev pub event : EventType → TerminalSession → AuditEvent
event type session = record {
  event_type = type;
  session_id = session.id;
  command_id = none;
  task_id = session.task_id;
}

abbrev pub emit : SessionManager → AuditEvent → SessionManager
emit m e = record m { audit = m.audit ++ e ∷ [] }

-- `self._sessions[session.id] = session`, or a write through the reference that the dict holds.
abbrev pub store : SessionManager → TerminalSession → SessionManager
store m session = record m { sessions = put m.sessions session.id session }

-- The loop of `_reap_expired` over the values: what it leaves of them, and what it emits.
unfoldable pub reap_loop : ℕ → ℕ → Dict ℕ TerminalSession → Dict ℕ TerminalSession × List AuditEvent
reap_loop ttl now [] = ([], [])
reap_loop ttl now ((k, s) ∷ d) =
    let rest = reap_loop ttl now d in
    let s' : TerminalSession = record s { status = SessionStatus.expired } in
    if is_active s.status && is_expired s ttl now
    then ((k, s') ∷ rest.0, event session_expired s' ∷ rest.1)
    else ((k, s) ∷ rest.0, rest.1)

unfoldable pub reap_expired : TerminalEngineConfig → ℕ → SessionManager → SessionManager
reap_expired config now m =
    let reaped = reap_loop config.session_ttl_seconds now m.sessions in
    record { sessions = reaped.0; audit = m.audit ++ reaped.1 }

-- `working_directory or self._config.workspace_root`.
abbrev or_root : Option Text → Text → Text
or_root none root = root
or_root (some path) root = if path == [] then root else path

-- `fresh` is the identifier that `uuid4` draws.
unfoldable pub create_session :
    TerminalEngineConfig
    → PlatformIdentifier
    → Option String
    → Option Text
    → ℕ
    → ℕ
    → SessionManager
    → Result SessionError TerminalSession × SessionManager
create_session config platform task working fresh now m =
    let reaped = reap_expired config now m in
    let session : TerminalSession = record {
      id = fresh;
      platform = platform;
      created_at = now;
      status = SessionStatus.ready;
      working_directory = some (or_root working config.workspace_root);
      task_id = task;
      authorization_context = none;
      last_activity_at = now;
    } in
    if leb config.max_concurrent_sessions (length reaped.sessions)
    then (err too_many_sessions, reaped)
    else (ok session, emit (store reaped session) (event session_created session))

abbrev refresh :
    TerminalEngineConfig
    → ℕ
    → SessionManager
    → Option TerminalSession
    → Result SessionError TerminalSession × SessionManager
refresh config now m none = (err session_not_found, m)
refresh config now m (some session) =
    let gone : TerminalSession = record session { status = SessionStatus.expired } in
    if not (is_over session.status) && is_expired session config.session_ttl_seconds now
    then (ok gone, emit (store m gone) (event session_expired gone))
    else (ok session, m)

unfoldable pub get_session :
    TerminalEngineConfig
    → ℕ
    → ℕ
    → SessionManager
    → Result SessionError TerminalSession × SessionManager
get_session config session_id now m = refresh config now m (get m.sessions session_id)

abbrev check_active : SessionStatus → TerminalSession → Result SessionError TerminalSession
check_active SessionStatus.expired session = err idle_too_long
check_active SessionStatus.ready session = ok session
check_active SessionStatus.running session = ok session
check_active status session = err (not_active status)

abbrev continue :
    Result SessionError TerminalSession × SessionManager
    → (TerminalSession → SessionManager → Result SessionError TerminalSession × SessionManager)
    → Result SessionError TerminalSession × SessionManager
continue (ok session, m) k = k session m
continue (err e, m) k = (err e, m)

unfoldable pub require_active_session :
    TerminalEngineConfig
    → ℕ
    → ℕ
    → SessionManager
    → Result SessionError TerminalSession × SessionManager
unfolding get_session
require_active_session config session_id now m =
    continue (get_session config session_id now m)
      (λ session m'. (check_active session.status session, m'))

unfoldable pub close_session :
    TerminalEngineConfig
    → ℕ
    → ℕ
    → SessionManager
    → Result SessionError TerminalSession × SessionManager
unfolding get_session
close_session config session_id now m = continue (get_session config session_id now m) λ session m'.
    let closed : TerminalSession = record session {
      status = SessionStatus.stopped;
      last_activity_at = now;
    } in
    (ok closed, emit (store m' closed) (event session_closed closed))

-- One call of the manager's interface, and the manager that it leaves behind.
pub data Call : Type 0 where
  create : PlatformIdentifier → Option String → Option Text → ℕ → Call
  look_up require close : ℕ → Call

unfoldable pub step : TerminalEngineConfig → ℕ → Call → SessionManager → SessionManager
step config now (create platform task working fresh) m =
    (create_session config platform task working fresh now m).1
step config now (look_up session_id) m = (get_session config session_id now m).1
step config now (require session_id) m = (require_active_session config session_id now m).1
step config now (close session_id) m = (close_session config session_id now m).1

unfoldable pub run : TerminalEngineConfig → List (ℕ × Call) → SessionManager → SessionManager
run config [] m = m
run config ((now, call) ∷ calls) m = run config calls (step config now call m)
