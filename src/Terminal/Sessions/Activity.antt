-- ===== src/Terminal/Sessions/Activity.antt =====
-- Which sessions may run a command (`require_active_session`), and that a session that is over
-- stays over.
use cyber_tracker_ai.Base.{
  ℕ, ◌≡◌, ◌≢◌, Bool, true, false, Option, none, some, List, [], ◌∷◌, arith, nat_eq, string_eq, All,
}
use cyber_tracker_ai.Base.Dict.{get, get-put}
use cyber_tracker_ai.Base.Result.{ok, is_ok}
use cyber_tracker_ai.Terminal.Models.{
  TerminalSession, TerminalEngineConfig, is_expired, is_active, is_over,
}
use cyber_tracker_ai.Terminal.Sessions.{
  SessionManager, reap_expired, create_session, get_session, require_active_session, close_session,
  Call, create, look_up, require, close, step, run,
}
use cyber_tracker_ai.Terminal.Sessions.Capacity.{
  reaped, reaped_entry, get-reap_loop, IsKeyed, step-IsKeyed,
}

-- A session that `require_active_session` hands out is ready or running, has not been idle for
-- longer than the time to live, and is the one stored under the identifier asked for; and the call
-- has then changed nothing.
require_active_session-ok :
    (config : TerminalEngineConfig) (k now : ℕ) (m : SessionManager) (s : TerminalSession)
    → IsKeyed m
    → (require_active_session config k now m).0 ≡ ok s
    → (is_active s.status ≡ true)
      × (is_expired s config.session_ttl_seconds now ≡ false)
      × (get m.sessions k ≡ some s)
      × ((require_active_session config k now m).1 ≡ m)
unfolding require_active_session
require_active_session-ok config k now m s h e = ground arith

-- The session stored under `k` is stopped, failed or expired.
abbrev over_entry : Option TerminalSession → Bool
over_entry none = false
over_entry (some s) = is_over s.status

abbrev IsOver : SessionManager → ℕ → Type 0
IsOver m k = over_entry (get m.sessions k) ≡ true

-- The call draws no identifier that is `k`.
abbrev Avoids : ℕ → Call → Type 0
Avoids k (create p t w fresh) = fresh ≢ k
Avoids k _ = Unit

reap_expired-IsOver :
    (config : TerminalEngineConfig) (now k : ℕ) (m : SessionManager)
    → IsOver m k
    → IsOver (reap_expired config now m) k
unfolding reap_expired reaped_entry reaped
reap_expired-IsOver config now k m h =
    ground (arith, get-reap_loop config.session_ttl_seconds now m.sessions k)

get_session-IsOver :
    (config : TerminalEngineConfig) (j now k : ℕ) (m : SessionManager)
    → IsKeyed m
    → IsOver m k
    → IsOver (get_session config j now m).1 k
unfolding get_session
get_session-IsOver config j now k m keyed h = grind (arith, get-put, keyed.key j)

close_session-IsOver :
    (config : TerminalEngineConfig) (j now k : ℕ) (m : SessionManager)
    → IsKeyed m
    → IsOver m k
    → IsOver (close_session config j now m).1 k
unfolding close_session
close_session-IsOver config j now k m keyed h =
    grind (arith, get-put, get_session-IsOver config j now k m keyed h)

step-IsOver :
    (config : TerminalEngineConfig) (now k : ℕ) (call : Call) (m : SessionManager)
    → IsKeyed m
    → Avoids k call
    → IsOver m k
    → IsOver (step config now call m) k
unfolding step create_session require_active_session
step-IsOver config now k (create p t w fresh) m keyed a h =
    grind (arith, get-put, reap_expired-IsOver config now k m h)
step-IsOver config now k (look_up j) m keyed a h = get_session-IsOver config j now k m keyed h
step-IsOver config now k (require j) m keyed a h =
    ground (arith, get_session-IsOver config j now k m keyed h)
step-IsOver config now k (close j) m keyed a h = close_session-IsOver config j now k m keyed h

-- A session that is stopped, failed or expired stays so through any calls at any times that do not
-- draw its identifier again.
run-IsOver :
    (config : TerminalEngineConfig) (k : ℕ) (calls : List (ℕ × Call)) (m : SessionManager)
    → IsKeyed m
    → All (λ c. Avoids k c.1) calls
    → IsOver m k
    → IsOver (run config calls m) k
unfolding run
run-IsOver config k [] m keyed a h = h
run-IsOver config k ((now, call) ∷ calls) m keyed a h =
    run-IsOver config k calls (step config now call m) (step-IsKeyed config now call m keyed) a.1
      (step-IsOver config now k call m keyed a.0 h)

-- Such a session never runs a command again.
over_never_active :
    (config : TerminalEngineConfig) (k now : ℕ) (calls : List (ℕ × Call)) (m : SessionManager)
    → IsKeyed m
    → All (λ c. Avoids k c.1) calls
    → IsOver m k
    → is_ok (require_active_session config k now (run config calls m)).0 ≡ false
unfolding require_active_session get_session
over_never_active config k now calls m keyed a h =
    ground (arith, run-IsOver config k calls m keyed a h)
