-- ===== src/Terminal/Sessions/Capacity.antt =====
-- How many sessions the manager holds (`max_concurrent_sessions` of the session manager).
use cyber_tracker_ai.Base.{
  ℕ, ◌≤◌, String, ◌≡◌, refl, ◌&&◌, Option, none, some, List, [], ◌∷◌, arith, nat_eq, string_eq,
  if◌then◌else◌, length,
}
use cyber_tracker_ai.Base.Dict.{Dict, get, put, length-put, get-put}
use cyber_tracker_ai.Base.Text.{Text}
use cyber_tracker_ai.Base.Result.{ok, err}
use cyber_tracker_ai.Terminal.Models.{
  PlatformIdentifier, SessionStatus, TerminalSession, TerminalEngineConfig, is_expired, is_active,
}
use cyber_tracker_ai.Terminal.Sessions.{
  SessionManager, too_many_sessions, reap_loop, reap_expired, create_session, get_session,
  require_active_session, close_session, Call, create, look_up, require, close, step, run, store,
}

length-reap_loop :
    (ttl now : ℕ) (d : Dict ℕ TerminalSession) → length (reap_loop ttl now d).0 ≡ length d
unfolding reap_loop
length-reap_loop ttl now [] = refl
length-reap_loop ttl now ((k, s) ∷ d) = ground (arith, length-reap_loop ttl now d)

unfoldable pub reaped : ℕ → ℕ → TerminalSession → TerminalSession
reaped ttl now s =
    if is_active s.status && is_expired s ttl now
    then record s { status = SessionStatus.expired }
    else s

unfoldable pub reaped_entry : ℕ → ℕ → Option TerminalSession → Option TerminalSession
unfolding reaped
reaped_entry ttl now none = none
reaped_entry ttl now (some s) = some (reaped ttl now s)

-- Reaping rewrites each entry in place.
pub get-reap_loop :
    (ttl now : ℕ) (d : Dict ℕ TerminalSession) (k : ℕ)
    → get (reap_loop ttl now d).0 k ≡ reaped_entry ttl now (get d k)
unfolding reap_loop get reaped_entry
get-reap_loop ttl now [] k = refl
get-reap_loop ttl now ((j, s) ∷ d) k = ground (arith, get-reap_loop ttl now d k)

length-le-put :
    (d : Dict ℕ TerminalSession) (k : ℕ) (s : TerminalSession) → length d ≤ length (put d k s)
length-le-put d k s = ground (arith, length-put d k s)

length-le-get_session :
    (config : TerminalEngineConfig) (k now : ℕ) (m : SessionManager)
    → length m.sessions ≤ length (get_session config k now m).1.sessions
unfolding get_session
length-le-get_session config k now m = grind (arith, length-le-put)

-- No call makes the manager hold fewer sessions: closing and expiring keep the entry.
length-le-step :
    (config : TerminalEngineConfig) (now : ℕ) (call : Call) (m : SessionManager)
    → length m.sessions ≤ length (step config now call m).sessions
unfolding step create_session reap_expired require_active_session close_session
length-le-step config now (create p t w fresh) m = grind (arith, length-le-put, length-reap_loop)
length-le-step config now (look_up k) m = length-le-get_session config k now m
length-le-step config now (require k) m = ground (arith, length-le-get_session config k now m)
length-le-step config now (close k) m =
    grind (arith, length-le-get_session config k now m, length-le-put)

length-le-run :
    (config : TerminalEngineConfig) (calls : List (ℕ × Call)) (m : SessionManager)
    → length m.sessions ≤ length (run config calls m).sessions
unfolding run
length-le-run config [] m = omega arith
length-le-run config ((now, call) ∷ calls) m =
    omega
      (arith, length-le-step config now call m, length-le-run config calls (step config now call m))

-- Once the manager holds as many sessions as the cap, no later call creates one: whatever sessions
-- are closed or expire in between, `create_session` is refused for ever.
create_refused_for_ever :
    (config : TerminalEngineConfig) (m : SessionManager) (calls : List (ℕ × Call))
    (p : PlatformIdentifier) (t : Option String) (w : Option Text) (fresh now : ℕ)
    → config.max_concurrent_sessions ≤ length m.sessions
    → (create_session config p t w fresh now (run config calls m)).0 ≡ err too_many_sessions
unfolding create_session reap_expired
create_refused_for_ever config m calls p t w fresh now full = ground (
  arith,
  length-le-run config calls m,
  length-reap_loop config.session_ttl_seconds now (run config calls m).sessions,
)

-- The key of an entry is the identifier of its session.
pub record IsKeyed (m : SessionManager) : Type 0 where
  pub key : (k : ℕ) (s : TerminalSession) → get m.sessions k ≡ some s → s.id ≡ k

-- The manager is keyed and holds no more sessions than the cap.
pub record IsBounded (config : TerminalEngineConfig) (m : SessionManager) : Type 0 where
  pub keyed : IsKeyed m
  pub bounded : length m.sessions ≤ config.max_concurrent_sessions

store-IsKeyed : (m : SessionManager) (s : TerminalSession) → IsKeyed m → IsKeyed (store m s)
store-IsKeyed m s h = record {
  key = λ k t e. ground (arith, get-put m.sessions s.id k s, h.key k t);
}

reap_expired-IsKeyed :
    (config : TerminalEngineConfig) (now : ℕ) (m : SessionManager)
    → IsKeyed m
    → IsKeyed (reap_expired config now m)
unfolding reap_expired reaped_entry reaped
reap_expired-IsKeyed config now m h = record {
  key = λ k t e. grind (arith, get-reap_loop config.session_ttl_seconds now m.sessions k, h.key k);
}

get_session-IsKeyed :
    (config : TerminalEngineConfig) (k now : ℕ) (m : SessionManager)
    → IsKeyed m
    → IsKeyed (get_session config k now m).1
unfolding get_session
get_session-IsKeyed config k now m h = record { key = λ j t e. grind (arith, get-put, h.key j t) }

pub step-IsKeyed :
    (config : TerminalEngineConfig) (now : ℕ) (call : Call) (m : SessionManager)
    → IsKeyed m
    → IsKeyed (step config now call m)
unfolding step create_session require_active_session close_session
step-IsKeyed config now (create p t w fresh) m h =
    let r = reap_expired-IsKeyed config now m h in
    record { key = λ j s e. grind (arith, get-put, r.key j s) }
step-IsKeyed config now (look_up k) m h = get_session-IsKeyed config k now m h
step-IsKeyed config now (require k) m h =
    let r = get_session-IsKeyed config k now m h in
    record { key = λ j s e. grind (arith, r.key j s) }
step-IsKeyed config now (close k) m h =
    let r = get_session-IsKeyed config k now m h in
    record { key = λ j s e. grind (arith, get-put, r.key j s) }

-- What `get_session` returns is what the manager then holds under the identifier asked for.
get_session-stored :
    (config : TerminalEngineConfig) (k now : ℕ) (m : SessionManager) (s : TerminalSession)
    → IsKeyed m
    → (get_session config k now m).0 ≡ ok s
    → (s.id ≡ k) × (get (get_session config k now m).1.sessions k ≡ some s)
unfolding get_session
get_session-stored config k now m s h e = grind (arith, get-put, h.key k)

length-get_session :
    (config : TerminalEngineConfig) (k now : ℕ) (m : SessionManager)
    → IsKeyed m
    → length (get_session config k now m).1.sessions ≡ length m.sessions
unfolding get_session
length-get_session config k now m h = grind (arith, length-put, h.key k)

length-close_session :
    (config : TerminalEngineConfig) (k now : ℕ) (m : SessionManager)
    → IsKeyed m
    → length (close_session config k now m).1.sessions ≡ length m.sessions
unfolding close_session
length-close_session config k now m h =
    grind
      (arith, length-put, length-get_session config k now m h, get_session-stored config k now m)

-- The manager never holds more sessions than the cap, whatever is called.
step-IsBounded :
    (config : TerminalEngineConfig) (now : ℕ) (call : Call) (m : SessionManager)
    → IsBounded config m
    → IsBounded config (step config now call m)
unfolding step create_session require_active_session reap_expired
step-IsBounded config now (create p t w fresh) m h = record {
  keyed = step-IsKeyed config now (create p t w fresh) m h.keyed;
  bounded = grind (arith, length-put, length-reap_loop, h.bounded);
}
step-IsBounded config now (look_up k) m h = record {
  keyed = step-IsKeyed config now (look_up k) m h.keyed;
  bounded = ground (arith, length-get_session config k now m h.keyed);
}
step-IsBounded config now (require k) m h = record {
  keyed = step-IsKeyed config now (require k) m h.keyed;
  bounded = ground (arith, length-get_session config k now m h.keyed);
}
step-IsBounded config now (close k) m h = record {
  keyed = step-IsKeyed config now (close k) m h.keyed;
  bounded = ground (arith, length-close_session config k now m h.keyed);
}

-- From an empty manager, after any calls at any times, every entry stands under its session's
-- identifier and the number of sessions is at most the cap.
pub run-IsBounded :
    (config : TerminalEngineConfig) (calls : List (ℕ × Call)) (m : SessionManager)
    → IsBounded config m
    → IsBounded config (run config calls m)
unfolding run
run-IsBounded config [] m h = h
run-IsBounded config ((now, call) ∷ calls) m h =
    run-IsBounded config calls (step config now call m) (step-IsBounded config now call m h)
