-- ===== src/Terminal/Engine/Accounting.antt =====
-- The audit events of the terminal engine (services/terminal/engine.py) against its commands in
-- flight.
use cyber_tracker_ai.Base.{
  ℕ, suc, ◌+◌, String, ◌≡◌, refl, ap, ◌∙◌, ◌≢◌, inl, inr, Bool, true, false, Option, some, List, [],
  ◌∷◌, arith, nat_eq, string_eq, Option-cases, length, count, count-append,
}
use cyber_tracker_ai.Base.Dict.{
  Dict, get, get-put, get-remove, length-put, length-remove, Distinct, put-Distinct,
  remove-Distinct, is_some,
}
use cyber_tracker_ai.Base.Text.{Text}
use cyber_tracker_ai.Terminal.Models.{
  PlatformIdentifier, TerminalSession, TerminalEngineConfig, command_started, command_completed,
  command_failed, command_timeout, command_cancelled, AuditEvent,
}
use cyber_tracker_ai.Terminal.Sessions.{
  SessionManager, SessionError, emit, store, require_active_session, get_session,
}
use cyber_tracker_ai.Terminal.Controller.{from_policy_decision}
use cyber_tracker_ai.Terminal.Engine.{prepare, begin, conclude, finish, terminate}
use cyber_tracker_ai.Terminal.Interleavings.{
  Event, execute, adapter_ended, stop, status, close, open_session, step, run, idle, create_session,
}
use cyber_tracker_ai.Terminal.Commands.{
  TerminalCommandRequest, Flight, TerminalEngine, Outcome, returned, cancelled, failed,
}
use cyber_tracker_ai.Terminal.Sessions.{reap_loop, reap_expired, close_session}
use cyber_tracker_ai.Terminal.Sessions

abbrev pub is_started : AuditEvent → Bool
is_started event = elim event.event_type [ command_started ↦ true | _ ↦ false ]

abbrev pub is_ended : AuditEvent → Bool
is_ended event = elim event.event_type [
  | command_completed ↦ true
  | command_failed ↦ true
  | command_timeout ↦ true
  | command_cancelled ↦ true
  | _ ↦ false
]

-- The events of sessions are of neither kind.
reap_loop_silent :
    (ttl now : ℕ) (d : Dict ℕ TerminalSession)
    → (count is_started (reap_loop ttl now d).1 ≡ 0) × (count is_ended (reap_loop ttl now d).1 ≡ 0)
unfolding reap_loop
reap_loop_silent ttl now [] = (refl, refl)
reap_loop_silent ttl now ((k, s) ∷ d) = ground (arith, reap_loop_silent ttl now d)

-- A manager that has emitted no event of a command since.
pub record IsSilent (m n : SessionManager) : Type 0 where
  pub started : count is_started n.audit ≡ count is_started m.audit
  pub ended : count is_ended n.audit ≡ count is_ended m.audit

get_session-IsSilent :
    (config : TerminalEngineConfig) (k now : ℕ) (m : SessionManager)
    → IsSilent m (get_session config k now m).1
unfolding get_session
get_session-IsSilent config k now m = record {
  started = grind (arith, count-append);
  ended = grind (arith, count-append);
}

require_active_session-IsSilent :
    (config : TerminalEngineConfig) (k now : ℕ) (m : SessionManager)
    → IsSilent m (require_active_session config k now m).1
unfolding require_active_session
require_active_session-IsSilent config k now m =
    let s = get_session-IsSilent config k now m in
    record { started = ground (arith, s.started); ended = ground (arith, s.ended) }

close_session-IsSilent :
    (config : TerminalEngineConfig) (k now : ℕ) (m : SessionManager)
    → IsSilent m (close_session config k now m).1
unfolding close_session
close_session-IsSilent config k now m =
    let s = get_session-IsSilent config k now m in
    record {
      started = grind (arith, count-append, s.started);
      ended = grind (arith, count-append, s.ended);
    }

create_session-IsSilent :
    (config : TerminalEngineConfig) (p : PlatformIdentifier) (t : Option String) (w : Option Text)
    (fresh now : ℕ) (m : SessionManager)
    → IsSilent m (Sessions.create_session config p t w fresh now m).1
unfolding Sessions.create_session reap_expired
create_session-IsSilent config p t w fresh now m =
    let s = reap_loop_silent config.session_ttl_seconds now m.sessions in
    record { started = grind (arith, count-append, s.0); ended = grind (arith, count-append, s.1) }

-- Each command that was started has ended or is in flight, and each command in flight was started
-- once.
pub record IsBalanced (e : TerminalEngine) : Type 0 where
  pub distinct : Distinct e.running
  pub keyed : (k : ℕ) (f : Flight) → get e.running k ≡ some f → f.request.id ≡ k
  pub balance : count is_started e.manager.audit ≡ count is_ended e.manager.audit + length e.running

module _ (config : TerminalEngineConfig) (realpath : Text → Text)
    (platform : PlatformIdentifier) where
  begin-IsBalanced :
      (request : TerminalCommandRequest) (now : ℕ) (e : TerminalEngine)
      → is_some (get e.running request.id) ≡ false
      → IsBalanced e
      → IsBalanced (begin config realpath platform request now e).1
  unfolding begin prepare from_policy_decision
  begin-IsBalanced request now e fresh b =
      let s = require_active_session-IsSilent config request.session_id now e.manager in
      record {
        distinct = grind (arith, put-Distinct, b.distinct);
        keyed = λ k f h. grind (arith, get-put, b.keyed k f);
        balance = grind (arith, count-append, length-put, s.started, s.ended, b.balance);
      }

  conclude-IsBalanced :
      (f : Flight) (outcome : Outcome) (now : ℕ) (e : TerminalEngine)
      → outcome ≢ failed
      → get e.running f.request.id ≡ some f
      → IsBalanced e
      → IsBalanced (conclude config realpath platform f outcome now e).1
  unfolding conclude
  conclude-IsBalanced f failed now e nf g b = absurd (nf refl)
  conclude-IsBalanced f (returned r) now e nf g b = record {
    distinct = grind (arith, remove-Distinct, b.distinct);
    keyed = λ k f' h. grind (arith, get-remove, b.keyed k f');
    balance = grind (arith, count-append, length-remove, b.distinct, b.balance);
  }
  conclude-IsBalanced f cancelled now e nf g b = record {
    distinct = grind (arith, remove-Distinct, b.distinct);
    keyed = λ k f' h. grind (arith, get-remove, b.keyed k f');
    balance = grind (arith, count-append, length-remove, b.distinct, b.balance);
  }

  finish-IsBalanced :
      (id : ℕ) (outcome : Outcome) (now : ℕ) (e : TerminalEngine)
      → outcome ≢ failed
      → IsBalanced e
      → IsBalanced (finish config realpath platform id outcome now e).1
  unfolding finish
  finish-IsBalanced id outcome now e nf b = elim (Option-cases (get e.running id)) [
    | inl absent ↦ rw (absent, finish) b
    | inr found ↦
        rw (found.1, finish)
          (conclude-IsBalanced found.0 outcome now e nf
            (ap (get e.running) (b.keyed id found.0 found.1) ∙ found.1) b)
  ]

  terminate-IsBalanced :
      (id : ℕ) (e : TerminalEngine) → IsBalanced e → IsBalanced (terminate id e).1
  unfolding terminate
  terminate-IsBalanced id e b = record {
    distinct = grind (arith, put-Distinct, b.distinct);
    keyed = λ k f h. grind (arith, get-put, b.keyed id, b.keyed k f);
    balance = grind (arith, length-put, b.balance);
  }

  -- No command is begun under an identifier in flight, and no adapter raises.
  abbrev Orderly : Event → TerminalEngine → Type 0
  Orderly (execute request) e = is_some (get e.running request.id) ≡ false
  Orderly (adapter_ended id outcome) e = outcome ≢ failed
  Orderly _ e = Unit

  abbrev pub AllOrderly : List (ℕ × Event) → TerminalEngine → Type 0
  AllOrderly [] e = Unit
  AllOrderly ((now, event) ∷ events) e =
      Orderly event e × AllOrderly events (step config realpath platform now event e)

  step-IsBalanced :
      (now : ℕ) (event : Event) (e : TerminalEngine)
      → Orderly event e
      → IsBalanced e
      → IsBalanced (step config realpath platform now event e)
  unfolding step create_session
  step-IsBalanced now (execute request) e o b = begin-IsBalanced request now e o b
  step-IsBalanced now (adapter_ended id outcome) e o b = finish-IsBalanced id outcome now e o b
  step-IsBalanced now (stop id) e o b = terminate-IsBalanced id e b
  step-IsBalanced now (status id) e o b =
      let s = get_session-IsSilent config id now e.manager in
      record {
        distinct = b.distinct;
        keyed = b.keyed;
        balance = omega (arith, s.started, s.ended, b.balance);
      }
  step-IsBalanced now (close id) e o b =
      let s = close_session-IsSilent config id now e.manager in
      record {
        distinct = b.distinct;
        keyed = b.keyed;
        balance = omega (arith, s.started, s.ended, b.balance);
      }
  step-IsBalanced now (open_session task working fresh) e o b =
      let s = create_session-IsSilent config platform task working fresh now e.manager in
      record {
        distinct = ground (arith, b.distinct);
        keyed = λ k f h. ground (arith, b.keyed k f);
        balance = grind (arith, count-append, s.started, s.ended, b.balance);
      }

  run-IsBalanced :
      (events : List (ℕ × Event)) (e : TerminalEngine)
      → AllOrderly events e
      → IsBalanced e
      → IsBalanced (run config realpath platform events e)
  unfolding run
  run-IsBalanced [] e o b = b
  run-IsBalanced ((now, event) ∷ events) e o b =
      run-IsBalanced events (step config realpath platform now event e) o.1
        (step-IsBalanced now event e o.0 b)

  nothing_in_flight : (k : ℕ) (f : Flight) → get idle.running k ≡ some f → f.request.id ≡ k
  unfolding get
  nothing_in_flight k f h = cc

  -- From an idle engine, through any interleaving of commands, adapter results, cancellations and
  -- session calls in which no adapter raises: the commands reported as started are those reported
  -- as completed, failed, timed out or cancelled together with those still in flight.
  pub run_accounts :
      (events : List (ℕ × Event))
      → AllOrderly events idle
      → count is_started (run config realpath platform events idle).manager.audit
        ≡ count is_ended (run config realpath platform events idle).manager.audit
          + length (run config realpath platform events idle).running
  run_accounts events o =
      (run-IsBalanced events idle o (record {
        distinct = tt;
        keyed = λ k f h. nothing_in_flight k f h;
        balance = refl;
      })).balance

  -- An adapter that raises ends its command without any event: the audit trail keeps one command
  -- more as started than it has as ended or in flight.
  failed_unreported :
      (id : ℕ) (now : ℕ) (e : TerminalEngine) (f : Flight)
      → get e.running id ≡ some f
      → IsBalanced e
      → let e' = (finish config realpath platform id failed now e).1 in
        count is_started e'.manager.audit
        ≡ suc (count is_ended e'.manager.audit + length e'.running)
  unfolding finish conclude
  failed_unreported id now e f g b =
      grind (arith, count-append, length-remove, b.distinct, b.balance, b.keyed id f)
