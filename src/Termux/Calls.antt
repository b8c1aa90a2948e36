-- ===== src/Termux/Calls.antt =====
-- Calls of the connection manager by the gateway, the adapter and the pairing routes, in any order.
pub mod Futures
pub mod Isolation
pub mod Faults
pub mod Streaming
use cyber_tracker_ai.Base.{ℕ, ◌≡◌, Bool, false, Option, none, some, List, [], ◌∷◌, nat_eq}
use cyber_tracker_ai.Base.Dict.{get, is_some}
use cyber_tracker_ai.Base.Text.{Text}
use cyber_tracker_ai.Terminal.Controller.{CommandSpec, ExecutionResult}
use cyber_tracker_ai.Termux.Pairing.{revoke_device}
use cyber_tracker_ai.Termux.Pending.{PendingCommand}
use cyber_tracker_ai.Termux.Manager.{
  TermuxConnectionManager, Flight, Wait, finished, timed_out, cancelled, open_command, after_send,
  after_wait, handle_disconnect,
}
use cyber_tracker_ai.Termux.Messages.{Received}
use cyber_tracker_ai.Termux.Gateway.{FirstMessage, handshake, serve}

-- A call, with what it draws and the time. `wakes` is a wait that ends since the future is done.
pub data Call : Type 0 where
  connects : FirstMessage → ℕ → Bool → ℕ → Call
  receives : ℕ → Received → ℕ → Call
  closes : ℕ → ℕ → Call
  opens : ℕ → CommandSpec → ℕ → ℕ → Call
  sends : Flight → Bool → Call
  wakes times_out is_cancelled : Flight → ℕ → Call
  revokes : ℕ → ℕ → Call

-- The result of a command, once it is set.
abbrev pub future_of : Option PendingCommand → Option ExecutionResult
future_of none = none
future_of (some p) = p.future

module _ (digest : Text → Text) where
  unfoldable pub step : Call → TermuxConnectionManager → TermuxConnectionManager
  step (connects first transport sent now) s = (handshake digest first transport sent now s).1
  step (receives device received now) s = (serve device received now s).1
  step (closes device now) s = (handle_disconnect device now s).1
  step (opens device spec fresh now) s = (open_command device spec fresh now s).1
  step (sends f sent) s = after_send f sent s
  step (wakes f now) s = elim (future_of (get s.commands f.command_id)) [
    | none ↦ s
    | some result ↦ (after_wait f (finished result) now s).1
  ]
  step (times_out f now) s = (after_wait f timed_out now s).1
  step (is_cancelled f now) s = (after_wait f cancelled now s).1
  step (revokes device now) s = record s { pairing = (revoke_device device now s.pairing).1 }

  unfoldable pub run : List Call → TermuxConnectionManager → TermuxConnectionManager
  run [] s = s
  run (c ∷ cs) s = run cs (step c s)

  -- `uuid4` draws an identifier that no command has.
  abbrev pub IsFresh : Call → TermuxConnectionManager → Type 0
  IsFresh (opens device spec fresh now) s = is_some (get s.commands fresh) ≡ false
  IsFresh _ s = Unit

  abbrev pub AreFresh : List Call → TermuxConnectionManager → Type 0
  AreFresh [] s = Unit
  AreFresh (c ∷ cs) s = IsFresh c s × AreFresh cs (step c s)
