-- ===== src/Termux/Manager.antt =====
-- The connections of devices and the commands that they work on
-- (services/termux/connection_manager.py). A command object is found under its identifier in
-- `commands`, whether or not the manager still lists it: its coroutine holds it too. An asyncio
-- future is an `Option` in it. `execute` stands in three parts, before and after the send and after
-- the wait; other calls come between them.
pub mod Disconnect
use cyber_tracker_ai.Base.{
  ℕ, Bool, true, false, not, ◌&&◌, ◌||◌, Option, none, some, List, [], ◌∷◌, ◌++◌, ◌==◌, nat_eq,
  if◌then◌else◌, any, filter,
}
use cyber_tracker_ai.Base.Dict.{Dict, get, put, remove, is_some}
use cyber_tracker_ai.Base.Int.{ℤ, pos}
use cyber_tracker_ai.Base.Text.{Text, codes}
use cyber_tracker_ai.Base.Result.{Result, ok, err}
use cyber_tracker_ai.Terminal.Controller.{CommandSpec, ExecutionStatus, ExecutionResult}
use cyber_tracker_ai.Termux.Pairing.{
  PairingService, PairingError, authenticate, mark_connected, mark_disconnected,
}
use cyber_tracker_ai.Termux.Pending.{
  Stream, Stream.stdout, Stream.stderr, Output, PendingCommand, empty, append, joined,
}

pub data ConnectionEvent : Type 0 where
  device_connected device_disconnected connection_lost malformed_message : ConnectionEvent
  command_forwarded command_completed command_failed command_timeout command_cancelled :
      ConnectionEvent

-- What `send_json` is called with.
pub data Outbound : Type 0 where
  command_request : ℕ → List Text → Option Text → ℕ → Dict Text Text → Outbound
  command_cancel : ℕ → Outbound

pub record TermuxConnectionManager : Type 0 where
  pub pairing : PairingService
  pub transports : Dict ℕ ℕ
  pub commands : Dict ℕ PendingCommand
  pub pending : List ℕ
  pub sent : List (ℕ × Outbound)
  pub audit : List (ConnectionEvent × ℕ × Option ℕ)

abbrev pub notify :
    ConnectionEvent → ℕ → Option ℕ → TermuxConnectionManager → TermuxConnectionManager
notify type device command s = record s { audit = s.audit ++ (type, device, command) ∷ [] }

abbrev send : ℕ → Outbound → TermuxConnectionManager → TermuxConnectionManager
send transport message s = record s { sent = s.sent ++ (transport, message) ∷ [] }

-- `self._pending.pop(command_id, None)`.
abbrev unlist : ℕ → TermuxConnectionManager → TermuxConnectionManager
unlist command s = record s { pending = filter (λ c. not (c == command)) s.pending }

abbrev pub is_listed : ℕ → TermuxConnectionManager → Bool
is_listed command s = any (λ c. c == command) s.pending

module _ (digest : Text → Text) where
  unfoldable pub handle_connect :
      ℕ
      → Text
      → ℕ
      → ℕ
      → TermuxConnectionManager
      → Result PairingError (Unit {0}) × TermuxConnectionManager
  handle_connect device token transport now s =
      let (answer, pairing) = authenticate digest device token s.pairing in
      elim answer [
        | err e ↦ (err e, record s { pairing = pairing })
        | ok found ↦ (
          ok tt,
          notify device_connected device none (record s {
            transports = put s.transports device transport;
            pairing = (mark_connected device now pairing).1;
          }),
        )
      ]

-- `set_result`, unless the future is done.
abbrev pub set_result : ExecutionResult → PendingCommand → PendingCommand
set_result result p = elim p.future [ none ↦ record p { future = some result } | some _ ↦ p ]

abbrev pub lost_result : ℕ → ℕ → ExecutionResult
lost_result started now = record {
  status = ExecutionStatus.failed;
  exit_code = none;
  stdout = none;
  stderr = some (codes "Connection to the device was lost mid-command.");
  stdout_truncated = false;
  stderr_truncated = false;
  timed_out = false;
  started_at = started;
  finished_at = some now;
}

abbrev pub is_of : ℕ → Option PendingCommand → Bool
is_of device none = false
is_of device (some p) = p.device_id == device

abbrev pub change :
    ℕ → (PendingCommand → PendingCommand) → TermuxConnectionManager → TermuxConnectionManager
change command f s = elim (get s.commands command) [
  | none ↦ s
  | some p ↦ record s { commands = put s.commands command (f p) }
]

-- One round of the loop of `handle_disconnect`.
unfoldable pub lose : ℕ → ℕ → ℕ → TermuxConnectionManager → TermuxConnectionManager
lose device now command s =
    notify connection_lost device (some command)
      (change command (λ p. set_result (lost_result p.started_at now) p) (unlist command s))

unfoldable pub lose_all : ℕ → ℕ → List ℕ → TermuxConnectionManager → TermuxConnectionManager
unfolding lose
lose_all device now [] s = s
lose_all device now (c ∷ cs) s = lose_all device now cs (lose device now c s)

-- `lost`, the commands of a device that are listed.
abbrev pub lost : ℕ → TermuxConnectionManager → List ℕ
lost device s = filter (λ c. is_of device (get s.commands c)) s.pending

-- What was written before `mark_disconnected` raises stays written.
unfoldable pub handle_disconnect :
    ℕ → ℕ → TermuxConnectionManager → Result PairingError (Unit {0}) × TermuxConnectionManager
unfolding lose_all
handle_disconnect device now s =
    let (answer, pairing) = mark_disconnected device now s.pairing in
    let gone : TermuxConnectionManager = record s { transports = remove s.transports device } in
    elim answer [
      | err e ↦ (err e, gone)
      | ok found ↦ (
        ok tt,
        lose_all device now (lost device s)
            (notify device_disconnected device none (record gone { pairing = pairing })),
      )
    ]

unfoldable pub is_connected : ℕ → TermuxConnectionManager → Bool
is_connected device s = is_some (get s.transports device)

-- What the coroutine of `execute` remembers across its awaits.
pub record Flight : Type 0 where
  pub command_id : ℕ
  pub device_id : ℕ
  pub transport : ℕ

abbrev pub new_command : ℕ → CommandSpec → ℕ → PendingCommand
new_command device spec now = record {
  device_id = device;
  future = none;
  out = empty spec.max_stdout_bytes;
  error = empty spec.max_stderr_bytes;
  started_at = now;
}

-- `execute` up to the await of `send_json`, under a fresh identifier. `none` stands for
-- `DeviceOfflineError`.
unfoldable pub open_command :
    ℕ → CommandSpec → ℕ → ℕ → TermuxConnectionManager → Option Flight × TermuxConnectionManager
open_command device spec fresh now s = elim (get s.transports device) [
  | none ↦ (none, s)
  | some transport ↦ (
    some (record { command_id = fresh; device_id = device; transport = transport }),
    send transport
        (command_request fresh spec.argv spec.working_dir spec.timeout_seconds spec.env_overrides)
        (record s {
          commands = put s.commands fresh (new_command device spec now);
          pending = s.pending ++ fresh ∷ [];
        }),
  )
]

-- How the await of `send_json` ends: where it raises, the exception leaves `execute`.
unfoldable pub after_send : Flight → Bool → TermuxConnectionManager → TermuxConnectionManager
after_send f true s = notify command_forwarded f.device_id (some f.command_id) s
after_send f false s = s

-- How `wait_for` ends.
pub data Wait : Type 0 where
  finished : ExecutionResult → Wait
  timed_out cancelled : Wait

pub data Ending : Type 0 where
  returned : ExecutionResult → Ending
  propagated : Ending

abbrev pub succeeded : ExecutionResult → Bool
succeeded r = elim r.status [ ExecutionStatus.succeeded ↦ true | _ ↦ false ]

abbrev outcome_event : ExecutionResult → ConnectionEvent
outcome_event r = if succeeded r then command_completed else command_failed

-- The result of a command that ran out of time, from what the object holds.
abbrev timeout_result : ℕ → Option PendingCommand → ExecutionResult
timeout_result now none = lost_result now now
timeout_result now (some p) = record {
  status = ExecutionStatus.failed;
  exit_code = none;
  stdout = some (joined p.out.chunks);
  stderr = some (joined p.error.chunks);
  stdout_truncated = p.out.truncated;
  stderr_truncated = p.error.truncated;
  timed_out = true;
  started_at = p.started_at;
  finished_at = some now;
}

-- `_best_effort_cancel`: what a transport raises is swallowed.
abbrev best_effort_cancel : Flight → TermuxConnectionManager → TermuxConnectionManager
best_effort_cancel f s = send f.transport (command_cancel f.command_id) s

-- `execute` from the end of `wait_for` on.
unfoldable pub after_wait :
    Flight → Wait → ℕ → TermuxConnectionManager → Ending × TermuxConnectionManager
after_wait f (finished result) now s = (
  returned result,
  notify (outcome_event result) f.device_id (some f.command_id) (unlist f.command_id s),
)
after_wait f timed_out now s = (
  returned (timeout_result now (get s.commands f.command_id)),
  notify command_timeout f.device_id (some f.command_id)
      (best_effort_cancel f (unlist f.command_id s)),
)
after_wait f cancelled now s = (
  propagated,
  notify command_cancelled f.device_id (some f.command_id)
      (best_effort_cancel f (unlist f.command_id s)),
)
