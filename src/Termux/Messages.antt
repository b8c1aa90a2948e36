-- ===== src/Termux/Messages.antt =====
-- Messages from a device (`handle_inbound_message` of services/termux/connection_manager.py).
use cyber_tracker_ai.Base.{
  ℕ, Bool, true, false, not, ◌&&◌, Option, none, some, [], ◌++◌, ◌==◌, nat_eq, if◌then◌else◌,
}
use cyber_tracker_ai.Base.Dict.{get, put}
use cyber_tracker_ai.Base.Int.{ℤ, pos}
use cyber_tracker_ai.Base.Text.{Text}
use cyber_tracker_ai.Base.Result.{Result, ok, err}
use cyber_tracker_ai.Terminal.Controller.{ExecutionStatus}
use cyber_tracker_ai.Termux.Pending.{Stream, PendingCommand, append, joined}
use cyber_tracker_ai.Termux.Manager.{
  TermuxConnectionManager, malformed_message, notify, is_listed, set_result,
}

-- `message["type"]`, a string.
pub data MessageType : Type 0 where
  output : Stream → MessageType
  command_completed command_failed other : MessageType

-- `message.get("commandId")`: absent or falsy, a text that is no UUID, or a UUID.
pub data RawId : Type 0 where
  missing invalid : RawId
  uuid : ℕ → RawId

-- `exit_code` is absent, null or a number; a text that is absent is the empty one.
pub record Message : Type 0 where
  pub type : MessageType
  pub command_id : RawId
  pub text : Text
  pub exit_code : Option (Option ℤ)
  pub error_message : Text

-- A JSON value: an object with a type, or anything else.
pub data Received : Type 0 where
  malformed : Received
  message : Message → Received

-- `MalformedMessageError`, the `ValueError` of `UUID`, and the `UnicodeEncodeError` of `encode`.
pub data MessageError : Type 0 where
  missing_type missing_command_id value_error unicode_encode_error : MessageError

abbrev pub is_about_command : MessageType → Bool
is_about_command other = false
is_about_command _ = true

abbrev is_missing : RawId → Bool
is_missing missing = true
is_missing _ = false

-- `_resolve`.
unfoldable pub resolve : ExecutionStatus → Option ℤ → Text → ℕ → PendingCommand → PendingCommand
resolve status exit_code extra_stderr now p =
    set_result
      (record {
        status = status;
        exit_code = exit_code;
        stdout = some (joined p.out.chunks);
        stderr = some (joined p.error.chunks ++ extra_stderr);
        stdout_truncated = p.out.truncated;
        stderr_truncated = p.error.truncated;
        timed_out = false;
        started_at = p.started_at;
        finished_at = some now;
      })
      p

abbrev or_zero : Option (Option ℤ) → Option ℤ
or_zero none = some (pos 0)
or_zero (some code) = code

abbrev or_none : Option (Option ℤ) → Option ℤ
or_none none = none
or_none (some code) = code

-- The last part of `handle_inbound_message`; the Boolean tells whether it returned.
unfoldable pub dispatch : Message → ℕ → PendingCommand → Bool × PendingCommand
unfolding resolve
dispatch m now p = elim m.type [
  | output kind ↦ append kind m.text p
  | command_completed ↦ (true, resolve ExecutionStatus.succeeded (or_zero m.exit_code) [] now p)
  | command_failed ↦
      (true, resolve ExecutionStatus.failed (or_none m.exit_code) m.error_message now p)
  | other ↦ (true, p)
]

-- What a message about the command does, where the manager lists it for the device.
unfoldable pub deliver :
    ℕ
    → Message
    → ℕ
    → ℕ
    → TermuxConnectionManager
    → Result MessageError (Unit {0}) × TermuxConnectionManager
unfolding dispatch
deliver device m command now s = elim (get s.commands command) [
  | none ↦ (ok tt, s)
  | some p ↦
      let r = dispatch m now p in
      if not (is_listed command s && p.device_id == device) then (ok tt, s) else (
        if r.0 then ok tt else err unicode_encode_error,
        record s { commands = put s.commands command r.1 },
      )
]

unfoldable pub handle_inbound_message :
    ℕ
    → Received
    → ℕ
    → TermuxConnectionManager
    → Result MessageError (Unit {0}) × TermuxConnectionManager
unfolding deliver
handle_inbound_message device malformed now s =
    (err missing_type, notify malformed_message device none s)
handle_inbound_message device (message m) now s = elim m.command_id [
  | missing ↦
      if is_about_command m.type
      then (err missing_command_id, notify malformed_message device none s)
      else (ok tt, s)
  | invalid ↦ (err value_error, s)
  | uuid command ↦ deliver device m command now s
]
