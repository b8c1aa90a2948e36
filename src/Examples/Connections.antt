-- ===== src/Examples/Connections.antt =====
-- A phone on the connection manager (services/termux/connection_manager.py): a command, its output,
-- and the ends of its connection.
use cyber_tracker_ai.Base.{
  ℕ, ◌≡◌, refl, true, false, not, none, some, List, [], ◌∷◌, arith, ◌<◌, ◌++◌, ◌&&◌, if◌then◌else◌,
  ◌≤◌, nat_eq,
}
use cyber_tracker_ai.Base.Dict.{get}
use cyber_tracker_ai.Base.Int.{pos}
use cyber_tracker_ai.Base.Text.{Text, codes}
use cyber_tracker_ai.Base.Utf8.{byte_length, has_surrogate, decode_prefix, width}
use cyber_tracker_ai.Base.Result.{is_ok}
use cyber_tracker_ai.Terminal.Controller.{CommandSpec, ExecutionStatus, ExecutionResult}
use cyber_tracker_ai.Termux.Pairing.{
  TermuxDevice, DeviceState, PairingService, authenticate, mark_disconnected,
}
use cyber_tracker_ai.Termux.Pending.{append_output, empty, joined}
use cyber_tracker_ai.Termux.Pending.Cut.{append_all, append_all_capped}
use cyber_tracker_ai.Termux.Manager.{
  TermuxConnectionManager, new_command, is_listed, is_of, command_request, handle_disconnect,
  is_connected, open_command, lost_result,
}
use cyber_tracker_ai.Termux.Manager.Disconnect.{is_lost, lose_command, handle_disconnect-commands}
use cyber_tracker_ai.Termux.Messages.{Message, message, RawId, MessageType}
use cyber_tracker_ai.Termux.Gateway.{serve}
use cyber_tracker_ai.Termux.Calls.{closes, revokes, step, run, future_of}
use cyber_tracker_ai.Termux.Calls.Futures.{run-Keeps}
use cyber_tracker_ai.Termux.Calls.Isolation.{serve_isolated}
use cyber_tracker_ai.Termux.Calls.Faults.{revoked_still_served, invalid_id_disconnects}
use cyber_tracker_ai.Termux.Calls.Streaming.{completed_message, serve_output, serve_output-serve}

-- The euro sign takes three bytes: a cap of four leaves one byte of the second one.
abbrev euros : List Text
euros = (0x20ac ∷ []) ∷ (0x20ac ∷ b'!' ∷ []) ∷ []

euros_clean :
    (has_surrogate (0x20ac ∷ []) ≡ false)
    × ((has_surrogate (0x20ac ∷ b'!' ∷ []) ≡ false) × Unit {0})
unfolding has_surrogate
euros_clean = (refl, (refl, tt))

kept_euros : joined (append_all euros (empty (some 4))).chunks ≡ 0x20ac ∷ 0xfffd ∷ []
unfolding append_all append_output joined byte_length has_surrogate decode_prefix width
kept_euros = refl

append_all_capped_example :
    (joined (append_all euros (empty (some 4))).chunks ≡ decode_prefix 4 (joined euros))
    × (byte_length (joined (append_all euros (empty (some 4))).chunks) ≤ 6)
    × (4 < byte_length (joined euros) → (append_all euros (empty (some 4))).truncated ≡ true)
append_all_capped_example = append_all_capped 4 euros euros_clean

abbrev spec : CommandSpec
spec = record {
  argv = codes "uname" ∷ [];
  timeout_seconds = 30;
  working_dir = some (codes "/tmp");
  env_overrides = [];
  env_allowlist = none;
  max_stdout_bytes = some 4;
  max_stderr_bytes = some 4;
}

abbrev phone : TermuxDevice
phone = record {
  id = 5;
  name = codes "phone";
  connector_version = none;
  state = DeviceState.connected;
  registered_at = 100;
  last_seen_at = some 150;
  revoked_at = none;
}

abbrev marked : Text → Text
marked t = b'#' ∷ t

abbrev paired : PairingService
paired = record {
  devices = (5, phone) ∷ [];
  pending = [];
  token_hashes = (5, codes "#secret") ∷ [];
  audit = [];
}

-- Command 9 of device 5, over transport 1.
abbrev busy : TermuxConnectionManager
busy = record {
  pairing = paired;
  transports = (5, 1) ∷ [];
  commands = (9, new_command 5 spec 200) ∷ [];
  pending = 9 ∷ [];
  sent = [];
  audit = [];
}

command_found : get busy.commands 9 ≡ some (new_command 5 spec 200)
unfolding get
command_found = refl

serve_output-serve_example :
    (r : ExecutionResult) × (future_of (
        get
          (serve 5
            (message (completed_message 9 (pos 0)))
            210
            (serve_output 5 210 9 euros busy)).1.commands
          9)
      ≡ some r)
    × (r.status ≡ ExecutionStatus.succeeded)
    × (r.exit_code ≡ some (pos 0))
    × (r.stdout ≡ some (decode_prefix 4 (joined euros)))
    × (r.timed_out ≡ false)
serve_output-serve_example =
    serve_output-serve 5 210 9 4 euros (pos 0) spec 200 busy refl euros_clean command_found refl

-- Command 9 is done with that result; then the connection ends.
abbrev done : ExecutionResult
done = lost_result 200 205

abbrev finished_state : TermuxConnectionManager
finished_state = record busy {
  commands = (9, record (new_command 5 spec 200) { future = some done }) ∷ [];
}

future_found : future_of (get finished_state.commands 9) ≡ some done
unfolding get
future_found = refl

run-Keeps_example :
    future_of (get (run marked (closes 5 220 ∷ revokes 5 230 ∷ []) finished_state).commands 9)
    ≡ some done
run-Keeps_example =
    run-Keeps marked (closes 5 220 ∷ revokes 5 230 ∷ []) finished_state 9 done (tt, (tt, tt))
      future_found

-- Device 6 sends a message about command 9.
serve_isolated_example :
    (get (serve 6 (message (completed_message 9 (pos 0))) 210 busy).1.commands 9
      ≡ some (new_command 5 spec 200))
    × (is_listed 9 (serve 6 (message (completed_message 9 (pos 0))) 210 busy).1 ≡ is_listed 9 busy)
    × (is_connected 5 (serve 6 (message (completed_message 9 (pos 0))) 210 busy).1
        ≡ is_connected 5 busy)
serve_isolated_example =
    serve_isolated 6 210 9 (new_command 5 spec 200) (message (completed_message 9 (pos 0))) busy
      command_found (omega arith)

phone_known : is_ok (handle_disconnect 5 220 busy).0 ≡ true
unfolding handle_disconnect mark_disconnected get
phone_known = refl

handle_disconnect-commands_example :
    (get (handle_disconnect 5 220 busy).1.commands 9
      ≡ (if is_lost 5 9 busy then lose_command 220 (get busy.commands 9) else get busy.commands 9))
    × (is_listed 9 (handle_disconnect 5 220 busy).1
        ≡ (is_listed 9 busy && not (is_of 5 (get busy.commands 9))))
handle_disconnect-commands_example = handle_disconnect-commands 5 220 busy 9 phone_known

transport_found : get busy.transports 5 ≡ some 1
unfolding get
transport_found = refl

revoked_still_served_example :
    (is_ok (authenticate marked 5 (codes "secret") (step marked (revokes 5 230) busy).pairing).0
      ≡ false)
    × ((open_command 5 spec 10 230 (step marked (revokes 5 230) busy)).1.sent
        ≡ [] ++ (1, command_request 10 (codes "uname" ∷ []) (some (codes "/tmp")) 30 []) ∷ [])
revoked_still_served_example =
    revoked_still_served marked 5 1 spec 10 230 (codes "secret") busy transport_found

abbrev bad_id : Message
bad_id = record {
  type = MessageType.command_completed;
  command_id = RawId.invalid;
  text = [];
  exit_code = none;
  error_message = [];
}

invalid_id_disconnects_example :
    ((serve 5 (message bad_id) 220 busy).0 ≡ false)
    × (is_connected 5 (serve 5 (message bad_id) 220 busy).1 ≡ false)
    × (get (serve 5 (message bad_id) 220 busy).1.commands 9
        ≡ lose_command 220 (some (new_command 5 spec 200)))
invalid_id_disconnects_example =
    invalid_id_disconnects 5 220 9 (new_command 5 spec 200) bad_id busy refl command_found refl refl
      phone_known

-- Device 6 is not connected.
abbrev shown : ℕ → Text
shown id = codes "device"
