-- ===== src/Termux/Calls/Faults.antt =====
-- Connections that end too early or too late (services/termux/connection_manager.py,
-- apps/api/app/ws/termux_gateway.py).
use cyber_tracker_ai.Base.{
  ℕ, ◌≡◌, true, false, some, [], ◌∷◌, ◌++◌, arith, nat_eq, Option-cases, inl, inr,
}
use cyber_tracker_ai.Base.Dict.{get, get-put, is_some}
use cyber_tracker_ai.Base.Text.{Text}
use cyber_tracker_ai.Base.Result.{is_ok, Result-cases}
use cyber_tracker_ai.Terminal.Controller.{CommandSpec}
use cyber_tracker_ai.Termux.Pairing.{DeviceState, authenticate, revoke_device}
use cyber_tracker_ai.Termux.Pending.{PendingCommand}
use cyber_tracker_ai.Termux.Manager.{
  TermuxConnectionManager, command_request, is_listed, handle_connect, handle_disconnect,
  is_connected, open_command,
}
use cyber_tracker_ai.Termux.Manager.Disconnect.{
  lose_command, handle_disconnect-commands, handle_disconnect-transports,
}
use cyber_tracker_ai.Termux.Messages.{message, Message, RawId, handle_inbound_message}
use cyber_tracker_ai.Termux.Gateway.{auth, serving, handshake, serve}
use cyber_tracker_ai.Termux.Calls.{revokes, closes, step}

open_command-connected :
    (device transport : ℕ) (spec : CommandSpec) (fresh now : ℕ) (s : TermuxConnectionManager)
    → get s.transports device ≡ some transport
    → (is_some (open_command device spec fresh now s).0 ≡ true)
      × ((open_command device spec fresh now s).1.sent
          ≡ s.sent
            ++ (
              transport,
              command_request fresh spec.argv spec.working_dir spec.timeout_seconds
                  spec.env_overrides,
            )
              ∷ [])
unfolding open_command
open_command-connected device transport spec fresh now s h = ground (arith, h)

revoked_refused :
    (digest : Text → Text) (device now : ℕ) (token : Text) (s : TermuxConnectionManager)
    → is_ok (authenticate digest device token (revoke_device device now s.pairing).1).0 ≡ false
unfolding authenticate revoke_device
revoked_refused digest device now token s = elim (Option-cases (get s.pairing.devices device)) [
  | inl missing ↦ ground (arith, missing)
  | inr (d, found) ↦ ground (
    arith,
    found,
    get-put s.pairing.devices device device
        (record d { state = DeviceState.revoked; revoked_at = some now }),
  )
]

-- A device that is connected when it is revoked no longer authenticates, with any token, and still
-- is sent the commands that are executed on it.
pub revoked_still_served :
    (digest : Text → Text) (device transport : ℕ) (spec : CommandSpec) (fresh now : ℕ)
    (token : Text) (s : TermuxConnectionManager)
    → get s.transports device ≡ some transport
    → (is_ok (authenticate digest device token (step digest (revokes device now) s).pairing).0
        ≡ false)
      × ((open_command device spec fresh now (step digest (revokes device now) s)).1.sent
          ≡ s.sent
            ++ (
              transport,
              command_request fresh spec.argv spec.working_dir spec.timeout_seconds
                  spec.env_overrides,
            )
              ∷ [])
unfolding step
revoked_still_served digest device transport spec fresh now token s h = (
  revoked_refused digest device now token s,
  (open_command-connected device transport spec fresh now
      (record s { pairing = (revoke_device device now s.pairing).1 }) h).1,
)

handshake-serving :
    (digest : Text → Text) (device : ℕ) (token : Text) (transport now : ℕ)
    (s : TermuxConnectionManager)
    → (handshake digest (auth (some device) token) transport true now s).0 ≡ serving device
    → is_connected device (handshake digest (auth (some device) token) transport true now s).1
      ≡ true
unfolding handshake handle_connect is_connected
handshake-serving digest device token transport now s h =
    elim (Result-cases (authenticate digest device token s.pairing).0) [
      | inl (found, e) ↦ ground (arith, e, get-put s.transports device device transport)
      | inr (error, e) ↦ ground (arith, e, h)
    ]

-- A device that has connected again is taken for disconnected as soon as its older socket closes.
old_socket_disconnects :
    (digest : Text → Text) (device : ℕ) (token : Text) (transport now later : ℕ)
    (s : TermuxConnectionManager)
    → (handshake digest (auth (some device) token) transport true now s).0 ≡ serving device
    → (is_connected device (handshake digest (auth (some device) token) transport true now s).1
        ≡ true)
      × (is_connected device (
            step digest
              (closes device later)
              (handshake digest (auth (some device) token) transport true now s).1)
          ≡ false)
unfolding step is_connected
old_socket_disconnects digest device token transport now later s h =
    let s' = (handshake digest (auth (some device) token) transport true now s).1 in
    (
      handshake-serving digest device token transport now s h,
      ground (arith, handle_disconnect-transports device later device s'),
    )

-- A message whose identifier is no UUID ends the connection of a registered device, and every command
-- that the device works on is lost.
pub invalid_id_disconnects :
    (device now c : ℕ) (p : PendingCommand) (m : Message) (s : TermuxConnectionManager)
    → m.command_id ≡ RawId.invalid
    → get s.commands c ≡ some p
    → p.device_id ≡ device
    → is_listed c s ≡ true
    → is_ok (handle_disconnect device now s).0 ≡ true
    → ((serve device (message m) now s).0 ≡ false)
      × (is_connected device (serve device (message m) now s).1 ≡ false)
      × (get (serve device (message m) now s).1.commands c ≡ lose_command now (some p))
unfolding serve handle_inbound_message is_connected
invalid_id_disconnects device now c p m s e found of listed known =
    let all = handle_disconnect-commands device now s c known in
    let sockets = handle_disconnect-transports device now device s in
    (ground (arith, e), ground (arith, e, sockets), ground (arith, e, all, found, of, listed))
