-- ===== src/Termux/Gateway.antt =====
-- The WebSocket of a device (apps/api/app/ws/termux_gateway.py): one authentication, then messages
-- until the socket closes or an exception leaves the loop.
use cyber_tracker_ai.Base.{ℕ, Bool, true, false, Option, none, some, if◌then◌else◌}
use cyber_tracker_ai.Base.Text.{Text}
use cyber_tracker_ai.Base.Result.{ok, err}
use cyber_tracker_ai.Termux.Pairing.{PairingError}
use cyber_tracker_ai.Termux.Manager.{TermuxConnectionManager, handle_connect, handle_disconnect}
use cyber_tracker_ai.Termux.Messages.{
  Received, MessageError, missing_type, missing_command_id, handle_inbound_message,
}

-- The first message: no JSON, not an object of type `auth`, or one with its identifier, `none` where
-- that is no UUID, and its token.
pub data FirstMessage : Type 0 where
  unreadable not_auth : FirstMessage
  auth : Option ℕ → Text → FirstMessage

pub data Refusal : Type 0 where
  malformed_request : Refusal
  refused : PairingError → Refusal

-- A socket is closed with a code, after an `auth_failed` reply if there is one; or the exception of
-- a send leaves the endpoint; or the device is served.
pub data Handshake : Type 0 where
  closed : ℕ → Option Refusal → Handshake
  raised : Handshake
  serving : ℕ → Handshake

-- Up to the loop; `sent` tells whether the send of `auth_ok` returned.
unfoldable pub handshake :
    (Text → Text)
    → FirstMessage
    → ℕ
    → Bool
    → ℕ
    → TermuxConnectionManager
    → Handshake × TermuxConnectionManager
handshake digest unreadable transport sent now s = (closed 4400 none, s)
handshake digest not_auth transport sent now s = (closed 4400 (some malformed_request), s)
handshake digest (auth none token) transport sent now s = (closed 4401 (some malformed_request), s)
handshake digest (auth (some device) token) transport sent now s =
    let (answer, s') = handle_connect digest device token transport now s in
    elim answer [
      | err e ↦ (closed 4401 (some (refused e)), s')
      | ok _ ↦ (if sent then serving device else raised, s')
    ]

-- The `except` of the loop.
abbrev is_caught : MessageError → Bool
is_caught missing_type = true
is_caught missing_command_id = true
is_caught _ = false

-- One round of the loop, and what `finally` does if an exception leaves it. The Boolean tells
-- whether the socket is still served.
unfoldable pub serve : ℕ → Received → ℕ → TermuxConnectionManager → Bool × TermuxConnectionManager
serve device received now s =
    let (answer, s') = handle_inbound_message device received now s in
    elim answer [
      | ok _ ↦ (true, s')
      | err e ↦ if is_caught e then (true, s') else (false, (handle_disconnect device now s').1)
    ]
