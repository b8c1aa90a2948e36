-- ===== src/Termux/Calls/Isolation.antt =====
-- What a message from one device can do (apps/api/app/ws/termux_gateway.py,
-- services/termux/connection_manager.py).
use cyber_tracker_ai.Base.{
  ℕ, ◌≡◌, ◌≢◌, refl, some, arith, nat_eq, Option-cases, Bool-cases, inl, inr,
}
use cyber_tracker_ai.Base.Dict.{get, get-put}
use cyber_tracker_ai.Base.Result.{is_ok}
use cyber_tracker_ai.Termux.Pending.{PendingCommand}
use cyber_tracker_ai.Termux.Manager.{
  TermuxConnectionManager, is_listed, handle_disconnect, is_connected,
}
use cyber_tracker_ai.Termux.Manager.Disconnect.{
  handle_disconnect-err, handle_disconnect-commands, handle_disconnect-transports,
}
use cyber_tracker_ai.Termux.Messages.{
  Received, message, Message, RawId, dispatch, deliver, handle_inbound_message,
}
use cyber_tracker_ai.Termux.Gateway.{serve}

module _ (device now c : ℕ) (p : PendingCommand) (s : TermuxConnectionManager)
    (found : get s.commands c ≡ some p) (other : p.device_id ≢ device) where
  deliver_foreign :
      (m : Message) (command : ℕ) → get (deliver device m command now s).1.commands c ≡ some p
  unfolding deliver
  deliver_foreign m command = elim (Option-cases (get s.commands command)) [
    | inl missing ↦ ground (arith, missing, found)
    | inr (q, here) ↦
        ground (arith, here, found, other, get-put s.commands command c (dispatch m now q).1)
  ]

  handle_inbound_message_foreign :
      (received : Received)
      → get (handle_inbound_message device received now s).1.commands c ≡ some p
  unfolding handle_inbound_message
  handle_inbound_message_foreign Received.malformed = found
  handle_inbound_message_foreign (message m) =
      elim m.command_id
        as (λ i.
          get
            (handle_inbound_message device (message (record m { command_id = i })) now s).1.commands
            c
          ≡ some p) [
            | RawId.missing ↦ ground (arith, found)
            | RawId.invalid ↦ found
            | RawId.uuid command ↦
                deliver_foreign (record m { command_id = RawId.uuid command }) command
          ]

  -- Dropping the connection leaves such a command alone too.
  handle_disconnect_foreign :
      (get (handle_disconnect device now s).1.commands c ≡ some p)
      × (is_listed c (handle_disconnect device now s).1 ≡ is_listed c s)
  handle_disconnect_foreign = elim (Bool-cases (is_ok (handle_disconnect device now s).0)) [
    | inl e ↦
        let all = handle_disconnect-commands device now s c e in
        (ground (arith, found, other, all), ground (arith, found, other, all))
    | inr e ↦ rw (handle_disconnect-err device now s e) (found, refl)
  ]

deliver_lists :
    (device now command : ℕ) (m : Message) (s : TermuxConnectionManager)
    → ((deliver device m command now s).1.pending ≡ s.pending)
      × ((deliver device m command now s).1.transports ≡ s.transports)
unfolding deliver
deliver_lists device now command m s = elim (Option-cases (get s.commands command)) [
  | inl missing ↦ (ground (arith, missing), ground (arith, missing))
  | inr (q, here) ↦ (ground (arith, here), ground (arith, here))
]

-- A message by itself neither lists nor drops anything.
handle_inbound_message_lists :
    (device now : ℕ) (received : Received) (s : TermuxConnectionManager)
    → ((handle_inbound_message device received now s).1.pending ≡ s.pending)
      × ((handle_inbound_message device received now s).1.transports ≡ s.transports)
unfolding handle_inbound_message
handle_inbound_message_lists device now Received.malformed s = (refl, refl)
handle_inbound_message_lists device now (message m) s =
    elim m.command_id
      as (λ i.
        let r = handle_inbound_message device (message (record m { command_id = i })) now s in
        (r.1.pending ≡ s.pending) × (r.1.transports ≡ s.transports)) [
          | RawId.missing ↦ (ground arith, ground arith)
          | RawId.invalid ↦ (refl, refl)
          | RawId.uuid command ↦
              deliver_lists device now command (record m { command_id = RawId.uuid command }) s
        ]

-- Whatever a device sends, even where it ends its connection: a command of another device keeps its
-- output and its result and stays listed if it was, and that device stays connected if it was.
pub serve_isolated :
    (device now c : ℕ) (p : PendingCommand) (received : Received) (s : TermuxConnectionManager)
    → get s.commands c ≡ some p
    → p.device_id ≢ device
    → (get (serve device received now s).1.commands c ≡ some p)
      × (is_listed c (serve device received now s).1 ≡ is_listed c s)
      × (is_connected p.device_id (serve device received now s).1 ≡ is_connected p.device_id s)
unfolding serve is_connected
serve_isolated device now c p received s found other =
    let s' = (handle_inbound_message device received now s).1 in
    let kept = handle_inbound_message_foreign device now c p s found other received in
    let lists = handle_inbound_message_lists device now received s in
    let dropped = handle_disconnect_foreign device now c p s' kept other in
    let sockets = handle_disconnect-transports device now p.device_id s' in
    (
      ground (arith, kept, dropped),
      ground (arith, lists, dropped),
      ground (arith, lists, sockets, other),
    )
