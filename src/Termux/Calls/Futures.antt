-- ===== src/Termux/Calls/Futures.antt =====
-- The result of a command, once set, stays (services/termux/connection_manager.py).
use cyber_tracker_ai.Base.{
  ℕ, ◌≡◌, refl, Bool, true, false, Option, none, some, List, [], ◌∷◌, arith, nat_eq, Option-cases,
  inl, inr,
}
use cyber_tracker_ai.Base.Dict.{get, get-put, is_some}
use cyber_tracker_ai.Base.Int.{ℤ}
use cyber_tracker_ai.Base.Text.{Text}
use cyber_tracker_ai.Base.Result.{Result-cases}
use cyber_tracker_ai.Terminal.Controller.{CommandSpec, ExecutionStatus, ExecutionResult}
use cyber_tracker_ai.Termux.Pairing.{authenticate, mark_disconnected}
use cyber_tracker_ai.Termux.Pending.{PendingCommand, Stream, append}
use cyber_tracker_ai.Termux.Manager.{
  TermuxConnectionManager, Flight, new_command, lost, lost_result, set_result, finished,
  handle_connect, lose, lose_all, handle_disconnect, open_command, after_send, after_wait,
}
use cyber_tracker_ai.Termux.Manager.Disconnect.{gone}
use cyber_tracker_ai.Termux.Messages.{
  Received, message, Message, MessageType, output, RawId, resolve, dispatch, deliver,
  handle_inbound_message,
}
use cyber_tracker_ai.Termux.Gateway.{FirstMessage, auth, handshake, serve}
use cyber_tracker_ai.Termux.Calls.{
  Call, connects, receives, closes, opens, sends, wakes, times_out, is_cancelled, revokes,
  future_of, step, run, IsFresh, AreFresh,
}

append-future :
    (kind : Stream) (text : Text) (p : PendingCommand) → (append kind text p).1.future ≡ p.future
unfolding append
append-future Stream.stdout text p = refl
append-future Stream.stderr text p = refl

resolve-future :
    (status : ExecutionStatus) (code : Option ℤ) (extra : Text) (now : ℕ) (p : PendingCommand)
    (r : ExecutionResult)
    → p.future ≡ some r
    → (resolve status code extra now p).future ≡ some r
unfolding resolve
resolve-future status code extra now p r h = ground (arith, h)

dispatch-future :
    (m : Message) (now : ℕ) (p : PendingCommand) (r : ExecutionResult)
    → p.future ≡ some r
    → (dispatch m now p).1.future ≡ some r
unfolding dispatch
dispatch-future m now p r h =
    elim m.type as (λ t. (dispatch (record m { type = t }) now p).1.future ≡ some r) [
      | output kind ↦ rw (append-future kind m.text p) h
      | MessageType.command_completed ↦ resolve-future _ _ _ now p r h
      | MessageType.command_failed ↦ resolve-future _ _ _ now p r h
      | MessageType.other ↦ h
    ]

-- Every result that is set in one state is set in the other.
abbrev Keeps : TermuxConnectionManager → TermuxConnectionManager → Type 0
Keeps s t =
    (c : ℕ) (r : ExecutionResult)
    → future_of (get s.commands c) ≡ some r
    → future_of (get t.commands c) ≡ some r

deliver-Keeps :
    (device : ℕ) (m : Message) (command now : ℕ) (s : TermuxConnectionManager)
    → Keeps s (deliver device m command now s).1
unfolding deliver
deliver-Keeps device m command now s c r h = elim (Option-cases (get s.commands command)) [
  | inl missing ↦ ground (arith, missing, h)
  | inr (p, found) ↦
      ground
        (arith, found, get-put s.commands command c (dispatch m now p).1, dispatch-future m now p r)
]

handle_inbound_message-Keeps :
    (device : ℕ) (received : Received) (now : ℕ) (s : TermuxConnectionManager)
    → Keeps s (handle_inbound_message device received now s).1
unfolding handle_inbound_message
handle_inbound_message-Keeps device Received.malformed now s c r h = h
handle_inbound_message-Keeps device (message m) now s c r h =
    elim m.command_id
      as (λ i.
        future_of (
          get
            (handle_inbound_message device (message (record m { command_id = i })) now s).1.commands
            c)
        ≡ some r) [
          | RawId.missing ↦ ground (arith, h)
          | RawId.invalid ↦ h
          | RawId.uuid command ↦
              deliver-Keeps device (record m { command_id = RawId.uuid command }) command now s c r
                h
        ]

lose-Keeps :
    (device now command : ℕ) (s : TermuxConnectionManager) → Keeps s (lose device now command s)
unfolding lose
lose-Keeps device now command s c r h = elim (Option-cases (get s.commands command)) [
  | inl missing ↦ ground (arith, missing, h)
  | inr (p, found) ↦
      ground
        (arith, found, get-put s.commands command c (set_result (lost_result p.started_at now) p))
]

lose_all-Keeps :
    (device now : ℕ) (cs : List ℕ) (s : TermuxConnectionManager)
    → Keeps s (lose_all device now cs s)
unfolding lose_all
lose_all-Keeps device now [] s c r h = h
lose_all-Keeps device now (d ∷ ds) s c r h =
    lose_all-Keeps device now ds (lose device now d s) c r (lose-Keeps device now d s c r h)

handle_disconnect-Keeps :
    (device now : ℕ) (s : TermuxConnectionManager) → Keeps s (handle_disconnect device now s).1
unfolding handle_disconnect
handle_disconnect-Keeps device now s c r h =
    elim (Result-cases (mark_disconnected device now s.pairing).0) [
      | inl (found, e) ↦
          rw (e, handle_disconnect)
            (lose_all-Keeps device now (lost device s) (gone device now s) c r h)
      | inr (error, e) ↦ rw (e, handle_disconnect) h
    ]

handshake-Keeps :
    (digest : Text → Text) (first : FirstMessage) (transport : ℕ) (sent : Bool) (now : ℕ)
    (s : TermuxConnectionManager)
    → Keeps s (handshake digest first transport sent now s).1
unfolding handshake handle_connect
handshake-Keeps digest FirstMessage.unreadable transport sent now s c r h = h
handshake-Keeps digest FirstMessage.not_auth transport sent now s c r h = h
handshake-Keeps digest (auth none token) transport sent now s c r h = h
handshake-Keeps digest (auth (some device) token) transport sent now s c r h =
    elim (Result-cases (authenticate digest device token s.pairing).0) [
      | inl (found, e) ↦ ground (arith, e, h)
      | inr (error, e) ↦ ground (arith, e, h)
    ]

serve-Keeps :
    (device : ℕ) (received : Received) (now : ℕ) (s : TermuxConnectionManager)
    → Keeps s (serve device received now s).1
unfolding serve
serve-Keeps device received now s c r h = ground (
  arith,
  handle_inbound_message-Keeps device received now s c r h,
  handle_disconnect-Keeps device now (handle_inbound_message device received now s).1 c r,
)

opens-Keeps :
    (device : ℕ) (spec : CommandSpec) (fresh now : ℕ) (s : TermuxConnectionManager)
    → is_some (get s.commands fresh) ≡ false
    → Keeps s (open_command device spec fresh now s).1
unfolding open_command
opens-Keeps device spec fresh now s f c r h =
    ground (arith, h, f, get-put s.commands fresh c (new_command device spec now))

wakes-Keeps :
    (flight : Flight) (now : ℕ) (s : TermuxConnectionManager)
    → Keeps s (elim (future_of (get s.commands flight.command_id)) [
      | none ↦ s
      | some result ↦ (after_wait flight (finished result) now s).1
    ])
unfolding after_wait
wakes-Keeps flight now s c r h = ground (arith, h)

step-Keeps :
    (digest : Text → Text) (call : Call) (s : TermuxConnectionManager)
    → IsFresh digest call s
    → Keeps s (step digest call s)
unfolding step
step-Keeps digest (connects first transport sent now) s f c r h =
    handshake-Keeps digest first transport sent now s c r h
step-Keeps digest (receives device received now) s f c r h = serve-Keeps device received now s c r h
step-Keeps digest (closes device now) s f c r h = handle_disconnect-Keeps device now s c r h
step-Keeps digest (opens device spec fresh now) s f c r h =
    opens-Keeps device spec fresh now s f c r h
step-Keeps digest (sends flight true) s f c r h = unfold after_send in h
step-Keeps digest (sends flight false) s f c r h = unfold after_send in h
step-Keeps digest (wakes flight now) s f c r h = wakes-Keeps flight now s c r h
step-Keeps digest (times_out flight now) s f c r h = unfold after_wait in h
step-Keeps digest (is_cancelled flight now) s f c r h = unfold after_wait in h
step-Keeps digest (revokes device now) s f c r h = h

-- Whatever calls follow: a command whose result is set keeps exactly that result, whether it was
-- completed, failed or lost.
pub run-Keeps :
    (digest : Text → Text) (calls : List Call) (s : TermuxConnectionManager) (c : ℕ)
    (r : ExecutionResult)
    → AreFresh digest calls s
    → future_of (get s.commands c) ≡ some r
    → future_of (get (run digest calls s).commands c) ≡ some r
unfolding run
run-Keeps digest [] s c r f h = h
run-Keeps digest (call ∷ calls) s c r f h =
    run-Keeps digest calls (step digest call s) c r f.1 (step-Keeps digest call s f.0 c r h)
