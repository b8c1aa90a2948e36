-- ===== src/Termux/Calls/Streaming.antt =====
-- What a device's messages make of a command (services/termux/connection_manager.py).
use cyber_tracker_ai.Base.{
  ℕ, ◌-◌, ◌≡◌, refl, ap, sym, ◌∙◌, true, false, none, some, List, [], ◌∷◌, ◌++◌, arith, nat_eq, All,
  Option-cases, inl, inr,
}
use cyber_tracker_ai.Base.Dict.{get, put, get-put}
use cyber_tracker_ai.Base.Int.{ℤ}
use cyber_tracker_ai.Base.Text.{Text}
use cyber_tracker_ai.Base.Utf8.{has_surrogate, decode_prefix}
use cyber_tracker_ai.Terminal.Controller.{CommandSpec, ExecutionStatus, ExecutionResult}
use mathlib.Core.Path.{subst}
use cyber_tracker_ai.Termux.Pending
use cyber_tracker_ai.Termux.Pending.{Stream, PendingCommand, Output, append, append_output, joined}
use cyber_tracker_ai.Termux.Pending.Cut.{append_all, append_all_capped, has_surrogate_none}
use cyber_tracker_ai.Termux.Manager.{TermuxConnectionManager, is_listed, new_command}
use cyber_tracker_ai.Termux.Messages.{
  message, Message, MessageType, output, RawId, resolve, dispatch, deliver, handle_inbound_message,
}
use cyber_tracker_ai.Termux.Gateway.{serve}
use cyber_tracker_ai.Termux.Calls.{future_of}

-- The messages of the connector for a command (apps/termux_connector/cyberai_termux.py).
abbrev stdout_message : ℕ → Text → Message
stdout_message c text = record {
  type = output Stream.stdout;
  command_id = RawId.uuid c;
  text = text;
  exit_code = none;
  error_message = [];
}

abbrev pub completed_message : ℕ → ℤ → Message
completed_message c code = record {
  type = MessageType.command_completed;
  command_id = RawId.uuid c;
  text = [];
  exit_code = some (some code);
  error_message = [];
}

unfoldable pub serve_output :
    ℕ → ℕ → ℕ → List Text → TermuxConnectionManager → TermuxConnectionManager
serve_output device now c [] s = s
serve_output device now c (t ∷ ts) s =
    serve_output device now c ts (serve device (message (stdout_message c t)) now s).1

append_output_encodes :
    (text : Text) (o : Output) → has_surrogate text ≡ false → (append_output text o).0 ≡ true
unfolding append_output
append_output_encodes text o clean = elim (Option-cases o.max_bytes) [
  | inl free ↦ ground (arith, free, clean)
  | inr (cap, capped) ↦ ground (arith, capped, clean, has_surrogate_none (cap - o.bytes) text)
]

serve-stdout :
    (device now c : ℕ) (text : Text) (p : PendingCommand) (s : TermuxConnectionManager)
    → has_surrogate text ≡ false
    → get s.commands c ≡ some p
    → p.device_id ≡ device
    → is_listed c s ≡ true
    → (serve device (message (stdout_message c text)) now s).1
      ≡ record s { commands = put s.commands c (record p { out = (append_output text p.out).1 }) }
unfolding serve handle_inbound_message deliver dispatch append
serve-stdout device now c text p s clean found of listed =
    ground (arith, found, of, listed, append_output_encodes text p.out clean)

serve_output-commands :
    (device now c : ℕ) (texts : List Text) (p : PendingCommand) (s : TermuxConnectionManager)
    → All (λ t. has_surrogate t ≡ false) texts
    → get s.commands c ≡ some p
    → p.device_id ≡ device
    → is_listed c s ≡ true
    → (get (serve_output device now c texts s).commands c
        ≡ some (record p { out = append_all texts p.out }))
      × (is_listed c (serve_output device now c texts s) ≡ true)
unfolding serve_output append_all
serve_output-commands device now c [] p s clean found of listed = (found, listed)
serve_output-commands device now c (t ∷ ts) p s clean found of listed =
    let q : PendingCommand = record p { out = (append_output t p.out).1 } in
    subst
      (λ z.
        (get (serve_output device now c ts z).commands c
          ≡ some (record p { out = append_all ts q.out }))
        × (is_listed c (serve_output device now c ts z) ≡ true))
      (sym (serve-stdout device now c t p s clean.0 found of listed))
      (serve_output-commands device now c ts q (record s { commands = put s.commands c q }) clean.1
        (ground (arith, get-put s.commands c c q)) of listed)

serve-completed :
    (device now c : ℕ) (code : ℤ) (p : PendingCommand) (s : TermuxConnectionManager)
    → get s.commands c ≡ some p
    → p.device_id ≡ device
    → is_listed c s ≡ true
    → get (serve device (message (completed_message c code)) now s).1.commands c
      ≡ some (resolve ExecutionStatus.succeeded (some code) [] now p)
unfolding serve handle_inbound_message deliver dispatch
serve-completed device now c code p s found of listed = ground (
  arith,
  found,
  of,
  listed,
  get-put s.commands c c (resolve ExecutionStatus.succeeded (some code) [] now p),
)

abbrev completed_result : ℤ → ℕ → PendingCommand → ExecutionResult
completed_result code now p = record {
  status = ExecutionStatus.succeeded;
  exit_code = some code;
  stdout = some (joined p.out.chunks);
  stderr = some (joined p.error.chunks ++ []);
  stdout_truncated = p.out.truncated;
  stderr_truncated = p.error.truncated;
  timed_out = false;
  started_at = p.started_at;
  finished_at = some now;
}

-- A listed command without result or output so far, whose device sends its standard output in any
-- number of messages that can be encoded, and then that it completed: `execute` is given a success
-- with the device's exit code, and with what decoding the first `cap` bytes of the output gives.
pub serve_output-serve :
    (device now c cap : ℕ) (texts : List Text) (code : ℤ) (spec : CommandSpec) (started : ℕ)
    (s : TermuxConnectionManager)
    → spec.max_stdout_bytes ≡ some cap
    → All (λ t. has_surrogate t ≡ false) texts
    → get s.commands c ≡ some (new_command device spec started)
    → is_listed c s ≡ true
    → (r : ExecutionResult) × (future_of (
          get
            (serve device
              (message (completed_message c code))
              now
              (serve_output device now c texts s)).1.commands
            c)
        ≡ some r)
      × (r.status ≡ ExecutionStatus.succeeded)
      × (r.exit_code ≡ some code)
      × (r.stdout ≡ some (decode_prefix cap (joined texts)))
      × (r.timed_out ≡ false)
unfolding resolve
serve_output-serve device now c cap texts code spec started s capped clean found listed =
    let p = new_command device spec started in
    let streamed = serve_output-commands device now c texts p s clean found refl listed in
    let done : PendingCommand = record p { out = append_all texts p.out } in
    let e =
      serve-completed device now c code done (serve_output device now c texts s) streamed.0 refl
        streamed.1 in
    let start : p.out ≡ Pending.empty (some cap) = ap Pending.empty capped in
    (
      completed_result code now done,
      ground (arith, e),
      refl,
      refl,
      ap some (
          ap (λ o. joined (append_all texts o).chunks) start
          ∙ (append_all_capped cap texts clean).0),
      refl,
    )
