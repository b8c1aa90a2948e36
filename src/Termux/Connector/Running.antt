-- ===== src/Termux/Connector/Running.antt =====
-- A command on the device: the process, its output under the cap, and the answers
-- (apps/termux_connector/cyberai_termux.py). `decode` is `bytes.decode` with `errors="replace"`.
pub mod Pumped
use cyber_tracker_ai.Base.{
  ℕ, zero, suc, Option-cases, ◌-◌, ◌+◌, ◌≡◌, ◌≤◌, refl, ap, sym, ◌∙◌, Bool, true, false, not,
  Option, none, some, List, [], ◌∷◌, ◌++◌, ltb, leb, ◌==◌, nat_eq, if◌then◌else◌, length, map,
  arith, min, count, Bool-cases, inl, inr, length-append, All,
}
use cyber_tracker_ai.Base.Dict.{Dict, get, put, remove}
use cyber_tracker_ai.Base.Int.{ℤ, is_zero}
use cyber_tracker_ai.Base.Text.{Text}
use cyber_tracker_ai.Base.Result.{Result, ok, err, ◌>>=◌}
use cyber_tracker_ai.Terminal.Output.{take, take_nil, take_none, take_all, take-append}
use cyber_tracker_ai.Termux.Pending.{Stream, Stream.stdout, Stream.stderr}
use cyber_tracker_ai.Base.Json.{Json}
use cyber_tracker_ai.Termux.Connector.{
  ConnectorRefusal, validate_argv, validate_working_directory, validate_env_overrides,
  validate_timeout,
}

-- One round of `pump`: what is sent of a chunk, `none` where it is dropped.
unfoldable pub pump_chunk : ℕ → ℕ → List ℕ → Option (List ℕ)
pump_chunk cap used chunk =
    let remaining = cap - used in
    if leb cap used
    then none
    else if ltb remaining (length chunk)
    then some (take remaining chunk)
    else some chunk

-- The two loops of `pump`, over the chunks in the order in which they are read, with the bytes that
-- are used of each stream. The flags that `pump` sets are read nowhere.
unfoldable pub pump : ℕ → ℕ → ℕ → ℕ → List (Stream × List ℕ) → List (Stream × List ℕ)
unfolding pump_chunk
pump max_out max_err out_used err_used [] = []
pump max_out max_err out_used err_used ((stdout, chunk) ∷ rest) =
    elim (pump_chunk max_out out_used chunk) [
      | none ↦ pump max_out max_err out_used err_used rest
      | some c ↦ (stdout, c) ∷ pump max_out max_err (out_used + length c) err_used rest
    ]
pump max_out max_err out_used err_used ((stderr, chunk) ∷ rest) =
    elim (pump_chunk max_err err_used chunk) [
      | none ↦ pump max_out max_err out_used err_used rest
      | some c ↦ (stderr, c) ∷ pump max_out max_err out_used (err_used + length c) rest
    ]

-- `errorMessage`.
pub data Failure : Type 0 where
  executable_not_found permission_denied timeout : Failure
  exit_code_is : ℤ → Failure
  is_refused : ConnectorRefusal → Failure

pub data DeviceMessage : Type 0 where
  output : Stream → ℕ → Text → DeviceMessage
  command_completed : ℕ → DeviceMessage
  command_failed : ℕ → Option ℤ → Failure → DeviceMessage

-- How a process starts: it runs, and ends or is terminated after its time, `none`; or
-- `create_subprocess_exec` raises, one of the two errors that are handled or another.
pub data Process : Type 0 where
  not_found denied raised : Process
  runs : List (Stream × List ℕ) → Option ℤ → Process

-- What is sent once the process has ended, or has been terminated after its time, `none`.
unfoldable pub ending : ℕ → Option ℤ → DeviceMessage
ending c none = command_failed c none timeout
ending c (some code) =
    if is_zero code then command_completed c else command_failed c (some code) (exit_code_is code)

module _ (decode : List ℕ → Text) where
  unfoldable pub send_chunks : ℕ → List (Stream × List ℕ) → List DeviceMessage
  send_chunks c [] = []
  send_chunks c ((kind, chunk) ∷ rest) = output kind c (decode chunk) ∷ send_chunks c rest

  -- `_run_command`, unless it is cancelled: what it sends.
  unfoldable pub run_command : ℕ → ℕ → ℕ → Process → List DeviceMessage
  unfolding pump ending send_chunks
  run_command max_out max_err c not_found = command_failed c none executable_not_found ∷ []
  run_command max_out max_err c denied = command_failed c none permission_denied ∷ []
  run_command max_out max_err c raised = []
  run_command max_out max_err c (runs reads exit_code) =
      send_chunks c (pump max_out max_err 0 0 reads) ++ ending c exit_code ∷ []
