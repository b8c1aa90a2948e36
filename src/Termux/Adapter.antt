-- ===== src/Termux/Adapter.antt =====
-- The terminal adapter of one device (services/termux/adapter.py).
use cyber_tracker_ai.Base.{ℕ, false, none, some, nat_eq, ◌++◌}
use cyber_tracker_ai.Base.Text.{Text, codes}
use cyber_tracker_ai.Terminal.Controller.{CommandSpec, ExecutionStatus, ExecutionResult}
use cyber_tracker_ai.Terminal.Commands.{Outcome}
use cyber_tracker_ai.Termux.Manager.{
  TermuxConnectionManager, Flight, Ending, propagated, open_command,
}

-- `run` has an answer at once, or waits for the device.
pub data Run : Type 0 where
  answered : ExecutionResult → Run
  waits : Flight → Run

-- `uuid_text` is `str` of an identifier.
module _ (uuid_text : ℕ → Text) where
  -- The handler of `TermuxConnectorError`, for `DeviceOfflineError`.
  abbrev pub offline_result : ℕ → ℕ → ExecutionResult
  offline_result device now = record {
    status = ExecutionStatus.failed;
    exit_code = none;
    stdout = none;
    stderr = some (codes "Device " ++ uuid_text device ++ codes " is not currently connected.");
    stdout_truncated = false;
    stderr_truncated = false;
    timed_out = false;
    started_at = now;
    finished_at = none;
  }

  unfoldable pub run :
      ℕ → CommandSpec → ℕ → ℕ → TermuxConnectionManager → Run × TermuxConnectionManager
  run device spec fresh now s =
      let (opened, s') = open_command device spec fresh now s in
      elim opened [ none ↦ (answered (offline_result device now), s') | some f ↦ (waits f, s') ]

-- What the task of the adapter gives the terminal engine.
unfoldable pub outcome : Ending → Outcome
outcome (Ending.returned result) = Outcome.returned result
outcome propagated = Outcome.cancelled
