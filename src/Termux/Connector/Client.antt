-- ===== src/Termux/Connector/Client.antt =====
-- The loop of the device over the messages of the server (apps/termux_connector/cyberai_termux.py).
pub mod Accepts
use cyber_tracker_ai.Base.{
  ℕ, ◌≡◌, ◌↔◌, refl, Bool, true, false, Option, none, some, List, [], ◌∷◌, ◌++◌, arith, nat_eq, inl,
  inr,
}
use cyber_tracker_ai.Base.Dict.{Dict, get, put, remove, is_some}
use cyber_tracker_ai.Base.Text.{Text}
use cyber_tracker_ai.Base.Result.{Result, ok, err, is_ok, ◌>>=◌, Result-cases}
use cyber_tracker_ai.Base.Json.{Json}
use cyber_tracker_ai.Termux.Connector.{
  ConnectorRefusal, validate_argv, validate_working_directory, validate_env_overrides,
  validate_timeout,
}
use cyber_tracker_ai.Termux.Connector.Running.{DeviceMessage, command_failed, is_refused}

-- A `command_request`; what is absent is null.
pub record CommandRequest : Type 0 where
  pub argv : Json
  pub working_directory : Json
  pub env_overrides : Json
  pub timeout_seconds : Json

-- The arguments of `_run_command`.
pub record VettedCommand : Type 0 where
  pub argv : List Text
  pub working_dir : Option Text
  pub env_overrides : Dict Text Text
  pub timeout : ℕ

pub record Client : Type 0 where
  pub running_tasks : Dict ℕ VettedCommand
  pub sent : List DeviceMessage

module _ (realpath : Text → Text) (isdir : Text → Bool) (roots : List Text) where
  unfoldable pub vet : CommandRequest → Result ConnectorRefusal VettedCommand
  vet r = do
    argv ← validate_argv r.argv
    working_dir ← validate_working_directory realpath isdir roots r.working_directory
    env ← validate_env_overrides r.env_overrides
    timeout ← validate_timeout r.timeout_seconds
    ok (record { argv = argv; working_dir = working_dir; env_overrides = env; timeout = timeout })

  -- The branch of `command_request`.
  unfoldable pub on_request : ℕ → CommandRequest → Client → Client
  unfolding vet
  on_request command r s = elim (vet r) [
    | err refusal ↦ record s {
      sent = s.sent ++ command_failed command none (is_refused refusal) ∷ [];
    }
    | ok vetted ↦ record s { running_tasks = put s.running_tasks command vetted }
  ]

-- The branch of `command_cancel`, and the callback of a task that is done.
unfoldable pub on_cancel : ℕ → Client → Client
on_cancel command s = record s { running_tasks = remove s.running_tasks command }

-- The end of a connection cancels every task.
unfoldable pub on_closed : Client → Client
on_closed s = record s { running_tasks = [] }
