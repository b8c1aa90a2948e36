-- ===== src/Examples/Connector.antt =====
-- Commands and processes on a device (apps/termux_connector/cyberai_termux.py).
use cyber_tracker_ai.Base.{◌≡◌, ◌↔◌, refl, true, false, Option, some, List, [], ◌∷◌, arith, any}
use cyber_tracker_ai.Base.Text.{Text, codes, text_eq}
use cyber_tracker_ai.Base.Result.{ok, is_ok}
use cyber_tracker_ai.Terminal.Controller.{CommandSpec}
use cyber_tracker_ai.Terminal.Validation
use cyber_tracker_ai.Terminal.Validation.{filter_environment, is_secret, ends_with_key}
use cyber_tracker_ai.Termux.Connector.{is_allowed}
use cyber_tracker_ai.Termux.Connector.Agreement.{has_nul, program_is_plain}
use cyber_tracker_ai.Termux.Connector.Client.{vet}
use cyber_tracker_ai.Termux.Connector.Client.Accepts.{request_of, vet_accepts}

abbrev spec : CommandSpec
spec = record {
  argv = codes "ls" ∷ codes "-l" ∷ [];
  timeout_seconds = 60;
  working_dir = some (codes "/srv/work");
  env_overrides = [];
  env_allowlist = Option.none;
  max_stdout_bytes = Option.none;
  max_stderr_bytes = Option.none;
}

abbrev roots : List Text
roots = codes "/data/home" ∷ codes "/tmp" ∷ []

arguments_valid : Validation.validate_argv (codes "ls" ∷ codes "-l" ∷ []) ≡ ok tt
unfolding Validation.validate_argv codes
arguments_valid = refl

no_environment : ◌≡◌ {A = List (Text × Text)} [] (filter_environment [])
unfolding filter_environment
no_environment = refl

vet_accepts_example : (is_ok (vet (λ p. p) (λ p. true) roots (request_of spec)) ≡ true) ↔ (
    (any has_nul (codes "ls" ∷ codes "-l" ∷ []) ≡ false)
    × (program_is_plain (codes "ls" ∷ codes "-l" ∷ []) ≡ true)
    × (is_allowed roots (codes "/srv/work") ≡ true)
    × (true ≡ true))
vet_accepts_example =
    vet_accepts (λ p. p) (λ p. true) roots spec [] (codes "/srv/work") arguments_valid
      no_environment refl refl (omega arith)
