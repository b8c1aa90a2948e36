-- ===== src/Termux/Connector/Client/Accepts.antt =====
-- Which commands of the server the device runs (services/terminal/validation.py,
-- apps/termux_connector/cyberai_termux.py).
use cyber_tracker_ai.Base.{
  ℕ, ◌*◌, ◌<◌, ◌≡◌, ◌↔◌, ap, ◌&&◌, Bool, true, false, Option, none, some, List, arith, nat_eq, any,
}
use cyber_tracker_ai.Base.Int.{pos}
use cyber_tracker_ai.Base.Dict.{Dict}
use cyber_tracker_ai.Base.Text.{Text}
use cyber_tracker_ai.Base.Result.{ok, is_ok}
use cyber_tracker_ai.Terminal.Controller.{CommandSpec}
use cyber_tracker_ai.Terminal.Validation
use cyber_tracker_ai.Terminal.Validation.{filter_environment}
use cyber_tracker_ai.Base.Json.{Json, null, number, text, list, mapping}
use cyber_tracker_ai.Termux.Connector.{
  validate_argv, validate_working_directory, validate_env_overrides, validate_timeout, is_allowed,
}
use cyber_tracker_ai.Termux.Connector.Agreement.{
  to_items, to_fields, has_nul, program_is_plain, has_ascii_names, is_ok-validate_argv,
  validate_env_overrides_agrees,
}
use cyber_tracker_ai.Termux.Connector.Client.{CommandRequest, vet}

-- The `command_request` of `TermuxConnectionManager.execute`, as the device reads it.
abbrev directory_json : Option Text → Json
directory_json none = null
directory_json (some d) = text d

abbrev pub request_of : CommandSpec → CommandRequest
request_of spec = record {
  argv = list (to_items spec.argv);
  working_directory = directory_json spec.working_dir;
  env_overrides = mapping (to_fields spec.env_overrides);
  timeout_seconds = number (pos (spec.timeout_seconds * 1000));
}

validate_timeout-pos : (n : ℕ) → 0 < n → is_ok (validate_timeout (number (pos (n * 1000)))) ≡ true
unfolding validate_timeout
validate_timeout-pos n h = ground arith

is_ok-vet :
    (realpath : Text → Text) (isdir : Text → Bool) (roots : List Text) (r : CommandRequest)
    → is_ok (vet realpath isdir roots r) ≡ (
        is_ok (validate_argv r.argv)
        && (is_ok (validate_working_directory realpath isdir roots r.working_directory)
            && (is_ok (validate_env_overrides r.env_overrides)
                && is_ok (validate_timeout r.timeout_seconds))))
unfolding vet
is_ok-vet realpath isdir roots r = ground arith

is_ok-validate_working_directory :
    (realpath : Text → Text) (isdir : Text → Bool) (roots : List Text) (dir : Text)
    → is_ok (validate_working_directory realpath isdir roots (text dir))
      ≡ (is_allowed roots (realpath dir) && isdir (realpath dir))
unfolding validate_working_directory
is_ok-validate_working_directory realpath isdir roots dir = ground arith

-- Of the commands that pass the server's checks, with an environment that its filter has gone
-- through and whose names are ASCII, the device runs exactly those without a NUL in an argument,
-- without a shell metacharacter in the name of the program, and whose working directory, a path of
-- the server, is a directory below a root that the device allows.
pub vet_accepts :
    (realpath : Text → Text) (isdir : Text → Bool) (roots : List Text) (spec : CommandSpec)
    (env : Dict Text Text) (dir : Text)
    → Validation.validate_argv spec.argv ≡ ok tt
    → spec.env_overrides ≡ filter_environment env
    → has_ascii_names env ≡ true
    → spec.working_dir ≡ some dir
    → 0 < spec.timeout_seconds
    → (is_ok (vet realpath isdir roots (request_of spec)) ≡ true) ↔ (
        (any has_nul spec.argv ≡ false)
        × (program_is_plain spec.argv ≡ true)
        × (is_allowed roots (realpath dir) ≡ true)
        × (isdir (realpath dir) ≡ true))
vet_accepts realpath isdir roots spec env dir valid filtered ascii wd positive =
    let parts = is_ok-vet realpath isdir roots (request_of spec) in
    let arguments = is_ok-validate_argv spec.argv valid in
    let directory : is_ok
          (validate_working_directory realpath isdir roots (directory_json spec.working_dir))
        ≡ (is_allowed roots (realpath dir) && isdir (realpath dir)) =
      rw wd (is_ok-validate_working_directory realpath isdir roots dir) in
    let environment : is_ok (validate_env_overrides (mapping (to_fields spec.env_overrides)))
        ≡ true =
      rw filtered (ap is_ok (validate_env_overrides_agrees env ascii)) in
    let timeout = validate_timeout-pos spec.timeout_seconds positive in
    (
      λ accepted. ground (arith, parts, arguments, directory, environment, timeout, accepted),
      λ plain. ground (arith, parts, arguments, directory, environment, timeout, plain),
    )
