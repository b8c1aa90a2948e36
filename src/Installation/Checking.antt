-- ===== src/Installation/Checking.antt =====
-- The check of an installed tool (services/installation/service.py, verifier.py).
use cyber_tracker_ai.Base.{
  Bool, false, ◌&&◌, ◌||◌, Option, none, some, List, [], ◌∷◌, ltb, nat_eq, string_eq, if◌then◌else◌,
  length,
}
use cyber_tracker_ai.Base.Int.{ℤ, is_zero}
use cyber_tracker_ai.Base.Text.{Text, strip}
use cyber_tracker_ai.Base.Result.{Result, ok, err}
use cyber_tracker_ai.Terminal.Commands.{TerminalCommandResult}
use cyber_tracker_ai.Terminal.Templates.{TemplateError, build_verification_command}
use cyber_tracker_ai.Installation.Models.{
  Installation, InstallationError, InstallationStep, InstallationVerification, ToolRecord,
  engine_raised, install_completed, install_verification_failed, install_verified,
  install_verifying, installed, not_usable, rollback_required, template, verifies, verifying,
}
use cyber_tracker_ai.Installation.Requests.{
  Answers, check_decision, is_allow, is_completed, publish, with_state,
}

abbrev pub or_empty : Option Text → Text
or_empty none = []
or_empty (some t) = t

abbrev pub exits_zero : Option ℤ → Bool
exits_zero none = false
exits_zero (some code) = is_zero code

-- `InstallationVerifier.evaluate`, without the words of its checks.
unfoldable pub verification_of : TerminalCommandResult → InstallationVerification
verification_of r =
    let stdout = strip (or_empty r.stdout) in
    let ran = is_completed r.status && exits_zero r.exit_code in
    let verified = ran && ltb 0 (length stdout) in
    record {
      executable_found = verified || ran;
      version_output = if ltb 0 (length stdout) then some stdout else none;
      verified = verified;
    }

-- The end of `_verify`.
unfoldable pub verified_by : TerminalCommandResult → Installation → Installation
verified_by r i =
    let v = verification_of r in
    let seen : Installation = record i { request = record i.request { verification = some v } } in
    if v.verified
    then publish install_completed (publish install_verified (with_state installed seen))
    else publish install_verification_failed (record seen {
      request = record seen.request { state = rollback_required; error_message = some not_usable };
    })

unfoldable pub checked :
    Option TerminalCommandResult → Installation → Result InstallationError (Unit {0}) × Installation
checked none i = (err engine_raised, i)
checked (some r) i = (ok tt, verified_by r i)

unfoldable pub verify_with :
    Answers
    → Result TemplateError (List Text)
    → Installation
    → Result InstallationError (Unit {0}) × Installation
verify_with answers (err e) i = (err (template e), i)
verify_with answers (ok argv) i =
    let decision = check_decision answers i.request in
    checked answers.check
      (record i { log = verifies argv decision (is_allow decision.verdict) ∷ i.log })

unfoldable pub verify :
    Answers
    → ToolRecord
    → InstallationStep
    → Installation
    → Result InstallationError (Unit {0}) × Installation
verify answers tool step i =
    verify_with answers
      (build_verification_command answers.executable step.package_manager step.package_name
        tool.entrypoint)
      (publish install_verifying (with_state verifying i))
