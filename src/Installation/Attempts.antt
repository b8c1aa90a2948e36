-- ===== src/Installation/Attempts.antt =====
-- What the attempts of an installation do to its request (services/installation/service.py).
use cyber_tracker_ai.Base.{
  ℕ, zero, suc, ◌+◌, String, ◌≡◌, refl, ◌∙◌, inl, inr, Bool, true, false, not, ◌||◌, Option, none,
  some, List, [], ◌∷◌, ◌++◌, arith, nat_eq, string_eq, if◌then◌else◌, Bool-cases, any, count,
}
use cyber_tracker_ai.Base.Dict.{is_some}
use cyber_tracker_ai.Base.Text.{Text}
use cyber_tracker_ai.Base.Result.{Result, ok, err}
use cyber_tracker_ai.Policy.{is_above_low, evaluate}
use cyber_tracker_ai.Terminal.Commands.{TerminalCommandResult}
use cyber_tracker_ai.Terminal.Controller.{is_approved}
use cyber_tracker_ai.Terminal.Templates.{TemplateError, build_install_command}
use cyber_tracker_ai.Installation.Service.{
  Outcome, succeeded, Attempted, next, ended, after_execute, execute_attempt, decided, attempt_with,
  attempt, attempts_from,
}
use cyber_tracker_ai.Installation.Requests.{
  Answers, is_allow, is_deny, is_completed, status_value, install_decision,
}
use cyber_tracker_ai.Installation.Models.{
  InstallationState, InstallationStep, InstallationPlan, InstallationAttempt, InstallationRequest,
  Entry, installs, Installation,
}

abbrev pub is_installed : InstallationState → Bool
is_installed InstallationState.installed = true
is_installed _ = false

-- An attempt whose command completed.
abbrev pub is_success : InstallationAttempt → Bool
is_success a = not (is_some a.error_category)

-- An installation command that the terminal engine would launch.
abbrev pub is_launchable : Entry → Bool
is_launchable (installs argv decision approved) = is_approved decision.verdict approved
is_launchable _ = false

pub record IsTried (plan : InstallationPlan) (i : Installation) (done : Bool) (j : Installation)
    : Type 0 where
  pub state : is_installed j.request.state ≡ true → is_installed i.request.state ≡ true
  pub approved_by : j.request.approved_by ≡ i.request.approved_by
  pub success : done ≡ true → any is_success j.request.attempts ≡ true
  pub launched :
      is_above_low plan.risk_level ≡ true
      → i.request.approved_by ≡ none
      → count is_launchable j.log ≡ count is_launchable i.log

abbrev pub is_succeeded : Outcome → Bool
is_succeeded succeeded = true
is_succeeded _ = false

abbrev has_succeeded : Attempted → Bool
has_succeeded (ended outcome) = is_succeeded outcome
has_succeeded (next category) = false

any-append :
    (p : InstallationAttempt → Bool) (xs : List InstallationAttempt) (x : InstallationAttempt)
    → any p (xs ++ x ∷ []) ≡ (any p xs || p x)
any-append p [] x = ground arith
any-append p (y ∷ ys) x = ground (arith, any-append p ys x)

abbrev tried : ℕ → TerminalCommandResult → InstallationAttempt
tried number r = record {
  attempt_number = number;
  completed_at = r.completed_at;
  exit_code = r.exit_code;
  error_category = if is_completed r.status then none else some (status_value r.status);
}

after_execute-IsTried :
    (plan : InstallationPlan) (number : ℕ) (last : Option String) (r : TerminalCommandResult)
    (i : Installation)
    → let a = after_execute number last r i in IsTried plan i (has_succeeded a.0) a.1
unfolding after_execute
after_execute-IsTried plan number last r i = record {
  state = ground arith;
  approved_by = ground arith;
  success = λ h. ground (arith, h, any-append is_success i.request.attempts (tried number r));
  launched = ground arith;
}

execute_attempt-IsTried :
    (plan : InstallationPlan) (number : ℕ) (last : Option String)
    (answer : Option TerminalCommandResult) (i : Installation)
    → let a = execute_attempt number last answer i in IsTried plan i (has_succeeded a.0) a.1
unfolding execute_attempt
execute_attempt-IsTried plan number last none i = record {
  state = λ h. h;
  approved_by = refl;
  success = λ h. ground (arith, h);
  launched = λ risk no_one. refl;
}
execute_attempt-IsTried plan number last (some r) i = after_execute-IsTried plan number last r i

install_decision-above_low :
    (answers : Answers) (plan : InstallationPlan) (request : InstallationRequest)
    → is_above_low plan.risk_level ≡ true
    → is_allow (install_decision answers plan request).verdict ≡ false
unfolding evaluate
install_decision-above_low answers plan request risk = ground (arith, risk)

decided-IsTried :
    (answers : Answers) (plan : InstallationPlan) (number : ℕ) (last : Option String)
    (argv : List Text) (answer : Option TerminalCommandResult) (i : Installation)
    → let a = decided number last argv (install_decision answers plan i.request) answer i in
      IsTried plan i (has_succeeded a.0) a.1
unfolding decided
decided-IsTried answers plan number last argv answer i =
    let decision = install_decision answers plan i.request in
    let approved = is_allow decision.verdict || is_some i.request.approved_by in
    let asked : Installation = record i { log = installs argv decision approved ∷ i.log } in
    let e = execute_attempt-IsTried plan number last answer asked in
    elim (Bool-cases (is_deny decision.verdict)) [
      | inl denies ↦ rw denies (record {
        state = λ h. ground (arith, h);
        approved_by = refl;
        success = λ h. ground (arith, h);
        launched = λ risk no_one. refl;
      })
      | inr allows ↦ rw allows (record {
        state = e.state;
        approved_by = e.approved_by;
        success = e.success;
        launched = λ risk no_one.
            e.launched risk no_one
            ∙ ground
                (arith, install_decision-above_low answers plan i.request risk, no_one, allows);
      })
    ]

attempt_with-IsTried :
    (answers : Answers) (plan : InstallationPlan) (b : Result TemplateError (List Text))
    (number : ℕ) (last : Option String) (i : Installation)
    → let a = attempt_with answers plan b number last i in IsTried plan i (has_succeeded a.0) a.1
unfolding attempt_with
attempt_with-IsTried answers plan (err e) number last i = record {
  state = λ h. h;
  approved_by = refl;
  success = λ h. ground (arith, h);
  launched = λ risk no_one. refl;
}
attempt_with-IsTried answers plan (ok argv) number last i =
    decided-IsTried answers plan number last argv (answers.execute number) i

IsTried-trans :
    (plan : InstallationPlan) (i j k : Installation) (done : Bool)
    → IsTried plan i false j
    → IsTried plan j done k
    → IsTried plan i done k
IsTried-trans plan i j k done first then' = record {
  state = λ h. first.state (then'.state h);
  approved_by = then'.approved_by ∙ first.approved_by;
  success = then'.success;
  launched =
      λ risk no_one. then'.launched risk (first.approved_by ∙ no_one) ∙ first.launched risk no_one;
}

pub attempts_from-IsTried :
    (answers : Answers) (plan : InstallationPlan) (step : InstallationStep) (left number : ℕ)
    (last : Option String) (i : Installation)
    → let a = attempts_from answers plan step left number last i in
      IsTried plan i (is_succeeded a.0) a.1
unfolding attempts_from attempt
attempts_from-IsTried answers plan step zero number last i = record {
  state = λ h. h;
  approved_by = refl;
  success = λ h. ground (arith, h);
  launched = λ risk no_one. refl;
}
attempts_from-IsTried answers plan step (suc left) number last i =
    let r = attempt answers plan step number last i in
    let first =
      attempt_with-IsTried answers plan
        (build_install_command answers.executable step.package_manager step.package_name
          step.version)
        number last i in
    (elim r.0
        as (λ a.
          IsTried plan i (has_succeeded a) r.1
          → (let b : Outcome × Installation = elim a as (λ a'. Outcome × Installation) [
            | ended outcome ↦ (outcome, r.1)
            | next category ↦ attempts_from answers plan step left (number + 1) (some category) r.1
          ] in
              IsTried plan i (is_succeeded b.0) b.1)) [
                | ended outcome ↦ λ t. t
                | next category ↦ λ t.
                    let b = attempts_from answers plan step left (number + 1) (some category) r.1 in
                    IsTried-trans plan i r.1 b.1 (is_succeeded b.0) t (
                      attempts_from-IsTried answers plan step left (number + 1) (some category) r.1)
              ])
      first
