-- ===== src/Installation/Outcomes.antt =====
-- What an installation comes to (services/installation/service.py, verifier.py).
use cyber_tracker_ai.Base.{
  ℕ, ◌≡◌, refl, ap, ◌∙◌, Bool, true, false, ◌&&◌, Option, none, some, List, [], ◌∷◌, arith, ltb,
  nat_eq, string_eq, length, any, count,
}
use cyber_tracker_ai.Base.Text.{Text, strip}
use cyber_tracker_ai.Base.Result.{Result, err}
use cyber_tracker_ai.Policy.{is_above_low}
use cyber_tracker_ai.Terminal.Commands.{TerminalCommandResult}
use cyber_tracker_ai.Terminal.Templates.{TemplateError, build_verification_command}
use cyber_tracker_ai.Installation.Service.{
  Outcome, succeeded, exhausted, returned, raised, attempts_from, conclude, install_step,
  install_tool, begun, start_planned, start_installation,
}
use cyber_tracker_ai.Installation.Requests.{Answers, is_completed}
use cyber_tracker_ai.Installation.Checking.{
  or_empty, exits_zero, verification_of, verified_by, checked, verify_with, verify,
}
use cyber_tracker_ai.Installation.Models.{
  InstallationState, InstallationStep, InstallationPlan, InstallEvent, published, Installation,
  tool_not_approved, InstallationServiceConfig, ToolRecord,
}
use cyber_tracker_ai.Installation.Attempts.{
  is_installed, is_success, is_launchable, is_succeeded, attempts_from-IsTried,
}

-- The answer to the check confirms the tool: its command completed with exit status 0 and printed
-- something.
abbrev pub confirms : Option TerminalCommandResult → Bool
confirms none = false
confirms (some r) =
    is_completed r.status && exits_zero r.exit_code && ltb 0 (length (strip (or_empty r.stdout)))

verify_with-installed :
    (answers : Answers) (b : Result TemplateError (List Text)) (i : Installation)
    → is_installed i.request.state ≡ false
    → is_installed (verify_with answers b i).1.request.state ≡ true
    → (confirms answers.check ≡ true)
      × ((verify_with answers b i).1.request.attempts ≡ i.request.attempts)
unfolding verify_with checked verified_by verification_of
verify_with-installed answers b i before h = ground (arith, before, h)

conclude-installed :
    (answers : Answers) (tool : ToolRecord) (step : InstallationStep) (o : Outcome)
    (i : Installation)
    → is_installed i.request.state ≡ false
    → is_installed (conclude answers tool step o i).1.request.state ≡ true
    → (confirms answers.check ≡ true)
      × (is_succeeded o ≡ true)
      × ((conclude answers tool step o i).1.request.attempts ≡ i.request.attempts)
unfolding conclude verify
conclude-installed answers tool step succeeded i before h =
    let started : Installation = record {
      request = record i.request { state = InstallationState.verifying };
      log = published InstallEvent.install_verifying ∷ i.log;
    } in
    let v =
      verify_with-installed answers
        (build_verification_command answers.executable step.package_manager step.package_name
          tool.entrypoint)
        started refl h in
    (v.0, refl, v.1)
conclude-installed answers tool step exhausted i before h = ground (arith, h)
conclude-installed answers tool step returned i before h = ground (arith, before, h)
conclude-installed answers tool step (raised e) i before h = ground (arith, before, h)

install_step-installed :
    (config : InstallationServiceConfig) (answers : Answers) (tool : ToolRecord)
    (plan : InstallationPlan) (steps : List InstallationStep) (i : Installation)
    → is_installed i.request.state ≡ false
    → is_installed (install_step config answers tool plan steps i).1.request.state ≡ true
    → (confirms answers.check ≡ true)
      × (any is_success (install_step config answers tool plan steps i).1.request.attempts ≡ true)
unfolding install_step
install_step-installed config answers tool plan [] i before h = ground (arith, before, h)
install_step-installed config answers tool plan (step ∷ steps) i before h =
    let r = attempts_from answers plan step config.max_install_attempts 1 none i in
    let t = attempts_from-IsTried answers plan step config.max_install_attempts 1 none i in
    let c = conclude-installed answers tool step r.0 r.1 (ground (arith, t.state, before)) h in
    (c.0, ap (λ as'. any is_success as') c.2 ∙ t.success c.1)

install_tool-installed :
    (config : InstallationServiceConfig) (answers : Answers) (plan : InstallationPlan)
    (tool : Option ToolRecord) (i : Installation)
    → is_installed i.request.state ≡ false
    → is_installed (install_tool config answers plan tool i).1.request.state ≡ true
    → (confirms answers.check ≡ true)
      × (any is_success (install_tool config answers plan tool i).1.request.attempts ≡ true)
unfolding install_tool
install_tool-installed config answers plan none i before h = ground (arith, before, h)
install_tool-installed config answers plan (some tool) i before h =
    ground
      (arith, before, h, install_step-installed config answers tool plan plan.installation_steps i)

start_planned-installed :
    (config : InstallationServiceConfig) (answers : Answers) (session : ℕ)
    (plan : Option InstallationPlan) (i : Installation)
    → is_installed i.request.state ≡ false
    → is_installed (start_planned config answers session plan i).1.request.state ≡ true
    → (confirms answers.check ≡ true)
      × (any is_success (start_planned config answers session plan i).1.request.attempts ≡ true)
unfolding start_planned
start_planned-installed config answers session none i before h = ground (arith, before, h)
start_planned-installed config answers session (some plan) i before h =
    install_tool-installed config answers plan answers.tool (begun session i) refl h

-- A start that leaves a request INSTALLED, which it was not before, has an attempt whose command
-- completed, and a check of the tool that completed with exit status 0 and printed something.
pub start_installation-installed :
    (config : InstallationServiceConfig) (answers : Answers) (session : ℕ) (i : Installation)
    → is_installed i.request.state ≡ false
    → is_installed (start_installation config answers session i).1.request.state ≡ true
    → (confirms answers.check ≡ true)
      × (any is_success (start_installation config answers session i).1.request.attempts ≡ true)
unfolding start_installation
start_installation-installed config answers session i before h =
    ground
      (arith, before, h, start_planned-installed config answers session i.request.plan i before)

verify_with-launched :
    (answers : Answers) (b : Result TemplateError (List Text)) (i : Installation)
    → count is_launchable (verify_with answers b i).1.log ≡ count is_launchable i.log
unfolding verify_with checked verified_by verification_of
verify_with-launched answers b i = ground arith

conclude-launched :
    (answers : Answers) (tool : ToolRecord) (step : InstallationStep) (o : Outcome)
    (i : Installation)
    → count is_launchable (conclude answers tool step o i).1.log ≡ count is_launchable i.log
unfolding conclude verify
conclude-launched answers tool step succeeded i =
    verify_with-launched answers
      (build_verification_command answers.executable step.package_manager step.package_name
        tool.entrypoint)
      (record {
        request = record i.request { state = InstallationState.verifying };
        log = published InstallEvent.install_verifying ∷ i.log;
      })
conclude-launched answers tool step exhausted i = refl
conclude-launched answers tool step returned i = refl
conclude-launched answers tool step (raised e) i = refl

install_step-launched :
    (config : InstallationServiceConfig) (answers : Answers) (tool : ToolRecord)
    (plan : InstallationPlan) (steps : List InstallationStep) (i : Installation)
    → is_above_low plan.risk_level ≡ true
    → i.request.approved_by ≡ none
    → count is_launchable (install_step config answers tool plan steps i).1.log
      ≡ count is_launchable i.log
unfolding install_step
install_step-launched config answers tool plan [] i risk no_one = refl
install_step-launched config answers tool plan (step ∷ steps) i risk no_one =
    let r = attempts_from answers plan step config.max_install_attempts 1 none i in
    let t = attempts_from-IsTried answers plan step config.max_install_attempts 1 none i in
    conclude-launched answers tool step r.0 r.1 ∙ t.launched risk no_one

install_tool-launched :
    (config : InstallationServiceConfig) (answers : Answers) (plan : InstallationPlan)
    (tool : Option ToolRecord) (i : Installation)
    → is_above_low plan.risk_level ≡ true
    → i.request.approved_by ≡ none
    → count is_launchable (install_tool config answers plan tool i).1.log
      ≡ count is_launchable i.log
unfolding install_tool
install_tool-launched config answers plan none i risk no_one = refl
install_tool-launched config answers plan (some tool) i risk no_one =
    ground
      (arith, install_step-launched config answers tool plan plan.installation_steps i risk no_one)

start_planned-launched :
    (config : InstallationServiceConfig) (answers : Answers) (session : ℕ) (plan : InstallationPlan)
    (i : Installation)
    → is_above_low plan.risk_level ≡ true
    → i.request.approved_by ≡ none
    → count is_launchable (start_planned config answers session (some plan) i).1.log
      ≡ count is_launchable i.log
unfolding start_planned
start_planned-launched config answers session plan i risk no_one =
    install_tool-launched config answers plan answers.tool (begun session i) risk no_one

-- A start of a request that nobody approved gives the terminal engine no installation command that
-- it would launch, where the plan's risk is above low.
pub start_installation-launched :
    (config : InstallationServiceConfig) (answers : Answers) (session : ℕ) (plan : InstallationPlan)
    (i : Installation)
    → i.request.plan ≡ some plan
    → is_above_low plan.risk_level ≡ true
    → i.request.approved_by ≡ none
    → count is_launchable (start_installation config answers session i).1.log
      ≡ count is_launchable i.log
unfolding start_installation
start_installation-launched config answers session plan i planned risk no_one =
    let p : count is_launchable (start_planned config answers session i.request.plan i).1.log
        ≡ count is_launchable i.log =
      ap (λ p. count is_launchable (start_planned config answers session p i).1.log) planned
      ∙ start_planned-launched config answers session plan i risk no_one in
    ground (arith, p)

-- Where the tool is no longer approved, a start of a prepared request raises ToolNotApprovedError and
-- leaves the request INSTALLING, with no command given to the engine.
unapproved_tool_sticks :
    (config : InstallationServiceConfig) (answers : Answers) (session : ℕ) (plan : InstallationPlan)
    (tool : ToolRecord) (i : Installation)
    → i.request.state ≡ InstallationState.preparing
    → i.request.plan ≡ some plan
    → answers.tool ≡ some tool
    → tool.is_approved ≡ false
    → start_installation config answers session i ≡ (err tool_not_approved, begun session i)
unfolding start_installation start_planned install_tool
unapproved_tool_sticks config answers session plan tool i ready planned known refused =
    let p : start_planned config answers session i.request.plan i
        ≡ (err tool_not_approved, begun session i) =
      ap (λ p. start_planned config answers session p i) planned
      ∙ ap (λ t. install_tool config answers plan t (begun session i)) known
      ∙ ground (arith, refused) in
    ground (arith, ready, p)
