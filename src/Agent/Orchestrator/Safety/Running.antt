-- ===== src/Agent/Orchestrator/Safety/Running.antt =====
-- What the actions that research, install and run do to the invariant
-- (services/agent_orchestrator/orchestrator.py).
use cyber_tracker_ai.Agent.Orchestrator.Safety.{IsPerformed, alike, is_caller, IsAlike}
use cyber_tracker_ai.Base.{
  ◌≡◌, refl, true, ◌⊎◌, inl, inr, Option, none, some, List, [], ◌∷◌, arith, nat_eq, string_eq,
  Bool-cases, Option-cases,
}
use cyber_tracker_ai.Base.Text.{Text, text_eq}
use cyber_tracker_ai.Policy.{PolicyVerdict, PolicyDecision, TargetScope, RiskTier, ActionRequest}
use cyber_tracker_ai.Policy
use cyber_tracker_ai.Terminal.Commands.{TerminalCommandResult}
use cyber_tracker_ai.Terminal.Templates.{echo_test}
use cyber_tracker_ai.Agent.Models.{AgentAction, AgentBudgetConfig, check_installation_budget}
use cyber_tracker_ai.Agent.Orchestrator.{
  Effect, installation, command, Entry, called, Agent, Answers,
}
use cyber_tracker_ai.Agent.Orchestrator.Running.{
  do_discover_target, research, after_installation, install_named, do_install_tool,
  after_diagnostic, after_execute, run_decided, is_allow, is_deny, diagnose_in, do_run_diagnostic,
}

pub discover-IsPerformed :
    (answers : Answers) (action : AgentAction) (agent : Agent)
    → IsPerformed action agent (do_discover_target answers action agent).1
unfolding do_discover_target
discover-IsPerformed answers action agent =
    alike action agent (do_discover_target answers action agent).1 (ground arith) (ground arith)

-- The log is the old one, or has one call of the action more.
abbrev IsLogged : AgentAction → List Entry → List Entry → Type 0
IsLogged action old new =
    (new ≡ old) ⊎ ((effect : Effect) × (new ≡ called action.action_type action.id effect ∷ old))

install_named-IsLogged :
    (config : AgentBudgetConfig) (answers : Answers) (action : AgentAction) (tool : Text)
    (agent : Agent)
    → IsLogged action agent.log (install_named config answers action tool agent).1.log
unfolding install_named
install_named-IsLogged config answers action tool agent =
    elim (Bool-cases (check_installation_budget config agent.state)) [
      | inr over ↦ inl (ground (arith, over))
      | inl room ↦ elim (Bool-cases (answers.is_registered tool)) [
        | inr missing ↦ inl (ground (arith, room, missing))
        | inl known ↦ elim (Option-cases answers.target_scope) [
          | inl nothing ↦ inl (ground (arith, room, known, nothing))
          | inr (scope, h) ↦ inr (installation tool, ground (arith, room, known, h))
        ]
      ]
    ]

install-IsLogged :
    (config : AgentBudgetConfig) (answers : Answers) (action : AgentAction) (tool : Option Text)
    (agent : Agent)
    → IsLogged action agent.log
        (do_install_tool config answers (record action { tool = tool }) agent).1.log
unfolding do_install_tool
install-IsLogged config answers action none agent = inl refl
install-IsLogged config answers action (some []) agent = inl refl
install-IsLogged config answers action (some (c ∷ cs)) agent =
    install_named-IsLogged config answers (record action { tool = some (c ∷ cs) }) (c ∷ cs) agent

pub install-IsPerformed :
    (config : AgentBudgetConfig) (answers : Answers) (action : AgentAction) (agent : Agent)
    → is_caller action.action_type ≡ true
    → IsPerformed action agent (do_install_tool config answers action agent).1
unfolding do_install_tool install_named
install-IsPerformed config answers action agent calls =
    alike action agent (do_install_tool config answers action agent).1 (ground arith)
      (elim (install-IsLogged config answers action action.tool agent) [
        | inl same ↦ inl same
        | inr (effect, one) ↦ inr (effect, one, calls)
      ])

run_decided-IsPerformed :
    (action : AgentAction) (decision : PolicyDecision) (agent : Agent)
    → is_caller action.action_type ≡ true
    → IsPerformed action agent (run_decided action decision agent).1
unfolding run_decided
run_decided-IsPerformed action decision agent calls =
    let effect = command decision (is_allow decision.verdict) in
    elim (Bool-cases (is_deny decision.verdict)) [
      | inl denies ↦ rw denies (alike action agent agent (refl, refl, refl, refl) (inl refl))
      | inr allows ↦ rw allows (
          alike action agent
            (record agent { log = called action.action_type action.id effect ∷ agent.log })
            (refl, refl, refl, refl) (inr (effect, refl, calls)))
    ]

pub diagnostic-IsPerformed :
    (answers : Answers) (action : AgentAction) (agent : Agent)
    → is_caller action.action_type ≡ true
    → IsPerformed action agent (do_run_diagnostic answers action agent).1
unfolding do_run_diagnostic diagnose_in
diagnostic-IsPerformed answers action agent calls = elim (Option-cases answers.target_scope) [
  | inl nothing ↦ rw nothing (alike action agent agent (refl, refl, refl, refl) (inl refl))
  | inr (scope, h) ↦ rw h (
      run_decided-IsPerformed action
        (Policy.evaluate
          (record {
            action_id = answers.evidence_id;
            action_type = echo_test;
            risk_tier = RiskTier.low;
            target = scope;
          })
          answers.now)
        agent calls)
]

pub research-IsAlike :
    (answers : Answers) (action : AgentAction) (capability : Text) (names : List Text)
    (agent : Agent)
    → IsAlike agent (research answers action capability names agent).1
unfolding research
research-IsAlike answers action capability names agent = ground arith

pub after_installation-IsAlike :
    (answers : Answers) (action : AgentAction) (tool : Text) (agent : Agent)
    → IsAlike agent (after_installation answers action tool agent).1
unfolding after_installation
after_installation-IsAlike answers action tool agent = ground arith

pub after_execute-IsAlike :
    (answers : Answers) (action : AgentAction) (diagnostic : Option TerminalCommandResult)
    (agent : Agent)
    → IsAlike agent (after_execute answers action diagnostic agent).1
unfolding after_execute after_diagnostic
after_execute-IsAlike answers action diagnostic agent = ground arith
