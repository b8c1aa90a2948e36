-- ===== src/Agent/Orchestrator/Running.antt =====
-- The actions that look at the target, research, install and run (services/agent_orchestrator/orchestrator.py).
use cyber_tracker_ai.Base.{
  ◌+◌, String, Bool, true, false, not, Option, none, some, List, [], ◌∷◌, ◌++◌, ◌==◌, nat_eq,
  string_eq, if◌then◌else◌, length,
}
use cyber_tracker_ai.Base.Dict.{put}
use cyber_tracker_ai.Base.Text.{Text, codes, strip, text_eq, decimal}
use cyber_tracker_ai.Policy.{PolicyVerdict, PolicyDecision, TargetScope, RiskTier, ActionRequest}
use cyber_tracker_ai.Policy
use cyber_tracker_ai.Terminal.Models.{CommandStatus}
use cyber_tracker_ai.Terminal.Commands.{TerminalCommandResult}
use cyber_tracker_ai.Terminal.Templates.{echo_test}
use cyber_tracker_ai.Agent.Models.{
  AgentAction, text, denied, refused, AgentBudgetConfig, check_installation_budget,
}
use cyber_tracker_ai.Agent.Recovery.{classify}
use cyber_tracker_ai.Agent.Orchestrator.{
  installation, command, Entry, called, Agent, InstallationAnswer, service_failed, Answers,
  budget_exceeded, from_service, action_failure, propagated, awaits, researches, installs,
  diagnoses, Done, summarized, raised, observed,
}

-- `value or default`.
abbrev or_default : Option Text → Text → Text
or_default none default = default
or_default (some []) default = default
or_default (some (c ∷ cs)) default = c ∷ cs

abbrev pub fail : String → String → Done
fail category message = raised (action_failure category (text (codes message)))

-- The implementation answers `summary` and has noted it as an observation.
abbrev pub summarize_observed : Answers → AgentAction → Text → Agent → Done × Agent
summarize_observed answers action summary agent =
    (summarized summary, record agent { state = observed answers action summary agent.state })

abbrev with_log : List Entry → Agent → Agent
with_log log agent = record agent { log = log }

unfoldable pub do_discover_target : Answers → AgentAction → Agent → Done × Agent
do_discover_target answers action agent = elim agent.state.target [
  | none ↦ (fail "invalid_argument" "No target is known yet.", agent)
  | some [] ↦ (fail "invalid_argument" "No target is known yet.", agent)
  | some (c ∷ cs) ↦
      summarize_observed answers action
        (codes "Target confirmed: "
          ++ c ∷ cs
          ++ codes " ("
          ++ or_default agent.state.target_type (codes "unknown type")
          ++ codes ").")
        agent
]

-- `separator.join(texts)`.
unfoldable pub joined : Text → List Text → Text
joined separator [] = []
joined separator (t ∷ ts) =
    let rest = joined separator ts in elim ts [ [] ↦ t | _ ∷ _ ↦ t ++ separator ++ rest ]

abbrev pub or_empty : Option Text → Text
or_empty none = []
or_empty (some t) = t

unfoldable pub research : Answers → AgentAction → Text → List Text → Agent → Done × Agent
research answers action capability [] agent = (
  raised (
      action_failure "tool_unavailable"
        (text (codes "No candidates found for '" ++ capability ++ codes "'."))),
  agent,
)
research answers action capability (name ∷ names) agent =
    let known : Agent = record agent {
      state = record agent.state {
        tool_capabilities = put agent.state.tool_capabilities capability (name ∷ names);
      };
    } in
    summarize_observed answers action
      (codes "Found "
        ++ decimal (length (name ∷ names))
        ++ codes " candidate(s) for '"
        ++ capability
        ++ codes "': "
        ++ joined (codes ", ") (name ∷ names))
      known

unfoldable pub do_research_tool : AgentAction → Agent → Done × Agent
do_research_tool action agent = (awaits (researches action (or_empty action.capability)), agent)

abbrev pub is_installed : String → Bool
is_installed state = state == "INSTALLED"

-- What follows the calls of the installation service, on the task as it is then.
unfoldable pub after_installation : Answers → AgentAction → Text → Agent → Done × Agent
after_installation answers action tool agent = elim answers.installation [
  | service_failed ↦ (raised (propagated from_service), agent)
  | InstallationAnswer.blocked message ↦ (
    raised (
        action_failure "policy_restriction"
          (text (or_default message (codes "Installation blocked.")))),
    agent,
  )
  | InstallationAnswer.finished ended message ↦
      let counted = record agent {
        state = record agent.state {
          installation_count = agent.state.installation_count + 1;
          installation_state = put agent.state.installation_state tool ended;
        };
      } in
      let chosen = record counted {
        state = record counted.state { selected_tools = counted.state.selected_tools ++ tool ∷ [] };
      } in
      if not (is_installed ended)
      then (
        raised (
            action_failure "tool_unavailable" (
              text
                (or_default message (codes "Installation ended in " ++ codes ended ++ codes ".")))),
        counted,
      )
      else summarize_observed answers action
          (codes "Installed and verified '" ++ tool ++ codes "'.") chosen
]

unfoldable pub install_named :
    AgentBudgetConfig → Answers → AgentAction → Text → Agent → Done × Agent
install_named config answers action tool agent =
    let requested =
      with_log (called action.action_type action.id (installation tool) ∷ agent.log) agent in
    if not (check_installation_budget config agent.state)
    then (raised (propagated budget_exceeded), agent)
    else if not (answers.is_registered tool)
    then (
      raised (
          action_failure "tool_unavailable"
            (text (codes "Tool '" ++ tool ++ codes "' is not registered."))),
      agent,
    )
    else elim answers.target_scope [
      | none ↦ (fail "policy_restriction" "No target scope available for installation.", agent)
      | some scope ↦ (awaits (installs action tool), requested)
    ]

unfoldable pub do_install_tool : AgentBudgetConfig → Answers → AgentAction → Agent → Done × Agent
do_install_tool config answers action agent = elim action.tool [
  | none ↦ (fail "invalid_argument" "No tool name specified.", agent)
  | some [] ↦ (fail "invalid_argument" "No tool name specified.", agent)
  | some (c ∷ cs) ↦ install_named config answers action (c ∷ cs) agent
]

abbrev pub is_allow : PolicyVerdict → Bool
is_allow PolicyVerdict.allow = true
is_allow _ = false

abbrev pub is_deny : PolicyVerdict → Bool
is_deny PolicyVerdict.deny = true
is_deny _ = false

abbrev is_timeout : CommandStatus → Bool
is_timeout CommandStatus.timeout = true
is_timeout _ = false

abbrev is_rejected : CommandStatus → Bool
is_rejected CommandStatus.rejected = true
is_rejected _ = false

abbrev pub is_completed : CommandStatus → Bool
is_completed CommandStatus.completed = true
is_completed _ = false

-- `result.stdout.strip() if result.stdout else "(no output)"`.
abbrev preview : Option Text → Text
preview none = codes "(no output)"
preview (some []) = codes "(no output)"
preview (some (c ∷ cs)) = strip (c ∷ cs)

-- What follows `terminal.execute`, on the task as it is then.
unfoldable pub after_diagnostic :
    Answers → AgentAction → TerminalCommandResult → Agent → Done × Agent
after_diagnostic answers action r agent =
    let category = classify (is_timeout r.status) (is_rejected r.status) r.exit_code r.stderr in
    let kept = record agent {
      state = record agent.state { outputs = agent.state.outputs ++ or_empty r.stdout ∷ [] };
    } in
    if not (is_completed r.status)
    then (
      raised (
          action_failure category (elim r.error_message [
            | none ↦ text (codes "Diagnostic failed.")
            | some m ↦ refused m
          ])),
      agent,
    )
    else summarize_observed answers action (codes "Diagnostic completed: " ++ preview r.stdout) kept

-- The answer of `terminal.execute`, which is none where it raises.
unfoldable pub after_execute :
    Answers → AgentAction → Option TerminalCommandResult → Agent → Done × Agent
after_execute answers action none agent = (raised (propagated from_service), agent)
after_execute answers action (some r) agent = after_diagnostic answers action r agent

-- `terminal.execute` under a decision of the policy engine, unless it denies.
unfoldable pub run_decided : AgentAction → PolicyDecision → Agent → Done × Agent
run_decided action decision agent =
    let executed =
      with_log
        (called action.action_type action.id (command decision (is_allow decision.verdict))
          ∷ agent.log)
        agent in
    if is_deny decision.verdict
    then (raised (action_failure "policy_restriction" (denied decision.reasons)), agent)
    else (awaits (diagnoses action), executed)

unfoldable pub diagnose_in : Answers → AgentAction → TargetScope → Agent → Done × Agent
diagnose_in answers action scope agent =
    run_decided action
      (Policy.evaluate
        (record {
          action_id = answers.evidence_id;
          action_type = echo_test;
          risk_tier = RiskTier.low;
          target = scope;
        })
        answers.now)
      agent

unfoldable pub do_run_diagnostic : Answers → AgentAction → Agent → Done × Agent
do_run_diagnostic answers action agent = elim answers.target_scope [
  | none ↦ (fail "policy_restriction" "No target scope available for execution.", agent)
  | some scope ↦ diagnose_in answers action scope agent
]
