-- ===== src/Agent/Orchestrator/Step.antt =====
-- The step: one decision, its checkpoint, the action and what follows it
-- (services/agent_orchestrator/orchestrator.py), split at its awaits of the reasoner and the services.
use cyber_tracker_ai.Base.{
  ℕ, ◌+◌, String, Bool, true, false, not, Option, none, some, [], ◌∷◌, ◌++◌, leb, nat_eq, string_eq,
  if◌then◌else◌,
}
use cyber_tracker_ai.Base.Text.{Text, codes, text_eq, decimal}
use cyber_tracker_ai.Base.Result.{Result, ok, err}
use cyber_tracker_ai.Agent.Models.{
  ActionType, research_tool, analyze_output, verify_finding, AgentPhase, is_preparing,
  ApprovalState, AgentAction, text, AgentTaskState, AgentBudgetConfig, check_action_budget,
  check_model_call_budget,
}
use cyber_tracker_ai.Agent.Gate.{AgentDecision, GateDecision, OutOfScope, build_action}
use cyber_tracker_ai.Agent.Gate
use cyber_tracker_ai.Agent.Orchestrator.{
  action_started, action_output, approval_required, Agent, Answers, AgentOrchestratorError,
  invalid_state_transition, action_failure, propagated, Done, summarized, awaits, saved, raised,
  Awaited, thinks, researches, installs, diagnoses, emit, with_phase, is_waiting, change_action,
  find_action, summarize,
}
use cyber_tracker_ai.Agent.Orchestrator.Actions.{perform}
use cyber_tracker_ai.Agent.Orchestrator.Running.{research, after_installation, after_execute}
use cyber_tracker_ai.Agent.Orchestrator.Recovering.{handle_failure}

-- What a step comes to: that the state is returned, or what left it, or what it waits for.
pub data Progress : Type 0 where
  answered : Result AgentOrchestratorError (Unit {0}) → Progress
  suspended : Awaited → Progress

-- `_POST_ACTION_PHASE.get(action_type, OBSERVING)`.
abbrev post_action_phase : ActionType → AgentPhase
post_action_phase analyze_output = AgentPhase.analyzing
post_action_phase verify_finding = AgentPhase.verifying
post_action_phase research_tool = AgentPhase.researching
post_action_phase _ = AgentPhase.observing

unfoldable pub block : ℕ → Text → AgentTaskState → AgentTaskState
block now reason s = record s {
  phase = AgentPhase.blocked;
  next_action = some reason;
  completed_at = some now;
}

-- The end of `_execute` after an action that summarizes itself.
unfoldable pub complete_action : ℕ → AgentAction → Text → Agent → Agent
complete_action now action summary agent = record {
  state = record agent.state {
    actions =
        change_action action.id
          (λ a. record a { result_summary = some (text summary); completed_at = some now })
          agent.state.actions;
    phase = post_action_phase action.action_type;
  };
  log = emit action_output (some action.id) agent.log;
}

unfoldable pub conclude :
    AgentBudgetConfig → Answers → AgentAction → Done → Agent → Progress × Agent
conclude config answers action (summarized summary) agent =
    (answered (ok tt), complete_action answers.now action summary agent)
conclude config answers action (awaits w) agent = (suspended w, agent)
conclude config answers action saved agent = (answered (ok tt), agent)
conclude config answers action (raised (action_failure category message)) agent =
    (answered (ok tt), handle_failure config answers action category message agent)
conclude config answers action (raised (propagated error)) agent = (answered (err error), agent)

unfoldable pub execute : AgentBudgetConfig → Answers → AgentAction → Agent → Progress × Agent
execute config answers action agent =
    let executing : Agent = record agent { state = with_phase AgentPhase.executing agent.state } in
    let r = perform config answers action.action_type action executing in
    conclude config answers action r.0 r.1

abbrev pub not_authorized : String → Text
not_authorized status =
    codes "Authorization status is '"
    ++ codes status
    ++ codes "', not AUTHORIZED — an execution action cannot proceed."

-- What follows the checkpoint, by whether it allows the new action and whether that asks for approval.
unfoldable pub dispatch :
    AgentBudgetConfig → Answers → AgentAction → Bool → Bool → Agent → Progress × Agent
dispatch config answers action false requires_approval agent = (
  answered (ok tt),
  record agent {
    state =
        summarize action.id (not_authorized agent.state.authorization_status) (record agent.state {
          phase = AgentPhase.waiting_for_authorization;
          clarification_question = some (not_authorized agent.state.authorization_status);
        });
  },
)
dispatch config answers action true true agent = (
  answered (ok tt),
  record {
    state = record agent.state {
      phase = AgentPhase.waiting_for_approval;
      pending_action_id = some action.id;
      approval_state = ApprovalState.pending;
    };
    log = emit approval_required (some action.id) agent.log;
  },
)
dispatch config answers action true false agent = execute config answers action agent

-- The action of a decision that the checkpoint answers is appended.
unfoldable pub start_action : AgentAction → Agent → Agent
start_action action agent = record {
  state = record agent.state {
    actions = agent.state.actions ++ action ∷ [];
    action_count = agent.state.action_count + 1;
  };
  log = emit action_started (some action.id) agent.log;
}

abbrev or_empty : Option Text → Text
or_empty none = []
or_empty (some t) = t

abbrev refuse : AgentDecision → ℕ → AgentTaskState → AgentTaskState
refuse decision now s =
    let message =
      codes "Decision names target '"
      ++ or_empty decision.target
      ++ codes "', outside the task's authorized target '"
      ++ or_empty s.target
      ++ codes "'." in
    block now message (record s {
      errors =
          s.errors
          ++ record { action_id = none; category = "out_of_scope"; message = text message } ∷ [];
    })

unfoldable pub act :
    AgentBudgetConfig
    → Answers
    → AgentDecision
    → Result OutOfScope GateDecision
    → Agent
    → Progress × Agent
unfolding block
act config answers decision (err outside) agent =
    (answered (ok tt), record agent { state = refuse decision answers.now agent.state })
act config answers decision (ok gate) agent =
    let action = build_action decision gate answers.action_id in
    dispatch config answers action gate.allowed action.requires_approval (start_action action agent)

-- What follows the await of the reasoner, on the task as it is then.
unfoldable pub decided :
    AgentBudgetConfig → Answers → Result Text AgentDecision → Agent → Progress × Agent
unfolding block
decided config answers (err message) agent = (
  answered (ok tt),
  record agent {
    state = block answers.now (codes "Reasoning failed: " ++ message) (record agent.state {
      errors =
          agent.state.errors
          ++ record { action_id = none; category = "invalid_decision"; message = text message }
            ∷ [];
    });
  },
)
decided config answers (ok decision) agent =
    let counted : Agent = record agent {
      state = record agent.state { model_call_count = agent.state.model_call_count + 1 };
    } in
    act config answers decision (Gate.evaluate counted.state decision) counted

-- Why `check_action_budget` fails.
abbrev pub budget_reason : AgentBudgetConfig → AgentTaskState → Text
budget_reason config s =
    if leb config.max_actions s.action_count
    then codes "Maximum action budget reached (" ++ decimal config.max_actions ++ codes ")."
    else codes "Maximum task duration reached ("
      ++ decimal config.max_task_duration_seconds
      ++ codes ".0s)."

abbrev pub calls_reason : AgentBudgetConfig → Text
calls_reason config =
    codes "Maximum model call budget reached (" ++ decimal config.max_model_calls ++ codes ")."

unfoldable pub think : AgentBudgetConfig → Answers → Agent → Progress × Agent
unfolding block
think config answers agent =
    if not (check_action_budget config agent.state answers.now)
    then (
      answered (ok tt),
      record agent { state = block answers.now (budget_reason config agent.state) agent.state },
    )
    else if not (check_model_call_budget config agent.state)
    then (
      answered (ok tt),
      record agent { state = block answers.now (calls_reason config) agent.state },
    )
    else (suspended thinks, agent)

-- The identifier of an approved action that has not run.
abbrev pub prepared : AgentTaskState → Option ℕ
prepared s = if is_preparing s.phase then s.pending_action_id else none

unfoldable pub execute_found :
    AgentBudgetConfig → Answers → Option AgentAction → Agent → Progress × Agent
execute_found config answers none agent = (answered (err invalid_state_transition), agent)
execute_found config answers (some action) agent =
    execute config answers action
      (record agent { state = record agent.state { pending_action_id = none } })

unfoldable pub step : AgentBudgetConfig → Answers → Agent → Progress × Agent
step config answers agent =
    if is_waiting agent.state.phase
    then (answered (ok tt), agent)
    else elim (prepared agent.state) [
      | some id ↦ execute_found config answers (find_action id agent.state.actions) agent
      | none ↦ think config answers agent
    ]

-- The rest of a step after an await.
unfoldable pub land : AgentBudgetConfig → Answers → Awaited → Agent → Progress × Agent
land config answers thinks agent = decided config answers answers.reasoner agent
land config answers (researches action capability) agent =
    let r = research answers action capability (answers.discover capability) agent in
    conclude config answers action r.0 r.1
land config answers (installs action tool) agent =
    let r = after_installation answers action tool agent in conclude config answers action r.0 r.1
land config answers (diagnoses action) agent =
    let r = after_execute answers action answers.diagnostic agent in
    conclude config answers action r.0 r.1
