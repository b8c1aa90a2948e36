-- ===== src/Agent/Orchestrator/Approval.antt =====
-- What an approval leads to (services/agent_orchestrator/orchestrator.py).
use cyber_tracker_ai.Base.{
  ℕ, ◌<◌, true, ◌≡◌, refl, ap, ◌∙◌, inl, inr, false, none, some, List, [], ◌∷◌, arith, ◌==◌, nat_eq,
  string_eq, Bool-cases,
}
use cyber_tracker_ai.Base.Text.{Text, text_eq}
use cyber_tracker_ai.Policy.{TargetScope}
use cyber_tracker_ai.Agent.Models.{
  ActionType, install_tool, check_installation_budget, wait_for_approval, AgentPhase, ApprovalState,
  AgentAction, AgentBudgetConfig,
}
use cyber_tracker_ai.Agent.Orchestrator.{
  installation, published, called, installs, with_phase, approval_received, Agent, Answers, emit,
  is_waiting, change_action, find_action, approve_action, approve_found, approve_awaiting, awaiting,
}
use cyber_tracker_ai.Agent.Orchestrator.Actions.{perform, wait}
use cyber_tracker_ai.Agent.Orchestrator.Running.{do_install_tool, install_named}
use cyber_tracker_ai.Agent.Orchestrator.Step.{
  Progress, suspended, conclude, execute, prepared, execute_found, step,
}
use cyber_tracker_ai.Agent.Orchestrator.Reachable.{to_approve, apply}

find_action-change_action :
    (id : ℕ) (f : AgentAction → AgentAction) (actions : List AgentAction)
    → ((a : AgentAction) → (f a).id ≡ a.id)
    → find_action id (change_action id f actions)
      ≡ (elim (find_action id actions) [ none ↦ none | some a ↦ some (f a) ])
unfolding find_action change_action
find_action-change_action id f [] same = refl
find_action-change_action id f (a ∷ as') same = elim (Bool-cases (a.id == id)) [
  | inl here ↦ ground (arith, here, same a)
  | inr other ↦ ground (arith, other, find_action-change_action id f as' same)
]

abbrev cleared : Agent → Agent
cleared agent = record agent { state = record agent.state { pending_action_id = none } }

step-prepared :
    (config : AgentBudgetConfig) (answers : Answers) (id : ℕ) (action : AgentAction) (agent : Agent)
    → is_waiting agent.state.phase ≡ false
    → prepared agent.state ≡ some id
    → find_action id agent.state.actions ≡ some action
    → step config answers agent ≡ execute config answers action (cleared agent)
unfolding step execute_found
step-prepared config answers id action agent runs ready found = rw runs (rw ready (rw found refl))

execute-wait :
    (config : AgentBudgetConfig) (answers : Answers) (action : AgentAction) (agent : Agent)
    → action.action_type ≡ wait_for_approval
    → awaiting (execute config answers action agent).1.state ≡ some action.id
unfolding execute perform wait conclude
execute-wait config answers action agent type = rw type refl

find_action-id :
    (id : ℕ) (actions : List AgentAction) (a : AgentAction)
    → find_action id actions ≡ some a
    → a.id ≡ id
unfolding find_action
find_action-id id [] a h = ground arith
find_action-id id (b ∷ bs) a h = ground (arith, find_action-id id bs a, nat_eq.equals_iff b.id id)

abbrev approve : AgentAction → AgentAction
approve a = record a { approval_state = ApprovalState.approved }

-- What the approval of the action with the identifier leaves.
abbrev approved_agent : ℕ → Agent → Agent
approved_agent id agent = record {
  state = record agent.state {
    actions = change_action id approve agent.state.actions;
    approval_state = ApprovalState.approved;
    phase = AgentPhase.preparing;
  };
  log = emit approval_received (some id) agent.log;
}

apply-approve :
    (id : ℕ) (action : AgentAction) (agent : Agent)
    → awaiting agent.state ≡ some id
    → find_action id agent.state.actions ≡ some action
    → apply to_approve agent ≡ approved_agent id agent
unfolding apply approve_action approve_awaiting approve_found
apply-approve id action agent waits found =
    ap (λ w. (approve_awaiting w agent).1) waits ∙ ap (λ f. (approve_found id f agent).1) found

-- The step after an approval goes on with the approved action, and asks neither the model nor the
-- budgets of actions and calls of the model; an installation still asks for its own budget.
approve-step :
    (config : AgentBudgetConfig) (answers : Answers) (id : ℕ) (action : AgentAction) (agent : Agent)
    → awaiting agent.state ≡ some id
    → find_action id agent.state.actions ≡ some action
    → step config answers (apply to_approve agent)
      ≡ execute config answers (approve action) (cleared (apply to_approve agent))
approve-step config answers id action agent waits found =
    let ready : agent.state.pending_action_id ≡ some id = ground (arith, waits) in
    rw (apply-approve id action agent waits found) (
      step-prepared config answers id (approve action) (approved_agent id agent) refl ready
        (find_action-change_action id approve agent.state.actions (λ a. refl) ∙ rw found refl))

-- A task that waits for the approval of a WAIT_FOR_APPROVAL action waits for the same approval again
-- after it was given and a step was taken.
wait_for_approval_returns :
    (config : AgentBudgetConfig) (answers : Answers) (id : ℕ) (action : AgentAction) (agent : Agent)
    → awaiting agent.state ≡ some id
    → find_action id agent.state.actions ≡ some action
    → action.action_type ≡ wait_for_approval
    → awaiting (step config answers (apply to_approve agent)).1.state ≡ some id
wait_for_approval_returns config answers id action agent waits found type =
    let approved = apply to_approve agent in
    ap (λ (r : Progress × Agent). awaiting r.1.state)
      (approve-step config answers id action agent waits found)
    ∙ execute-wait config answers (approve action) (cleared approved) type
    ∙ ap some (find_action-id id agent.state.actions action found)

abbrev executing : Agent → Agent
executing agent = record agent { state = with_phase AgentPhase.executing agent.state }

-- The call of an installation, and where it waits.
abbrev requested : ActionType → AgentAction → Text → Agent → Progress × Agent
requested action_type action tool agent = (
  suspended (installs action tool),
  record agent { log = called action_type action.id (installation tool) ∷ agent.log },
)

execute-installs :
    (config : AgentBudgetConfig) (answers : Answers) (action : AgentAction) (c : ℕ) (cs : Text)
    (scope : TargetScope) (agent : Agent)
    → action.action_type ≡ install_tool
    → action.tool ≡ some (c ∷ cs)
    → agent.state.installation_count < config.max_tool_installations
    → answers.is_registered (c ∷ cs) ≡ true
    → answers.target_scope ≡ some scope
    → execute config answers action agent
      ≡ requested action.action_type action (c ∷ cs) (executing agent)
unfolding execute perform do_install_tool install_named conclude check_installation_budget
execute-installs config answers action c cs scope agent type names room known aims =
    rw type (rw names (rw known (rw aims (ground (arith, room)))))

pub approve-installs :
    (config : AgentBudgetConfig) (answers : Answers) (id : ℕ) (action : AgentAction) (c : ℕ)
    (cs : Text) (scope : TargetScope) (agent : Agent)
    → awaiting agent.state ≡ some id
    → find_action id agent.state.actions ≡ some action
    → action.action_type ≡ install_tool
    → action.tool ≡ some (c ∷ cs)
    → agent.state.installation_count < config.max_tool_installations
    → answers.is_registered (c ∷ cs) ≡ true
    → answers.target_scope ≡ some scope
    → ((step config answers (apply to_approve agent)).0
        ≡ suspended (installs (approve action) (c ∷ cs)))
      × ((step config answers (apply to_approve agent)).1.log
          ≡ called install_tool id (installation (c ∷ cs))
            ∷ published approval_received (some id)
            ∷ agent.log)
      × ((step config answers (apply to_approve agent)).1.state.pending_action_id ≡ none)
approve-installs config answers id action c cs scope agent waits found type names room known aims =
    rw (approve-step config answers id action agent waits found) (
      rw (apply-approve id action agent waits found) (
        rw
          (execute-installs config answers (approve action) c cs scope
            (cleared (approved_agent id agent)) type names room known aims)
          (refl, rw type (rw (find_action-id id agent.state.actions action found) refl), refl)))
