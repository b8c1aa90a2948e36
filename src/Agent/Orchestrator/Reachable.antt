-- ===== src/Agent/Orchestrator/Reachable.antt =====
-- A task from its creation on (services/agent_orchestrator/orchestrator.py): the operations in any
-- order, and the steps that wait at their awaits meanwhile.
use cyber_tracker_ai.Base.{
  ℕ, String, ◌≡◌, Bool, true, false, not, ◌&&◌, Option, none, some, List, [], ◌∷◌, ◌++◌, ◌≤◌,
  length, ◌==◌, nat_eq, string_eq, if◌then◌else◌, any,
}
use cyber_tracker_ai.Base.Text.{Text, text_eq}
use cyber_tracker_ai.Agent.Models.{AgentPhase, ApprovalState, AgentAction, AgentBudgetConfig}
use cyber_tracker_ai.Agent.Orchestrator.{
  Awaited, agent_started, objective_parsed, target_identified, authorization_check, Agent, Answers,
  emit, pause, resume, cancel, provide_clarification, approve_action, reject_action,
}
use cyber_tracker_ai.Agent.Orchestrator.Step.{Progress, answered, suspended, step, land}

-- `create_task`, once the limit of active tasks lets it.
unfoldable pub create_state : ℕ → ℕ → Option Text → Option Text → String → Agent
create_state fresh now target target_type authorization_status = record {
  state = record {
    id = fresh;
    target = target;
    target_type = target_type;
    authorization_status = authorization_status;
    phase =
        if authorization_status == "AUTHORIZED"
        then AgentPhase.planning
        else AgentPhase.waiting_for_authorization;
    actions = [];
    observations = [];
    findings = [];
    evidence = [];
    outputs = [];
    errors = [];
    recovery_attempts = [];
    verification_results = [];
    selected_tools = [];
    tool_capabilities = [];
    installation_state = [];
    unknowns = [];
    next_action = none;
    approval_state = ApprovalState.not_required;
    pending_action_id = none;
    is_cancelled = false;
    clarification_question = none;
    action_count = 0;
    model_call_count = 0;
    installation_count = 0;
    retry_count_by_action = [];
    last_error_signature = none;
    started_at = some now;
    completed_at = none;
  };
  log =
      let parsed = emit objective_parsed none (emit agent_started none []) in
      emit authorization_check none (elim target [
        | none ↦ parsed
        | some [] ↦ parsed
        | some (c ∷ cs) ↦ emit target_identified none parsed
      ]);
}

-- An operation on the task, with what it needs from outside.
pub data Operation : Type 0 where
  to_pause to_resume to_approve : Operation
  to_cancel : ℕ → Operation
  to_clarify : ℕ → Text → Operation
  to_reject : ℕ → Text → Operation

unfoldable pub apply : Operation → Agent → Agent
apply to_pause agent = (pause agent).1
apply to_resume agent = (resume agent).1
apply to_approve agent = (approve_action agent).1
apply (to_cancel now) agent = (cancel now agent).1
apply (to_clarify fresh answer) agent = (provide_clarification fresh answer agent).1
apply (to_reject now reason) agent = (reject_action now reason agent).1

-- A new identifier names no action of the task, the pending one included: `uuid4` never answers one
-- twice.
abbrev pub is_fresh : ℕ → Agent → Bool
is_fresh id agent =
    not (any (λ (a : AgentAction). a.id == id) agent.state.actions)
    && not (elim agent.state.pending_action_id [ none ↦ false | some p ↦ p == id ])

-- The steps that wait, after one that went on while the others wait.
unfoldable pub waiting_with : Progress → List Awaited → List Awaited
waiting_with (answered _) others = others
waiting_with (suspended w) others = w ∷ others

-- The tasks that any operations lead to, from one as `create_task` leaves it, with the steps that wait
-- at an await. A step begins while at most `overlap` others wait, and any of those that wait may be
-- the next to land.
pub data Reaches (config : AgentBudgetConfig) (overlap : ℕ) : List Awaited → Agent → Type 0 where
  created :
      (id now : ℕ) (target target_type : Option Text) (status : String)
      → Reaches config overlap [] (create_state id now target target_type status)
  after :
      (ws : List Awaited) (agent : Agent) (o : Operation)
      → Reaches config overlap ws agent
      → Reaches config overlap ws (apply o agent)
  stepped :
      (ws : List Awaited) (agent : Agent) (answers : Answers)
      → length ws ≤ overlap
      → Reaches config overlap ws agent
      → Reaches config overlap
          (waiting_with (step config answers agent).0 ws)
          (step config answers agent).1
  landed :
      (us : List Awaited) (w : Awaited) (vs : List Awaited) (agent : Agent) (answers : Answers)
      → is_fresh answers.action_id agent ≡ true
      → Reaches config overlap (us ++ w ∷ vs) agent
      → Reaches config overlap
          (waiting_with (land config answers w agent).0 (us ++ vs))
          (land config answers w agent).1
