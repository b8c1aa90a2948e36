-- ===== src/Agent/Orchestrator.antt =====
-- One task of the orchestrator (services/agent_orchestrator/orchestrator.py): its lifecycle and the
-- reasoning step. The task is the one object that the in-memory registry hands to every operation. A
-- step runs up to an await of the reasoner or of a service, and lands after it on the task as the
-- operations in between left it; the answers are arguments. The log holds, newest first, the events
-- that are published and the calls on the services that reach the operating system.
pub mod Running
pub mod Actions
pub mod Recovering
pub mod Step
pub mod Reachable
pub mod Budgets
pub mod Safety
pub mod Failures
pub mod Approval
use cyber_tracker_ai.Base.{
  ℕ, zero, suc, ◌+◌, ◌-◌, ◌*◌, ◌^◌, ◌≤◌, ◌<◌, min, max, String, ◌≡◌, refl, sym, ap, ◌∙◌, ◌≢◌, ◌↔◌,
  ◌⊎◌, inl, inr, Bool, true, false, not, ◌&&◌, ◌||◌, Option, none, some, List, [], ◌∷◌, ◌++◌, map,
  arith, ltb, leb, Comparable, ◌==◌, nat_eq, string_eq, if◌then◌else◌, Bool-cases, Option-cases,
  length, any, all, find, filter, count, last?, All, length-append, count-append, count-le-length,
  All-append,
}
use cyber_tracker_ai.Base.Dict.{Dict, get, put}
use cyber_tracker_ai.Base.Text.{Text, codes, strip, contains, lower, text_eq}
use cyber_tracker_ai.Base.Result.{Result, ok, err}
use cyber_tracker_ai.Policy.{PolicyVerdict, PolicyDecision, TargetScope, RiskTier, ActionRequest}
use cyber_tracker_ai.Policy
use cyber_tracker_ai.Terminal.Models.{CommandStatus}
use cyber_tracker_ai.Terminal.Commands.{TerminalCommandResult}
use cyber_tracker_ai.Agent.Models.{
  ActionType, discover_target, check_environment, research_tool, install_tool, run_diagnostic,
  collect_information, analyze_output, verify_finding, generate_report, ask_user, wait_for_approval,
  complete_task, action_value, AgentPhase, is_over, is_paused, is_waiting_for_approval,
  is_waiting_for_authorization, is_preparing, ApprovalState, EvidenceKind, Evidence, AgentAction,
  AgentError, Message, text, RecoveryAttempt, AgentTaskState, AgentBudgetConfig,
  check_action_budget, check_model_call_budget, check_installation_budget, retries_of,
}
use cyber_tracker_ai.Agent.Gate.{AgentDecision, GateDecision, OutOfScope, build_action}
use cyber_tracker_ai.Agent.Gate
use cyber_tracker_ai.Agent.Recovery.{
  classify, AdaptationDecision, AdaptationReason, decide, signature_of,
}

pub data AgentEventType : Type 0 where
  agent_started objective_parsed target_identified authorization_check : AgentEventType
  action_started action_output approval_required approval_received : AgentEventType
  recovery_started task_completed task_failed task_paused task_resumed : AgentEventType

-- A call on the installation service or on the terminal engine.
pub data Effect : Type 0 where
  installation : Text → Effect
  command : PolicyDecision → Bool → Effect

pub data Entry : Type 0 where
  published : AgentEventType → Option ℕ → Entry
  called : ActionType → ℕ → Effect → Entry

pub record Agent : Type 0 where
  pub state : AgentTaskState
  pub log : List Entry

-- How the installation of a tool ends: an exception of a service, a request that is blocked, or the
-- state in which it finished; both with the error message.
pub data InstallationAnswer : Type 0 where
  service_failed : InstallationAnswer
  blocked : Option Text → InstallationAnswer
  finished : String → Option Text → InstallationAnswer

-- What a step waits for while other operations run: the reasoner's decision, the candidates for a
-- capability, the calls of the installation service, or the terminal engine.
pub data Awaited : Type 0 where
  thinks : Awaited
  researches installs : AgentAction → Text → Awaited
  diagnoses : AgentAction → Awaited

-- What the services answer in one step. `environment` is the summary of the inspected platform,
-- `proposal` what an injected healing engine suggests, `diagnostic` is none where the terminal
-- engine raises.
pub record Answers : Type 0 where
  pub now : ℕ
  pub action_id : ℕ
  pub evidence_id : ℕ
  pub reasoner : Result Text AgentDecision
  pub environment : Text
  pub discover : Text → List Text
  pub is_registered : Text → Bool
  pub target_scope : Option TargetScope
  pub installation : InstallationAnswer
  pub diagnostic : Option TerminalCommandResult
  pub proposal : Option Text

-- What leaves an operation instead of the state.
pub data AgentOrchestratorError : Type 0 where
  invalid_state_transition not_waiting_for_approval budget_exceeded from_service :
      AgentOrchestratorError

pub data Raised : Type 0 where
  action_failure : String → Message → Raised
  propagated : AgentOrchestratorError → Raised

-- How the implementation of an action ends, or waits: with a summary, with the state already saved,
-- raised, or at the await of a service.
pub data Done : Type 0 where
  summarized : Text → Done
  awaits : Awaited → Done
  saved : Done
  raised : Raised → Done

abbrev pub emit : AgentEventType → Option ℕ → List Entry → List Entry
emit event_type id log = published event_type id ∷ log

abbrev pub with_phase : AgentPhase → AgentTaskState → AgentTaskState
with_phase phase s = record s { phase = phase }

-- The phases in which a step changes nothing.
abbrev pub is_waiting : AgentPhase → Bool
is_waiting phase =
    is_over phase
    || is_paused phase
    || is_waiting_for_approval phase
    || is_waiting_for_authorization phase

-- An action is one object that the list and the code share: a change of it is a change in the list.
unfoldable pub change_action : ℕ → (AgentAction → AgentAction) → List AgentAction → List AgentAction
change_action id f [] = []
change_action id f (a ∷ as') =
    let rest = change_action id f as' in if a.id == id then f a ∷ as' else a ∷ rest

unfoldable pub find_action : ℕ → List AgentAction → Option AgentAction
find_action id [] = none
find_action id (a ∷ as') = let rest = find_action id as' in if a.id == id then some a else rest

abbrev pub summarize : ℕ → Text → AgentTaskState → AgentTaskState
summarize id words s = record s {
  actions = change_action id (λ a. record a { result_summary = some (text words) }) s.actions;
}

abbrev pub new_evidence : Answers → EvidenceKind → AgentAction → Text → Evidence
new_evidence answers kind action summary = record {
  id = answers.evidence_id;
  kind = kind;
  summary = summary;
  source_action_id = some action.id;
}

abbrev pub observed : Answers → AgentAction → Text → AgentTaskState → AgentTaskState
observed answers action summary s = record s {
  observations =
      s.observations ++ new_evidence answers EvidenceKind.observation action summary ∷ [];
}

-- The lifecycle.
unfoldable pub pause : Agent → Result AgentOrchestratorError (Unit {0}) × Agent
pause agent = if is_over agent.state.phase then (err invalid_state_transition, agent) else (
  ok tt,
  record {
    state = with_phase AgentPhase.paused agent.state;
    log = emit task_paused none agent.log;
  },
)

unfoldable pub resume : Agent → Result AgentOrchestratorError (Unit {0}) × Agent
resume agent =
    if not (is_paused agent.state.phase) then (err invalid_state_transition, agent) else (
      ok tt,
      record {
        state = with_phase AgentPhase.planning agent.state;
        log = emit task_resumed none agent.log;
      },
    )

unfoldable pub cancel : ℕ → Agent → Result AgentOrchestratorError (Unit {0}) × Agent
cancel now agent = if is_over agent.state.phase then (ok tt, agent) else (
  ok tt,
  record agent {
    state = record agent.state {
      is_cancelled = true;
      phase = AgentPhase.cancelled;
      completed_at = some now;
    };
  },
)

unfoldable pub provide_clarification :
    ℕ → Text → Agent → Result AgentOrchestratorError (Unit {0}) × Agent
provide_clarification fresh answer agent =
    if not (is_waiting_for_authorization agent.state.phase)
    then (err invalid_state_transition, agent)
    else (
      ok tt,
      record agent {
        state = record agent.state {
          observations =
              agent.state.observations
              ++ record {
                id = fresh;
                kind = EvidenceKind.observation;
                summary = codes "User clarification: " ++ answer;
                source_action_id = none;
              }
                ∷ [];
          clarification_question = none;
          unknowns = filter (λ u. not (contains (lower u) (lower answer))) agent.state.unknowns;
          phase = AgentPhase.planning;
        };
      },
    )

-- The identifier of the action that waits for approval.
abbrev pub awaiting : AgentTaskState → Option ℕ
awaiting s = if is_waiting_for_approval s.phase then s.pending_action_id else none

unfoldable pub approve_found :
    ℕ → Option AgentAction → Agent → Result AgentOrchestratorError (Unit {0}) × Agent
approve_found id none agent = (err invalid_state_transition, agent)
approve_found id (some action) agent = (
  ok tt,
  record {
    state = record agent.state {
      actions =
          change_action id (λ a. record a { approval_state = ApprovalState.approved })
            agent.state.actions;
      approval_state = ApprovalState.approved;
      phase = AgentPhase.preparing;
    };
    log = emit approval_received (some id) agent.log;
  },
)

unfoldable pub approve_awaiting :
    Option ℕ → Agent → Result AgentOrchestratorError (Unit {0}) × Agent
approve_awaiting none agent = (err not_waiting_for_approval, agent)
approve_awaiting (some id) agent = approve_found id (find_action id agent.state.actions) agent

unfoldable pub approve_action : Agent → Result AgentOrchestratorError (Unit {0}) × Agent
approve_action agent = approve_awaiting (awaiting agent.state) agent

unfoldable pub reject_found :
    ℕ → Text → ℕ → Option AgentAction → Agent → Result AgentOrchestratorError (Unit {0}) × Agent
reject_found now reason id none agent = (err invalid_state_transition, agent)
reject_found now reason id (some action) agent = (
  ok tt,
  record agent {
    state = record agent.state {
      actions =
          change_action id
            (λ a. record a {
              approval_state = ApprovalState.rejected;
              result_summary = some (text (codes "Rejected: " ++ reason));
            })
            agent.state.actions;
      approval_state = ApprovalState.rejected;
      pending_action_id = none;
      phase = AgentPhase.blocked;
      completed_at = some now;
    };
  },
)

unfoldable pub reject_awaiting :
    ℕ → Text → Option ℕ → Agent → Result AgentOrchestratorError (Unit {0}) × Agent
reject_awaiting now reason none agent = (err not_waiting_for_approval, agent)
reject_awaiting now reason (some id) agent =
    reject_found now reason id (find_action id agent.state.actions) agent

unfoldable pub reject_action : ℕ → Text → Agent → Result AgentOrchestratorError (Unit {0}) × Agent
reject_action now reason agent = reject_awaiting now reason (awaiting agent.state) agent
