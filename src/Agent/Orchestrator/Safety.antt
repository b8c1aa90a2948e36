-- ===== src/Agent/Orchestrator/Safety.antt =====
-- The authorization and the approval of INSTALL_TOOL and RUN_DIAGNOSTIC actions before their calls on
-- a service (services/agent_orchestrator/orchestrator.py, policy_gate.py): the invariant.
mod Running
mod Performed
mod Executed
mod Steps
pub mod Reachable
use cyber_tracker_ai.Agent.Orchestrator.{task_completed, called, Effect}
use cyber_tracker_ai.Base.{
  ℕ, zero, suc, ◌+◌, ◌-◌, ◌*◌, ◌^◌, ◌≤◌, ◌<◌, min, max, String, ◌≡◌, refl, sym, ap, ◌∙◌, ◌≢◌, ◌↔◌,
  ◌⊎◌, inl, inr, Bool, true, false, not, ◌&&◌, ◌||◌, Option, none, some, List, [], ◌∷◌, ◌++◌, map,
  arith, ltb, leb, Comparable, ◌==◌, nat_eq, string_eq, if◌then◌else◌, Bool-cases, Option-cases,
  length, any, all, find, filter, count, last?, All, length-append, count-append, count-le-length,
  All-append,
}
use cyber_tracker_ai.Base.Dict.{Dict, get, put, get-put}
use cyber_tracker_ai.Base.Text.{Text, codes, strip, contains, lower, text_eq}
use cyber_tracker_ai.Base.Result.{Result, ok, err}
use cyber_tracker_ai.Policy.{PolicyVerdict, PolicyDecision, TargetScope, RiskTier, ActionRequest}
use cyber_tracker_ai.Policy
use cyber_tracker_ai.Terminal.Models.{CommandStatus}
use cyber_tracker_ai.Terminal.Commands.{TerminalCommandResult}
use cyber_tracker_ai.Terminal.Templates.{echo_test}
use cyber_tracker_ai.Agent.Models.{
  ActionType, discover_target, check_environment, research_tool, install_tool, run_diagnostic,
  collect_information, analyze_output, verify_finding, generate_report, ask_user, wait_for_approval,
  complete_task, action_value, is_execution, AgentPhase, is_over, is_paused,
  is_waiting_for_approval, is_waiting_for_authorization, is_preparing, ApprovalState, EvidenceKind,
  Evidence, AgentAction, AgentError, Message, text, denied, refused, RecoveryAttempt,
  AgentTaskState, AgentBudgetConfig, check_action_budget, check_model_call_budget,
  check_installation_budget, check_retry_budget, retries_of,
}
use cyber_tracker_ai.Agent.Gate.{AgentDecision, GateDecision, OutOfScope, build_action}
use cyber_tracker_ai.Agent.Gate
use cyber_tracker_ai.Agent.Recovery.{
  classify, AdaptationDecision, AdaptationReason, decide, signature_of, decide_retry_iff,
  is_last_error,
}
use cyber_tracker_ai.Agent.Orchestrator.{
  AgentEventType, action_started, action_output, approval_required, approval_received,
  agent_started, objective_parsed, target_identified, authorization_check, recovery_started,
  task_completed, task_failed, Effect, installation, command, Entry, published, called, Agent,
  InstallationAnswer, service_failed, Answers, AgentOrchestratorError, invalid_state_transition,
  not_waiting_for_approval, budget_exceeded, from_service, Raised, action_failure, propagated, Done,
  summarized, saved, raised, emit, with_phase, is_waiting, change_action, find_action, summarize,
  new_evidence, observed, pause, resume, cancel, provide_clarification, approve_action,
  approve_found, approve_awaiting, awaiting, reject_awaiting, reject_action, reject_found,
}
use cyber_tracker_ai.Agent.Orchestrator.Actions.{
  perform, analyze, do_analyze, verify_pending, do_verify, do_ask_user, do_complete, wait, verify,
  last_three, is_finding, is_verified,
}
use cyber_tracker_ai.Agent.Orchestrator.Running.{
  do_discover_target, research, do_research_tool, after_installation, install_named,
  do_install_tool, after_diagnostic, run_decided, is_allow, is_deny, diagnose_in, do_run_diagnostic,
  joined,
}
use cyber_tracker_ai.Agent.Orchestrator.Step.{
  block, complete_action, conclude, execute, budget_reason, calls_reason, not_authorized, dispatch,
  start_action, act, decided, think, prepared, execute_found, step,
}
use cyber_tracker_ai.Agent.Orchestrator.Reachable.{
  create_state, Operation, to_pause, to_resume, to_approve, to_cancel, to_clarify, to_reject, apply,
  is_fresh, Reaches, created, after,
}
use cyber_tracker_ai.Agent.Orchestrator.Recovering.{note_failure, adapt, handle_failure}

abbrev pub is_authorized : AgentTaskState → Bool
is_authorized s = s.authorization_status == "AUTHORIZED"

abbrev is_approval_of : ℕ → Entry → Bool
is_approval_of id (published approval_received (some i)) = i == id
is_approval_of id _ = false

-- The log holds the approval of the action.
unfoldable pub approved_before : ℕ → List Entry → Bool
approved_before id log = any (is_approval_of id) log

abbrev is_collection : ActionType → Bool
is_collection collect_information = true
is_collection _ = false

-- The types of actions that make calls on a service that reaches the operating system.
abbrev pub is_caller : ActionType → Bool
is_caller action_type = is_collection action_type || is_execution action_type

-- Each call on a service was made by a COLLECT_INFORMATION action, or by an INSTALL_TOOL or
-- RUN_DIAGNOSTIC action after that action's approval, on a task that is authorized.
unfoldable pub is_vetted : Bool → List Entry → Bool
unfolding approved_before
is_vetted authorized [] = true
is_vetted authorized (published event_type id ∷ log) = is_vetted authorized log
is_vetted authorized (called action_type id effect ∷ log) =
    (is_collection action_type || is_execution action_type && authorized && approved_before id log)
    && is_vetted authorized log

abbrev is_execution_of : ℕ → AgentAction → Bool
is_execution_of id a = a.id == id && is_execution a.action_type

unfoldable pub has_execution : ℕ → List AgentAction → Bool
has_execution id actions = any (is_execution_of id) actions

pub record IsSafe (agent : Agent) : Type 0 where
  pub vetted : is_vetted (is_authorized agent.state) agent.log ≡ true
  pub pending :
      (id : ℕ)
      → agent.state.pending_action_id ≡ some id
      → has_execution id agent.state.actions ≡ true
      → is_authorized agent.state ≡ true
  pub approved :
      (id : ℕ)
      → is_preparing agent.state.phase ≡ true
      → agent.state.pending_action_id ≡ some id
      → approved_before id agent.log ≡ true

pub has_execution-change_action :
    (id p : ℕ) (f : AgentAction → AgentAction) (actions : List AgentAction)
    → ((a : AgentAction) → (f a).id ≡ a.id)
    → ((a : AgentAction) → (f a).action_type ≡ a.action_type)
    → has_execution p (change_action id f actions) ≡ has_execution p actions
unfolding has_execution change_action
has_execution-change_action id p f [] same_id same_type = refl
has_execution-change_action id p f (a ∷ as') same_id same_type = elim (Bool-cases (a.id == id)) [
  | inl here ↦ rw here (rw (same_id a) (rw (same_type a) refl))
  | inr other ↦ rw other (ground (arith, has_execution-change_action id p f as' same_id same_type))
]

pub has_execution-append :
    (p : ℕ) (a : AgentAction) (actions : List AgentAction)
    → has_execution p (actions ++ a ∷ []) ≡ (has_execution p actions || is_execution_of p a)
unfolding has_execution
has_execution-append p a [] = ground arith
has_execution-append p a (b ∷ bs) = ground (arith, has_execution-append p a bs)

pub has_execution-fresh :
    (p : ℕ) (actions : List AgentAction)
    → any (λ (a : AgentAction). a.id == p) actions ≡ false
    → has_execution p actions ≡ false
unfolding has_execution
has_execution-fresh p [] h = refl
has_execution-fresh p (b ∷ bs) h = ground (arith, has_execution-fresh p bs)

pub has_execution-find_action :
    (p : ℕ) (actions : List AgentAction) (a : AgentAction)
    → find_action p actions ≡ some a
    → (a.id ≡ p) × (is_execution a.action_type ≡ true → has_execution p actions ≡ true)
unfolding has_execution find_action
has_execution-find_action p [] a h = ground arith
has_execution-find_action p (b ∷ bs) a h =
    ground (arith, has_execution-find_action p bs a, nat_eq.equals_iff b.id p)

-- The next agent publishes at most events, has no new action that waits, and is not preparing one.
pub record IsFollowed (agent b : Agent) : Type 0 where
  pub status : b.state.authorization_status ≡ agent.state.authorization_status
  pub pending :
      (b.state.pending_action_id ≡ agent.state.pending_action_id)
      ⊎ (b.state.pending_action_id ≡ none)
  pub phase : is_preparing b.state.phase ≡ false
  pub actions : (p : ℕ) → has_execution p b.state.actions ≡ has_execution p agent.state.actions
  pub log : (authorized : Bool) → is_vetted authorized b.log ≡ is_vetted authorized agent.log

pub IsFollowed-IsSafe : (agent b : Agent) → IsFollowed agent b → IsSafe agent → IsSafe b
IsFollowed-IsSafe agent b f safe = record {
  vetted = rw f.status (rw (f.log (is_authorized agent.state)) safe.vetted);
  pending = λ id h e. rw f.status (elim f.pending [
    | inl same ↦ safe.pending id (sym same ∙ h) (sym (f.actions id) ∙ e)
    | inr nothing ↦ ground (arith, h, nothing)
  ]);
  approved = λ id h e. ground (arith, f.phase, h);
}

-- What an implementation does to the fields that the invariant reads.
pub record IsPerformed (action : AgentAction) (agent after' : Agent) : Type 0 where
  pub status : after'.state.authorization_status ≡ agent.state.authorization_status
  pub pending :
      (after'.state.pending_action_id ≡ agent.state.pending_action_id)
      ⊎ (after'.state.pending_action_id ≡ some action.id)
  pub phase : is_preparing after'.state.phase ≡ true → is_preparing agent.state.phase ≡ true
  pub actions : (p : ℕ) → has_execution p after'.state.actions ≡ has_execution p agent.state.actions
  pub log :
      (after'.log ≡ agent.log)
      ⊎ (after'.log ≡ published task_completed none ∷ agent.log)
      ⊎ ((effect : Effect) × (after'.log ≡ called action.action_type action.id effect ∷ agent.log)
          × (is_caller action.action_type ≡ true))

pub alike :
    (action : AgentAction) (agent b : Agent)
    → (b.state.authorization_status ≡ agent.state.authorization_status)
      × (b.state.pending_action_id ≡ agent.state.pending_action_id)
      × (b.state.phase ≡ agent.state.phase)
      × (b.state.actions ≡ agent.state.actions)
    → (b.log ≡ agent.log)
      ⊎ ((effect : Effect) × (b.log ≡ called action.action_type action.id effect ∷ agent.log)
          × (is_caller action.action_type ≡ true))
    → IsPerformed action agent b
alike action agent b (s, p, f, a) l = record {
  status = s;
  pending = inl p;
  phase = rw f (λ h. h);
  actions = λ q. ap (has_execution q) a;
  log = elim l [ inl same ↦ inl same | inr c ↦ inr (inr c) ];
}

-- What a landing leaves as it was.
abbrev pub IsAlike : Agent → Agent → Type 0
IsAlike agent b =
    (b.state.authorization_status ≡ agent.state.authorization_status)
    × (b.state.pending_action_id ≡ agent.state.pending_action_id)
    × (b.state.phase ≡ agent.state.phase)
    × (b.state.actions ≡ agent.state.actions)
    × (b.log ≡ agent.log)

pub IsAlike-IsSafe : (agent b : Agent) → IsAlike agent b → IsSafe agent → IsSafe b
IsAlike-IsSafe agent b (s, p, f, a, l) safe = record {
  vetted = rw s (rw l safe.vetted);
  pending = λ id h e. rw s (safe.pending id (sym p ∙ h) (ap (has_execution id) (sym a) ∙ e));
  approved = λ id h e. rw l (safe.approved id (ap is_preparing (sym f) ∙ h) (sym p ∙ e));
}
