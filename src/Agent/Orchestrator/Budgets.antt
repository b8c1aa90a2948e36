-- ===== src/Agent/Orchestrator/Budgets.antt =====
-- The budgets of a task (services/agent_orchestrator/budget.py, orchestrator.py): the invariant, and
-- what the implementations of the actions count.
pub mod Reachable
use cyber_tracker_ai.Base.{
  ℕ, zero, suc, ◌+◌, ◌-◌, ◌*◌, ◌^◌, ◌≤◌, ◌<◌, min, max, String, ◌≡◌, refl, sym, ap, ◌∙◌, ◌≢◌, ◌↔◌,
  ◌⊎◌, inl, inr, Bool, true, false, not, ◌&&◌, ◌||◌, Option, none, some, List, [], ◌∷◌, ◌++◌, map,
  arith, ltb, leb, Comparable, ◌==◌, nat_eq, string_eq, if◌then◌else◌, Bool-cases, Option-cases,
  length, any, all, find, filter, count, last?, All, length-append, count-append, count-le-length,
  All-append,
}
use cyber_tracker_ai.Base.Dict.{Dict, get, put, get-put}
use cyber_tracker_ai.Base.Text.{Text, codes, strip, contains, lower, text_eq}
use cyber_tracker_ai.Base.Result.{Result, ok, err}
use cyber_tracker_ai.Policy.{PolicyVerdict, PolicyDecision, TargetScope, RiskTier, ActionRequest}
use cyber_tracker_ai.Policy
use cyber_tracker_ai.Terminal.Models.{CommandStatus}
use cyber_tracker_ai.Terminal.Commands.{TerminalCommandResult}
use cyber_tracker_ai.Terminal.Templates.{echo_test}
use cyber_tracker_ai.Agent.Models.{
  ActionType, discover_target, check_environment, research_tool, install_tool, run_diagnostic,
  collect_information, analyze_output, verify_finding, generate_report, ask_user, wait_for_approval,
  complete_task, action_value, is_execution, AgentPhase, is_over, is_paused,
  is_waiting_for_approval, is_waiting_for_authorization, is_preparing, ApprovalState, EvidenceKind,
  Evidence, AgentAction, AgentError, Message, text, denied, refused, RecoveryAttempt,
  AgentTaskState, AgentBudgetConfig, check_action_budget, check_model_call_budget,
  check_installation_budget, check_retry_budget, retries_of,
}
use cyber_tracker_ai.Agent.Gate.{AgentDecision, GateDecision, OutOfScope, build_action}
use cyber_tracker_ai.Agent.Gate
use cyber_tracker_ai.Agent.Recovery.{
  classify, AdaptationDecision, AdaptationReason, decide, signature_of, decide_retry_iff,
  is_last_error,
}
use cyber_tracker_ai.Agent.Orchestrator.{
  AgentEventType, action_started, action_output, approval_required, approval_received,
  agent_started, objective_parsed, target_identified, authorization_check, recovery_started,
  task_completed, task_failed, Effect, installation, command, Entry, published, called, Agent,
  InstallationAnswer, service_failed, Answers, AgentOrchestratorError, invalid_state_transition,
  not_waiting_for_approval, budget_exceeded, from_service, Raised, action_failure, propagated, Done,
  Awaited, thinks, installs, awaits, summarized, saved, raised, emit, with_phase, is_waiting,
  change_action, find_action, summarize, new_evidence, observed, pause, resume, cancel,
  provide_clarification, approve_action, approve_found, approve_awaiting, awaiting, reject_awaiting,
  reject_action, reject_found,
}
use cyber_tracker_ai.Agent.Orchestrator.Actions.{
  perform, analyze, do_analyze, verify_pending, do_verify, do_ask_user, do_complete, wait, verify,
  last_three, is_finding, is_verified,
}
use cyber_tracker_ai.Agent.Orchestrator.Running.{
  do_discover_target, research, do_research_tool, after_installation, install_named,
  do_install_tool, after_diagnostic, run_decided, is_allow, is_deny, diagnose_in, do_run_diagnostic,
  joined,
}
use cyber_tracker_ai.Agent.Orchestrator.Step.{
  Progress, answered, suspended, block, complete_action, conclude, execute, budget_reason,
  calls_reason, not_authorized, dispatch, start_action, act, decided, think, prepared,
  execute_found, step,
}
use cyber_tracker_ai.Agent.Orchestrator.Reachable.{
  create_state, Operation, to_pause, to_resume, to_approve, to_cancel, to_clarify, to_reject, apply,
  is_fresh, Reaches, created, after,
}
use cyber_tracker_ai.Agent.Orchestrator.Recovering.{note_failure, adapt, handle_failure}

-- A number, and what an await will still count: an action and a call of the model.
abbrev pub thinks_at : Awaited → ℕ → ℕ
thinks_at thinks n = n + 1
thinks_at _ n = n

-- A number, and the installation that an await will still count.
abbrev pub installs_at : Awaited → ℕ → ℕ
installs_at (installs action tool) n = n + 1
installs_at _ n = n

unfoldable pub total : (Awaited → ℕ → ℕ) → List Awaited → ℕ
total f [] = 0
total f (w ∷ ws) = f w (total f ws)

-- A number, and what a step that went on will still count.
abbrev pub at : (Awaited → ℕ → ℕ) → Progress → ℕ → ℕ
at f (answered r) n = n
at f (suspended w) n = f w n

-- The counters are within their budgets, the retries of each kind of action included, where up to
-- `overlap` other steps of the task may wait when a step begins. The retries are exact.
pub record IsBudgeted (config : AgentBudgetConfig) (overlap : ℕ) (s : AgentTaskState) : Type 0 where
  pub actions : s.action_count ≤ config.max_actions + overlap
  pub model_calls : s.model_call_count ≤ config.max_model_calls + overlap
  pub installations : s.installation_count ≤ config.max_tool_installations + overlap
  pub retries : (key : String) → retries_of s key ≤ config.max_retries_per_action

-- The counters are within their budgets together with what the steps that wait will count.
pub record IsWithin (config : AgentBudgetConfig) (overlap thinking installing : ℕ)
    (s : AgentTaskState) : Type 0 where
  pub actions : s.action_count + thinking ≤ config.max_actions + overlap
  pub model_calls : s.model_call_count + thinking ≤ config.max_model_calls + overlap
  pub installations : s.installation_count + installing ≤ config.max_tool_installations + overlap
  pub retries : (key : String) → retries_of s key ≤ config.max_retries_per_action

abbrev pub SameCounts : AgentTaskState → AgentTaskState → Type 0
SameCounts s t =
    (t.action_count ≡ s.action_count)
    × (t.model_call_count ≡ s.model_call_count)
    × (t.installation_count ≡ s.installation_count)
    × (t.retry_count_by_action ≡ s.retry_count_by_action)

pub kept :
    (config : AgentBudgetConfig) (overlap thinking installing : ℕ) (s t : AgentTaskState)
    → SameCounts s t
    → IsWithin config overlap thinking installing s
    → IsWithin config overlap thinking installing t
unfolding retries_of
kept config overlap thinking installing s t (a, m, i, r) b = record {
  actions = rw a b.actions;
  model_calls = rw m b.model_calls;
  installations = rw i b.installations;
  retries = λ key. rw r (b.retries key);
}

-- A number, and what an implementation will still count.
abbrev pub done_at : (Awaited → ℕ → ℕ) → Done → ℕ → ℕ
done_at f (awaits w) n = f w n
done_at f _ n = n

-- An implementation counts nothing before its await, and an installation that it starts is allowed.
pub record IsCounted (config : AgentBudgetConfig) (s : AgentTaskState) (d : Done)
    (t : AgentTaskState) : Type 0 where
  pub counts : SameCounts s t
  pub thinking : (n : ℕ) → done_at thinks_at d n ≡ n
  pub installing :
      (n : ℕ)
      → (done_at installs_at d n ≡ n)
        ⊎ ((done_at installs_at d n ≡ n + 1)
            × (s.installation_count < config.max_tool_installations))

discover-IsCounted :
    (config : AgentBudgetConfig) (answers : Answers) (action : AgentAction) (agent : Agent)
    → IsCounted config agent.state
        (do_discover_target answers action agent).0
        (do_discover_target answers action agent).1.state
unfolding do_discover_target
discover-IsCounted config answers action agent = record {
  counts = ground arith;
  thinking = λ n. ground arith;
  installing = λ n. ground arith;
}

diagnostic-IsCounted :
    (config : AgentBudgetConfig) (answers : Answers) (action : AgentAction) (agent : Agent)
    → IsCounted config agent.state
        (do_run_diagnostic answers action agent).0
        (do_run_diagnostic answers action agent).1.state
unfolding do_run_diagnostic diagnose_in run_decided
diagnostic-IsCounted config answers action agent = record {
  counts = ground arith;
  thinking = λ n. ground arith;
  installing = λ n. ground arith;
}

analyze-IsCounted :
    (config : AgentBudgetConfig) (answers : Answers) (action : AgentAction) (agent : Agent)
    → IsCounted config agent.state
        (do_analyze answers action agent).0
        (do_analyze answers action agent).1.state
unfolding do_analyze analyze
analyze-IsCounted config answers action agent = record {
  counts = ground arith;
  thinking = λ n. ground arith;
  installing = λ n. ground arith;
}

verify-IsCounted :
    (config : AgentBudgetConfig) (action : AgentAction) (agent : Agent)
    → IsCounted config agent.state (do_verify action agent).0 (do_verify action agent).1.state
unfolding do_verify verify_pending
verify-IsCounted config action agent = record {
  counts = ground arith;
  thinking = λ n. ground arith;
  installing = λ n. ground arith;
}

install-IsCounted :
    (config : AgentBudgetConfig) (answers : Answers) (action : AgentAction) (agent : Agent)
    → IsCounted config agent.state
        (do_install_tool config answers action agent).0
        (do_install_tool config answers action agent).1.state
unfolding do_install_tool install_named check_installation_budget
install-IsCounted config answers action agent = record {
  counts = ground arith;
  thinking = λ n. ground arith;
  installing = λ n. ground arith;
}

pub perform-IsCounted :
    (config : AgentBudgetConfig) (answers : Answers) (t : ActionType) (action : AgentAction)
    (agent : Agent)
    → IsCounted config agent.state
        (perform config answers t action agent).0
        (perform config answers t action agent).1.state
unfolding perform do_ask_user do_complete wait do_research_tool
perform-IsCounted config answers discover_target action agent =
    discover-IsCounted config answers action agent
perform-IsCounted config answers install_tool action agent =
    install-IsCounted config answers action agent
perform-IsCounted config answers run_diagnostic action agent =
    diagnostic-IsCounted config answers action agent
perform-IsCounted config answers collect_information action agent =
    diagnostic-IsCounted config answers action agent
perform-IsCounted config answers analyze_output action agent =
    analyze-IsCounted config answers action agent
perform-IsCounted config answers verify_finding action agent = verify-IsCounted config action agent
perform-IsCounted config answers check_environment action agent = record {
  counts = (refl, refl, refl, refl);
  thinking = λ n. refl;
  installing = λ n. inl refl;
}
perform-IsCounted config answers research_tool action agent = record {
  counts = (refl, refl, refl, refl);
  thinking = λ n. refl;
  installing = λ n. inl refl;
}
perform-IsCounted config answers ask_user action agent = record {
  counts = (refl, refl, refl, refl);
  thinking = λ n. refl;
  installing = λ n. inl refl;
}
perform-IsCounted config answers wait_for_approval action agent = record {
  counts = (refl, refl, refl, refl);
  thinking = λ n. refl;
  installing = λ n. inl refl;
}
perform-IsCounted config answers generate_report action agent = record {
  counts = (refl, refl, refl, refl);
  thinking = λ n. refl;
  installing = λ n. inl refl;
}
perform-IsCounted config answers complete_task action agent = record {
  counts = (refl, refl, refl, refl);
  thinking = λ n. refl;
  installing = λ n. inl refl;
}
