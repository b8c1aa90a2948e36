-- ===== src/Agent/Orchestrator/Safety/Performed.antt =====
-- The authorization and the approval of INSTALL_TOOL and RUN_DIAGNOSTIC actions before their calls on
-- a service (services/agent_orchestrator/orchestrator.py, policy_gate.py): the implementations
-- of the actions.
use cyber_tracker_ai.Agent.Orchestrator.Safety.{IsPerformed, alike, is_caller}
use cyber_tracker_ai.Base.{
  ℕ, ◌≡◌, refl, sym, ◌∙◌, ◌⊎◌, inl, inr, Bool, true, false, not, ◌&&◌, ◌||◌, none, some, List, ◌∷◌,
  arith, nat_eq, string_eq,
}
use cyber_tracker_ai.Base.Text.{codes, text_eq}
use cyber_tracker_ai.Agent.Models.{
  ActionType, discover_target, check_environment, research_tool, install_tool, run_diagnostic,
  collect_information, analyze_output, verify_finding, generate_report, ask_user, wait_for_approval,
  complete_task, is_execution, is_preparing, AgentAction, text, AgentBudgetConfig,
}
use cyber_tracker_ai.Agent.Orchestrator.{
  task_completed, Effect, Entry, published, called, Agent, Answers,
}
use cyber_tracker_ai.Agent.Orchestrator.Actions.{
  perform, analyze, do_analyze, verify_pending, do_verify, do_ask_user, do_complete, wait,
}
use cyber_tracker_ai.Agent.Orchestrator.Running.{do_research_tool}
use cyber_tracker_ai.Agent.Orchestrator.Safety.{
  is_authorized, approved_before, is_vetted, has_execution, IsSafe, has_execution-change_action,
}
use cyber_tracker_ai.Agent.Orchestrator.Safety.Running.{
  diagnostic-IsPerformed, discover-IsPerformed, install-IsPerformed,
}

analyze-IsPerformed :
    (answers : Answers) (action : AgentAction) (agent : Agent)
    → IsPerformed action agent (do_analyze answers action agent).1
unfolding do_analyze analyze
analyze-IsPerformed answers action agent =
    alike action agent (do_analyze answers action agent).1 (ground arith) (ground arith)

verify-IsPerformed :
    (action : AgentAction) (agent : Agent) → IsPerformed action agent (do_verify action agent).1
unfolding do_verify verify_pending
verify-IsPerformed action agent =
    alike action agent (do_verify action agent).1 (ground arith) (ground arith)

complete-IsPerformed :
    (now : ℕ) (action : AgentAction) (agent : Agent)
    → IsPerformed action agent (do_complete now action agent)
unfolding do_complete
complete-IsPerformed now action agent = record {
  status = refl;
  pending = inl refl;
  phase = λ h. ground arith;
  actions = λ p.
      has_execution-change_action action.id p
        (λ a. record a {
          result_summary = some (text (codes "Task marked complete."));
          completed_at = some now;
        })
        agent.state.actions (λ a. refl) (λ a. refl);
  log = inr (inl refl);
}

ask-IsPerformed :
    (action : AgentAction) (agent : Agent) → IsPerformed action agent (do_ask_user action agent)
unfolding do_ask_user
ask-IsPerformed action agent = record {
  status = refl;
  pending = inl refl;
  phase = λ h. ground arith;
  actions = λ p.
      has_execution-change_action action.id p
        (λ a. record a { result_summary = some (text (codes "Awaiting user clarification.")) })
        agent.state.actions (λ a. refl) (λ a. refl);
  log = inl refl;
}

wait-IsPerformed :
    (action : AgentAction) (agent : Agent) → IsPerformed action agent (wait action agent)
unfolding wait
wait-IsPerformed action agent = record {
  status = refl;
  pending = inr refl;
  phase = λ h. ground arith;
  actions = λ p. refl;
  log = inl refl;
}

pub perform-IsPerformed :
    (config : AgentBudgetConfig) (answers : Answers) (t : ActionType) (action : AgentAction)
    (agent : Agent)
    → action.action_type ≡ t
    → IsPerformed action agent (perform config answers t action agent).1
unfolding perform do_research_tool
perform-IsPerformed config answers check_environment action agent h =
    alike action agent (perform config answers check_environment action agent).1
      (refl, refl, refl, refl) (inl refl)
perform-IsPerformed config answers discover_target action agent h =
    discover-IsPerformed answers action agent
perform-IsPerformed config answers research_tool action agent h =
    alike action agent agent (refl, refl, refl, refl) (inl refl)
perform-IsPerformed config answers install_tool action agent h =
    install-IsPerformed config answers action agent (rw h refl)
perform-IsPerformed config answers run_diagnostic action agent h =
    diagnostic-IsPerformed answers action agent (rw h refl)
perform-IsPerformed config answers collect_information action agent h =
    diagnostic-IsPerformed answers action agent (rw h refl)
perform-IsPerformed config answers analyze_output action agent h =
    analyze-IsPerformed answers action agent
perform-IsPerformed config answers verify_finding action agent h = verify-IsPerformed action agent
perform-IsPerformed config answers ask_user action agent h = ask-IsPerformed action agent
perform-IsPerformed config answers wait_for_approval action agent h = wait-IsPerformed action agent
perform-IsPerformed config answers generate_report action agent h =
    complete-IsPerformed answers.now action agent
perform-IsPerformed config answers complete_task action agent h =
    complete-IsPerformed answers.now action agent

-- The action may run: one that installs or runs something is approved, on an authorized task.
pub record IsAllowed (action : AgentAction) (agent : Agent) : Type 0 where
  pub call :
      (not (is_execution action.action_type)
        || is_authorized agent.state && approved_before action.id agent.log)
      ≡ true
  pub own : has_execution action.id agent.state.actions ≡ true → is_authorized agent.state ≡ true

vetted-log :
    (action : AgentAction) (authorized : Bool) (old new : List Entry)
    → (not (is_execution action.action_type) || authorized && approved_before action.id old) ≡ true
    → is_vetted authorized old ≡ true
    → (new ≡ old)
      ⊎ (new ≡ published task_completed none ∷ old)
      ⊎ ((effect : Effect) × (new ≡ called action.action_type action.id effect ∷ old)
          × (is_caller action.action_type ≡ true))
    → is_vetted authorized new ≡ true
unfolding is_vetted
vetted-log action authorized old new call vetted (inl h) = rw h vetted
vetted-log action authorized old new call vetted (inr (inl h)) = rw h vetted
vetted-log action authorized old new call vetted (inr (inr (effect, h, calls))) =
    rw h (ground arith)

pub IsPerformed-IsSafe :
    (action : AgentAction) (agent b : Agent)
    → IsPerformed action agent b
    → IsAllowed action agent
    → is_preparing agent.state.phase ≡ false
    → IsSafe agent
    → IsSafe b
IsPerformed-IsSafe action agent b p allowed phase safe = record {
  vetted = rw p.status (
      vetted-log action (is_authorized agent.state) agent.log b.log allowed.call safe.vetted p.log);
  pending = λ id h e. rw p.status (elim p.pending [
    | inl same ↦ safe.pending id (sym same ∙ h) (sym (p.actions id) ∙ e)
    | inr own ↦ allowed.own (ground (arith, p.actions action.id, e, own, h))
  ]);
  approved = λ id h e. ground (arith, p.phase, phase, h);
}
