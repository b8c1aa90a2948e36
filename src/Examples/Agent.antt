-- ===== src/Examples/Agent.antt =====
-- A task of the agent (services/agent_orchestrator): an installation that is asked for, approved and
-- run, and two steps that overlap.
use cyber_tracker_ai.Base.{
  ℕ, ◌+◌, ◌<◌, ◌≡◌, refl, ◌↔◌, ◌≢◌, ◌⊎◌, ◌++◌, ◌∷◌, arith, true, false, none, some, [], nat_eq,
  string_eq,
}
use cyber_tracker_ai.Base.Dict.{get, put}
use cyber_tracker_ai.Base.Text.{Text, codes, text_eq}
use cyber_tracker_ai.Base.Result.{ok}
use cyber_tracker_ai.Agent.Models.{
  ActionType, check_environment, AgentPhase, AgentAction, install_tool, ask_user, ApprovalState,
  AgentBudgetConfig, check_action_budget, check_model_call_budget, check_installation_budget,
  retries_of,
}
use cyber_tracker_ai.Agent.Gate.{AgentDecision, GateDecision, OutOfScope, build_action}
use cyber_tracker_ai.Agent.Gate
use cyber_tracker_ai.Agent.Recovery.{AdaptationDecision, decide, decide_retry_iff}
use cyber_tracker_ai.Agent.Orchestrator.{
  thinks, installs, installation, called, published, approval_received, cancel, Agent,
  InstallationAnswer, Answers, change_action, find_action, approve_action, approve_found,
  approve_awaiting,
}
use cyber_tracker_ai.Agent.Orchestrator.Actions.{perform}
use cyber_tracker_ai.Agent.Orchestrator.Running.{after_installation, install_named, do_install_tool}
use cyber_tracker_ai.Agent.Orchestrator.Step.{
  complete_action, conclude, execute, dispatch, start_action, act, decided, think, execute_found,
  step, land, suspended,
}
use cyber_tracker_ai.Agent.Orchestrator.Reachable.{
  create_state, to_approve, to_cancel, apply, Reaches, created, after, stepped, landed,
  waiting_with,
}
use cyber_tracker_ai.Agent.Gate.{evaluate_iff, is_elsewhere, IsInstallOrDiagnostic, StaysOn}
use cyber_tracker_ai.Agent.Recovery.{IsFinal}
use cyber_tracker_ai.Agent.Orchestrator.Budgets.{IsBudgeted}
use cyber_tracker_ai.Agent.Orchestrator.Budgets.Reachable.{Reaches-IsBudgeted}
use cyber_tracker_ai.Agent.Orchestrator.Safety.{is_authorized, is_vetted}
use cyber_tracker_ai.Agent.Orchestrator.Safety.Reachable.{Reaches-is_vetted}
use cyber_tracker_ai.Agent.Orchestrator.Approval.{approve-installs}

abbrev pub config : AgentBudgetConfig
config = record {
  max_task_duration_seconds = 1800;
  max_actions = 40;
  max_retries_per_action = 2;
  max_tool_installations = 3;
  max_model_calls = 60;
  max_concurrent_tasks = 5;
}

abbrev nmap : Text
nmap = codes "nmap"

abbrev wish : ActionType → AgentDecision
wish action_type = record {
  action_type = action_type;
  next_action = codes "go on";
  required_capability = none;
  tool = some nmap;
  target = none;
  requires_approval = false;
}

abbrev answers : ActionType → ℕ → Answers
answers action_type id = record {
  now = 100;
  action_id = id;
  evidence_id = id + 1000;
  reasoner = ok (wish action_type);
  environment = codes "Platform LINUX, package managers: ['apt'].";
  discover = λ capability. [];
  is_registered = λ tool. true;
  target_scope = some (record { id = 1; is_active = true; expires_at = none });
  installation = InstallationAnswer.finished "INSTALLED" none;
  diagnostic = none;
  proposal = none;
}

abbrev fresh_task : Agent
fresh_task = create_state 1 50 (some (codes "10.0.0.5")) none "AUTHORIZED"

abbrev thinking : Agent
thinking = (step config (answers install_tool 7) fresh_task).1

abbrev asked : Agent
asked = (land config (answers install_tool 7) thinks thinking).1

abbrev granted : Agent
granted = apply to_approve asked

abbrev installing : Agent
installing = (step config (answers install_tool 8) granted).1

abbrev the_installation : AgentAction
the_installation =
    record (build_action (wish install_tool) (record { allowed = true; requires_approval = true })
      7) { approval_state = ApprovalState.approved }

abbrev installed : Agent
installed = (land config (answers install_tool 8) (installs the_installation nmap) installing).1

abbrev unauthorized_task : Agent
unauthorized_task = create_state 1 50 none none "UNKNOWN"

installed-Reaches : Reaches config 0 [] installed
unfolding create_state apply approve_action approve_awaiting approve_found step think decided act
    Gate.evaluate is_elsewhere build_action dispatch start_action check_action_budget
    check_model_call_budget find_action change_action execute_found execute perform do_install_tool
    install_named after_installation conclude complete_action check_installation_budget put get land
    waiting_with codes
installed-Reaches =
    let answers' = answers install_tool 8 in
    landed [] (installs the_installation nmap) [] installing answers' refl (
      stepped [] granted answers' (omega arith) (
        after [] asked to_approve (
          landed [] thinks [] thinking (answers install_tool 7) refl (
            stepped [] fresh_task (answers install_tool 7) (omega arith)
              (created 1 50 (some (codes "10.0.0.5")) none "AUTHORIZED")))))

Reaches-is_vetted_example : is_vetted (is_authorized installed.state) installed.log ≡ true
Reaches-is_vetted_example = Reaches-is_vetted config 0 [] installed installed-Reaches

Reaches-IsBudgeted_example : IsBudgeted config 0 installed.state
Reaches-IsBudgeted_example = Reaches-IsBudgeted config 0 [] installed installed-Reaches

evaluate_iff_example :
    (Gate.evaluate unauthorized_task.state (wish install_tool)
      ≡ ok (record { allowed = true; requires_approval = true }))
    ↔ ((IsInstallOrDiagnostic install_tool
          → unauthorized_task.state.authorization_status ≡ "AUTHORIZED")
        × StaysOn none unauthorized_task.state.target
        × ((true ≡ true) ↔ ((false ≡ true) ⊎ IsInstallOrDiagnostic install_tool)))
evaluate_iff_example = evaluate_iff unauthorized_task.state (wish install_tool) true

decide_retry_iff_example :
    (decide config fresh_task.state "INSTALL_TOOL" "timeout" ≡ AdaptationDecision.retry) ↔ (
      (fresh_task.state.last_error_signature
        ≢ some (codes "INSTALL_TOOL" ++ b':' ∷ codes "timeout"))
      × (¬ IsFinal "timeout")
      × (retries_of fresh_task.state "INSTALL_TOOL" < 2))
decide_retry_iff_example = decide_retry_iff config fresh_task.state "INSTALL_TOOL" "timeout"

approve-installs_example :
    ((step config (answers ask_user 8) granted).0 ≡ suspended (installs the_installation nmap))
    × ((step config (answers ask_user 8) granted).1.log
        ≡ called install_tool 7 (installation nmap)
          ∷ published approval_received (some 7)
          ∷ asked.log)
    × ((step config (answers ask_user 8) granted).1.state.pending_action_id ≡ none)
unfolding create_state step think land decided act Gate.evaluate is_elsewhere build_action dispatch
    start_action check_action_budget check_model_call_budget find_action check_installation_budget
    codes
approve-installs_example =
    approve-installs config (answers ask_user 8) 7
      (build_action (wish install_tool) (record { allowed = true; requires_approval = true }) 7)
      b'n' (codes "map") (record { id = 1; is_active = true; expires_at = none }) asked refl refl
      refl refl (omega arith) refl refl

abbrev one_action : AgentBudgetConfig
one_action = record config { max_actions = 1 }

-- Two steps that wait for the reasoner at the same time.
abbrev both_thinking : Agent
both_thinking =
    (step one_action (answers check_environment 8)
      (step one_action (answers check_environment 7) fresh_task).1).1

abbrev both_landed : Agent
both_landed =
    (land one_action (answers check_environment 8) thinks
      (land one_action (answers check_environment 7) thinks both_thinking).1).1

-- Both pass the budget of one action.
overlapping_steps_exceed : both_landed.state.action_count ≡ 2
unfolding create_state step think land decided act Gate.evaluate is_elsewhere build_action dispatch
    start_action check_action_budget check_model_call_budget execute perform conclude
    complete_action
overlapping_steps_exceed = refl

-- A task that is cancelled while a step waits for the reasoner goes on when the step lands.
cancelled_goes_on :
    (land config (answers check_environment 7) thinks (apply (to_cancel 90) thinking)).1.state.phase
    ≡ AgentPhase.observing
unfolding create_state apply cancel step think land decided act Gate.evaluate is_elsewhere
    build_action dispatch start_action check_action_budget check_model_call_budget execute perform
    conclude complete_action
cancelled_goes_on = refl
