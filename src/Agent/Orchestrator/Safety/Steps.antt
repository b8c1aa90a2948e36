-- ===== src/Agent/Orchestrator/Safety/Steps.antt =====
-- The authorization and the approval of INSTALL_TOOL and RUN_DIAGNOSTIC actions before their calls on
-- a service (services/agent_orchestrator/orchestrator.py, policy_gate.py): the step and its
-- landing.
use cyber_tracker_ai.Base.{
  ℕ, ◌+◌, ◌≡◌, refl, sym, inl, inr, Bool, true, false, Option, none, some, arith, nat_eq, string_eq,
  Bool-cases, Option-cases,
}
use cyber_tracker_ai.Base.Text.{Text, text_eq}
use cyber_tracker_ai.Base.Result.{Result, ok, err}
use cyber_tracker_ai.Agent.Models.{
  ActionType, is_execution, AgentAction, text, AgentTaskState, AgentBudgetConfig,
  check_action_budget, check_model_call_budget,
}
use cyber_tracker_ai.Agent.Gate.{AgentDecision, GateDecision, OutOfScope, build_action}
use cyber_tracker_ai.Agent.Gate
use cyber_tracker_ai.Agent.Orchestrator.{
  Agent, Answers, Awaited, thinks, researches, installs, diagnoses, is_waiting, find_action,
}
use cyber_tracker_ai.Agent.Orchestrator.Step.{
  block, budget_reason, calls_reason, not_authorized, dispatch, start_action, act, decided, think,
  prepared, execute_found, step, land,
}
use cyber_tracker_ai.Agent.Orchestrator.Reachable.{is_fresh}
use cyber_tracker_ai.Agent.Orchestrator.Safety.{
  is_authorized, approved_before, IsAlike-IsSafe, is_vetted, has_execution, IsSafe, IsFollowed,
  IsFollowed-IsSafe, has_execution-change_action, has_execution-append, has_execution-fresh,
  has_execution-find_action,
}
use cyber_tracker_ai.Agent.Orchestrator.Safety.Executed.{execute-IsSafe, conclude-IsSafe}
use cyber_tracker_ai.Agent.Orchestrator.Safety.Running.{
  research-IsAlike, after_installation-IsAlike, after_execute-IsAlike,
}
use cyber_tracker_ai.Agent.Orchestrator.Running.{research, after_installation, after_execute}

-- What the checkpoint promises of a decision that it answers.
IsGated : AgentTaskState → ActionType → GateDecision → Type 0
IsGated s t gate =
    (gate.allowed ≡ true → is_execution t ≡ true → is_authorized s ≡ true)
    × (is_execution t ≡ true → gate.requires_approval ≡ true)

evaluate-IsGated :
    (s : AgentTaskState) (decision : AgentDecision) (gate : GateDecision)
    → Gate.evaluate s decision ≡ ok gate
    → IsGated s decision.action_type gate
unfolding Gate.evaluate IsGated
evaluate-IsGated s decision gate h = ground arith

dispatch-IsSafe :
    (config : AgentBudgetConfig) (answers : Answers) (action : AgentAction) (allowed asks : Bool)
    (agent : Agent)
    → (allowed ≡ true → is_execution action.action_type ≡ true → is_authorized agent.state ≡ true)
    → (is_execution action.action_type ≡ true → asks ≡ true)
    → (has_execution action.id agent.state.actions ≡ true → is_execution action.action_type ≡ true)
    → IsSafe agent
    → IsSafe (dispatch config answers action allowed asks agent).1
unfolding dispatch is_vetted
dispatch-IsSafe config answers action false asks agent gated strict own safe =
    IsFollowed-IsSafe agent (dispatch config answers action false asks agent).1
      (record {
        status = refl;
        pending = inl refl;
        phase = refl;
        actions = λ p.
            has_execution-change_action action.id p
              (λ a. record a {
                result_summary = some (text (not_authorized agent.state.authorization_status));
              })
              agent.state.actions (λ a. refl) (λ a. refl);
        log = λ authorized. refl;
      })
      safe
dispatch-IsSafe config answers action true true agent gated strict own safe = record {
  vetted = safe.vetted;
  pending = λ id h e. ground (arith, h, e, own, gated);
  approved = λ id h e. ground (arith, h);
}
dispatch-IsSafe config answers action true false agent gated strict own safe =
    execute-IsSafe config answers action agent
      (record { call = ground (arith, strict); own = λ h. ground (arith, strict, own, h) }) safe

start_action-IsSafe :
    (action : AgentAction) (agent : Agent)
    → is_fresh action.id agent ≡ true
    → IsSafe agent
    → IsSafe (start_action action agent)
unfolding start_action is_vetted approved_before
start_action-IsSafe action agent fresh safe = record {
  vetted = safe.vetted;
  pending = λ id h e. ground (
    arith,
    fresh,
    h,
    e,
    has_execution-append id action agent.state.actions,
    safe.pending id,
    nat_eq.equals_iff id action.id,
    nat_eq.equals_iff action.id id,
  );
  approved = λ id h e. ground (arith, safe.approved id h e);
}

start_action-own :
    (action : AgentAction) (agent : Agent)
    → is_fresh action.id agent ≡ true
    → has_execution action.id (start_action action agent).state.actions ≡ true
    → is_execution action.action_type ≡ true
unfolding start_action
start_action-own action agent fresh e = ground (
  arith,
  fresh,
  e,
  has_execution-append action.id action agent.state.actions,
  has_execution-fresh action.id agent.state.actions,
)

act-IsSafe :
    (config : AgentBudgetConfig) (answers : Answers) (decision : AgentDecision)
    (g : Result OutOfScope GateDecision) (agent : Agent)
    → g ≡ Gate.evaluate agent.state decision
    → is_fresh answers.action_id agent ≡ true
    → IsSafe agent
    → IsSafe (act config answers decision g agent).1
unfolding act block build_action IsGated start_action
act-IsSafe config answers decision (err outside) agent same fresh safe =
    IsFollowed-IsSafe agent (act config answers decision (err outside) agent).1
      (record {
        status = refl;
        pending = inl refl;
        phase = refl;
        actions = λ p. refl;
        log = λ authorized. refl;
      })
      safe
act-IsSafe config answers decision (ok gate) agent same fresh safe =
    let action = build_action decision gate answers.action_id in
    let gated = evaluate-IsGated agent.state decision gate (sym same) in
    dispatch-IsSafe config answers action gate.allowed action.requires_approval
      (start_action action agent) gated.0 gated.1 (start_action-own action agent fresh)
      (start_action-IsSafe action agent fresh safe)

decided-IsSafe :
    (config : AgentBudgetConfig) (answers : Answers) (d : Result Text AgentDecision) (agent : Agent)
    → is_fresh answers.action_id agent ≡ true
    → IsSafe agent
    → IsSafe (decided config answers d agent).1
unfolding decided block
decided-IsSafe config answers (err message) agent fresh safe =
    IsFollowed-IsSafe agent (decided config answers (err message) agent).1
      (record {
        status = refl;
        pending = inl refl;
        phase = refl;
        actions = λ p. refl;
        log = λ authorized. refl;
      })
      safe
decided-IsSafe config answers (ok decision) agent fresh safe =
    let counted : Agent = record agent {
      state = record agent.state { model_call_count = agent.state.model_call_count + 1 };
    } in
    act-IsSafe config answers decision (Gate.evaluate counted.state decision) counted refl fresh
      (record { vetted = safe.vetted; pending = safe.pending; approved = safe.approved })

blocked-IsFollowed :
    (now : ℕ) (reason : Text) (agent : Agent)
    → IsFollowed agent (record agent { state = block now reason agent.state })
unfolding block
blocked-IsFollowed now reason agent = record {
  status = refl;
  pending = inl refl;
  phase = refl;
  actions = λ p. refl;
  log = λ authorized. refl;
}

think-IsSafe :
    (config : AgentBudgetConfig) (answers : Answers) (agent : Agent)
    → IsSafe agent
    → IsSafe (think config answers agent).1
unfolding think
think-IsSafe config answers agent safe =
    elim (Bool-cases (check_action_budget config agent.state answers.now)) [
      | inr over ↦ rw over (
          IsFollowed-IsSafe agent
            (record agent {
              state = block answers.now (budget_reason config agent.state) agent.state;
            })
            (blocked-IsFollowed answers.now (budget_reason config agent.state) agent) safe)
      | inl room ↦ elim (Bool-cases (check_model_call_budget config agent.state)) [
        | inr over ↦ rw room (
            rw over (
              IsFollowed-IsSafe agent
                (record agent { state = block answers.now (calls_reason config) agent.state })
                (blocked-IsFollowed answers.now (calls_reason config) agent) safe))
        | inl calls ↦ rw room (rw calls safe)
      ]
    ]

execute_found-IsSafe :
    (config : AgentBudgetConfig) (answers : Answers) (id : ℕ) (found : Option AgentAction)
    (agent : Agent)
    → found ≡ find_action id agent.state.actions
    → prepared agent.state ≡ some id
    → IsSafe agent
    → IsSafe (execute_found config answers found agent).1
unfolding execute_found
execute_found-IsSafe config answers id none agent same ready safe = safe
execute_found-IsSafe config answers id (some action) agent same ready safe =
    let cleared : Agent = record agent {
      state = record agent.state { pending_action_id = none };
    } in
    let f = has_execution-find_action id agent.state.actions action (sym same) in
    execute-IsSafe config answers action cleared
      (record {
        call = rw f.0 (ground (arith, f.1, ready, safe.pending id, safe.approved id));
        own = rw f.0 (λ e. ground (arith, ready, safe.pending id, e));
      })
      (record {
        vetted = safe.vetted;
        pending = λ p h. ground (arith, h);
        approved = λ p h e. ground (arith, e);
      })

pub step-IsSafe :
    (config : AgentBudgetConfig) (answers : Answers) (agent : Agent)
    → IsSafe agent
    → IsSafe (step config answers agent).1
unfolding step
step-IsSafe config answers agent safe = elim (Bool-cases (is_waiting agent.state.phase)) [
  | inl waits ↦ rw waits safe
  | inr runs ↦ elim (Option-cases (prepared agent.state)) [
    | inl nothing ↦ rw runs (rw nothing (think-IsSafe config answers agent safe))
    | inr (id, ready) ↦ rw runs (
        rw ready (
          execute_found-IsSafe config answers id (find_action id agent.state.actions) agent refl
            ready safe))
  ]
]

pub land-IsSafe :
    (config : AgentBudgetConfig) (answers : Answers) (w : Awaited) (agent : Agent)
    → is_fresh answers.action_id agent ≡ true
    → IsSafe agent
    → IsSafe (land config answers w agent).1
unfolding land
land-IsSafe config answers thinks agent fresh safe =
    decided-IsSafe config answers answers.reasoner agent fresh safe
land-IsSafe config answers (researches action capability) agent fresh safe =
    let names = answers.discover capability in
    let r = research answers action capability names agent in
    conclude-IsSafe config answers action r.0 r.1
      (IsAlike-IsSafe agent r.1 (research-IsAlike answers action capability names agent) safe)
land-IsSafe config answers (installs action tool) agent fresh safe =
    let r = after_installation answers action tool agent in
    conclude-IsSafe config answers action r.0 r.1
      (IsAlike-IsSafe agent r.1 (after_installation-IsAlike answers action tool agent) safe)
land-IsSafe config answers (diagnoses action) agent fresh safe =
    let r = after_execute answers action answers.diagnostic agent in
    conclude-IsSafe config answers action r.0 r.1 (
      IsAlike-IsSafe agent r.1 (after_execute-IsAlike answers action answers.diagnostic agent) safe)
