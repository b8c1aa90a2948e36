-- ===== src/Agent/Orchestrator/Budgets/Reachable.antt =====
-- The budgets of a task (services/agent_orchestrator/budget.py, orchestrator.py): every task that operations lead to.
use cyber_tracker_ai.Base.{
  ℕ, ◌+◌, ◌≤◌, sym, ap, ◌∙◌, List, [], ◌∷◌, ◌++◌, length, String, ◌≡◌, refl, inl, inr, Bool, true,
  false, Option, none, some, arith, nat_eq, string_eq, Bool-cases, Option-cases,
}
use cyber_tracker_ai.Base.Dict.{get, get-put}
use cyber_tracker_ai.Base.Text.{Text, text_eq}
use cyber_tracker_ai.Base.Result.{Result, ok, err}
use cyber_tracker_ai.Agent.Models.{
  action_value, AgentPhase, AgentAction, Message, AgentTaskState, AgentBudgetConfig,
  check_action_budget, check_model_call_budget, check_retry_budget, retries_of,
}
use cyber_tracker_ai.Agent.Gate.{AgentDecision, GateDecision, OutOfScope, build_action}
use cyber_tracker_ai.Agent.Gate
use cyber_tracker_ai.Agent.Recovery.{decide}
use cyber_tracker_ai.Agent.Orchestrator.{
  Agent, Answers, action_failure, propagated, Done, Awaited, thinks, researches, installs,
  diagnoses, summarized, awaits, saved, raised, with_phase, is_waiting, find_action, pause, resume,
  cancel, provide_clarification, approve_action, approve_found, approve_awaiting, reject_awaiting,
  reject_action, reject_found,
}
use cyber_tracker_ai.Agent.Orchestrator.Actions.{perform}
use cyber_tracker_ai.Agent.Orchestrator.Running.{
  research, after_installation, after_execute, after_diagnostic,
}
use cyber_tracker_ai.Agent.Orchestrator.Step.{
  block, complete_action, conclude, execute, dispatch, start_action, act, decided, think, prepared,
  execute_found, step, land, Progress, answered, suspended,
}
use cyber_tracker_ai.Agent.Orchestrator.Reachable.{
  create_state, Operation, apply, Reaches, created, after, stepped, landed, waiting_with,
}
use cyber_tracker_ai.Agent.Orchestrator.Recovering.{note_failure, adapt, handle_failure}
use cyber_tracker_ai.Agent.Orchestrator.Budgets.{
  IsBudgeted, IsWithin, IsCounted, SameCounts, perform-IsCounted, kept, thinks_at, installs_at,
  total, at, done_at,
}

-- The task is within its budgets after a step went on.
abbrev IsGone : AgentBudgetConfig → ℕ → ℕ → ℕ → Progress × Agent → Type 0
IsGone config overlap thinking installing r =
    IsWithin config overlap (at thinks_at r.0 thinking) (at installs_at r.0 installing) r.1.state

handle_failure-IsWithin :
    (config : AgentBudgetConfig) (overlap t i : ℕ) (answers : Answers) (action : AgentAction)
    (category : String) (message : Message) (agent : Agent)
    → IsWithin config overlap t i agent.state
    → IsWithin config overlap t i
        (handle_failure config answers action category message agent).state
unfolding handle_failure note_failure decide adapt check_retry_budget retries_of
handle_failure-IsWithin config overlap t i answers action category message agent b = record {
  actions = ground (arith, b.actions);
  model_calls = ground (arith, b.model_calls);
  installations = ground (arith, b.installations);
  retries = λ key. ground (
    arith,
    b.retries key,
    b.retries (action_value action.action_type),
    string_eq.equals_iff (action_value action.action_type) key,
    get-put agent.state.retry_count_by_action (action_value action.action_type) key
        (retries_of agent.state (action_value action.action_type) + 1),
  );
}

conclude-IsWithin :
    (config : AgentBudgetConfig) (overlap t i : ℕ) (answers : Answers) (action : AgentAction)
    (d : Done) (agent : Agent)
    → IsWithin config overlap (done_at thinks_at d t) (done_at installs_at d i) agent.state
    → IsGone config overlap t i (conclude config answers action d agent)
unfolding conclude complete_action
conclude-IsWithin config overlap t i answers action (summarized summary) agent b =
    kept config overlap t i agent.state (complete_action answers.now action summary agent).state
      (refl, refl, refl, refl) b
conclude-IsWithin config overlap t i answers action (awaits w) agent b = b
conclude-IsWithin config overlap t i answers action saved agent b = b
conclude-IsWithin config overlap t i answers action (raised (action_failure category message)) agent
      b =
    handle_failure-IsWithin config overlap t i answers action category message agent b
conclude-IsWithin config overlap t i answers action (raised (propagated error)) agent b = b

-- What an implementation started is within the budget, beside at most `overlap` others.
started :
    (config : AgentBudgetConfig) (overlap t i : ℕ) (s : AgentTaskState) (d : Done)
    (s' : AgentTaskState)
    → i ≤ overlap
    → IsCounted config s d s'
    → IsWithin config overlap t i s
    → IsWithin config overlap (done_at thinks_at d t) (done_at installs_at d i) s'
started config overlap t i s d s' few c b =
    let same = kept config overlap t i s s' c.counts b in
    record {
      actions = rw (c.thinking t) same.actions;
      model_calls = rw (c.thinking t) same.model_calls;
      installations = ground (arith, c.installing i, same.installations, few, c.counts);
      retries = same.retries;
    }

execute-IsWithin :
    (config : AgentBudgetConfig) (overlap t i : ℕ) (answers : Answers) (action : AgentAction)
    (agent : Agent)
    → i ≤ overlap
    → IsWithin config overlap t i agent.state
    → IsGone config overlap t i (execute config answers action agent)
unfolding execute
execute-IsWithin config overlap t i answers action agent few b =
    let executing : Agent = record agent { state = with_phase AgentPhase.executing agent.state } in
    let r = perform config answers action.action_type action executing in
    conclude-IsWithin config overlap t i answers action r.0 r.1 (
      started config overlap t i executing.state r.0 r.1.state few
        (perform-IsCounted config answers action.action_type action executing)
        (kept config overlap t i agent.state executing.state (refl, refl, refl, refl) b))

dispatch-IsWithin :
    (config : AgentBudgetConfig) (overlap t i : ℕ) (answers : Answers) (action : AgentAction)
    (allowed asks : Bool) (agent : Agent)
    → i ≤ overlap
    → IsWithin config overlap t i agent.state
    → IsGone config overlap t i (dispatch config answers action allowed asks agent)
unfolding dispatch
dispatch-IsWithin config overlap t i answers action false asks agent few b =
    kept config overlap t i agent.state (dispatch config answers action false asks agent).1.state
      (refl, refl, refl, refl) b
dispatch-IsWithin config overlap t i answers action true true agent few b =
    kept config overlap t i agent.state (dispatch config answers action true true agent).1.state
      (refl, refl, refl, refl) b
dispatch-IsWithin config overlap t i answers action true false agent few b =
    execute-IsWithin config overlap t i answers action agent few b

-- A step that was thinking counts an action and a call of the model, or stops.
decided-IsWithin :
    (config : AgentBudgetConfig) (overlap t i : ℕ) (answers : Answers)
    (d : Result Text AgentDecision) (agent : Agent)
    → i ≤ overlap
    → IsWithin config overlap (t + 1) i agent.state
    → IsGone config overlap t i (decided config answers d agent)
unfolding decided act start_action block retries_of
decided-IsWithin config overlap t i answers (err message) agent few b = record {
  actions = omega (arith, b.actions);
  model_calls = omega (arith, b.model_calls);
  installations = b.installations;
  retries = b.retries;
}
decided-IsWithin config overlap t i answers (ok decision) agent few b =
    let counted : Agent = record agent {
      state = record agent.state { model_call_count = agent.state.model_call_count + 1 };
    } in
    elim (Gate.evaluate counted.state decision)
      as (λ g. IsGone config overlap t i (act config answers decision g counted)) [
        | err outside ↦ record {
          actions = omega (arith, b.actions);
          model_calls = omega (arith, b.model_calls);
          installations = b.installations;
          retries = b.retries;
        }
        | ok gate ↦
            let action = build_action decision gate answers.action_id in
            dispatch-IsWithin config overlap t i answers action gate.allowed
              action.requires_approval (start_action action counted) few
              (record {
                actions = omega (arith, b.actions);
                model_calls = omega (arith, b.model_calls);
                installations = b.installations;
                retries = b.retries;
              })
      ]

think-IsWithin :
    (config : AgentBudgetConfig) (overlap t i : ℕ) (answers : Answers) (agent : Agent)
    → t ≤ overlap
    → IsWithin config overlap t i agent.state
    → IsGone config overlap t i (think config answers agent)
unfolding think block check_action_budget check_model_call_budget retries_of
think-IsWithin config overlap t i answers agent few b = record {
  actions = ground (arith, b.actions, few);
  model_calls = ground (arith, b.model_calls, few);
  installations = ground (arith, b.installations);
  retries = λ key. ground (arith, b.retries key);
}

execute_found-IsWithin :
    (config : AgentBudgetConfig) (overlap t i : ℕ) (answers : Answers) (found : Option AgentAction)
    (agent : Agent)
    → i ≤ overlap
    → IsWithin config overlap t i agent.state
    → IsGone config overlap t i (execute_found config answers found agent)
unfolding execute_found
execute_found-IsWithin config overlap t i answers none agent few b = b
execute_found-IsWithin config overlap t i answers (some action) agent few b =
    let cleared : Agent = record agent {
      state = record agent.state { pending_action_id = none };
    } in
    execute-IsWithin config overlap t i answers action cleared few
      (kept config overlap t i agent.state cleared.state (refl, refl, refl, refl) b)

step-IsWithin :
    (config : AgentBudgetConfig) (overlap t i : ℕ) (answers : Answers) (agent : Agent)
    → t ≤ overlap
    → i ≤ overlap
    → IsWithin config overlap t i agent.state
    → IsGone config overlap t i (step config answers agent)
unfolding step
step-IsWithin config overlap t i answers agent few few' b =
    elim (Bool-cases (is_waiting agent.state.phase)) [
      | inl waits ↦ rw waits b
      | inr runs ↦ elim (Option-cases (prepared agent.state)) [
        | inl nothing ↦ rw runs (rw nothing (think-IsWithin config overlap t i answers agent few b))
        | inr (id, ready) ↦ rw runs (
            rw ready (
              execute_found-IsWithin config overlap t i answers (find_action id agent.state.actions)
                agent few' b))
      ]
    ]

land-IsWithin :
    (config : AgentBudgetConfig) (overlap t i : ℕ) (answers : Answers) (w : Awaited) (agent : Agent)
    → i ≤ overlap
    → IsWithin config overlap (thinks_at w t) (installs_at w i) agent.state
    → IsGone config overlap t i (land config answers w agent)
unfolding land research after_installation after_execute after_diagnostic retries_of
land-IsWithin config overlap t i answers thinks agent few b =
    decided-IsWithin config overlap t i answers answers.reasoner agent few b
land-IsWithin config overlap t i answers (researches action capability) agent few b =
    let r = research answers action capability (answers.discover capability) agent in
    conclude-IsWithin config overlap t i answers action r.0 r.1 (record {
      actions = ground (arith, b.actions);
      model_calls = ground (arith, b.model_calls);
      installations = ground (arith, b.installations);
      retries = λ key. ground (arith, b.retries key);
    })
land-IsWithin config overlap t i answers (installs action tool) agent few b =
    let r = after_installation answers action tool agent in
    conclude-IsWithin config overlap t i answers action r.0 r.1 (record {
      actions = ground (arith, b.actions);
      model_calls = ground (arith, b.model_calls);
      installations = ground (arith, b.installations);
      retries = λ key. ground (arith, b.retries key);
    })
land-IsWithin config overlap t i answers (diagnoses action) agent few b =
    let r = after_execute answers action answers.diagnostic agent in
    conclude-IsWithin config overlap t i answers action r.0 r.1 (record {
      actions = ground (arith, b.actions);
      model_calls = ground (arith, b.model_calls);
      installations = ground (arith, b.installations);
      retries = λ key. ground (arith, b.retries key);
    })

apply-counts : (o : Operation) (agent : Agent) → SameCounts agent.state (apply o agent).state
unfolding apply pause resume cancel provide_clarification approve_action approve_found reject_action
    reject_found approve_awaiting reject_awaiting
apply-counts o agent = ground arith

total-append :
    (f : Awaited → ℕ → ℕ) (us : List Awaited) (w : Awaited) (vs : List Awaited)
    → ((u v : Awaited) (n : ℕ) → f u (f v n) ≡ f v (f u n))
    → total f (us ++ w ∷ vs) ≡ f w (total f (us ++ vs))
unfolding total
total-append f [] w vs commute = refl
total-append f (u ∷ us) w vs commute =
    ap (f u) (total-append f us w vs commute) ∙ commute u w (total f (us ++ vs))

total-waiting_with :
    (f : Awaited → ℕ → ℕ) (p : Progress) (ws : List Awaited)
    → total f (waiting_with p ws) ≡ at f p (total f ws)
unfolding total waiting_with
total-waiting_with f (answered r) ws = refl
total-waiting_with f (suspended w) ws = refl

thinks_at-commute :
    (u v : Awaited) (n : ℕ) → thinks_at u (thinks_at v n) ≡ thinks_at v (thinks_at u n)
thinks_at-commute u v n = ground arith

installs_at-commute :
    (u v : Awaited) (n : ℕ) → installs_at u (installs_at v n) ≡ installs_at v (installs_at u n)
installs_at-commute u v n = ground arith

total-le-length :
    (f : Awaited → ℕ → ℕ) (ws : List Awaited)
    → ((w : Awaited) (n : ℕ) → f w n ≤ n + 1)
    → total f ws ≤ length ws
unfolding total
total-le-length f [] one = omega arith
total-le-length f (w ∷ ws) one = omega (arith, one w (total f ws), total-le-length f ws one)

thinks_at-le : (w : Awaited) (n : ℕ) → thinks_at w n ≤ n + 1
thinks_at-le w n = ground arith

installs_at-le : (w : Awaited) (n : ℕ) → installs_at w n ≤ n + 1
installs_at-le w n = ground arith

length-waiting_with :
    (p : Progress) (ws : List Awaited) → length (waiting_with p ws) ≤ length ws + 1
unfolding waiting_with
length-waiting_with (answered r) ws = omega arith
length-waiting_with (suspended w) ws = omega arith

length-insert :
    (us : List Awaited) (w : Awaited) (vs : List Awaited)
    → length (us ++ w ∷ vs) ≡ length (us ++ vs) + 1
length-insert [] w vs = omega arith
length-insert (u ∷ us) w vs = omega (arith, length-insert us w vs)

-- What holds of a task and its waiting steps.
abbrev IsCharged : AgentBudgetConfig → ℕ → List Awaited → Agent → Type 0
IsCharged config overlap ws agent =
    (length ws ≤ overlap + 1)
    × IsWithin config overlap (total thinks_at ws) (total installs_at ws) agent.state

gone :
    (config : AgentBudgetConfig) (overlap : ℕ) (ws : List Awaited) (r : Progress × Agent)
    → length ws ≤ overlap
    → IsGone config overlap (total thinks_at ws) (total installs_at ws) r
    → IsCharged config overlap (waiting_with r.0 ws) r.1
gone config overlap ws r few g = (
  omega (arith, few, length-waiting_with r.0 ws),
  rw (total-waiting_with thinks_at r.0 ws) (rw (total-waiting_with installs_at r.0 ws) g),
)

Reaches-IsCharged :
    (config : AgentBudgetConfig) (overlap : ℕ) (ws : List Awaited) (agent : Agent)
    → Reaches config overlap ws agent
    → IsCharged config overlap ws agent
unfolding create_state retries_of get total
Reaches-IsCharged config overlap ws agent (created id now target target_type status) = (
  omega arith,
  record {
    actions = omega arith;
    model_calls = omega arith;
    installations = omega arith;
    retries = λ key. omega arith;
  },
)
Reaches-IsCharged config overlap _ _ (after ws before o r) =
    let c = Reaches-IsCharged config overlap ws before r in
    (
      c.0,
      kept config overlap (total thinks_at ws) (total installs_at ws) before.state
          (apply o before).state (apply-counts o before) c.1,
    )
Reaches-IsCharged config overlap _ _ (stepped ws before answers few r) =
    gone config overlap ws (step config answers before) few (
      step-IsWithin config overlap (total thinks_at ws) (total installs_at ws) answers before
        (omega (arith, few, total-le-length thinks_at ws thinks_at-le))
        (omega (arith, few, total-le-length installs_at ws installs_at-le))
        (Reaches-IsCharged config overlap ws before r).1)
Reaches-IsCharged config overlap _ _ (landed us w vs before answers fresh r) =
    let c = Reaches-IsCharged config overlap (us ++ w ∷ vs) before r in
    let few : length (us ++ vs) ≤ overlap = omega (arith, c.0, length-insert us w vs) in
    gone config overlap (us ++ vs) (land config answers w before) few (
      land-IsWithin config overlap (total thinks_at (us ++ vs)) (total installs_at (us ++ vs))
        answers w before (omega (arith, few, total-le-length installs_at (us ++ vs) installs_at-le))
        (rw (sym (total-append thinks_at us w vs thinks_at-commute))
          (rw (sym (total-append installs_at us w vs installs_at-commute)) c.1)))

-- Whatever the model and the services answer, and however the operations on a task and its steps
-- interleave at the awaits: where a step begins while at most `overlap` others wait, the actions, the
-- calls of the model and the installations of the task are at most `overlap` above their configured
-- budgets (so exactly within them where the steps do not overlap), and the retries of each kind of
-- action are within theirs.
pub Reaches-IsBudgeted :
    (config : AgentBudgetConfig) (overlap : ℕ) (ws : List Awaited) (agent : Agent)
    → Reaches config overlap ws agent
    → IsBudgeted config overlap agent.state
Reaches-IsBudgeted config overlap ws agent r =
    let b = (Reaches-IsCharged config overlap ws agent r).1 in
    record {
      actions = omega (arith, b.actions);
      model_calls = omega (arith, b.model_calls);
      installations = omega (arith, b.installations);
      retries = b.retries;
    }
