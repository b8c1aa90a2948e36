-- ===== src/Agent/Orchestrator/Safety/Reachable.antt =====
-- The authorization and the approval of INSTALL_TOOL and RUN_DIAGNOSTIC actions before their calls on
-- a service (services/agent_orchestrator/orchestrator.py, policy_gate.py): every task that
-- operations lead to.
use cyber_tracker_ai.Base.{
  ℕ, String, ◌≡◌, refl, sym, ◌∙◌, inl, inr, true, Option, none, some, List, ◌∷◌, ◌++◌, arith,
  nat_eq, string_eq, Bool-cases,
}
use cyber_tracker_ai.Base.Text.{Text, codes, text_eq}
use cyber_tracker_ai.Agent.Models.{
  is_over, is_paused, is_waiting_for_authorization, ApprovalState, AgentAction, text,
  AgentBudgetConfig,
}
use cyber_tracker_ai.Agent.Orchestrator.{
  Agent, Awaited, find_action, pause, resume, cancel, provide_clarification, approve_action,
  approve_found, approve_awaiting, awaiting, reject_awaiting, reject_action, reject_found,
}
use cyber_tracker_ai.Agent.Orchestrator.Reachable.{
  create_state, Operation, to_pause, to_resume, to_approve, to_cancel, to_clarify, to_reject, apply,
  Reaches, created, after, stepped, landed,
}
use cyber_tracker_ai.Agent.Orchestrator.Safety.{
  is_authorized, approved_before, is_vetted, IsSafe, IsFollowed, IsFollowed-IsSafe,
  has_execution-change_action,
}
use cyber_tracker_ai.Agent.Orchestrator.Safety.Steps.{step-IsSafe, land-IsSafe}

pause-IsSafe : (agent : Agent) → IsSafe agent → IsSafe (pause agent).1
unfolding pause is_vetted
pause-IsSafe agent safe = elim (Bool-cases (is_over agent.state.phase)) [
  | inl over ↦ rw over safe
  | inr open' ↦ rw open' (record {
    vetted = safe.vetted;
    pending = safe.pending;
    approved = λ id h e. ground (arith, h);
  })
]

resume-IsSafe : (agent : Agent) → IsSafe agent → IsSafe (resume agent).1
unfolding resume is_vetted
resume-IsSafe agent safe = elim (Bool-cases (is_paused agent.state.phase)) [
  | inl paused ↦ rw paused (record {
    vetted = safe.vetted;
    pending = safe.pending;
    approved = λ id h e. ground (arith, h);
  })
  | inr other ↦ rw other safe
]

cancel-IsSafe : (now : ℕ) (agent : Agent) → IsSafe agent → IsSafe (cancel now agent).1
unfolding cancel
cancel-IsSafe now agent safe = elim (Bool-cases (is_over agent.state.phase)) [
  | inl over ↦ rw over safe
  | inr open' ↦ rw open' (record {
    vetted = safe.vetted;
    pending = safe.pending;
    approved = λ id h e. ground (arith, h);
  })
]

clarify-IsSafe :
    (fresh : ℕ) (answer : Text) (agent : Agent)
    → IsSafe agent
    → IsSafe (provide_clarification fresh answer agent).1
unfolding provide_clarification
clarify-IsSafe fresh answer agent safe =
    elim (Bool-cases (is_waiting_for_authorization agent.state.phase)) [
      | inl waits ↦ rw waits (record {
        vetted = safe.vetted;
        pending = safe.pending;
        approved = λ id h e. ground (arith, h);
      })
      | inr other ↦ rw other safe
    ]

approve_found-IsSafe :
    (id : ℕ) (found : Option AgentAction) (agent : Agent)
    → awaiting agent.state ≡ some id
    → IsSafe agent
    → IsSafe (approve_found id found agent).1
unfolding approve_found is_vetted approved_before
approve_found-IsSafe id none agent waits safe = safe
approve_found-IsSafe id (some action) agent waits safe = record {
  vetted = safe.vetted;
  pending = λ p h e. safe.pending p h (
      sym (
        has_execution-change_action id p (λ a. record a { approval_state = ApprovalState.approved })
          agent.state.actions (λ a. refl) (λ a. refl))
      ∙ e);
  approved = λ p h e. ground (arith, waits, e, nat_eq.equals_iff id p);
}

approve_awaiting-IsSafe :
    (waiting : Option ℕ) (agent : Agent)
    → awaiting agent.state ≡ waiting
    → IsSafe agent
    → IsSafe (approve_awaiting waiting agent).1
unfolding approve_awaiting
approve_awaiting-IsSafe none agent waits safe = safe
approve_awaiting-IsSafe (some id) agent waits safe =
    approve_found-IsSafe id (find_action id agent.state.actions) agent waits safe

reject_found-IsFollowed :
    (now : ℕ) (reason : Text) (id : ℕ) (action : AgentAction) (agent : Agent)
    → IsFollowed agent (reject_found now reason id (some action) agent).1
unfolding reject_found
reject_found-IsFollowed now reason id action agent = record {
  status = refl;
  pending = inr refl;
  phase = refl;
  actions = λ p.
      has_execution-change_action id p
        (λ a. record a {
          approval_state = ApprovalState.rejected;
          result_summary = some (text (codes "Rejected: " ++ reason));
        })
        agent.state.actions (λ a. refl) (λ a. refl);
  log = λ authorized. refl;
}

reject_found-IsSafe :
    (now : ℕ) (reason : Text) (id : ℕ) (found : Option AgentAction) (agent : Agent)
    → IsSafe agent
    → IsSafe (reject_found now reason id found agent).1
unfolding reject_found
reject_found-IsSafe now reason id none agent safe = safe
reject_found-IsSafe now reason id (some action) agent safe =
    IsFollowed-IsSafe agent (reject_found now reason id (some action) agent).1
      (reject_found-IsFollowed now reason id action agent) safe

reject_awaiting-IsSafe :
    (now : ℕ) (reason : Text) (waiting : Option ℕ) (agent : Agent)
    → IsSafe agent
    → IsSafe (reject_awaiting now reason waiting agent).1
unfolding reject_awaiting
reject_awaiting-IsSafe now reason none agent safe = safe
reject_awaiting-IsSafe now reason (some id) agent safe =
    reject_found-IsSafe now reason id (find_action id agent.state.actions) agent safe

apply-IsSafe : (o : Operation) (agent : Agent) → IsSafe agent → IsSafe (apply o agent)
unfolding apply approve_action reject_action
apply-IsSafe to_pause agent safe = pause-IsSafe agent safe
apply-IsSafe to_resume agent safe = resume-IsSafe agent safe
apply-IsSafe to_approve agent safe = approve_awaiting-IsSafe (awaiting agent.state) agent refl safe
apply-IsSafe (to_cancel now) agent safe = cancel-IsSafe now agent safe
apply-IsSafe (to_clarify id answer) agent safe = clarify-IsSafe id answer agent safe
apply-IsSafe (to_reject now reason) agent safe =
    reject_awaiting-IsSafe now reason (awaiting agent.state) agent safe

created-IsSafe :
    (id now : ℕ) (target target_type : Option Text) (status : String)
    → IsSafe (create_state id now target target_type status)
unfolding create_state is_vetted
created-IsSafe id now target target_type status = record {
  vetted = ground arith;
  pending = λ p h. ground (arith, h);
  approved = λ p h e. ground (arith, e);
}

Reaches-IsSafe :
    (config : AgentBudgetConfig) (overlap : ℕ) (ws : List Awaited) (agent : Agent)
    → Reaches config overlap ws agent
    → IsSafe agent
Reaches-IsSafe config overlap _ _ (created id now target target_type status) =
    created-IsSafe id now target target_type status
Reaches-IsSafe config overlap _ _ (after ws before o r) =
    apply-IsSafe o before (Reaches-IsSafe config overlap ws before r)
Reaches-IsSafe config overlap _ _ (stepped ws before answers few r) =
    step-IsSafe config answers before (Reaches-IsSafe config overlap ws before r)
Reaches-IsSafe config overlap _ _ (landed us w vs before answers fresh r) =
    land-IsSafe config answers w before fresh
      (Reaches-IsSafe config overlap (us ++ w ∷ vs) before r)

-- Whatever the model decides and the services answer, and however the operations on a task and its
-- steps interleave at the awaits: each call on the installation service or the terminal engine in the
-- log of the task was made by a COLLECT_INFORMATION action, which needs neither approval nor
-- authorization, or by an INSTALL_TOOL or RUN_DIAGNOSTIC action after the user approved that very
-- action, on a task that is authorized.
pub Reaches-is_vetted :
    (config : AgentBudgetConfig) (overlap : ℕ) (ws : List Awaited) (agent : Agent)
    → Reaches config overlap ws agent
    → is_vetted (is_authorized agent.state) agent.log ≡ true
Reaches-is_vetted config overlap ws agent r = (Reaches-IsSafe config overlap ws agent r).vetted
