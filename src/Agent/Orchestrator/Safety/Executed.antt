-- ===== src/Agent/Orchestrator/Safety/Executed.antt =====
-- The authorization and the approval of INSTALL_TOOL and RUN_DIAGNOSTIC actions before their calls on
-- a service (services/agent_orchestrator/orchestrator.py, policy_gate.py): an action up to
-- its await or its end.
use cyber_tracker_ai.Base.{ℕ, String, refl, inl, some, arith, nat_eq, string_eq}
use cyber_tracker_ai.Base.Text.{Text, text_eq}
use cyber_tracker_ai.Agent.Models.{
  action_value, AgentPhase, AgentAction, Message, text, AgentBudgetConfig,
}
use cyber_tracker_ai.Agent.Recovery.{AdaptationDecision, decide}
use cyber_tracker_ai.Agent.Orchestrator.{
  Agent, Answers, action_failure, propagated, Done, awaits, summarized, saved, raised, with_phase,
}
use cyber_tracker_ai.Agent.Orchestrator.Actions.{perform}
use cyber_tracker_ai.Agent.Orchestrator.Step.{complete_action, conclude, execute}
use cyber_tracker_ai.Agent.Orchestrator.Recovering.{note_failure, adapt, handle_failure}
use cyber_tracker_ai.Agent.Orchestrator.Safety.{
  is_vetted, IsSafe, IsFollowed, IsFollowed-IsSafe, has_execution-change_action,
}
use cyber_tracker_ai.Agent.Orchestrator.Safety.Performed.{
  IsAllowed, IsPerformed-IsSafe, perform-IsPerformed,
}

handle_failure-IsFollowed :
    (config : AgentBudgetConfig) (answers : Answers) (action : AgentAction) (category : String)
    (message : Message) (agent : Agent)
    → IsFollowed agent (handle_failure config answers action category message agent)
unfolding handle_failure note_failure adapt is_vetted
handle_failure-IsFollowed config answers action category message agent =
    let noted : Agent = record agent {
      state = note_failure answers action category message agent.state;
    } in
    elim (decide config noted.state (action_value action.action_type) category)
      as (λ d. IsFollowed agent (adapt d answers.now action category noted)) [
        | AdaptationDecision.retry ↦ record {
          status = refl;
          pending = inl refl;
          phase = refl;
          actions = λ p.
              has_execution-change_action action.id p
                (λ a. record a { error_category = some category; result_summary = some message })
                agent.state.actions (λ a. refl) (λ a. refl);
          log = λ authorized. refl;
        }
        | AdaptationDecision.ask_user ↦ record {
          status = refl;
          pending = inl refl;
          phase = refl;
          actions = λ p.
              has_execution-change_action action.id p
                (λ a. record a { error_category = some category; result_summary = some message })
                agent.state.actions (λ a. refl) (λ a. refl);
          log = λ authorized. refl;
        }
        | AdaptationDecision.fail reason ↦ record {
          status = refl;
          pending = inl refl;
          phase = refl;
          actions = λ p.
              has_execution-change_action action.id p
                (λ a. record a { error_category = some category; result_summary = some message })
                agent.state.actions (λ a. refl) (λ a. refl);
          log = λ authorized. refl;
        }
      ]

complete_action-IsFollowed :
    (now : ℕ) (action : AgentAction) (summary : Text) (agent : Agent)
    → IsFollowed agent (complete_action now action summary agent)
unfolding complete_action is_vetted
complete_action-IsFollowed now action summary agent = record {
  status = refl;
  pending = inl refl;
  phase = ground arith;
  actions = λ p.
      has_execution-change_action action.id p
        (λ a. record a { result_summary = some (text summary); completed_at = some now })
        agent.state.actions (λ a. refl) (λ a. refl);
  log = λ authorized. refl;
}

pub conclude-IsSafe :
    (config : AgentBudgetConfig) (answers : Answers) (action : AgentAction) (d : Done)
    (agent : Agent)
    → IsSafe agent
    → IsSafe (conclude config answers action d agent).1
unfolding conclude
conclude-IsSafe config answers action (summarized summary) agent safe =
    IsFollowed-IsSafe agent (complete_action answers.now action summary agent)
      (complete_action-IsFollowed answers.now action summary agent) safe
conclude-IsSafe config answers action (awaits w) agent safe = safe
conclude-IsSafe config answers action saved agent safe = safe
conclude-IsSafe config answers action (raised (action_failure category message)) agent safe =
    IsFollowed-IsSafe agent (handle_failure config answers action category message agent)
      (handle_failure-IsFollowed config answers action category message agent) safe
conclude-IsSafe config answers action (raised (propagated error)) agent safe = safe

pub execute-IsSafe :
    (config : AgentBudgetConfig) (answers : Answers) (action : AgentAction) (agent : Agent)
    → IsAllowed action agent
    → IsSafe agent
    → IsSafe (execute config answers action agent).1
unfolding execute
execute-IsSafe config answers action agent allowed safe =
    let executing : Agent = record agent { state = with_phase AgentPhase.executing agent.state } in
    let r = perform config answers action.action_type action executing in
    conclude-IsSafe config answers action r.0 r.1 (
      IsPerformed-IsSafe action executing r.1
        (perform-IsPerformed config answers action.action_type action executing refl)
        (record { call = allowed.call; own = allowed.own }) refl
        (record {
          vetted = safe.vetted;
          pending = safe.pending;
          approved = λ id h e. ground (arith, h);
        }))
