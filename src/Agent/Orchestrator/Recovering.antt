-- ===== src/Agent/Orchestrator/Recovering.antt =====
-- What follows a failed action (services/agent_orchestrator/orchestrator.py).
use cyber_tracker_ai.Base.{ℕ, ◌+◌, String, none, some, List, [], ◌∷◌, ◌++◌, nat_eq, string_eq}
use cyber_tracker_ai.Base.Dict.{put}
use cyber_tracker_ai.Base.Text.{codes, text_eq}
use cyber_tracker_ai.Agent.Models.{
  action_value, AgentPhase, AgentAction, Message, RecoveryAttempt, AgentTaskState,
  AgentBudgetConfig, retries_of,
}
use cyber_tracker_ai.Agent.Recovery.{AdaptationDecision, decide, signature_of}
use cyber_tracker_ai.Agent.Orchestrator.{
  recovery_started, task_failed, Agent, Answers, emit, change_action,
}

-- The failure is written to the action and to the task, with the proposal of the healing engine.
unfoldable pub note_failure :
    Answers → AgentAction → String → Message → AgentTaskState → AgentTaskState
note_failure answers action category message s = record s {
  actions =
      change_action action.id
        (λ a. record a { error_category = some category; result_summary = some message }) s.actions;
  errors =
      s.errors
      ++ record { action_id = some action.id; category = category; message = message } ∷ [];
  recovery_attempts = s.recovery_attempts ++ elim answers.proposal [
    | none ↦ []
    | some kind ↦
        record {
          action_id = action.id;
          error_category = category;
          strategy = codes "proposed:" ++ kind;
        }
        ∷ []
  ];
}

abbrev attempted : AgentAction → String → String → AgentTaskState → List RecoveryAttempt
attempted action category strategy s =
    s.recovery_attempts
    ++ record { action_id = action.id; error_category = category; strategy = codes strategy } ∷ []

unfoldable pub adapt : AdaptationDecision → ℕ → AgentAction → String → Agent → Agent
unfolding retries_of signature_of
adapt AdaptationDecision.retry now action category agent =
    let key = action_value action.action_type in
    record {
      state = record agent.state {
        retry_count_by_action =
            put agent.state.retry_count_by_action key (retries_of agent.state key + 1);
        last_error_signature = some (signature_of key category);
        recovery_attempts = attempted action category "retry" agent.state;
        phase = AgentPhase.recovering;
      };
      log = emit recovery_started none agent.log;
    }
adapt AdaptationDecision.ask_user now action category agent = record {
  state = record agent.state {
    recovery_attempts = attempted action category "ask_user" agent.state;
    clarification_question =
        some (
          codes "'"
          ++ codes category
          ++ codes "' likely needs a different tool/capability choice.");
    phase = AgentPhase.waiting_for_authorization;
  };
  log = emit recovery_started none agent.log;
}
adapt (AdaptationDecision.fail reason) now action category agent = record {
  state = record agent.state { phase = AgentPhase.failed; completed_at = some now };
  log = emit task_failed none agent.log;
}

unfoldable pub handle_failure :
    AgentBudgetConfig → Answers → AgentAction → String → Message → Agent → Agent
handle_failure config answers action category message agent =
    let noted : Agent = record agent {
      state = note_failure answers action category message agent.state;
    } in
    adapt (decide config noted.state (action_value action.action_type) category) answers.now action
      category noted
