-- ===== src/Agent/Orchestrator/Actions.antt =====
-- The implementations of the actions and their dispatch (services/agent_orchestrator/orchestrator.py
-- and analysis.py).
use cyber_tracker_ai.Base.{
  ℕ, Bool, true, false, Option, none, some, List, [], ◌∷◌, ◌++◌, map, ltb, ◌==◌, nat_eq, string_eq,
  if◌then◌else◌, length, filter, last?,
}
use cyber_tracker_ai.Base.Dict.{put}
use cyber_tracker_ai.Base.Text.{Text, codes, text_eq}
use cyber_tracker_ai.Agent.Models.{
  ActionType, discover_target, check_environment, research_tool, install_tool, run_diagnostic,
  collect_information, analyze_output, verify_finding, generate_report, ask_user, wait_for_approval,
  complete_task, AgentPhase, EvidenceKind, Evidence, AgentAction, text, AgentBudgetConfig,
}
use cyber_tracker_ai.Agent.Orchestrator.{
  task_completed, Agent, Answers, Done, summarized, saved, emit, change_action, summarize,
  new_evidence,
}
use cyber_tracker_ai.Agent.Orchestrator.Running.{
  do_discover_target, do_install_tool, do_research_tool, do_run_diagnostic, fail, joined,
  summarize_observed,
}

unfoldable pub analyze : Answers → AgentAction → Option Evidence → Agent → Done × Agent
analyze answers action none agent = (fail "unexpected_output" "Nothing to analyze yet.", agent)
analyze answers action (some latest) agent =
    let finding =
      new_evidence answers EvidenceKind.finding action (codes "Based on: " ++ latest.summary) in
    (
      summarized finding.summary,
      record agent {
        state = record agent.state {
          findings = agent.state.findings ++ finding ∷ [];
          evidence = agent.state.evidence ++ finding ∷ [];
        };
      },
    )

unfoldable pub do_analyze : Answers → AgentAction → Agent → Done × Agent
do_analyze answers action agent = analyze answers action (last? agent.state.observations) agent

abbrev pub is_finding : EvidenceKind → Bool
is_finding EvidenceKind.finding = true
is_finding _ = false

abbrev pub is_verified : EvidenceKind → Bool
is_verified EvidenceKind.verified_finding = true
is_verified _ = false

-- `VerificationEngine.verify` on a finding.
unfoldable pub verify : Evidence → List Text → Evidence
verify finding [] = finding
verify finding (t ∷ ts) = record finding {
  kind = EvidenceKind.verified_finding;
  summary = finding.summary ++ codes " | verified by: " ++ joined (codes "; ") (t ∷ ts);
}

-- `xs[-3:]`.
unfoldable pub last_three : List Evidence → List Evidence
last_three [] = []
last_three (x ∷ xs) = let rest = last_three xs in if ltb (length xs) 3 then x ∷ xs else rest

abbrev replace_finding : Evidence → Evidence → Evidence
replace_finding verified f = if f.id == verified.id then verified else f

unfoldable pub verify_pending : Option Evidence → Agent → Done × Agent
verify_pending none agent = (fail "unexpected_output" "No finding to verify.", agent)
verify_pending (some finding) agent =
    let corroboration = map (λ (o : Evidence). o.summary) (last_three agent.state.observations) in
    let verified = verify finding corroboration in
    (
      summarized verified.summary,
      record agent {
        state = record agent.state {
          findings = map (replace_finding verified) agent.state.findings;
          evidence = agent.state.evidence ++ verified ∷ [];
          verification_results =
              put agent.state.verification_results finding.id (is_verified verified.kind);
        };
      },
    )

unfoldable pub do_verify : AgentAction → Agent → Done × Agent
do_verify action agent =
    verify_pending (last? (filter (λ (f : Evidence). is_finding f.kind) agent.state.findings)) agent

-- `ASK_USER`: the summary is written at once, and the phase is left for the user's answer.
unfoldable pub do_ask_user : AgentAction → Agent → Agent
do_ask_user action agent = record agent {
  state = summarize action.id (codes "Awaiting user clarification.") (record agent.state {
    clarification_question = some action.expected_result;
    phase = AgentPhase.waiting_for_authorization;
  });
}

unfoldable pub do_complete : ℕ → AgentAction → Agent → Agent
do_complete now action agent = record {
  state = record agent.state {
    actions =
        change_action action.id
          (λ a. record a {
            result_summary = some (text (codes "Task marked complete."));
            completed_at = some now;
          })
          agent.state.actions;
    phase = AgentPhase.completed;
    completed_at = some now;
  };
  log = emit task_completed none agent.log;
}

unfoldable pub wait : AgentAction → Agent → Agent
wait action agent = record agent {
  state = record agent.state {
    phase = AgentPhase.waiting_for_approval;
    pending_action_id = some action.id;
  };
}

-- The dispatch in `_execute`.
unfoldable pub perform :
    AgentBudgetConfig → Answers → ActionType → AgentAction → Agent → Done × Agent
perform config answers check_environment action agent =
    summarize_observed answers action answers.environment agent
perform config answers discover_target action agent = do_discover_target answers action agent
perform config answers research_tool action agent = do_research_tool action agent
perform config answers install_tool action agent = do_install_tool config answers action agent
perform config answers run_diagnostic action agent = do_run_diagnostic answers action agent
perform config answers collect_information action agent = do_run_diagnostic answers action agent
perform config answers analyze_output action agent = do_analyze answers action agent
perform config answers verify_finding action agent = do_verify action agent
perform config answers ask_user action agent = (saved, do_ask_user action agent)
perform config answers wait_for_approval action agent = (saved, wait action agent)
perform config answers generate_report action agent = (saved, do_complete answers.now action agent)
perform config answers complete_task action agent = (saved, do_complete answers.now action agent)
