-- ===== src/Agent/Orchestrator/Failures.antt =====
-- Failures, waiting and verification (services/agent_orchestrator/orchestrator.py, recovery.py,
-- analysis.py): what the code does where a comment of it says something else.
use cyber_tracker_ai.Base.{
  ℕ, ◌≤◌, String, ◌≡◌, refl, sym, ap, ◌∙◌, ◌≢◌, inl, inr, Bool, true, none, some, List, [], ◌∷◌,
  ◌++◌, map, arith, nat_eq, string_eq, Option-cases, length, filter, last?,
}
use cyber_tracker_ai.Base.Dict.{get, put, get-put}
use cyber_tracker_ai.Base.Text.{Text, codes, text_eq}
use cyber_tracker_ai.Base.Result.{err}
use cyber_tracker_ai.Agent.Models.{
  install_tool, action_value, AgentPhase, EvidenceKind, Evidence, AgentAction, Message,
  AgentTaskState, AgentBudgetConfig, check_installation_budget,
}
use cyber_tracker_ai.Agent.Recovery.{
  AdaptationDecision, AdaptationReason, decide, signature_of, is_last_error,
}
use cyber_tracker_ai.Agent.Orchestrator.{
  Agent, Answers, budget_exceeded, propagated, raised, with_phase, new_evidence,
}
use cyber_tracker_ai.Agent.Orchestrator.Actions.{
  perform, analyze, do_analyze, verify_pending, do_verify, verify, last_three, is_finding,
  is_verified,
}
use cyber_tracker_ai.Agent.Orchestrator.Running.{install_named, do_install_tool}
use cyber_tracker_ai.Agent.Orchestrator.Step.{answered, complete_action, conclude, execute}
use cyber_tracker_ai.Agent.Orchestrator.Recovering.{note_failure, adapt, handle_failure}

install_named-over :
    (config : AgentBudgetConfig) (answers : Answers) (action : AgentAction) (tool : Text)
    (agent : Agent)
    → config.max_tool_installations ≤ agent.state.installation_count
    → install_named config answers action tool agent ≡ (raised (propagated budget_exceeded), agent)
unfolding install_named check_installation_budget
install_named-over config answers action tool agent over = ground (arith, over)

-- Once the installations are used up, an installation that names a tool raises BudgetExceededError
-- out of the step, and leaves the task EXECUTING.
installation_budget_escapes :
    (config : AgentBudgetConfig) (answers : Answers) (action : AgentAction) (c : ℕ) (cs : Text)
    (agent : Agent)
    → action.action_type ≡ install_tool
    → action.tool ≡ some (c ∷ cs)
    → config.max_tool_installations ≤ agent.state.installation_count
    → execute config answers action agent ≡ (
      answered (err budget_exceeded),
      record agent { state = with_phase AgentPhase.executing agent.state },
    )
unfolding execute perform do_install_tool conclude
installation_budget_escapes config answers action c cs agent installs names over =
    let executing : Agent = record agent { state = with_phase AgentPhase.executing agent.state } in
    rw installs (
      rw names (
        rw
          (install_named-over config answers
            (record action { action_type = install_tool; tool = some (c ∷ cs) }) (c ∷ cs) executing
            over)
          refl))

adapt-signature :
    (d : AdaptationDecision) (now : ℕ) (action : AgentAction) (category : String) (agent : Agent)
    → (adapt d now action category agent).state.phase ≡ AgentPhase.recovering
    → (adapt d now action category agent).state.last_error_signature
      ≡ some (signature_of (action_value action.action_type) category)
unfolding adapt
adapt-signature AdaptationDecision.retry now action category agent h = refl
adapt-signature AdaptationDecision.ask_user now action category agent h = ground arith
adapt-signature (AdaptationDecision.fail reason) now action category agent h = ground arith

handle_failure-signature :
    (config : AgentBudgetConfig) (answers : Answers) (action : AgentAction) (category : String)
    (message : Message) (agent : Agent)
    → (handle_failure config answers action category message agent).state.phase
      ≡ AgentPhase.recovering
    → (handle_failure config answers action category message agent).state.last_error_signature
      ≡ some (signature_of (action_value action.action_type) category)
unfolding handle_failure
handle_failure-signature config answers action category message agent h =
    let noted : Agent = record agent {
      state = note_failure answers action category message agent.state;
    } in
    adapt-signature (decide config noted.state (action_value action.action_type) category)
      answers.now action category noted h

decide-last_error :
    (config : AgentBudgetConfig) (s : AgentTaskState) (key category : String)
    → s.last_error_signature ≡ some (signature_of key category)
    → decide config s key category ≡ AdaptationDecision.fail AdaptationReason.repeated_failure
unfolding decide is_last_error
decide-last_error config s key category h =
    ground (arith, h, text_eq.equals_iff (signature_of key category) (signature_of key category))

handle_failure-last_error :
    (config : AgentBudgetConfig) (answers : Answers) (action : AgentAction) (category : String)
    (message : Message) (agent : Agent)
    → agent.state.last_error_signature
      ≡ some (signature_of (action_value action.action_type) category)
    → (handle_failure config answers action category message agent).state.phase ≡ AgentPhase.failed
unfolding handle_failure note_failure adapt
handle_failure-last_error config answers action category message agent h =
    rw
      (decide-last_error config (note_failure answers action category message agent.state)
        (action_value action.action_type) category h)
      refl

-- A failure that is tried again ends the task when it is the next failure of the same kind of
-- action and category, even where another action succeeded in between.
next_same_failure_ends :
    (config : AgentBudgetConfig) (answers later : Answers) (action between again : AgentAction)
    (category : String) (message other : Message) (now : ℕ) (summary : Text) (agent : Agent)
    → (handle_failure config answers action category message agent).state.phase
      ≡ AgentPhase.recovering
    → again.action_type ≡ action.action_type
    → (handle_failure config later again category other (
        complete_action now between summary
          (handle_failure config answers action category message agent))).state.phase
      ≡ AgentPhase.failed
unfolding complete_action
next_same_failure_ends config answers later action between again category message other now summary
      agent retried same =
    let first = handle_failure config answers action category message agent in
    handle_failure-last_error config later again category other
      (complete_action now between summary first)
      (rw same (handle_failure-signature config answers action category message agent retried))

last-filter-append :
    (p : Evidence → Bool) (xs : List Evidence) (x : Evidence)
    → p x ≡ true
    → last? (filter p (xs ++ x ∷ [])) ≡ some x
last-filter-append p [] x h = ground (arith, h)
last-filter-append p (y ∷ ys) x h = ground (arith, last-filter-append p ys x h)

last_three-cons : (x : Evidence) (xs : List Evidence) → length (last_three (x ∷ xs)) ≢ 0
unfolding last_three
last_three-cons x [] h = ground (arith, h)
last_three-cons x (y ∷ ys) h = ground (arith, h, last_three-cons y ys)

verify-nonempty :
    (finding : Evidence) (xs : List Evidence)
    → length xs ≢ 0
    → (verify finding (map (λ (o : Evidence). o.summary) xs)).kind ≡ EvidenceKind.verified_finding
unfolding verify
verify-nonempty finding [] h = absurd (h refl)
verify-nonempty finding (x ∷ xs) h = refl

last-cons : (o : Evidence) (os : List Evidence) → last? (o ∷ os) ≢ none
last-cons o [] h = ground (arith, h)
last-cons o (p ∷ ps) h = ground (arith, h, last-cons p ps)

do_verify-results :
    (check : AgentAction) (agent : Agent) (finding : Evidence)
    → last? (filter (λ (f : Evidence). is_finding f.kind) agent.state.findings) ≡ some finding
    → (do_verify check agent).1.state.verification_results
      ≡ put agent.state.verification_results finding.id (
          is_verified
            (verify finding
              (map (λ (o : Evidence). o.summary) (last_three agent.state.observations))).kind)
unfolding do_verify verify_pending
do_verify-results check agent finding last =
    ap (λ w. (verify_pending w agent).1.state.verification_results) last

abbrev analyzed_by : Answers → AgentAction → Evidence → Agent → Agent
analyzed_by answers action latest agent =
    let finding =
      new_evidence answers EvidenceKind.finding action (codes "Based on: " ++ latest.summary) in
    record agent {
      state = record agent.state {
        findings = agent.state.findings ++ finding ∷ [];
        evidence = agent.state.evidence ++ finding ∷ [];
      };
    }

do_analyze-last :
    (answers : Answers) (action : AgentAction) (agent : Agent) (latest : Evidence)
    → last? agent.state.observations ≡ some latest
    → (do_analyze answers action agent).1 ≡ analyzed_by answers action latest agent
unfolding do_analyze analyze
do_analyze-last answers action agent latest h = ap (λ w. (analyze answers action w agent).1) h

do_verify-finding :
    (check : AgentAction) (agent : Agent) (finding o : Evidence) (os : List Evidence)
    → last? (filter (λ (f : Evidence). is_finding f.kind) agent.state.findings) ≡ some finding
    → agent.state.observations ≡ o ∷ os
    → get (do_verify check agent).1.state.verification_results finding.id ≡ some true
do_verify-finding check agent finding o os last seen =
    let corroboration = last_three agent.state.observations in
    let verified = verify finding (map (λ (o : Evidence). o.summary) corroboration) in
    rw (do_verify-results check agent finding last) (
      ground (
        arith,
        get-put agent.state.verification_results finding.id finding.id (is_verified verified.kind),
        nat_eq.equals_iff finding.id finding.id,
        verify-nonempty finding corroboration (rw seen (last_three-cons o os)),
      ))

-- The finding that an analysis draws from the last observation is verified by the very next
-- VERIFY_FINDING action, with no observation in between.
do_analyze-do_verify :
    (answers : Answers) (action check : AgentAction) (agent : Agent) (o : Evidence)
    (os : List Evidence)
    → agent.state.observations ≡ o ∷ os
    → get
        (do_verify check (do_analyze answers action agent).1).1.state.verification_results
        answers.evidence_id
      ≡ some true
do_analyze-do_verify answers action check agent o os seen =
    elim (Option-cases (last? agent.state.observations)) [
      | inl nothing ↦ absurd (last-cons o os (sym (ap last? seen) ∙ nothing))
      | inr (latest, h) ↦
          let finding =
            new_evidence answers EvidenceKind.finding action
              (codes "Based on: " ++ latest.summary) in
          let analyzed = analyzed_by answers action latest agent in
          rw (do_analyze-last answers action agent latest h) (
            do_verify-finding check analyzed finding o os
              (last-filter-append (λ (f : Evidence). is_finding f.kind) agent.state.findings finding
                refl)
              seen)
    ]
