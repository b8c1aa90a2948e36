-- ===== src/Agent/Models.antt =====
-- The agent's task and its records (services/agent_orchestrator/models.py, actions.py, budget.py).
-- Times are counted from the epoch, identifiers are numbers, and the fields that no operation reads
-- or writes are left out.
use cyber_tracker_ai.Base.{
  ℕ, ◌-◌, String, Bool, true, false, not, Option, none, some, List, leb, nat_eq, string_eq,
  if◌then◌else◌,
}
use cyber_tracker_ai.Base.Dict.{Dict, get}
use cyber_tracker_ai.Base.Text.{Text}
use cyber_tracker_ai.Policy.{PolicyReason}
use cyber_tracker_ai.Terminal.Commands.{ErrorMessage}

pub data ActionType : Type 0 where
  discover_target check_environment research_tool install_tool run_diagnostic : ActionType
  collect_information analyze_output verify_finding generate_report ask_user : ActionType
  wait_for_approval complete_task : ActionType

abbrev pub action_value : ActionType → String
action_value discover_target = "DISCOVER_TARGET"
action_value check_environment = "CHECK_ENVIRONMENT"
action_value research_tool = "RESEARCH_TOOL"
action_value install_tool = "INSTALL_TOOL"
action_value run_diagnostic = "RUN_DIAGNOSTIC"
action_value collect_information = "COLLECT_INFORMATION"
action_value analyze_output = "ANALYZE_OUTPUT"
action_value verify_finding = "VERIFY_FINDING"
action_value generate_report = "GENERATE_REPORT"
action_value ask_user = "ASK_USER"
action_value wait_for_approval = "WAIT_FOR_APPROVAL"
action_value complete_task = "COMPLETE_TASK"

-- `action_type in EXECUTION_ACTION_TYPES`.
abbrev pub is_execution : ActionType → Bool
is_execution run_diagnostic = true
is_execution install_tool = true
is_execution _ = false

pub data AgentPhase : Type 0 where
  created understanding researching planning waiting_for_authorization : AgentPhase
  waiting_for_approval preparing executing observing analyzing verifying recovering : AgentPhase
  paused cancelled completed failed blocked : AgentPhase

-- `phase in _TERMINAL_PHASES`.
abbrev pub is_over : AgentPhase → Bool
is_over cancelled = true
is_over completed = true
is_over failed = true
is_over blocked = true
is_over _ = false

abbrev pub is_paused : AgentPhase → Bool
is_paused paused = true
is_paused _ = false

abbrev pub is_waiting_for_approval : AgentPhase → Bool
is_waiting_for_approval waiting_for_approval = true
is_waiting_for_approval _ = false

abbrev pub is_waiting_for_authorization : AgentPhase → Bool
is_waiting_for_authorization waiting_for_authorization = true
is_waiting_for_authorization _ = false

abbrev pub is_preparing : AgentPhase → Bool
is_preparing preparing = true
is_preparing _ = false

pub data ApprovalState : Type 0 where
  not_required pending approved rejected : ApprovalState

pub data EvidenceKind : Type 0 where
  fact observation assumption unknown finding verified_finding : EvidenceKind

pub record Evidence : Type 0 where
  pub id : ℕ
  pub kind : EvidenceKind
  pub summary : Text
  pub source_action_id : Option ℕ

-- A message or a summary: a text, the reasons of the policy engine, or the terminal's message.
pub data Message : Type 0 where
  text : Text → Message
  denied : List PolicyReason → Message
  refused : ErrorMessage → Message

pub record AgentAction : Type 0 where
  pub id : ℕ
  pub action_type : ActionType
  pub target : Option Text
  pub capability : Option Text
  pub tool : Option Text
  pub requires_approval : Bool
  pub approval_state : ApprovalState
  pub expected_result : Text
  pub result_summary : Option Message
  pub error_category : Option String
  pub completed_at : Option ℕ

pub record AgentError : Type 0 where
  pub action_id : Option ℕ
  pub category : String
  pub message : Message

pub record RecoveryAttempt : Type 0 where
  pub action_id : ℕ
  pub error_category : String
  pub strategy : Text

pub record AgentTaskState : Type 0 where
  pub id : ℕ
  pub target : Option Text
  pub target_type : Option Text
  pub authorization_status : String
  pub phase : AgentPhase
  pub actions : List AgentAction
  pub observations : List Evidence
  pub findings : List Evidence
  pub evidence : List Evidence
  pub outputs : List Text
  pub errors : List AgentError
  pub recovery_attempts : List RecoveryAttempt
  pub verification_results : Dict ℕ Bool
  pub selected_tools : List Text
  pub tool_capabilities : Dict Text (List Text)
  pub installation_state : Dict Text String
  pub unknowns : List Text
  pub next_action : Option Text
  pub approval_state : ApprovalState
  pub pending_action_id : Option ℕ
  pub is_cancelled : Bool
  pub clarification_question : Option Text
  pub action_count : ℕ
  pub model_call_count : ℕ
  pub installation_count : ℕ
  pub retry_count_by_action : Dict String ℕ
  pub last_error_signature : Option Text
  pub started_at : Option ℕ
  pub completed_at : Option ℕ

pub record AgentBudgetConfig : Type 0 where
  pub max_task_duration_seconds : ℕ
  pub max_actions : ℕ
  pub max_retries_per_action : ℕ
  pub max_tool_installations : ℕ
  pub max_model_calls : ℕ
  pub max_concurrent_tasks : ℕ

-- The check passes.
unfoldable pub check_action_budget : AgentBudgetConfig → AgentTaskState → ℕ → Bool
check_action_budget config state now =
    if leb config.max_actions state.action_count then false else elim state.started_at [
      | none ↦ true
      | some t ↦ not (leb config.max_task_duration_seconds (now - t))
    ]

unfoldable pub check_model_call_budget : AgentBudgetConfig → AgentTaskState → Bool
check_model_call_budget config state = not (leb config.max_model_calls state.model_call_count)

unfoldable pub check_installation_budget : AgentBudgetConfig → AgentTaskState → Bool
check_installation_budget config state =
    not (leb config.max_tool_installations state.installation_count)

-- `state.retry_count_by_action.get(action_key, 0)`.
unfoldable pub retries_of : AgentTaskState → String → ℕ
retries_of state action_key = elim (get state.retry_count_by_action action_key) [
  | none ↦ 0
  | some n ↦ n
]

unfoldable pub check_retry_budget : AgentBudgetConfig → AgentTaskState → String → Bool
unfolding retries_of
check_retry_budget config state action_key =
    not (leb config.max_retries_per_action (retries_of state action_key))
