-- ===== src/Installation/Models.antt =====
-- The records of an installation (services/installation/models.py, errors.py, config.py).
use cyber_tracker_ai.Base.{ℕ, String, Bool, true, false, Option, List, nat_eq, string_eq}
use cyber_tracker_ai.Base.Int.{ℤ}
use cyber_tracker_ai.Base.Text.{Text}
use cyber_tracker_ai.Policy.{PolicyDecision, PolicyReason, RiskTier}
use cyber_tracker_ai.Terminal.Templates.{TemplateError}

pub data InstallationState : Type 0 where
  discovered reviewing dependencies_checking waiting_for_approval preparing : InstallationState
  installing verifying installed failed blocked cancelled rollback_required : InstallationState

-- `state in _TERMINAL_STATES`.
abbrev pub is_terminal : InstallationState → Bool
is_terminal installed = true
is_terminal failed = true
is_terminal blocked = true
is_terminal cancelled = true
is_terminal _ = false

abbrev pub is_waiting : InstallationState → Bool
is_waiting waiting_for_approval = true
is_waiting _ = false

abbrev pub is_preparing : InstallationState → Bool
is_preparing preparing = true
is_preparing _ = false

pub record InstallationStep : Type 0 where
  pub package_manager : String
  pub package_name : Text
  pub version : Option Text

pub record InstallationPlan : Type 0 where
  pub installation_steps : List InstallationStep
  pub risk_level : RiskTier
  pub approval_required : Bool

pub record InstallationAttempt : Type 0 where
  pub attempt_number : ℕ
  pub completed_at : Option ℕ
  pub exit_code : Option ℤ
  pub error_category : Option String

pub record InstallationVerification : Type 0 where
  pub executable_found : Bool
  pub version_output : Option Text
  pub verified : Bool

-- The names of the readiness checks.
pub data CheckName : Type 0 where
  tool_exists provenance_known source_trusted platform_supported license_known : CheckName
  dependencies_understood permissions_known risk_evaluated trust_approved policy_allows : CheckName
  target_authorized : CheckName

-- The sentences of `error_message`.
pub data ErrorMessage : Type 0 where
  denied : List PolicyReason → ErrorMessage
  failed_after : ℕ → ErrorMessage
  not_usable unsupported_platform package_manager_unavailable : ErrorMessage
  not_ready : List CheckName → ErrorMessage

pub record InstallationRequest : Type 0 where
  pub id : ℕ
  pub tool_id : ℕ
  pub session_id : Option ℕ
  pub plan : Option InstallationPlan
  pub state : InstallationState
  pub approved_by : Option Text
  pub approved_at : Option ℕ
  pub rejection_reason : Option Text
  pub attempts : List InstallationAttempt
  pub verification : Option InstallationVerification
  pub error_message : Option ErrorMessage

pub data InstallEvent : Type 0 where
  install_requested install_readiness_checked install_plan_generated : InstallEvent
  install_approved install_rejected install_started install_step_completed : InstallEvent
  install_step_failed install_verifying install_verified install_verification_failed : InstallEvent
  install_completed install_failed install_cancelled install_blocked : InstallEvent

-- A command for the engine: the vector, the decision, and `approved_by_user`.
pub data Entry : Type 0 where
  published : InstallEvent → Entry
  installs verifies : List Text → PolicyDecision → Bool → Entry

pub record Installation : Type 0 where
  pub request : InstallationRequest
  pub log : List Entry

pub data InstallationError : Type 0 where
  invalid_state_transition approval_required tool_not_approved tool_not_found : InstallationError
  template : TemplateError → InstallationError
  engine_raised no_step : InstallationError

pub record InstallationServiceConfig : Type 0 where
  pub max_install_attempts : ℕ

-- What the tool registry says of a tool.
pub record ToolRecord : Type 0 where
  pub is_approved : Bool
  pub entrypoint : Option Text
