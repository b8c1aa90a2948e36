-- ===== src/Chat/Schemas.antt =====
-- The shape of a chat answer (services/agent/schemas.py): the enumerations and the models.
use cyber_tracker_ai.Base.{List, [], ◌∷◌}
use cyber_tracker_ai.Base.Text.{Text, codes}

pub data TargetType : Type 0 where
  web_application api server cloud_resource mobile_device wireless_device network_asset unknown :
      TargetType

pub data AuthorizationState : Type 0 where
  unknown pending authorized not_authorized : AuthorizationState

pub data RiskLevel : Type 0 where
  low medium high : RiskLevel

pub data ApprovalRequirement : Type 0 where
  no_approval_required approval_required : ApprovalRequirement

pub data MissingInfoField : Type 0 where
  target authorization scope environment : MissingInfoField

pub data WorkflowStageKey : Type 0 where
  understand research select approve prepare run analyze report : WorkflowStageKey

pub data WorkflowStageStatus : Type 0 where
  pending active complete blocked : WorkflowStageStatus

pub data TaskPlanStatus : Type 0 where
  waiting_for_information awaiting_authorization ready_for_approval : TaskPlanStatus

-- The values of the enumerations.
unfoldable pub target_type_value : TargetType → Text
target_type_value TargetType.web_application = codes "web_application"
target_type_value TargetType.api = codes "api"
target_type_value TargetType.server = codes "server"
target_type_value TargetType.cloud_resource = codes "cloud_resource"
target_type_value TargetType.mobile_device = codes "mobile_device"
target_type_value TargetType.wireless_device = codes "wireless_device"
target_type_value TargetType.network_asset = codes "network_asset"
target_type_value TargetType.unknown = codes "unknown"

unfoldable pub authorization_state_value : AuthorizationState → Text
authorization_state_value AuthorizationState.unknown = codes "UNKNOWN"
authorization_state_value AuthorizationState.pending = codes "PENDING"
authorization_state_value AuthorizationState.authorized = codes "AUTHORIZED"
authorization_state_value AuthorizationState.not_authorized = codes "NOT_AUTHORIZED"

unfoldable pub risk_level_value : RiskLevel → Text
risk_level_value RiskLevel.low = codes "LOW"
risk_level_value RiskLevel.medium = codes "MEDIUM"
risk_level_value RiskLevel.high = codes "HIGH"

unfoldable pub approval_requirement_value : ApprovalRequirement → Text
approval_requirement_value ApprovalRequirement.no_approval_required = codes "NO_APPROVAL_REQUIRED"
approval_requirement_value ApprovalRequirement.approval_required = codes "APPROVAL_REQUIRED"

unfoldable pub missing_info_field_value : MissingInfoField → Text
missing_info_field_value MissingInfoField.target = codes "target"
missing_info_field_value MissingInfoField.authorization = codes "authorization"
missing_info_field_value MissingInfoField.scope = codes "scope"
missing_info_field_value MissingInfoField.environment = codes "environment"

unfoldable pub workflow_stage_key_value : WorkflowStageKey → Text
workflow_stage_key_value WorkflowStageKey.understand = codes "UNDERSTAND"
workflow_stage_key_value WorkflowStageKey.research = codes "RESEARCH"
workflow_stage_key_value WorkflowStageKey.select = codes "SELECT"
workflow_stage_key_value WorkflowStageKey.approve = codes "APPROVE"
workflow_stage_key_value WorkflowStageKey.prepare = codes "PREPARE"
workflow_stage_key_value WorkflowStageKey.run = codes "RUN"
workflow_stage_key_value WorkflowStageKey.analyze = codes "ANALYZE"
workflow_stage_key_value WorkflowStageKey.report = codes "REPORT"

unfoldable pub workflow_stage_status_value : WorkflowStageStatus → Text
workflow_stage_status_value WorkflowStageStatus.pending = codes "pending"
workflow_stage_status_value WorkflowStageStatus.active = codes "active"
workflow_stage_status_value WorkflowStageStatus.complete = codes "complete"
workflow_stage_status_value WorkflowStageStatus.blocked = codes "blocked"

unfoldable pub task_plan_status_value : TaskPlanStatus → Text
task_plan_status_value TaskPlanStatus.waiting_for_information = codes "WAITING_FOR_INFORMATION"
task_plan_status_value TaskPlanStatus.awaiting_authorization = codes "AWAITING_AUTHORIZATION"
task_plan_status_value TaskPlanStatus.ready_for_approval = codes "READY_FOR_APPROVAL"

abbrev pub target_type_all : List TargetType
target_type_all =
    TargetType.web_application ∷ TargetType.api ∷ TargetType.server ∷ TargetType.cloud_resource
    ∷ TargetType.mobile_device ∷ TargetType.wireless_device ∷ TargetType.network_asset
    ∷ TargetType.unknown ∷ []

abbrev pub authorization_state_all : List AuthorizationState
authorization_state_all =
    AuthorizationState.unknown ∷ AuthorizationState.pending ∷ AuthorizationState.authorized
    ∷ AuthorizationState.not_authorized ∷ []

abbrev pub risk_level_all : List RiskLevel
risk_level_all = RiskLevel.low ∷ RiskLevel.medium ∷ RiskLevel.high ∷ []

abbrev pub approval_requirement_all : List ApprovalRequirement
approval_requirement_all =
    ApprovalRequirement.no_approval_required ∷ ApprovalRequirement.approval_required ∷ []

abbrev pub missing_info_field_all : List MissingInfoField
missing_info_field_all =
    MissingInfoField.target ∷ MissingInfoField.authorization ∷ MissingInfoField.scope
    ∷ MissingInfoField.environment ∷ []

abbrev pub workflow_stage_key_all : List WorkflowStageKey
workflow_stage_key_all =
    WorkflowStageKey.understand ∷ WorkflowStageKey.research ∷ WorkflowStageKey.select
    ∷ WorkflowStageKey.approve ∷ WorkflowStageKey.prepare ∷ WorkflowStageKey.run
    ∷ WorkflowStageKey.analyze ∷ WorkflowStageKey.report ∷ []

abbrev pub workflow_stage_status_all : List WorkflowStageStatus
workflow_stage_status_all =
    WorkflowStageStatus.pending ∷ WorkflowStageStatus.active ∷ WorkflowStageStatus.complete
    ∷ WorkflowStageStatus.blocked ∷ []

abbrev pub task_plan_status_all : List TaskPlanStatus
task_plan_status_all =
    TaskPlanStatus.waiting_for_information ∷ TaskPlanStatus.awaiting_authorization
    ∷ TaskPlanStatus.ready_for_approval ∷ []

pub record TaskIntent : Type 0 where
  pub id : Text
  pub objective : Text
  pub target : Text
  pub target_type : TargetType
  pub requested_action : Text
  pub constraints : List Text
  pub authorization_status : AuthorizationState
  pub risk_level : RiskLevel
  pub requires_approval : ApprovalRequirement
  pub missing_information : List MissingInfoField

pub record WorkflowStage : Type 0 where
  pub key : WorkflowStageKey
  pub label : Text
  pub status : WorkflowStageStatus

pub record TaskPlan : Type 0 where
  pub id : Text
  pub conversation_id : Text
  pub task_intent : TaskIntent
  pub workflow : List WorkflowStage
  pub status : TaskPlanStatus
  pub created_at : Text

pub record AiResponse : Type 0 where
  pub message : Text
  pub task_intent : TaskIntent
  pub task_plan : TaskPlan
  pub authorization_status : AuthorizationState
  pub risk_level : RiskLevel
  pub requires_approval : ApprovalRequirement
  pub missing_information : List MissingInfoField
  pub next_action : Text
