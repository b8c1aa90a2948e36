-- ===== src/Chat/Validation/RoundTrip.antt =====
-- Writing an answer and validating it again gives the answer back (services/agent/schemas.py).
use cyber_tracker_ai.Base.{◌≡◌, refl, List, [], ◌∷◌, nat_eq}
use cyber_tracker_ai.Base.Json.{Json, text, list, get_field}
use cyber_tracker_ai.Base.Text.{codes, text_beq, text_eq}
use cyber_tracker_ai.Base.Result.{Result, ok}
use cyber_tracker_ai.Chat.Schemas.{
  TargetType, AuthorizationState, RiskLevel, ApprovalRequirement, MissingInfoField,
  WorkflowStageKey, WorkflowStageStatus, TaskPlanStatus, TaskIntent, WorkflowStage, TaskPlan,
  AiResponse, target_type_value, authorization_state_value, risk_level_value,
  approval_requirement_value, missing_info_field_value, workflow_stage_key_value,
  workflow_stage_status_value, task_plan_status_value, target_type_all, authorization_state_all,
  risk_level_all, approval_requirement_all, missing_info_field_all, workflow_stage_key_all,
  workflow_stage_status_all, task_plan_status_all,
}
use cyber_tracker_ai.Chat.Validation.{
  ValidationError, as_text, as_enum, as_items, as_list, member, field_of, required, defaulted,
  dump_list, parse_task_intent, parse_workflow_stage, parse_task_plan, parse_ai_response,
  dump_task_intent, dump_workflow_stage, dump_task_plan, dump_ai_response,
}

as_items-dump_list {ℓ} :
    {A : Type ℓ} (parse : Json → Result ValidationError A) (dump : A → Json)
    → ((x : A) → parse (dump x) ≡ ok x)
    → (xs : List A) → as_items parse (dump_list dump xs) ≡ ok xs
unfolding as_items dump_list
as_items-dump_list parse dump same [] = refl
as_items-dump_list parse dump same (x ∷ xs) =
    rw (same x) (rw (as_items-dump_list parse dump same xs) refl)

as_list-dump_list {ℓ} :
    {A : Type ℓ} (parse : Json → Result ValidationError A) (dump : A → Json)
    → ((x : A) → parse (dump x) ≡ ok x)
    → (xs : List A) → as_list parse (list (dump_list dump xs)) ≡ ok xs
unfolding as_list
as_list-dump_list parse dump same xs = as_items-dump_list parse dump same xs

as_enum-target_type_value :
    (e : TargetType) → as_enum target_type_value target_type_all (text (target_type_value e)) ≡ ok e
unfolding as_enum member target_type_value codes text_beq
as_enum-target_type_value TargetType.web_application = refl
as_enum-target_type_value TargetType.api = refl
as_enum-target_type_value TargetType.server = refl
as_enum-target_type_value TargetType.cloud_resource = refl
as_enum-target_type_value TargetType.mobile_device = refl
as_enum-target_type_value TargetType.wireless_device = refl
as_enum-target_type_value TargetType.network_asset = refl
as_enum-target_type_value TargetType.unknown = refl

as_enum-authorization_state_value :
    (e : AuthorizationState)
    → as_enum authorization_state_value authorization_state_all (text (authorization_state_value e))
      ≡ ok e
unfolding as_enum member authorization_state_value codes text_beq
as_enum-authorization_state_value AuthorizationState.unknown = refl
as_enum-authorization_state_value AuthorizationState.pending = refl
as_enum-authorization_state_value AuthorizationState.authorized = refl
as_enum-authorization_state_value AuthorizationState.not_authorized = refl

as_enum-risk_level_value :
    (e : RiskLevel) → as_enum risk_level_value risk_level_all (text (risk_level_value e)) ≡ ok e
unfolding as_enum member risk_level_value codes text_beq
as_enum-risk_level_value RiskLevel.low = refl
as_enum-risk_level_value RiskLevel.medium = refl
as_enum-risk_level_value RiskLevel.high = refl

as_enum-approval_requirement_value :
    (e : ApprovalRequirement)
    → as_enum approval_requirement_value approval_requirement_all
        (text (approval_requirement_value e))
      ≡ ok e
unfolding as_enum member approval_requirement_value codes text_beq
as_enum-approval_requirement_value ApprovalRequirement.no_approval_required = refl
as_enum-approval_requirement_value ApprovalRequirement.approval_required = refl

as_enum-missing_info_field_value :
    (e : MissingInfoField)
    → as_enum missing_info_field_value missing_info_field_all (text (missing_info_field_value e))
      ≡ ok e
unfolding as_enum member missing_info_field_value codes text_beq
as_enum-missing_info_field_value MissingInfoField.target = refl
as_enum-missing_info_field_value MissingInfoField.authorization = refl
as_enum-missing_info_field_value MissingInfoField.scope = refl
as_enum-missing_info_field_value MissingInfoField.environment = refl

as_enum-workflow_stage_key_value :
    (e : WorkflowStageKey)
    → as_enum workflow_stage_key_value workflow_stage_key_all (text (workflow_stage_key_value e))
      ≡ ok e
unfolding as_enum member workflow_stage_key_value codes text_beq
as_enum-workflow_stage_key_value WorkflowStageKey.understand = refl
as_enum-workflow_stage_key_value WorkflowStageKey.research = refl
as_enum-workflow_stage_key_value WorkflowStageKey.select = refl
as_enum-workflow_stage_key_value WorkflowStageKey.approve = refl
as_enum-workflow_stage_key_value WorkflowStageKey.prepare = refl
as_enum-workflow_stage_key_value WorkflowStageKey.run = refl
as_enum-workflow_stage_key_value WorkflowStageKey.analyze = refl
as_enum-workflow_stage_key_value WorkflowStageKey.report = refl

as_enum-workflow_stage_status_value :
    (e : WorkflowStageStatus)
    → as_enum workflow_stage_status_value workflow_stage_status_all
        (text (workflow_stage_status_value e))
      ≡ ok e
unfolding as_enum member workflow_stage_status_value codes text_beq
as_enum-workflow_stage_status_value WorkflowStageStatus.pending = refl
as_enum-workflow_stage_status_value WorkflowStageStatus.active = refl
as_enum-workflow_stage_status_value WorkflowStageStatus.complete = refl
as_enum-workflow_stage_status_value WorkflowStageStatus.blocked = refl

as_enum-task_plan_status_value :
    (e : TaskPlanStatus)
    → as_enum task_plan_status_value task_plan_status_all (text (task_plan_status_value e)) ≡ ok e
unfolding as_enum member task_plan_status_value codes text_beq
as_enum-task_plan_status_value TaskPlanStatus.waiting_for_information = refl
as_enum-task_plan_status_value TaskPlanStatus.awaiting_authorization = refl
as_enum-task_plan_status_value TaskPlanStatus.ready_for_approval = refl

parse-dump_task_intent : (r : TaskIntent) → parse_task_intent (dump_task_intent r) ≡ ok r
unfolding parse_task_intent dump_task_intent required defaulted field_of get_field as_text codes
    text_beq
parse-dump_task_intent r = rw (as_enum-target_type_value r.target_type) (
    rw (as_list-dump_list as_text text (λ t. refl) r.constraints) (
      rw (as_enum-authorization_state_value r.authorization_status) (
        rw (as_enum-risk_level_value r.risk_level) (
          rw (as_enum-approval_requirement_value r.requires_approval) (
            rw
              (as_list-dump_list (as_enum missing_info_field_value missing_info_field_all)
                (λ x. text (missing_info_field_value x)) as_enum-missing_info_field_value
                r.missing_information)
              (refl))))))

parse-dump_workflow_stage :
    (r : WorkflowStage) → parse_workflow_stage (dump_workflow_stage r) ≡ ok r
unfolding parse_workflow_stage dump_workflow_stage required defaulted field_of get_field as_text
    codes text_beq
parse-dump_workflow_stage r =
    rw (as_enum-workflow_stage_key_value r.key)
      (rw (as_enum-workflow_stage_status_value r.status) (refl))

parse-dump_task_plan : (r : TaskPlan) → parse_task_plan (dump_task_plan r) ≡ ok r
unfolding parse_task_plan dump_task_plan required defaulted field_of get_field as_text codes
    text_beq
parse-dump_task_plan r = rw (parse-dump_task_intent r.task_intent) (
    rw
      (as_list-dump_list parse_workflow_stage dump_workflow_stage parse-dump_workflow_stage
        r.workflow)
      (rw (as_enum-task_plan_status_value r.status) (refl)))

-- An answer that is written with the aliases of its fields, the shape that a provider is asked for, is
-- valid, and is read back as it was.
pub parse-dump_ai_response : (r : AiResponse) → parse_ai_response (dump_ai_response r) ≡ ok r
unfolding parse_ai_response dump_ai_response required defaulted field_of get_field as_text codes
    text_beq
parse-dump_ai_response r = rw (parse-dump_task_intent r.task_intent) (
    rw (parse-dump_task_plan r.task_plan) (
      rw (as_enum-authorization_state_value r.authorization_status) (
        rw (as_enum-risk_level_value r.risk_level) (
          rw (as_enum-approval_requirement_value r.requires_approval) (
            rw
              (as_list-dump_list (as_enum missing_info_field_value missing_info_field_all)
                (λ x. text (missing_info_field_value x)) as_enum-missing_info_field_value
                r.missing_information)
              (refl))))))
