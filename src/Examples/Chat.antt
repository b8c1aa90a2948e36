-- ===== src/Examples/Chat.antt =====
-- An answer for a scan (services/agent/schemas.py).
use cyber_tracker_ai.Base.{◌≡◌, refl, true, [], ◌∷◌}
use cyber_tracker_ai.Base.Text.{codes, text_beq}
use cyber_tracker_ai.Base.Json.{get_field}
use cyber_tracker_ai.Base.Result.{ok, is_ok}
use cyber_tracker_ai.Chat.Schemas.{
  TaskIntent, TaskPlan, AiResponse, TargetType, AuthorizationState, RiskLevel, ApprovalRequirement,
  MissingInfoField, WorkflowStageKey, WorkflowStageStatus, TaskPlanStatus, target_type_value,
  authorization_state_value, risk_level_value, approval_requirement_value, missing_info_field_value,
  workflow_stage_key_value, workflow_stage_status_value, task_plan_status_value,
}
use cyber_tracker_ai.Chat.Validation.{
  parse_ai_response, dump_ai_response, dump_task_intent, dump_workflow_stage, dump_task_plan,
  dump_list,
}
use cyber_tracker_ai.Chat.Validation.RoundTrip.{parse-dump_ai_response}
use cyber_tracker_ai.Chat.Gemini.{
  all_items, conforms, response_schema, task_plan_schema, task_intent_schema, workflow_stage_schema,
}
use cyber_tracker_ai.Chat.Gemini.Conformance.{parse_ai_response-conforms}

abbrev intent : TaskIntent
intent = record {
  id = codes "i";
  objective = codes "scan";
  target = codes "unknown";
  target_type = TargetType.unknown;
  requested_action = codes "scan";
  constraints = [];
  authorization_status = AuthorizationState.unknown;
  risk_level = RiskLevel.low;
  requires_approval = ApprovalRequirement.approval_required;
  missing_information = MissingInfoField.target ∷ [];
}

abbrev plan : TaskPlan
plan = record {
  id = codes "p";
  conversation_id = codes "c";
  task_intent = intent;
  workflow =
      record {
        key = WorkflowStageKey.understand;
        label = codes "Understand";
        status = WorkflowStageStatus.active;
      }
      ∷ [];
  status = TaskPlanStatus.waiting_for_information;
  created_at = codes "now";
}

abbrev pub response : AiResponse
response = record {
  message = codes "Which target?";
  task_intent = intent;
  task_plan = plan;
  authorization_status = AuthorizationState.unknown;
  risk_level = RiskLevel.low;
  requires_approval = ApprovalRequirement.approval_required;
  missing_information = MissingInfoField.target ∷ [];
  next_action = codes "name it";
}

parse-dump_ai_response_example : parse_ai_response (dump_ai_response response) ≡ ok response
parse-dump_ai_response_example = parse-dump_ai_response response

pub response_accepted : conforms response_schema (dump_ai_response response) ≡ true
unfolding conforms all_items response_schema task_plan_schema task_intent_schema
    workflow_stage_schema dump_ai_response dump_task_intent dump_workflow_stage dump_task_plan
    dump_list codes text_beq get_field target_type_value authorization_state_value risk_level_value
    approval_requirement_value missing_info_field_value workflow_stage_key_value
    workflow_stage_status_value task_plan_status_value
response_accepted = refl

parse_ai_response-conforms_example : is_ok (parse_ai_response (dump_ai_response response)) ≡ true
parse_ai_response-conforms_example =
    parse_ai_response-conforms (dump_ai_response response) response_accepted
