-- ===== src/Chat/Validation.antt =====
-- Validation and serialisation of a chat answer (services/agent/schemas.py): what pydantic does with
-- these models. A `ValidationError` is one value; a field is looked for by its alias, and then by
-- its name.
pub mod RoundTrip
use cyber_tracker_ai.Base.{
  Bool, true, false, Option, none, some, List, [], ◌∷◌, ◌==◌, if◌then◌else◌,
}
use cyber_tracker_ai.Base.Json.{
  Json, text, list, mapping, Items, nil, cons, Fields, end, field, get_field,
}
use cyber_tracker_ai.Base.Text.{Text, codes, text_eq}
use cyber_tracker_ai.Base.Result.{Result, ok, err, ◌>>=◌}
use cyber_tracker_ai.Chat.Schemas.{
  TargetType, AuthorizationState, RiskLevel, ApprovalRequirement, MissingInfoField,
  WorkflowStageKey, WorkflowStageStatus, TaskPlanStatus, TaskIntent, WorkflowStage, TaskPlan,
  AiResponse, target_type_value, authorization_state_value, risk_level_value,
  approval_requirement_value, missing_info_field_value, workflow_stage_key_value,
  workflow_stage_status_value, task_plan_status_value, target_type_all, authorization_state_all,
  risk_level_all, approval_requirement_all, missing_info_field_all, workflow_stage_key_all,
  workflow_stage_status_all, task_plan_status_all,
}

pub data ValidationError : Type 0 where
  validation_error : ValidationError

unfoldable pub as_text : Json → Result ValidationError Text
as_text (text t) = ok t
as_text _ = err validation_error

-- A member of an enumeration, by its value.
unfoldable pub member {ℓ} : {E : Type ℓ} → (E → Text) → List E → Text → Result ValidationError E
member value [] t = err validation_error
member value (e ∷ es) t = let rest = member value es t in if value e == t then ok e else rest

unfoldable pub as_enum {ℓ} : {E : Type ℓ} → (E → Text) → List E → Json → Result ValidationError E
unfolding member
as_enum value es (text t) = member value es t
as_enum value es _ = err validation_error

unfoldable pub as_items {ℓ} :
    {A : Type ℓ} → (Json → Result ValidationError A) → Items → Result ValidationError (List A)
as_items parse nil = ok []
as_items parse (cons j js) = do x ← parse j; xs ← as_items parse js; ok (x ∷ xs)

unfoldable pub as_list {ℓ} :
    {A : Type ℓ} → (Json → Result ValidationError A) → Json → Result ValidationError (List A)
unfolding as_items
as_list parse (list js) = as_items parse js
as_list parse _ = err validation_error

-- `populate_by_name`.
unfoldable pub field_of : Text → Text → Fields → Option Json
field_of alias name fs = elim (get_field alias fs) [ none ↦ get_field name fs | some j ↦ some j ]

unfoldable pub required {ℓ} :
    {A : Type ℓ} → (Json → Result ValidationError A) → Option Json → Result ValidationError A
required parse none = err validation_error
required parse (some j) = parse j

-- A field with the empty list as its default.
unfoldable pub defaulted {ℓ} :
    {A : Type ℓ}
    → (Json → Result ValidationError (List A))
    → Option Json
    → Result ValidationError (List A)
defaulted parse none = ok []
defaulted parse (some j) = parse j

unfoldable pub task_intent_of : Fields → Result ValidationError TaskIntent
task_intent_of fs = do
  id ← required as_text (get_field (codes "id") fs)
  objective ← required as_text (get_field (codes "objective") fs)
  target ← required as_text (get_field (codes "target") fs)
  target_type ←
      required (as_enum target_type_value target_type_all)
        (field_of (codes "targetType") (codes "target_type") fs)
  requested_action ←
      required as_text (field_of (codes "requestedAction") (codes "requested_action") fs)
  constraints ← defaulted (as_list as_text) (get_field (codes "constraints") fs)
  authorization_status ←
      required (as_enum authorization_state_value authorization_state_all)
        (field_of (codes "authorizationStatus") (codes "authorization_status") fs)
  risk_level ←
      required (as_enum risk_level_value risk_level_all)
        (field_of (codes "riskLevel") (codes "risk_level") fs)
  requires_approval ←
      required (as_enum approval_requirement_value approval_requirement_all)
        (field_of (codes "requiresApproval") (codes "requires_approval") fs)
  missing_information ←
      required (as_list (as_enum missing_info_field_value missing_info_field_all))
        (field_of (codes "missingInformation") (codes "missing_information") fs)
  ok (record {
    id = id;
    objective = objective;
    target = target;
    target_type = target_type;
    requested_action = requested_action;
    constraints = constraints;
    authorization_status = authorization_status;
    risk_level = risk_level;
    requires_approval = requires_approval;
    missing_information = missing_information;
  })

unfoldable pub parse_task_intent : Json → Result ValidationError TaskIntent
unfolding task_intent_of
parse_task_intent (mapping fs) = task_intent_of fs
parse_task_intent _ = err validation_error

unfoldable pub workflow_stage_of : Fields → Result ValidationError WorkflowStage
workflow_stage_of fs = do
  key ←
      required (as_enum workflow_stage_key_value workflow_stage_key_all)
        (get_field (codes "key") fs)
  label ← required as_text (get_field (codes "label") fs)
  status ←
      required (as_enum workflow_stage_status_value workflow_stage_status_all)
        (get_field (codes "status") fs)
  ok (record { key = key; label = label; status = status })

unfoldable pub parse_workflow_stage : Json → Result ValidationError WorkflowStage
unfolding workflow_stage_of
parse_workflow_stage (mapping fs) = workflow_stage_of fs
parse_workflow_stage _ = err validation_error

unfoldable pub task_plan_of : Fields → Result ValidationError TaskPlan
task_plan_of fs = do
  id ← required as_text (get_field (codes "id") fs)
  conversation_id ←
      required as_text (field_of (codes "conversationId") (codes "conversation_id") fs)
  task_intent ← required parse_task_intent (field_of (codes "taskIntent") (codes "task_intent") fs)
  workflow ← required (as_list parse_workflow_stage) (get_field (codes "workflow") fs)
  status ←
      required (as_enum task_plan_status_value task_plan_status_all) (get_field (codes "status") fs)
  created_at ← required as_text (field_of (codes "createdAt") (codes "created_at") fs)
  ok (record {
    id = id;
    conversation_id = conversation_id;
    task_intent = task_intent;
    workflow = workflow;
    status = status;
    created_at = created_at;
  })

unfoldable pub parse_task_plan : Json → Result ValidationError TaskPlan
unfolding task_plan_of
parse_task_plan (mapping fs) = task_plan_of fs
parse_task_plan _ = err validation_error

unfoldable pub ai_response_of : Fields → Result ValidationError AiResponse
ai_response_of fs = do
  message ← required as_text (get_field (codes "message") fs)
  task_intent ← required parse_task_intent (field_of (codes "taskIntent") (codes "task_intent") fs)
  task_plan ← required parse_task_plan (field_of (codes "taskPlan") (codes "task_plan") fs)
  authorization_status ←
      required (as_enum authorization_state_value authorization_state_all)
        (field_of (codes "authorizationStatus") (codes "authorization_status") fs)
  risk_level ←
      required (as_enum risk_level_value risk_level_all)
        (field_of (codes "riskLevel") (codes "risk_level") fs)
  requires_approval ←
      required (as_enum approval_requirement_value approval_requirement_all)
        (field_of (codes "requiresApproval") (codes "requires_approval") fs)
  missing_information ←
      required (as_list (as_enum missing_info_field_value missing_info_field_all))
        (field_of (codes "missingInformation") (codes "missing_information") fs)
  next_action ← required as_text (field_of (codes "nextAction") (codes "next_action") fs)
  ok (record {
    message = message;
    task_intent = task_intent;
    task_plan = task_plan;
    authorization_status = authorization_status;
    risk_level = risk_level;
    requires_approval = requires_approval;
    missing_information = missing_information;
    next_action = next_action;
  })

unfoldable pub parse_ai_response : Json → Result ValidationError AiResponse
unfolding ai_response_of
parse_ai_response (mapping fs) = ai_response_of fs
parse_ai_response _ = err validation_error

-- How pydantic writes these models with the aliases of their fields: an intent and a plan in a
-- response of the API, and a whole answer in the shape that a provider is asked for.
unfoldable pub dump_list {ℓ} : {A : Type ℓ} → (A → Json) → List A → Items
dump_list dump [] = nil
dump_list dump (x ∷ xs) = cons (dump x) (dump_list dump xs)

unfoldable pub dump_task_intent : TaskIntent → Json
dump_task_intent r = mapping (
    field (codes "id") (text r.id) (
      field (codes "objective") (text r.objective) (
        field (codes "target") (text r.target) (
          field (codes "targetType") (text (target_type_value r.target_type)) (
            field (codes "requestedAction") (text r.requested_action) (
              field (codes "constraints") (list (dump_list text r.constraints)) (
                field (codes "authorizationStatus")
                  (text (authorization_state_value r.authorization_status))
                  (field (codes "riskLevel") (text (risk_level_value r.risk_level)) (
                    field (codes "requiresApproval")
                      (text (approval_requirement_value r.requires_approval))
                      (field (codes "missingInformation")
                        (list (
                          dump_list (λ x. text (missing_info_field_value x)) r.missing_information))
                        end))))))))))

unfoldable pub dump_workflow_stage : WorkflowStage → Json
dump_workflow_stage r = mapping (
    field (codes "key") (text (workflow_stage_key_value r.key)) (
      field (codes "label") (text r.label)
        (field (codes "status") (text (workflow_stage_status_value r.status)) end)))

unfoldable pub dump_task_plan : TaskPlan → Json
dump_task_plan r = mapping (
    field (codes "id") (text r.id) (
      field (codes "conversationId") (text r.conversation_id) (
        field (codes "taskIntent") (dump_task_intent r.task_intent) (
          field (codes "workflow") (list (dump_list dump_workflow_stage r.workflow)) (
            field (codes "status") (text (task_plan_status_value r.status))
              (field (codes "createdAt") (text r.created_at) end))))))

unfoldable pub dump_ai_response : AiResponse → Json
dump_ai_response r = mapping (
    field (codes "message") (text r.message) (
      field (codes "taskIntent") (dump_task_intent r.task_intent) (
        field (codes "taskPlan") (dump_task_plan r.task_plan) (
          field (codes "authorizationStatus")
            (text (authorization_state_value r.authorization_status))
            (field (codes "riskLevel") (text (risk_level_value r.risk_level)) (
              field (codes "requiresApproval")
                (text (approval_requirement_value r.requires_approval))
                (field (codes "missingInformation")
                  (list (dump_list (λ x. text (missing_info_field_value x)) r.missing_information))
                  (field (codes "nextAction") (text r.next_action) end))))))))
