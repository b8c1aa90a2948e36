-- ===== src/Chat/Gemini.antt =====
-- The schema that a model is given for its answers (`GEMINI_RESPONSE_SCHEMA` of
-- services/agent/schemas.py), and what it is for a JSON value to conform to it: a string or one of the
-- enumerated strings, an array of conforming items, an object that has the required properties and
-- whose properties conform.
mod Admits
mod Intents
mod Plans
pub mod Conformance
use cyber_tracker_ai.Base.{
  Bool, true, false, ◌&&◌, Option, none, some, List, [], ◌∷◌, ◌==◌, map, any, all,
}
use cyber_tracker_ai.Base.Dict.{is_some}
use cyber_tracker_ai.Base.Json.{Json, text, list, mapping, Items, nil, cons, Fields, get_field}
use cyber_tracker_ai.Base.Text.{Text, codes, text_eq}
use cyber_tracker_ai.Chat.Schemas.{
  target_type_value, authorization_state_value, risk_level_value, approval_requirement_value,
  missing_info_field_value, workflow_stage_key_value, workflow_stage_status_value,
  task_plan_status_value, target_type_all, authorization_state_all, risk_level_all,
  approval_requirement_all, missing_info_field_all, workflow_stage_key_all,
  workflow_stage_status_all, task_plan_status_all,
}

mutual
  pub data Schema : Type 0 where
    string : Schema
    enum : List Text → Schema
    array : Schema → Schema
    object : Properties → List Text → Schema

  pub data Properties : Type 0 where
    done : Properties
    property : Text → Schema → Properties → Properties

unfoldable pub all_items : (Json → Bool) → Items → Bool
all_items p nil = true
all_items p (cons j js) = p j && all_items p js

abbrev is_text : Json → Bool
is_text (text t) = true
is_text _ = false

abbrev pub is_listed : List Text → Json → Bool
is_listed values (text t) = any (λ v. v == t) values
is_listed values _ = false

abbrev is_array : (Json → Bool) → Json → Bool
is_array p (list js) = all_items p js
is_array p _ = false

abbrev pub is_absent_or : (Json → Bool) → Option Json → Bool
is_absent_or p none = true
is_absent_or p (some j) = p j

abbrev is_object : (Fields → Bool) → Json → Bool
is_object p (mapping fs) = p fs
is_object p _ = false

unfoldable mutual
  unfolding all_items

  pub conforms : Schema → Json → Bool
  conforms string j = is_text j
  conforms (enum values) j = is_listed values j
  conforms (array s) j = is_array (conforms s) j
  conforms (object ps names) j =
      is_object (λ fs. all (λ name. is_some (get_field name fs)) names && conform ps fs) j

  pub conform : Properties → Fields → Bool
  conform done fs = true
  conform (property name s ps) fs = is_absent_or (conforms s) (get_field name fs) && conform ps fs

abbrev pub enum_of {ℓ} : {E : Type ℓ} → (E → Text) → List E → Schema
enum_of value es = enum (map value es)

abbrev pub task_intent_properties : Properties
task_intent_properties =
    (property (codes "id") string (
      property (codes "objective") string (
        property (codes "target") string (
          property (codes "targetType") (enum_of target_type_value target_type_all) (
            property (codes "requestedAction") string (
              property (codes "constraints") (array string) (
                property (codes "authorizationStatus")
                  (enum_of authorization_state_value authorization_state_all)
                  (property (codes "riskLevel") (enum_of risk_level_value risk_level_all) (
                    property (codes "requiresApproval")
                      (enum_of approval_requirement_value approval_requirement_all)
                      (property (codes "missingInformation")
                        (array (enum_of missing_info_field_value missing_info_field_all))
                        done))))))))))

abbrev pub task_intent_required : List Text
task_intent_required =
    codes "id"
    ∷ codes "objective"
    ∷ codes "target"
    ∷ codes "targetType"
    ∷ codes "requestedAction"
    ∷ codes "authorizationStatus"
    ∷ codes "riskLevel"
    ∷ codes "requiresApproval"
    ∷ codes "missingInformation"
    ∷ []

unfoldable pub task_intent_schema : Schema
task_intent_schema = object task_intent_properties task_intent_required

abbrev pub workflow_stage_properties : Properties
workflow_stage_properties =
    (property (codes "key") (enum_of workflow_stage_key_value workflow_stage_key_all) (
      property (codes "label") string (
        property (codes "status") (enum_of workflow_stage_status_value workflow_stage_status_all)
          done)))

abbrev pub workflow_stage_required : List Text
workflow_stage_required = codes "key" ∷ codes "label" ∷ codes "status" ∷ []

unfoldable pub workflow_stage_schema : Schema
workflow_stage_schema = object workflow_stage_properties workflow_stage_required

abbrev pub task_plan_properties : Properties
task_plan_properties =
    (property (codes "id") string (
      property (codes "conversationId") string (
        property (codes "taskIntent") task_intent_schema (
          property (codes "workflow") (array workflow_stage_schema) (
            property (codes "status") (enum_of task_plan_status_value task_plan_status_all)
              (property (codes "createdAt") string done))))))

abbrev pub task_plan_required : List Text
task_plan_required =
    codes "id"
    ∷ codes "conversationId"
    ∷ codes "taskIntent"
    ∷ codes "workflow"
    ∷ codes "status"
    ∷ codes "createdAt"
    ∷ []

unfoldable pub task_plan_schema : Schema
task_plan_schema = object task_plan_properties task_plan_required

abbrev pub response_properties : Properties
response_properties =
    (property (codes "message") string (
      property (codes "taskIntent") task_intent_schema (
        property (codes "taskPlan") task_plan_schema (
          property (codes "authorizationStatus")
            (enum_of authorization_state_value authorization_state_all)
            (property (codes "riskLevel") (enum_of risk_level_value risk_level_all) (
              property (codes "requiresApproval")
                (enum_of approval_requirement_value approval_requirement_all)
                (property (codes "missingInformation")
                  (array (enum_of missing_info_field_value missing_info_field_all))
                  (property (codes "nextAction") string done))))))))

abbrev pub response_required : List Text
response_required =
    codes "message"
    ∷ codes "taskIntent"
    ∷ codes "taskPlan"
    ∷ codes "authorizationStatus"
    ∷ codes "riskLevel"
    ∷ codes "requiresApproval"
    ∷ codes "missingInformation"
    ∷ codes "nextAction"
    ∷ []

unfoldable pub response_schema : Schema
response_schema = object response_properties response_required
