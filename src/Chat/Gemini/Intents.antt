-- ===== src/Chat/Gemini/Intents.antt =====
-- The schema of a task intent against its parser (services/agent/schemas.py).
use cyber_tracker_ai.Base.{refl, nat_eq}
use cyber_tracker_ai.Base.Json.{text, list, mapping, Fields, null, bool, number}
use cyber_tracker_ai.Base.Text.{codes, text_eq, text_beq}
use cyber_tracker_ai.Chat.Schemas.{
  target_type_value, authorization_state_value, risk_level_value, approval_requirement_value,
  missing_info_field_value, target_type_all, authorization_state_all, risk_level_all,
  approval_requirement_all, missing_info_field_all,
}
use cyber_tracker_ai.Chat.Validation.{as_text, as_enum, as_list, parse_task_intent, task_intent_of}
use cyber_tracker_ai.Chat.Gemini.{
  string, array, conforms, enum_of, task_intent_schema, task_intent_properties,
  task_intent_required,
}
use cyber_tracker_ai.Chat.Gemini.Admits.{
  Admits, string-Admits, enum-Admits, is_ok->>=, array-Admits, required-Admits, defaulted-Admits,
  aliased-Admits, IsObject, conforms-IsObject, Succeeds,
}

pub missing_information-Admits :
    Admits
      (array (enum_of missing_info_field_value missing_info_field_all))
      (as_list (as_enum missing_info_field_value missing_info_field_all))
missing_information-Admits =
    array-Admits (enum_of missing_info_field_value missing_info_field_all)
      (as_enum missing_info_field_value missing_info_field_all)
      (enum-Admits missing_info_field_value missing_info_field_all)

task_intent_fields :
    (fs : Fields)
    → IsObject task_intent_properties task_intent_required fs
    → Succeeds (task_intent_of fs)
unfolding task_intent_of codes text_beq
task_intent_fields fs o = is_ok->>= (required-Admits o (codes "id") refl refl string-Admits) (λ id.
    is_ok->>= (required-Admits o (codes "objective") refl refl string-Admits) (λ objective.
      is_ok->>= (required-Admits o (codes "target") refl refl string-Admits) (λ target.
        is_ok->>=
          (aliased-Admits o (codes "targetType") (codes "target_type") refl refl
            (enum-Admits target_type_value target_type_all))
          (λ target_type.
            is_ok->>=
              (aliased-Admits o (codes "requestedAction") (codes "requested_action") refl refl
                string-Admits)
              (λ requested_action.
                is_ok->>=
                  (defaulted-Admits o (codes "constraints") refl
                    (array-Admits string as_text string-Admits))
                  (λ constraints.
                    is_ok->>=
                      (aliased-Admits o (codes "authorizationStatus") (codes "authorization_status")
                        refl refl (enum-Admits authorization_state_value authorization_state_all))
                      (λ authorization_status.
                        is_ok->>=
                          (aliased-Admits o (codes "riskLevel") (codes "risk_level") refl refl
                            (enum-Admits risk_level_value risk_level_all))
                          (λ risk_level.
                            is_ok->>=
                              (aliased-Admits o (codes "requiresApproval")
                                (codes "requires_approval") refl refl
                                (enum-Admits approval_requirement_value approval_requirement_all))
                              (λ requires_approval.
                                is_ok->>=
                                  (aliased-Admits o (codes "missingInformation")
                                    (codes "missing_information") refl refl
                                    missing_information-Admits)
                                  (λ missing_information. record { succeeds = refl }))))))))))

pub task_intent-Admits : Admits task_intent_schema parse_task_intent
unfolding parse_task_intent conforms task_intent_schema
task_intent-Admits (mapping fs) h =
    task_intent_fields fs (conforms-IsObject task_intent_properties task_intent_required fs h)
task_intent-Admits null h = absurd cc
task_intent-Admits (bool b) h = absurd cc
task_intent-Admits (number n) h = absurd cc
task_intent-Admits (text t) h = absurd cc
task_intent-Admits (list js) h = absurd cc
