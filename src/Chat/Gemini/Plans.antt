-- ===== src/Chat/Gemini/Plans.antt =====
-- The schemas of a stage and of a task plan against their parsers (services/agent/schemas.py).
use cyber_tracker_ai.Base.{refl, nat_eq}
use cyber_tracker_ai.Base.Json.{text, list, mapping, Fields, null, bool, number}
use cyber_tracker_ai.Base.Text.{codes, text_eq, text_beq}
use cyber_tracker_ai.Chat.Schemas.{
  workflow_stage_key_value, workflow_stage_status_value, task_plan_status_value,
  workflow_stage_key_all, workflow_stage_status_all, task_plan_status_all,
}
use cyber_tracker_ai.Chat.Validation.{
  parse_workflow_stage, parse_task_plan, workflow_stage_of, task_plan_of,
}
use cyber_tracker_ai.Chat.Gemini.{
  conforms, workflow_stage_schema, task_plan_schema, workflow_stage_properties,
  workflow_stage_required, task_plan_properties, task_plan_required,
}
use cyber_tracker_ai.Chat.Gemini.Admits.{
  Admits, string-Admits, enum-Admits, is_ok->>=, array-Admits, required-Admits, aliased-Admits,
}
use cyber_tracker_ai.Chat.Gemini.Admits.{IsObject, conforms-IsObject, Succeeds}
use cyber_tracker_ai.Chat.Gemini.Intents.{task_intent-Admits}

workflow_stage_fields :
    (fs : Fields)
    → IsObject workflow_stage_properties workflow_stage_required fs
    → Succeeds (workflow_stage_of fs)
unfolding workflow_stage_of codes text_beq
workflow_stage_fields fs o =
    is_ok->>=
      (required-Admits o (codes "key") refl refl
        (enum-Admits workflow_stage_key_value workflow_stage_key_all))
      (λ key. is_ok->>= (required-Admits o (codes "label") refl refl string-Admits) (λ label.
        is_ok->>=
          (required-Admits o (codes "status") refl refl
            (enum-Admits workflow_stage_status_value workflow_stage_status_all))
          (λ status. record { succeeds = refl })))

workflow_stage-Admits : Admits workflow_stage_schema parse_workflow_stage
unfolding parse_workflow_stage conforms workflow_stage_schema
workflow_stage-Admits (mapping fs) h =
    workflow_stage_fields fs
      (conforms-IsObject workflow_stage_properties workflow_stage_required fs h)
workflow_stage-Admits null h = absurd cc
workflow_stage-Admits (bool b) h = absurd cc
workflow_stage-Admits (number n) h = absurd cc
workflow_stage-Admits (text t) h = absurd cc
workflow_stage-Admits (list js) h = absurd cc

task_plan_fields :
    (fs : Fields) → IsObject task_plan_properties task_plan_required fs → Succeeds (task_plan_of fs)
unfolding task_plan_of codes text_beq
task_plan_fields fs o = is_ok->>= (required-Admits o (codes "id") refl refl string-Admits) (λ id.
    is_ok->>=
      (aliased-Admits o (codes "conversationId") (codes "conversation_id") refl refl string-Admits)
      (λ conversation_id.
        is_ok->>=
          (aliased-Admits o (codes "taskIntent") (codes "task_intent") refl refl task_intent-Admits)
          (λ task_intent.
            is_ok->>=
              (required-Admits o (codes "workflow") refl refl
                (array-Admits workflow_stage_schema parse_workflow_stage workflow_stage-Admits))
              (λ workflow.
                is_ok->>=
                  (required-Admits o (codes "status") refl refl
                    (enum-Admits task_plan_status_value task_plan_status_all))
                  (λ status.
                    is_ok->>=
                      (aliased-Admits o (codes "createdAt") (codes "created_at") refl refl
                        string-Admits)
                      (λ created_at. record { succeeds = refl }))))))

pub task_plan-Admits : Admits task_plan_schema parse_task_plan
unfolding parse_task_plan conforms task_plan_schema
task_plan-Admits (mapping fs) h =
    task_plan_fields fs (conforms-IsObject task_plan_properties task_plan_required fs h)
task_plan-Admits null h = absurd cc
task_plan-Admits (bool b) h = absurd cc
task_plan-Admits (number n) h = absurd cc
task_plan-Admits (text t) h = absurd cc
task_plan-Admits (list js) h = absurd cc
