-- ===== src/Chat/Gemini/Conformance.antt =====
-- Whatever conforms to the schema is a valid answer (services/agent/schemas.py).
use cyber_tracker_ai.Base.{◌≡◌, refl, true, nat_eq}
use cyber_tracker_ai.Base.Json.{Json, text, list, mapping, Fields, null, bool, number}
use cyber_tracker_ai.Base.Text.{codes, text_eq, text_beq}
use cyber_tracker_ai.Base.Result.{is_ok}
use cyber_tracker_ai.Chat.Schemas.{
  authorization_state_value, risk_level_value, approval_requirement_value, authorization_state_all,
  risk_level_all, approval_requirement_all,
}
use cyber_tracker_ai.Chat.Validation.{parse_ai_response, ai_response_of}
use cyber_tracker_ai.Chat.Gemini.{conforms, response_schema, response_properties, response_required}
use cyber_tracker_ai.Chat.Gemini.Admits.{
  string-Admits, enum-Admits, is_ok->>=, required-Admits, aliased-Admits,
}
use cyber_tracker_ai.Chat.Gemini.Admits.{IsObject, conforms-IsObject, Succeeds}
use cyber_tracker_ai.Chat.Gemini.Intents.{task_intent-Admits, missing_information-Admits}
use cyber_tracker_ai.Chat.Gemini.Plans.{task_plan-Admits}

response_fields :
    (fs : Fields) → IsObject response_properties response_required fs → Succeeds (ai_response_of fs)
unfolding ai_response_of codes text_beq
response_fields fs o =
    is_ok->>= (required-Admits o (codes "message") refl refl string-Admits) (λ message.
      is_ok->>=
        (aliased-Admits o (codes "taskIntent") (codes "task_intent") refl refl task_intent-Admits)
        (λ task_intent.
          is_ok->>=
            (aliased-Admits o (codes "taskPlan") (codes "task_plan") refl refl task_plan-Admits)
            (λ task_plan.
              is_ok->>=
                (aliased-Admits o (codes "authorizationStatus") (codes "authorization_status") refl
                  refl (enum-Admits authorization_state_value authorization_state_all))
                (λ authorization_status.
                  is_ok->>=
                    (aliased-Admits o (codes "riskLevel") (codes "risk_level") refl refl
                      (enum-Admits risk_level_value risk_level_all))
                    (λ risk_level.
                      is_ok->>=
                        (aliased-Admits o (codes "requiresApproval") (codes "requires_approval")
                          refl refl
                          (enum-Admits approval_requirement_value approval_requirement_all))
                        (λ requires_approval.
                          is_ok->>=
                            (aliased-Admits o (codes "missingInformation")
                              (codes "missing_information") refl refl missing_information-Admits)
                            (λ missing_information.
                              is_ok->>=
                                (aliased-Admits o (codes "nextAction") (codes "next_action") refl
                                  refl string-Admits)
                                (λ next_action. record { succeeds = refl }))))))))

-- A model that keeps to the schema it is given gives a valid answer: whatever conforms to the schema
-- is accepted by the validation.
pub parse_ai_response-conforms :
    (j : Json) → conforms response_schema j ≡ true → is_ok (parse_ai_response j) ≡ true
unfolding parse_ai_response conforms response_schema
parse_ai_response-conforms (mapping fs) h =
    (response_fields fs (conforms-IsObject response_properties response_required fs h)).succeeds
parse_ai_response-conforms null h = cc
parse_ai_response-conforms (bool b) h = cc
parse_ai_response-conforms (number n) h = cc
parse_ai_response-conforms (text t) h = cc
parse_ai_response-conforms (list js) h = cc
