-- ===== src/Chat/Pipeline.antt =====
-- One turn of the chat (services/agent/chat_pipeline.py). The provider's answers are a function of the
-- attempt and of what it is sent; `loads` is the JSON decoder, `none` where it raises. Logging is left
-- out.
pub mod Turns
use cyber_tracker_ai.Base.{
  ℕ, Bool, true, false, ◌&&◌, ◌||◌, Option, none, some, List, [], ◌∷◌, ◌++◌, ◌==◌, nat_eq,
  if◌then◌else◌, length, last?, leb, ltb,
}
use mathlib.Core.List.{reverse}
use cyber_tracker_ai.Base.Json.{Json}
use cyber_tracker_ai.Base.Text.{Text, codes, strip, starts_with, text_eq}
use cyber_tracker_ai.Base.Result.{Result, ok, err}
use cyber_tracker_ai.Chat.Schemas.{TaskPlan, AiResponse}
use cyber_tracker_ai.Chat.Validation.{parse_ai_response}
use cyber_tracker_ai.Chat.Context.{
  ConversationContext, Message, Role, Content, bounded_history, build_context_summary, join,
  to_provider_messages,
}
use cyber_tracker_ai.Chat.Prompts.{fence, build_application_context_block, build_user_message_block}
use cyber_tracker_ai.Chat.Retry.{
  AiProviderErrorCode, AiProviderError, RetryFailure, value_error, assertion_error, provider_error,
  Retried, call_with_retry,
}

pub data ChatPipelineErrorCode : Type 0 where
  empty_message invalid_input request_failed timeout invalid_task unexpected_response :
      ChatPipelineErrorCode

-- `_PROVIDER_ERROR_TO_PIPELINE_ERROR`, which has every code.
abbrev pipeline_error : AiProviderErrorCode → ChatPipelineErrorCode
pipeline_error AiProviderErrorCode.missing_api_key = request_failed
pipeline_error AiProviderErrorCode.invalid_api_key = request_failed
pipeline_error AiProviderErrorCode.configuration_error = request_failed
pipeline_error AiProviderErrorCode.unavailable = request_failed
pipeline_error AiProviderErrorCode.timeout = ChatPipelineErrorCode.timeout
pipeline_error AiProviderErrorCode.rate_limited = request_failed
pipeline_error AiProviderErrorCode.network_error = request_failed
pipeline_error AiProviderErrorCode.invalid_response = unexpected_response
pipeline_error AiProviderErrorCode.unknown = unexpected_response

-- What `handle_message` raises: a `ChatPipelineError` by its code, or what else leaves the retry.
pub data TurnError : Type 0 where
  pipeline : ChatPipelineErrorCode → TurnError
  escaped : RetryFailure → TurnError

pub record ChatTurnRequest : Type 0 where
  pub request_id : Text
  pub conversation_id : Text
  pub message : Text
  pub context : ConversationContext

pub record ChatPipeline : Type 0 where
  pub max_input_chars : ℕ
  pub retry_max_attempts : ℕ
  pub retry_base_delay : ℕ

-- The characters that end a line for `str.splitlines`; a carriage return and a line feed end one.
abbrev ends_line : ℕ → Bool
ends_line c =
    leb 10 c && leb c 13 || leb 28 c && leb c 30 || c == 0x85 || c == 0x2028 || c == 0x2029

-- The lines of a text, the one that is being read reversed in front.
unfoldable pub lines_after : Text → Text → List Text
lines_after [] [] = []
lines_after (c ∷ line) [] = reverse (c ∷ line) ∷ []
lines_after line (a ∷ []) = if ends_line a then reverse line ∷ [] else reverse (a ∷ line) ∷ []
lines_after line (a ∷ b ∷ cs) = elim (a == 13 && b == 10) [
  | true ↦ reverse line ∷ lines_after [] cs
  | false ↦ elim (ends_line a) [
    | true ↦ reverse line ∷ lines_after [] (b ∷ cs)
    | false ↦ lines_after (a ∷ line) (b ∷ cs)
  ]
]

unfoldable pub splitlines : Text → List Text
unfolding lines_after
splitlines t = lines_after [] t

-- `lines[1:]`, and `lines[:-1]` of that.
abbrev rest_of : List Text → List Text
rest_of [] = []
rest_of (line ∷ lines) = lines

unfoldable pub without_last : List Text → List Text
without_last [] = []
without_last (line ∷ []) = []
without_last (line ∷ next ∷ lines) = line ∷ without_last (next ∷ lines)

abbrev closes : Option Text → Bool
closes none = false
closes (some line) = strip line == fence

-- The part of an answer that is decoded: without the markdown fences around it.
unfoldable pub extract : Text → Text
unfolding splitlines without_last
extract answer =
    let raw_text = strip answer in
    let lines = splitlines raw_text in
    if starts_with fence raw_text
    then join (codes "\n")
        (if closes (last? lines) then without_last (rest_of lines) else rest_of lines)
    else raw_text

-- The messages of a request to the provider.
unfoldable pub provider_messages : ChatTurnRequest → List Message
provider_messages turn =
    record { role = Role.system; content = Content.system_instruction }
    ∷ record {
      role = Role.system;
      content =
          Content.written (build_application_context_block (build_context_summary turn.context));
    }
    ∷ (to_provider_messages (bounded_history turn.context)
        ++ record {
          role = Role.user;
          content = Content.written (build_user_message_block (strip turn.message));
        }
          ∷ [])

-- `model_copy` with the identifier of the application.
abbrev pub corrected : ChatTurnRequest → AiResponse → AiResponse
corrected turn response = record response {
  task_plan = record response.task_plan { conversation_id = turn.conversation_id };
}

module _ (loads : Text → Option Json) where
  -- The part after the provider's answer.
  unfoldable pub validated : ChatTurnRequest → Text → Result TurnError AiResponse
  unfolding extract
  validated turn answer = elim (loads (extract answer)) [
    | none ↦ err (pipeline unexpected_response)
    | some payload ↦ elim (parse_ai_response payload) [
      | err e ↦ err (pipeline invalid_task)
      | ok response ↦ ok (corrected turn response)
    ]
  ]

  -- The part after the retry.
  abbrev pub concluded : ChatTurnRequest → Result RetryFailure Text → Result TurnError AiResponse
  concluded turn (ok answer) = validated turn answer
  concluded turn (err value_error) = err (escaped value_error)
  concluded turn (err assertion_error) = err (escaped assertion_error)
  concluded turn (err (provider_error e)) = err (pipeline (pipeline_error e.code))

  module _ (complete : List Message → ℕ → Result AiProviderError Text) where
    abbrev pub requested : ChatPipeline → ChatTurnRequest → Retried Text
    requested config turn =
        call_with_retry (complete (provider_messages turn)) config.retry_max_attempts
          config.retry_base_delay 4000

    -- `handle_message`, beside the number of calls of the provider.
    unfoldable pub handle_message : ChatPipeline → ChatTurnRequest → Result TurnError AiResponse × ℕ
    unfolding validated
    handle_message config turn =
        let trimmed = strip turn.message in
        if length trimmed == 0
        then (err (pipeline empty_message), 0)
        else if ltb config.max_input_chars (length trimmed)
        then (err (pipeline invalid_input), 0)
        else (concluded turn (requested config turn).outcome, (requested config turn).calls)
