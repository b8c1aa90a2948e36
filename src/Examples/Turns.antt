-- ===== src/Examples/Turns.antt =====
-- A turn whose first attempt times out (services/agent/chat_pipeline.py).
use cyber_tracker_ai.Base.{
  ℕ, ◌≤◌, ◌<◌, ◌≡◌, ◌↔◌, refl, true, Option, none, some, List, [], ◌∷◌, ◌++◌, arith, ◌==◌, nat_eq,
  if◌then◌else◌,
}
use cyber_tracker_ai.Base.Text.{Text, codes, strip, text_eq, text_beq, starts_with}
use cyber_tracker_ai.Base.Json.{Json}
use cyber_tracker_ai.Base.Result.{Result, ok, err}
use cyber_tracker_ai.Chat.Schemas.{AiResponse}
use cyber_tracker_ai.Chat.Validation.{dump_ai_response}
use cyber_tracker_ai.Chat.Context.{ConversationContext, Role, Message, bounded_history}
use cyber_tracker_ai.Chat.Context.Window.{IsWindow, bounded_history-IsWindow}
use cyber_tracker_ai.Chat.Prompts.{sanitize, build_user_message_block}
use cyber_tracker_ai.Chat.Prompts.Fences.{quoted, quoted-build_user_message_block}
use cyber_tracker_ai.Chat.Retry.{AiProviderError, AiProviderErrorCode, call_with_retry}
use cyber_tracker_ai.Chat.Retry.Attempts.{IsRetried, is_transient, call_with_retry-IsRetried}
use cyber_tracker_ai.Chat.Pipeline.{
  ChatPipeline, ChatTurnRequest, extract, corrected, provider_messages, handle_message,
}
use cyber_tracker_ai.Chat.Pipeline.Turns.{
  IsSendable, IsAnswered, handle_message_iff, handle_message_served,
}
use cyber_tracker_ai.Examples.Chat.{response, response_accepted}

abbrev context : ConversationContext
context = record {
  conversation_id = codes "c";
  history = record { role = Role.user; content = codes "hello" } ∷ [];
  known_target = none;
  known_authorization_status = none;
  known_constraints = [];
  existing_objective = none;
}

abbrev turn : ChatTurnRequest
turn = record {
  request_id = codes "r";
  conversation_id = codes "mine";
  message = codes " scan it ";
  context = context;
}

abbrev config : ChatPipeline
config = record { max_input_chars = 4000; retry_max_attempts = 3; retry_base_delay = 500 }

-- The second attempt is answered.
abbrev answers : ℕ → Result AiProviderError Text
answers attempt =
    if attempt == 1
    then err (record { code = AiProviderErrorCode.timeout; message = codes "slow" })
    else ok (codes "answer")

abbrev complete : List Message → ℕ → Result AiProviderError Text
complete messages attempt = answers attempt

abbrev loads : Text → Option Json
loads t = if t == codes "answer" then some (dump_ai_response response) else none

sendable : IsSendable config turn
unfolding strip codes
sendable = (omega arith, omega arith)

decoded : loads (extract (codes "answer")) ≡ some (dump_ai_response response)
unfolding extract strip codes text_beq starts_with
decoded = refl

bounded_history-IsWindow_example : IsWindow context.history (bounded_history context)
bounded_history-IsWindow_example = bounded_history-IsWindow context

quoted-build_user_message_block_example :
    quoted (build_user_message_block (codes "a```b"))
    ≡ some (10 ∷ (sanitize (codes "a```b") ++ 10 ∷ []), [])
quoted-build_user_message_block_example = quoted-build_user_message_block (codes "a```b")

call_with_retry-IsRetried_example : IsRetried answers 3 4000 (call_with_retry answers 3 500 4000)
call_with_retry-IsRetried_example = call_with_retry-IsRetried answers 3 500 4000 (omega arith)

handle_message_iff_example :
    ((handle_message loads complete config turn).0 ≡ ok (corrected turn response))
    ↔ IsAnswered loads complete config turn (corrected turn response)
handle_message_iff_example = handle_message_iff loads complete config turn (corrected turn response)

first_timed_out :
    (j : ℕ) → 1 ≤ j → j < 2 → is_transient (complete (provider_messages turn) j) ≡ true
first_timed_out j a b = ground (arith, a, b)

handle_message_served_example :
    (r : AiResponse) × (handle_message loads complete config turn ≡ (ok r, 2))
    × (r.task_plan.conversation_id ≡ codes "mine")
handle_message_served_example =
    handle_message_served loads complete config turn 2 (codes "answer") (dump_ai_response response)
      sendable (omega arith) (omega arith) first_timed_out refl decoded response_accepted
