-- ===== src/Chat/Pipeline/Turns.antt =====
-- What a turn of the chat comes to (services/agent/chat_pipeline.py), by the framing, the retry, the
-- schema and the validation.
use cyber_tracker_ai.Base.{
  ℕ, ◌≤◌, ◌<◌, ◌≡◌, ◌↔◌, refl, ap, sym, ◌∙◌, true, false, Option, some, List, ◌==◌, nat_eq, length,
  ltb, arith, Option-cases, inl, inr,
}
use cyber_tracker_ai.Base.Json.{Json}
use cyber_tracker_ai.Base.Text.{Text, strip}
use cyber_tracker_ai.Base.Result.{Result, ok, err, Result-cases}
use cyber_tracker_ai.Chat.Schemas.{AiResponse}
use cyber_tracker_ai.Chat.Validation.{parse_ai_response}
use cyber_tracker_ai.Chat.Gemini.{conforms, response_schema}
use cyber_tracker_ai.Chat.Gemini.Conformance.{parse_ai_response-conforms}
use cyber_tracker_ai.Chat.Context.{Message}
use cyber_tracker_ai.Chat.Retry.{
  AiProviderError, RetryFailure, value_error, assertion_error, provider_error, Retried,
  call_with_retry,
}
use cyber_tracker_ai.Chat.Retry.Attempts.{
  IsRetried, raised, is_transient, call_with_retry-IsRetried,
}
use cyber_tracker_ai.Chat.Pipeline.{
  TurnError, ChatTurnRequest, ChatPipeline, extract, provider_messages, corrected, validated,
  concluded, requested, handle_message,
}

-- A message that is neither empty nor too long.
abbrev pub IsSendable : ChatPipeline → ChatTurnRequest → Type 0
IsSendable config turn =
    (1 ≤ length (strip turn.message)) × (length (strip turn.message) ≤ config.max_input_chars)

-- The first answer that is no transient error is the one that the retry ends with.
calls-first {ℓ} :
    {T : Type ℓ} (fn : ℕ → Result AiProviderError T) (max_attempts max_delay k : ℕ) (r : Retried T)
    → IsRetried fn max_attempts max_delay r
    → 1 ≤ k
    → k ≤ max_attempts
    → ((j : ℕ) → 1 ≤ j → j < k → is_transient (fn j) ≡ true)
    → is_transient (fn k) ≡ false
    → r.calls ≡ k
calls-first fn max_attempts max_delay k r i some_call room earlier final =
    ground
      (arith, i.called, i.bounded, i.transient k, i.final, some_call, room, earlier r.calls, final)

module _ (loads : Text → Option Json) (complete : List Message → ℕ → Result AiProviderError Text)
    (config : ChatPipeline) (turn : ChatTurnRequest) where
  sendable-handle_message :
      IsSendable config turn
      → handle_message loads complete config turn ≡ (
        concluded loads turn (requested loads complete config turn).outcome,
        (requested loads complete config turn).calls,
      )
  unfolding handle_message
  sendable-handle_message s =
      let some_text : (length (strip turn.message) == 0) ≡ false = ground (arith, s.0) in
      let fits : ltb config.max_input_chars (length (strip turn.message)) ≡ false =
        ground (arith, s.1) in
      rw (some_text, fits) refl

  validated-ok :
      (answer : Text) (r : AiResponse)
      → validated loads turn answer ≡ ok r
      → (payload : Json) × (response : AiResponse) × (loads (extract answer) ≡ some payload)
        × (parse_ai_response payload ≡ ok response)
        × (r ≡ corrected turn response)
  unfolding validated
  validated-ok answer r h = elim (Option-cases (loads (extract answer))) [
    | inl nothing ↦ absurd (ground (arith, nothing, h))
    | inr (payload, decoded) ↦ elim (Result-cases (parse_ai_response payload)) [
      | inr (e, refused) ↦ absurd (ground (arith, decoded, refused, h))
      | inl (response, parsed) ↦
          (payload, response, decoded, parsed, ground (arith, decoded, parsed, h))
    ]
  ]

  ok-validated :
      (answer : Text) (payload : Json) (response : AiResponse)
      → loads (extract answer) ≡ some payload
      → parse_ai_response payload ≡ ok response
      → validated loads turn answer ≡ ok (corrected turn response)
  unfolding validated
  ok-validated answer payload response decoded parsed = ground (arith, decoded, parsed)

  -- What it takes to answer a turn: the message can be sent, an attempt is answered with a text after
  -- transient errors alone, the text is decoded and valid.
  pub record IsAnswered (r : AiResponse) : Type 0 where
    pub sendable : IsSendable config turn
    pub attempt : ℕ
    pub made : 1 ≤ attempt
    pub allowed : attempt ≤ config.retry_max_attempts
    pub earlier :
        (j : ℕ) → 1 ≤ j → j < attempt → is_transient (complete (provider_messages turn) j) ≡ true
    pub answer : Text
    pub given : complete (provider_messages turn) attempt ≡ ok answer
    pub payload : Json
    pub decoded : loads (extract answer) ≡ some payload
    pub response : AiResponse
    pub valid : parse_ai_response payload ≡ ok response
    pub result : r ≡ corrected turn response

  abbrev IsRetriedTurn : Type 0
  IsRetriedTurn =
      IsRetried (complete (provider_messages turn)) config.retry_max_attempts 4000
        (requested loads complete config turn)

  retried : 1 ≤ config.retry_max_attempts → IsRetriedTurn
  retried some_attempt =
      call_with_retry-IsRetried (complete (provider_messages turn)) config.retry_max_attempts
        config.retry_base_delay 4000 some_attempt

  raised-ok :
      (o : Result AiProviderError Text) (answer : Text) → raised o ≡ ok answer → o ≡ ok answer
  raised-ok (ok t) answer h = ground (arith, h)
  raised-ok (err e) answer h = cc

  concluded-ok :
      (o : Result RetryFailure Text) (r : AiResponse)
      → concluded loads turn o ≡ ok r
      → (answer : Text) × (o ≡ ok answer) × (validated loads turn answer ≡ ok r)
  concluded-ok (ok answer) r h = (answer, refl, h)
  concluded-ok (err value_error) r h = absurd cc
  concluded-ok (err assertion_error) r h = absurd cc
  concluded-ok (err (provider_error e)) r h = absurd cc

  unsendable :
      (r : AiResponse)
      → (handle_message loads complete config turn).0 ≡ ok r
      → IsSendable config turn
  unfolding handle_message
  unsendable r h = (ground (arith, h), ground (arith, h))

  attempted :
      (answer : Text)
      → (requested loads complete config turn).outcome ≡ ok answer
      → 1 ≤ config.retry_max_attempts
  unfolding call_with_retry
  attempted answer h = ground (arith, h)

  handle_message-IsAnswered :
      (r : AiResponse) → (handle_message loads complete config turn).0 ≡ ok r → IsAnswered r
  handle_message-IsAnswered r h =
      let sendable = unsendable r h in
      let (answer, outcome, checked) =
        concluded-ok (requested loads complete config turn).outcome r (
          sym (ap (λ (p : Result TurnError AiResponse × ℕ). p.0) (sendable-handle_message sendable))
          ∙ h) in
      let i = retried (attempted answer outcome) in
      let (payload, response, decoded, valid, result) = validated-ok answer r checked in
      record {
        sendable = sendable;
        attempt = (requested loads complete config turn).calls;
        made = i.called;
        allowed = i.bounded;
        earlier = i.transient;
        answer = answer;
        given =
            raised-ok
              (complete (provider_messages turn) (requested loads complete config turn).calls)
              answer (sym i.answered ∙ outcome);
        payload = payload;
        decoded = decoded;
        response = response;
        valid = valid;
        result = result;
      }

  -- With an attempt that is answered after transient errors alone, the turn ends with that answer.
  served :
      (k : ℕ) (answer : Text)
      → IsSendable config turn
      → 1 ≤ k
      → k ≤ config.retry_max_attempts
      → ((j : ℕ) → 1 ≤ j → j < k → is_transient (complete (provider_messages turn) j) ≡ true)
      → complete (provider_messages turn) k ≡ ok answer
      → handle_message loads complete config turn ≡ (validated loads turn answer, k)
  served k answer sendable made allowed earlier given =
      let i = retried (omega (arith, made, allowed)) in
      let final : is_transient (complete (provider_messages turn) k) ≡ false = rw given refl in
      let calls =
        calls-first (complete (provider_messages turn)) config.retry_max_attempts 4000 k
          (requested loads complete config turn) i made allowed earlier final in
      let outcome : (requested loads complete config turn).outcome ≡ ok answer =
        i.answered
        ∙ ap (λ (n : ℕ). raised (complete (provider_messages turn) n)) calls
        ∙ ap (λ (o : Result AiProviderError Text). raised o) given in
      sendable-handle_message sendable
      ∙ ap
          (λ (o : Result RetryFailure Text).
            (concluded loads turn o, (requested loads complete config turn).calls))
          outcome
      ∙ ap (λ (n : ℕ). (validated loads turn answer, n)) calls

  -- A turn is answered with `r` exactly if its message can be sent, an attempt that the configuration
  -- allows is answered after transient errors alone, that answer decodes to a valid response, and `r`
  -- is the response with the conversation of the turn in place of the one it names.
  pub handle_message_iff :
      (r : AiResponse) → ((handle_message loads complete config turn).0 ≡ ok r) ↔ IsAnswered r
  handle_message_iff r = (
    handle_message-IsAnswered r,
    λ a.
        ap (λ (p : Result TurnError AiResponse × ℕ). p.0)
          (served a.attempt a.answer a.sendable a.made a.allowed a.earlier a.given)
        ∙ ok-validated a.answer a.payload a.response a.decoded a.valid
        ∙ ap (λ (x : AiResponse). ok x) (sym a.result),
  )

  -- A message that can be sent, to a provider that keeps to the schema: when an allowed attempt is
  -- answered, after transient errors alone, by a text that decodes to a value conforming to the schema
  -- of answers, the turn is answered, for its own conversation, by as many calls.
  pub handle_message_served :
      (k : ℕ) (answer : Text) (payload : Json)
      → IsSendable config turn
      → 1 ≤ k
      → k ≤ config.retry_max_attempts
      → ((j : ℕ) → 1 ≤ j → j < k → is_transient (complete (provider_messages turn) j) ≡ true)
      → complete (provider_messages turn) k ≡ ok answer
      → loads (extract answer) ≡ some payload
      → conforms response_schema payload ≡ true
      → (r : AiResponse) × (handle_message loads complete config turn ≡ (ok r, k))
        × (r.task_plan.conversation_id ≡ turn.conversation_id)
  handle_message_served k answer payload sendable made allowed earlier given decoded fits =
      elim (Result-cases (parse_ai_response payload)) [
        | inr (e, refused) ↦
            absurd (ground (arith, refused, parse_ai_response-conforms payload fits))
        | inl (response, valid) ↦ (
          corrected turn response,
          served k answer sendable made allowed earlier given
              ∙ ap (λ (o : Result TurnError AiResponse). (o, k))
                  (ok-validated answer payload response decoded valid),
          refl,
        )
      ]
