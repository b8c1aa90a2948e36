-- ===== src/Chat/Retry/Attempts.antt =====
-- How many times a provider is called, and with which outcome (services/agent/retry.py).
use cyber_tracker_ai.Base.{
  ℕ, zero, suc, ◌+◌, ◌≤◌, ◌<◌, ◌≡◌, ◌⊎◌, refl, ap, sym, ◌∙◌, Bool, true, false, Option, none, some,
  [], ◌∷◌, ◌==◌, nat_eq, ltb, arith, All, length, Bool-cases, inl, inr,
}
use cyber_tracker_ai.Base.Result.{Result, ok, err, Result-cases}
use cyber_tracker_ai.Chat.Retry.{
  AiProviderError, RetryFailure, provider_error, Retried, is_retryable, delay_of, rounds,
  call_with_retry, after_sleep,
}

-- An answer of the provider as the outcome of the retry.
abbrev pub raised {ℓ} : {T : Type ℓ} → Result AiProviderError T → Result RetryFailure T
raised (ok value) = ok value
raised (err e) = err (provider_error e)

-- An answer after which the provider is called again.
abbrev pub is_transient {ℓ} : {T : Type ℓ} → Result AiProviderError T → Bool
is_transient (ok value) = false
is_transient (err e) = is_retryable e.code

-- The calls after the first `before` ones: each but the last was answered by a transient error, the
-- last answer is the outcome, and it is final unless no attempt was left.
record IsRetriedFrom {ℓ} {T : Type ℓ} (fn : ℕ → Result AiProviderError T)
    (max_attempts max_delay before : ℕ) (r : Retried T) : Type ℓ where
  pub called : 1 ≤ r.calls
  pub bounded : before + r.calls ≤ max_attempts
  pub transient : (k : ℕ) → before < k → k < before + r.calls → is_transient (fn k) ≡ true
  pub answered : r.outcome ≡ raised (fn (before + r.calls))
  pub final : (is_transient (fn (before + r.calls)) ≡ false) ⊎ (before + r.calls ≡ max_attempts)
  pub paused : suc (length r.slept) ≡ r.calls
  pub short : All (λ d. d ≤ max_delay) r.slept

-- All the calls.
pub record IsRetried {ℓ} {T : Type ℓ} (fn : ℕ → Result AiProviderError T)
    (max_attempts max_delay : ℕ) (r : Retried T) : Type ℓ where
  pub called : 1 ≤ r.calls
  pub bounded : r.calls ≤ max_attempts
  pub transient : (k : ℕ) → 1 ≤ k → k < r.calls → is_transient (fn k) ≡ true
  pub answered : r.outcome ≡ raised (fn r.calls)
  pub final : (is_transient (fn r.calls) ≡ false) ⊎ (r.calls ≡ max_attempts)
  pub paused : suc (length r.slept) ≡ r.calls
  pub short : All (λ d. d ≤ max_delay) r.slept

module _ {ℓ} {T : Type ℓ} (fn : ℕ → Result AiProviderError T)
    (max_attempts base_delay max_delay : ℕ) where
  -- The call that ends the loop.
  once-IsRetriedFrom :
      (before : ℕ)
      → suc before ≤ max_attempts
      → (is_transient (fn (suc before)) ≡ false) ⊎ (suc before ≡ max_attempts)
      → IsRetriedFrom fn max_attempts max_delay before
          (record { outcome = raised (fn (suc before)); calls = 1; slept = [] })
  once-IsRetriedFrom before room ends = record {
    called = omega arith;
    bounded = omega (arith, room);
    transient = λ k a b. absurd (omega (arith, a, b));
    answered = let e : before + 1 ≡ suc before = omega arith in rw e refl;
    final = let e : before + 1 ≡ suc before = omega arith in rw e ends;
    paused = refl;
    short = tt;
  }

  delay_bounded : (attempt : ℕ) → delay_of base_delay max_delay attempt ≤ max_delay
  unfolding delay_of
  delay_bounded attempt = omega arith

  sleep-IsRetriedFrom :
      (before : ℕ) (r : Retried T) (delay : ℕ)
      → is_transient (fn (suc before)) ≡ true
      → delay ≤ max_delay
      → IsRetriedFrom fn max_attempts max_delay (suc before) r
      → IsRetriedFrom fn max_attempts max_delay before
          (record { outcome = r.outcome; calls = suc r.calls; slept = delay ∷ r.slept })
  sleep-IsRetriedFrom before r delay first small i =
      let e : before + suc r.calls ≡ suc before + r.calls = omega arith in
      record {
        called = omega arith;
        bounded = omega (arith, i.bounded);
        transient = λ k a b. elim (Bool-cases (k == suc before)) [
          | inl same ↦ let s : k ≡ suc before = ground (arith, same) in rw s first
          | inr other ↦ i.transient k (ground (arith, a, other)) (omega (arith, b))
        ];
        answered = rw e i.answered;
        final = rw e i.final;
        paused = omega (arith, i.paused);
        short = (small, i.short);
      }

  rounds_ended :
      (left before : ℕ) (last_error : Option AiProviderError)
      → (is_transient (fn (suc before)) ≡ false) ⊎ (suc before ≡ max_attempts)
      → rounds fn max_attempts base_delay max_delay (suc left) (suc before) last_error
        ≡ record { outcome = raised (fn (suc before)); calls = 1; slept = [] }
  unfolding rounds
  rounds_ended left before last_error ends = elim (Result-cases (fn (suc before))) [
    | inl (value, e) ↦ rw (e, rounds) refl
    | inr (e, failed) ↦ rw (failed, rounds) (ground (arith, ends, failed))
  ]

  rounds_slept :
      (left before : ℕ) (last_error : Option AiProviderError)
      → is_transient (fn (suc before)) ≡ true
      → suc before < max_attempts
      → (e : AiProviderError) × (rounds fn max_attempts base_delay max_delay
            (suc left)
            (suc before)
            last_error
          ≡ after_sleep fn max_attempts base_delay max_delay
              (delay_of base_delay max_delay (suc before))
              (rounds fn max_attempts base_delay max_delay left (suc (suc before)) (some e)))
  unfolding rounds
  rounds_slept left before last_error transient more = elim (Result-cases (fn (suc before))) [
    | inl (value, e) ↦ absurd (ground (arith, transient, e))
    | inr (e, failed) ↦ (e, rw (failed, rounds) (ground (arith, transient, failed, more)))
  ]

  rounds-IsRetriedFrom :
      (left before : ℕ) (last_error : Option AiProviderError)
      → 1 ≤ left
      → left + before ≡ max_attempts
      → IsRetriedFrom fn max_attempts max_delay before
          (rounds fn max_attempts base_delay max_delay left (suc before) last_error)
  rounds-IsRetriedFrom zero before last_error some_left total = absurd (omega (arith, some_left))
  rounds-IsRetriedFrom (suc zero) before last_error some_left total =
      let ends : suc before ≡ max_attempts = omega (arith, total) in
      rw (rounds_ended zero before last_error (inr ends))
        (once-IsRetriedFrom before (omega (arith, ends)) (inr ends))
  rounds-IsRetriedFrom (suc (suc left)) before last_error some_left total =
      elim (Bool-cases (is_transient (fn (suc before)))) [
        | inr final ↦
            rw (rounds_ended (suc left) before last_error (inl final))
              (once-IsRetriedFrom before (omega (arith, total)) (inl final))
        | inl transient ↦
            let (e, slept) =
              rounds_slept (suc left) before last_error transient (omega (arith, total)) in
            rw slept (
              sleep-IsRetriedFrom before
                (rounds fn max_attempts base_delay max_delay (suc left) (suc (suc before)) (some e))
                (delay_of base_delay max_delay (suc before)) transient (delay_bounded (suc before))
                (rounds-IsRetriedFrom (suc left) (suc before) (some e) (omega arith)
                  (omega (arith, total))))
      ]

  from_start-IsRetried :
      (r : Retried T)
      → IsRetriedFrom fn max_attempts max_delay 0 r
      → IsRetried fn max_attempts max_delay r
  from_start-IsRetried r i =
      let e : r.calls ≡ 0 + r.calls = omega arith in
      record {
        called = i.called;
        bounded = omega (arith, i.bounded);
        transient = λ k a b. i.transient k (omega (arith, a)) (omega (arith, b));
        answered = i.answered ∙ ap (λ (n : ℕ). raised (fn n)) (sym e);
        final = elim i.final [
          | inl no_more ↦ inl (ap (λ (n : ℕ). is_transient (fn n)) e ∙ no_more)
          | inr all_made ↦ inr (e ∙ all_made)
        ];
        paused = i.paused;
        short = i.short;
      }

  -- With at least one attempt allowed the retry ends with the answer of its last call, which is at
  -- most the last allowed one; every answer before it was a transient error, and it is no transient
  -- error unless no attempt was left. One delay, of at most the longest, is slept between two calls.
  pub call_with_retry-IsRetried :
      1 ≤ max_attempts
      → IsRetried fn max_attempts max_delay (call_with_retry fn max_attempts base_delay max_delay)
  unfolding call_with_retry
  call_with_retry-IsRetried some_attempt =
      let enough : ltb max_attempts 1 ≡ false = ground (arith, some_attempt) in
      rw enough (
        from_start-IsRetried (rounds fn max_attempts base_delay max_delay max_attempts 1 none)
          (rounds-IsRetriedFrom max_attempts 0 none some_attempt (omega arith)))
