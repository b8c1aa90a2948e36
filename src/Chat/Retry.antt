-- ===== src/Chat/Retry.antt =====
-- The retry of a provider call (services/agent/retry.py, providers/base.py). Delays are in
-- milliseconds; the answers of the provider are a function of the attempt.
pub mod Attempts
use cyber_tracker_ai.Base.{
  ℕ, zero, suc, ◌+◌, ◌-◌, ◌*◌, ◌^◌, min, Bool, true, false, not, ◌||◌, Option, none, some, List, [],
  ◌∷◌, ◌==◌, nat_eq, if◌then◌else◌, ltb,
}
use cyber_tracker_ai.Base.Text.{Text}
use cyber_tracker_ai.Base.Result.{Result, ok, err}

pub data AiProviderErrorCode : Type 0 where
  missing_api_key invalid_api_key configuration_error unavailable timeout rate_limited network_error
        invalid_response unknown :
      AiProviderErrorCode

-- `RETRYABLE_ERROR_CODES`.
abbrev pub is_retryable : AiProviderErrorCode → Bool
is_retryable unavailable = true
is_retryable timeout = true
is_retryable network_error = true
is_retryable rate_limited = true
is_retryable _ = false

pub record AiProviderError : Type 0 where
  pub code : AiProviderErrorCode
  pub message : Text

-- What leaves `call_with_retry` by a raise.
pub data RetryFailure : Type 0 where
  value_error assertion_error : RetryFailure
  provider_error : AiProviderError → RetryFailure

-- The outcome, the number of calls, and the delays that were slept.
pub record Retried {ℓ} (T : Type ℓ) : Type ℓ where
  pub outcome : Result RetryFailure T
  pub calls : ℕ
  pub slept : List ℕ

unfoldable pub delay_of : ℕ → ℕ → ℕ → ℕ
delay_of base_delay max_delay attempt = min (base_delay * 2 ^ (attempt - 1)) max_delay

module _ {ℓ} {T : Type ℓ} (fn : ℕ → Result AiProviderError T)
    (max_attempts base_delay max_delay : ℕ) where
  abbrev after_sleep : ℕ → Retried T → Retried T
  after_sleep delay rest = record rest { calls = suc rest.calls; slept = delay ∷ rest.slept }

  abbrev once : Result RetryFailure T → Retried T
  once outcome = record { outcome = outcome; calls = 1; slept = [] }

  -- `raise last_error` after the loop.
  abbrev exhausted : Option AiProviderError → Retried T
  exhausted none = record { outcome = err assertion_error; calls = 0; slept = [] }
  exhausted (some e) = record { outcome = err (provider_error e); calls = 0; slept = [] }

  -- The rounds of the loop that are left, the number of this one, and `last_error`.
  unfoldable pub rounds : ℕ → ℕ → Option AiProviderError → Retried T
  unfolding delay_of
  rounds zero attempt last_error = exhausted last_error
  rounds (suc left) attempt last_error = elim (fn attempt) [
    | ok value ↦ once (ok value)
    | err e ↦
        let rest = rounds left (suc attempt) (some e) in
        if not (is_retryable e.code) || attempt == max_attempts
        then once (err (provider_error e))
        else after_sleep (delay_of base_delay max_delay attempt) rest
  ]

  unfoldable pub call_with_retry : Retried T
  unfolding rounds
  call_with_retry =
      if ltb max_attempts 1
      then record { outcome = err value_error; calls = 0; slept = [] }
      else rounds max_attempts 1 none
