-- ===== src/Batch/R2Retry.antt =====
-- apps/worker/src/batch/r2-retry.ts: the event log's PUT, tried again with a doubling delay while
-- its errors are retryable, and the batch sent to the dead-letter queue when it fails for good. The
-- PUT, the timer, the logger and the dead-letter sink are parameters, and each may throw. A log call
-- keeps its values and drops its wording; a message of `validateOptions` leaves off the value
-- received.
pub mod Trace
pub mod Schedule
pub mod DeadLetters
pub mod Contract
mod Tests
use posta.Shared.{
  ℕ, zero, suc, ◌+◌, ◌-◌, ◌*◌, ◌^◌, String, Bool, false, ◌&&◌, ◌||◌, List, [], ◌∷◌, Option, none,
  some, has, if◌then◌else◌, ltb, leb, ◌==◌, Act, Outcome, ok, throw, pure, caught, lift, ◌>>=◌,
  ◌>>◌,
}
use posta.Shared.Thrown.{
  Thrown, error, other, JsNumber, nat, not_nat, undefined, new_error, error_message, to_error,
}
use posta.Contracts.Capture.{CaptureEvent}
use posta.Batch.SplitRetry.{DlqMeta}

pub data R2ErrorClassification : Type 0 where
  retryable non_retryable : R2ErrorClassification

abbrev pub http_too_many_requests : ℕ
http_too_many_requests = 429

abbrev pub http_server_error_min : ℕ
http_server_error_min = 500

abbrev pub http_server_error_max : ℕ
http_server_error_max = 599

abbrev pub retryable_transport_error_names : List String
retryable_transport_error_names = "TimeoutError" ∷ []

abbrev pub retryable_transport_error_codes : List String
retryable_transport_error_codes = "ECONNRESET" ∷ "EPIPE" ∷ "ETIMEDOUT" ∷ "ECONNREFUSED" ∷ []

abbrev pub classify_status : Option ℕ → R2ErrorClassification
classify_status none = non_retryable
classify_status (some status) =
    if status == http_too_many_requests
      || (leb http_server_error_min status && leb status http_server_error_max)
    then retryable
    else non_retryable

abbrev pub is_retryable_code : Option String → Bool
is_retryable_code none = false
is_retryable_code (some code) = has retryable_transport_error_codes code

unfoldable pub classify_r2_error : Thrown → R2ErrorClassification
classify_r2_error (other text) = non_retryable
classify_r2_error (error name message code throttling status cause) =
    if has retryable_transport_error_names name
    then retryable
    else if is_retryable_code code
    then retryable
    else if throttling
    then retryable
    else classify_status status

pub record R2RetryOptions : Type 0 where
  pub max_attempts : JsNumber
  pub initial_delay_ms : JsNumber

pub data R2PutOutcome : Type 0 where
  succeeded : (attempts : ℕ) → R2PutOutcome
  failed : (error : Thrown) (attempts : ℕ) → R2PutOutcome

-- The calls of `logger.error`.
pub data R2RetryLog : Type 0 where
  giving_up : (attempt : ℕ) (message : String) → R2RetryLog
  exhausted : (attempts : ℕ) (message : String) → R2RetryLog

pub record R2RetryDeps (W : Type 0) : Type 0 where
  pub put : Act W (Unit {0})
  pub sleep : ℕ → Act W (Unit {0})
  pub log_error : R2RetryLog → Act W (Unit {0})

-- `validateOptions`, with the two numbers that it lets through.
abbrev pub validate_options : JsNumber → JsNumber → Outcome (ℕ × ℕ)
validate_options not_nat delay =
    throw (new_error "retryR2Put maxAttempts must be a positive integer")
validate_options (nat zero) delay =
    throw (new_error "retryR2Put maxAttempts must be a positive integer")
validate_options (nat (suc n)) not_nat =
    throw (new_error "retryR2Put initialDelayMs must be a non-negative integer")
validate_options (nat (suc n)) (nat delay) = ok (suc n, delay)

module _ {W : Type 0} (deps : R2RetryDeps W) (max_attempts initial_delay_ms : ℕ) where
  pub back_off : ℕ → Act W (Unit {0})
  back_off attempt =
      if ltb attempt max_attempts
      then deps.sleep (initial_delay_ms * 2 ^ (attempt - 1))
      else pure tt

  -- The `catch` block of one attempt. `rest` is the loop's next round.
  pub after_failure : R2ErrorClassification → ℕ → Thrown → Act W R2PutOutcome → Act W R2PutOutcome
  after_failure non_retryable attempt e rest = do
    deps.log_error (giving_up attempt (error_message e))
    pure (failed (to_error e) attempt)
  after_failure retryable attempt e rest = do back_off attempt; rest

  -- The loop of `retryR2Put` with `left` rounds to go, and what follows it.
  pub put_attempts : ℕ → ℕ → Thrown → Act W R2PutOutcome
  put_attempts zero attempt last_error = do
    deps.log_error (exhausted max_attempts (error_message last_error))
    pure (failed (to_error last_error) max_attempts)
  put_attempts (suc left) attempt last_error = do
    failure ← caught deps.put
    elim failure [
      | none ↦ pure (succeeded attempt)
      | some e ↦ after_failure (classify_r2_error e) attempt e (put_attempts left (attempt + 1) e)
    ]

module _ {W : Type 0} (deps : R2RetryDeps W) where
  pub run_put : ℕ × ℕ → Act W R2PutOutcome
  run_put (max_attempts, delay) = put_attempts deps max_attempts delay max_attempts 1 undefined

  pub retry_r2_put : R2RetryOptions → Act W R2PutOutcome
  retry_r2_put options = do
    numbers ← lift (validate_options options.max_attempts options.initial_delay_ms)
    run_put numbers

abbrev pub r2_put_failed_dlq_reason : String
r2_put_failed_dlq_reason = "r2-put-failed"

-- `R2BatchDlqSink.send`, for a whole batch.
abbrev pub R2BatchDlqSend : Type 0 → Type 0
R2BatchDlqSend W = String → List CaptureEvent → Thrown → DlqMeta → Act W (Unit {0})

module _ {W : Type 0} (deps : R2RetryDeps W) (send : R2BatchDlqSend W) where
  pub send_r2_put_failure_to_dlq : List CaptureEvent → Thrown → String → ℕ → Act W (Unit {0})
  send_r2_put_failure_to_dlq events e batch_id attempts =
      send r2_put_failed_dlq_reason events e
        (record { original_job_id = batch_id; attempts_made = attempts })

  pub report_failure : List CaptureEvent → String → R2PutOutcome → Act W (Unit {0})
  report_failure events batch_id (succeeded attempts) = pure tt
  report_failure events batch_id (failed e attempts) =
      send_r2_put_failure_to_dlq events e batch_id attempts

  pub put_r2_batch_with_retry : List CaptureEvent → String → R2RetryOptions → Act W R2PutOutcome
  put_r2_batch_with_retry events batch_id options = do
    outcome ← retry_r2_put deps options
    report_failure events batch_id outcome
    pure outcome
