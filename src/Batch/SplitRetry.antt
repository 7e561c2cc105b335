-- ===== src/Batch/SplitRetry.antt =====
-- apps/worker/src/batch/split-retry.ts: a batch that keeps failing is halved until the events that
-- poison it stand alone. The flush callback, the timer, the logger and the classifier are
-- parameters, and each may throw. A log call keeps its values and drops its wording; a message of
-- `validateOptions` leaves off the value received.
mod Attempts
pub mod Partition
pub mod Rejection
pub mod Termination
pub mod Isolation
mod Tests
use posta.Shared.{
  ℕ, zero, suc, ◌+◌, ◌-◌, ◌*◌, ◌/◌, ◌^◌, String, List, [], ◌∷◌, ◌++◌, Option, none, some, length,
  take, drop, if◌then◌else◌, ltb, or_else, Act, Outcome, ok, throw, pure, raise, no_fuel, caught,
  lift, ◌>>=◌, ◌>>◌,
}
use Prim.Native.String
use posta.Shared.Thrown.{
  Thrown, JsNumber, nat, not_nat, undefined, new_error, error_message, to_error,
}
use posta.Contracts.Capture.{CaptureEvent}
use posta.Batch.ClassifyError.{
  FlushErrorClassification, row_fault, infrastructure, classify_flush_error,
}

pub record PoisonedEvent : Type 0 where
  pub event : CaptureEvent
  pub error : Thrown

pub record SplitRetryResult : Type 0 where
  pub committed_events : List CaptureEvent
  pub poison_events : List PoisonedEvent

-- The calls of `logger.error`: their `meta` and the message of the error that they quote.
pub data SplitRetryLog : Type 0 where
  rejecting : (batch_size attempts : ℕ) (message : String) → SplitRetryLog
  isolated : (event_id : String) (attempts : ℕ) (message : String) → SplitRetryLog
  splitting : (batch_size attempts : ℕ) (message : String) → SplitRetryLog

-- What `retryWithSplit` calls, over the world `W`.
pub record SplitRetryDeps (W : Type 0) : Type 0 where
  pub flush_batch : List CaptureEvent → String → Act W (Unit {0})
  pub sleep : ℕ → Act W (Unit {0})
  pub log_error : SplitRetryLog → Act W (Unit {0})
  pub new_id : Act W String

pub record SplitRetryOptions : Type 0 where
  pub max_attempts_per_batch : JsNumber
  pub initial_delay_ms : JsNumber
  pub batch_id : Option String
  pub classify : Option (Thrown → FlushErrorClassification)

-- `${batchId}.0` and `${batchId}.1`
abbrev pub left_batch_id : String → String
left_batch_id batch_id = String.◌++◌ batch_id ".0"

abbrev pub right_batch_id : String → String
right_batch_id batch_id = String.◌++◌ batch_id ".1"

-- `Math.ceil(n / 2)`
abbrev pub ceil_half : ℕ → ℕ
ceil_half n = (n + 1) / 2

module _ {W : Type 0} (deps : SplitRetryDeps W) (classify : Thrown → FlushErrorClassification)
    (max_attempts initial_delay_ms : ℕ) where
  -- The `catch` block: the delay before the next attempt, if there is one.
  pub back_off : ℕ → Act W (Unit {0})
  back_off attempt =
      if ltb attempt max_attempts
      then deps.sleep (initial_delay_ms * 2 ^ (attempt - 1))
      else pure tt

  -- The loop of `attemptBatch` with `left` rounds to go: `none` if an attempt succeeded, otherwise
  -- the last error.
  pub attempts : List CaptureEvent → String → ℕ → ℕ → Thrown → Act W (Option Thrown)
  attempts events batch_id zero attempt last_error = pure (some last_error)
  attempts events batch_id (suc left) attempt last_error = do
    failure ← caught (deps.flush_batch events batch_id)
    elim failure [
      | none ↦ pure none
      | some e ↦ do back_off attempt; attempts events batch_id left (attempt + 1) e
    ]

  -- The two halves, one after the other. `rec` is `attemptBatch`.
  split :
      (List CaptureEvent → String → Act W SplitRetryResult)
      → List CaptureEvent
      → String
      → Thrown
      → Act W SplitRetryResult
  split rec events batch_id last_error = do
    deps.log_error (splitting (length events) max_attempts (error_message last_error))
    let mid = ceil_half (length events)
    left_result ← rec (take mid events) (left_batch_id batch_id)
    right_result ← rec (drop mid events) (right_batch_id batch_id)
    pure (record {
      committed_events = left_result.committed_events ++ right_result.committed_events;
      poison_events = left_result.poison_events ++ right_result.poison_events;
    })

  isolate :
      (List CaptureEvent → String → Act W SplitRetryResult)
      → List CaptureEvent
      → String
      → Thrown
      → Act W SplitRetryResult
  isolate rec (poison_event ∷ []) batch_id last_error = do
    deps.log_error (isolated poison_event.event_id max_attempts (error_message last_error))
    pure (record {
      committed_events = [];
      poison_events = record { event = poison_event; error = to_error last_error } ∷ [];
    })
  isolate rec events batch_id last_error = split rec events batch_id last_error

  reject : List CaptureEvent → Thrown → Act W SplitRetryResult
  reject events last_error = do
    deps.log_error (rejecting (length events) max_attempts (error_message last_error))
    raise (to_error last_error)

  give_up :
      FlushErrorClassification
      → (List CaptureEvent → String → Act W SplitRetryResult)
      → List CaptureEvent
      → String
      → Thrown
      → Act W SplitRetryResult
  give_up infrastructure rec events batch_id last_error = reject events last_error
  give_up row_fault rec events batch_id last_error = isolate rec events batch_id last_error

  -- The recursion takes fuel: one round for each halving, so that `length events` is enough.
  pub attempt_batch : ℕ → List CaptureEvent → String → Act W SplitRetryResult
  attempt_batch zero events batch_id = no_fuel
  attempt_batch (suc fuel) events batch_id = do
    failure ← attempts events batch_id max_attempts 1 undefined
    elim failure [
      | none ↦ pure (record { committed_events = events; poison_events = [] })
      | some e ↦ give_up (classify e) (attempt_batch fuel) events batch_id e
    ]

-- `validateOptions`, with the two numbers that it lets through.
abbrev pub validate_options : JsNumber → JsNumber → Outcome (ℕ × ℕ)
validate_options not_nat delay =
    throw (new_error "retryWithSplit maxAttemptsPerBatch must be a positive integer")
validate_options (nat zero) delay =
    throw (new_error "retryWithSplit maxAttemptsPerBatch must be a positive integer")
validate_options (nat (suc n)) not_nat =
    throw (new_error "retryWithSplit initialDelayMs must be a non-negative integer")
validate_options (nat (suc n)) (nat delay) = ok (suc n, delay)

module _ {W : Type 0} (deps : SplitRetryDeps W) where
  abbrev batch_id_or_new : Option String → Act W String
  batch_id_or_new none = deps.new_id
  batch_id_or_new (some batch_id) = pure batch_id

  -- What follows the validation.
  run_batch : SplitRetryOptions → List CaptureEvent → ℕ × ℕ → Act W SplitRetryResult
  run_batch options [] (max_attempts, delay) =
      pure (record { committed_events = []; poison_events = [] })
  run_batch options (x ∷ xs) (max_attempts, delay) = do
    batch_id ← batch_id_or_new options.batch_id
    let classify = or_else options.classify classify_flush_error
    attempt_batch deps classify max_attempts delay (length (x ∷ xs)) (x ∷ xs) batch_id

  pub retry_with_split : List CaptureEvent → SplitRetryOptions → Act W SplitRetryResult
  unfolding run_batch
  retry_with_split events options = do
    numbers ← lift (validate_options options.max_attempts_per_batch options.initial_delay_ms)
    run_batch options events numbers

abbrev pub flush_poison_dlq_reason : String
flush_poison_dlq_reason = "flush-poison"

-- The `meta` argument of a dead-letter sink.
pub record DlqMeta : Type 0 where
  pub original_job_id : String
  pub attempts_made : ℕ

pub record PoisonDlqMeta : Type 0 where
  pub batch_id : String
  pub max_attempts_per_batch : ℕ

-- `send` is `PoisonDlqSink.send`.
module _ {W : Type 0} (send : String → CaptureEvent → Thrown → DlqMeta → Act W (Unit {0})) where
  pub send_poison_events_to_dlq : List PoisonedEvent → PoisonDlqMeta → Act W (Unit {0})
  send_poison_events_to_dlq [] meta = pure tt
  send_poison_events_to_dlq (poisoned ∷ rest) meta = do
    send flush_poison_dlq_reason poisoned.event poisoned.error
        (record { original_job_id = meta.batch_id; attempts_made = meta.max_attempts_per_batch })
    send_poison_events_to_dlq rest meta
