-- ===== src/Batch/SplitRetry/Tests.antt =====
-- split-retry.ts on batches with poison events and with a database that is down.
use posta.Shared.{◌≡◌, refl, List, [], ◌∷◌, none, any, ok, throw, ◌>>=◌, if◌then◌else◌}
use posta.Shared.Rules.{Gives, Throws, Ends}
use posta.Shared.Thrown.{nat}
use posta.Contracts.Capture.{CaptureEvent}
use posta.Batch.ClassifyError.{classify_flush_error, row_fault, infrastructure}
use posta.Batch.SplitRetry.{
  SplitRetryDeps, SplitRetryOptions, SplitRetryResult, retry_with_split, run_batch, attempt_batch,
  attempts, back_off, give_up, isolate, split, reject,
}
use posta.Batch.SplitRetry.Partition.{classifier, IsPartition, retry_with_split-IsPartition}
use posta.Batch.SplitRetry.Isolation.{Isolates, Isolated, retry_with_split-Isolated}
use posta.Batch.SplitRetry.Rejection.{Fails, IsInfrastructure, retry_with_split-Throws}
use posta.Batch.SplitRetry.Termination.{DepsEnd, retry_with_split-Ends}
use posta.Batch.Samples.{event, is_bad, row_error, reset_error}

-- The database rejects each batch that holds a bad event.
abbrev strict : SplitRetryDeps (Unit {0})
strict = record {
  flush_batch = λ events id w. (if any is_bad events then throw row_error else ok tt, w);
  sleep = λ ms w. (ok tt, w);
  log_error = λ l w. (ok tt, w);
  new_id = λ w. (ok "b", w);
}

-- The database is down.
abbrev down : SplitRetryDeps (Unit {0})
down = record {
  flush_batch = λ events id w. (throw reset_error, w);
  sleep = λ ms w. (ok tt, w);
  log_error = λ l w. (ok tt, w);
  new_id = λ w. (ok "b", w);
}

abbrev options : SplitRetryOptions
options = record {
  max_attempts_per_batch = nat 2;
  initial_delay_ms = nat 10;
  batch_id = none;
  classify = none;
}

abbrev batch : List CaptureEvent
batch = event "a" ∷ event "bad" ∷ event "b" ∷ event "bad" ∷ event "c" ∷ []

abbrev outcome : SplitRetryResult
outcome = record {
  committed_events = event "a" ∷ event "b" ∷ event "c" ∷ [];
  poison_events =
      record { event = event "bad"; error = row_error }
      ∷ record { event = event "bad"; error = row_error }
      ∷ [];
}

-- Opens every definition of the component.
opened : Unit {0}
unfolding retry_with_split run_batch attempt_batch attempts back_off give_up isolate split reject
    ◌>>=◌ classify_flush_error
opened = tt

isolation : (retry_with_split strict batch options tt).0 ≡ ok outcome
unfolding opened
isolation = refl

rejection : (retry_with_split down batch options tt).0 ≡ throw reset_error
unfolding opened
rejection = refl

blamed : classify_flush_error row_error ≡ row_fault
unfolding classify_flush_error
blamed = refl

spared : classify_flush_error reset_error ≡ infrastructure
unfolding classify_flush_error
spared = refl

strict-Isolates : Isolates strict (classifier options) is_bad
strict-Isolates = record {
  commits = λ events id h. record { at = λ w. (tt, rw h, tt) };
  rejects = λ events id h. record { at = λ w. (row_error, rw h, blamed) };
  sleeps = λ ms. record { at = λ w. (tt, refl, tt) };
  logs = λ l. record { at = λ w. (tt, refl, tt) };
  names = record { at = λ w. ("b", refl, tt) };
}

down-Fails : Fails down (classifier options)
down-Fails = record {
  rejects = λ events id. record { at = λ w. (reset_error, refl, spared) };
  sleeps = λ ms. record { at = λ w. (tt, refl, tt) };
  logs = λ l. record { at = λ w. (tt, refl, tt) };
  names = record { at = λ w. ("b", refl, tt) };
}

down-DepsEnd : DepsEnd down
down-DepsEnd = record {
  flush_batch = λ events id. record { at = λ w h. cc };
  sleep = λ ms. record { at = λ w h. cc };
  log_error = λ l. record { at = λ w h. cc };
  new_id = record { at = λ w h. cc };
}

retry_with_split-IsPartition_example : IsPartition (classifier options) batch outcome
retry_with_split-IsPartition_example =
    retry_with_split-IsPartition strict batch options tt outcome isolation

retry_with_split-Isolated_example :
    Gives (Isolated is_bad batch) (retry_with_split strict batch options)
retry_with_split-Isolated_example =
    retry_with_split-Isolated strict is_bad batch options 1 10 refl refl strict-Isolates

retry_with_split-Ends_example : Ends (retry_with_split down batch options)
retry_with_split-Ends_example = retry_with_split-Ends down batch options down-DepsEnd

retry_with_split-Throws_example :
    Throws (IsInfrastructure (classifier options)) (retry_with_split down batch options)
retry_with_split-Throws_example =
    retry_with_split-Throws down (event "a")
      (event "bad" ∷ event "b" ∷ event "bad" ∷ event "c" ∷ []) options 1 10 refl refl down-Fails
