-- ===== src/Batch/R2Retry/Tests.antt =====
-- r2-retry.ts against scripted answers of the object store.
use posta.Shared.{◌≡◌, refl, [], ◌∷◌, none, some, ok, ◌>>=◌}
use posta.Shared.Thrown.{nat}
use posta.Batch.R2Retry.{
  R2RetryOptions, succeeded, failed, giving_up, classify_r2_error, retryable, non_retryable,
  retry_r2_put, run_put, put_attempts, after_failure, back_off, put_r2_batch_with_retry,
  report_failure, send_r2_put_failure_to_dlq,
}
use posta.Batch.R2Retry.Trace.{Trace, traced, traced_send}
use posta.Batch.R2Retry.Schedule.{before}
use posta.Batch.R2Retry.DeadLetters.{letters_of, put_r2_batch_with_retry-letters}
use posta.Batch.Samples.{event, reset_error, denied_error}

abbrev options : R2RetryOptions
options = record { max_attempts = nat 3; initial_delay_ms = nat 200 }

opened : Unit {0}
unfolding retry_r2_put run_put put_attempts after_failure back_off classify_r2_error
    put_r2_batch_with_retry report_failure send_r2_put_failure_to_dlq ◌>>=◌
opened = tt

two_delays :
    retry_r2_put traced options (before (some reset_error ∷ some reset_error ∷ none ∷ [])) ≡ (
      ok (succeeded 3),
      record { script = []; puts = 3; delays = 200 ∷ 400 ∷ []; logs = []; letters = [] },
    )
unfolding opened
two_delays = refl

resets : classify_r2_error reset_error ≡ retryable
unfolding classify_r2_error
resets = refl

denied : classify_r2_error denied_error ≡ non_retryable
unfolding classify_r2_error
denied = refl

abbrev refused_trace : Trace
refused_trace = record {
  script = [];
  puts = 1;
  delays = [];
  logs = giving_up 1 "Access Denied" ∷ [];
  letters = letters_of (event "a" ∷ []) "b1" (failed denied_error 1);
}

one_letter :
    put_r2_batch_with_retry traced traced_send
      (event "a" ∷ [])
      "b1"
      options
      (before (some denied_error ∷ []))
    ≡ (ok (failed denied_error 1), refused_trace)
unfolding opened
one_letter = refl

put_r2_batch_with_retry-letters_example :
    refused_trace.letters ≡ letters_of (event "a" ∷ []) "b1" (failed denied_error 1)
put_r2_batch_with_retry-letters_example =
    put_r2_batch_with_retry-letters (event "a" ∷ []) "b1" options (before (some denied_error ∷ []))
      refused_trace (failed denied_error 1) one_letter
