-- ===== src/Batch/R2Retry/DeadLetters.antt =====
-- A batch whose PUT failed for good reaches the dead-letter sink, once and whole.
use posta.Shared.{
  ℕ, zero, suc, ◌+◌, String, ◌≡◌, refl, ap, ◌∙◌, ◌>>◌, pure, List, [], ◌∷◌, ◌++◌, Option, none,
  some, append-nil, arith, Bool-cases, inl, inr, ltb, Act, Outcome, ok, throw, stuck, ◌>>=◌,
  continue,
}
use posta.Shared.Rules.{Keeps, Keeps-pure, Keeps-lift, Keeps-bind, Keeps-caught}
use posta.Shared.Thrown.{Thrown, undefined}
use posta.Contracts.Capture.{CaptureEvent}
use posta.Batch.R2Retry.{
  classify_r2_error, R2ErrorClassification, retryable, non_retryable, R2RetryOptions, R2PutOutcome,
  succeeded, failed, back_off, after_failure, put_attempts, run_put, retry_r2_put, report_failure,
  put_r2_batch_with_retry, send_r2_put_failure_to_dlq, r2_put_failed_dlq_reason,
}
use posta.Batch.R2Retry.Trace.{Trace, DeadLetter, traced, put_from, traced_send}

-- What the sink is owed for an outcome.
abbrev pub letters_of : List CaptureEvent → String → R2PutOutcome → List DeadLetter
letters_of events batch_id (succeeded attempts) = []
letters_of events batch_id (failed e attempts) =
    record {
      reason = r2_put_failed_dlq_reason;
      events = events;
      error = e;
      meta = record { original_job_id = batch_id; attempts_made = attempts };
    }
    ∷ []

module _ (ls : List DeadLetter) where
  abbrev Sent : Trace → Type 0
  Sent t = t.letters ≡ ls

  put_from-Sent : (script : List (Option Thrown)) → Keeps Sent (put_from script)
  put_from-Sent [] = record { at = λ t h. h }
  put_from-Sent (none ∷ rest) = record { at = λ t h. h }
  put_from-Sent (some e ∷ rest) = record { at = λ t h. h }

  back_off-Sent : (max delay k : ℕ) → Keeps Sent (back_off traced max delay k)
  unfolding back_off
  back_off-Sent max delay k = elim (Bool-cases (ltb k max)) [
    | inl e ↦ rw e (record { at = λ t h. h })
    | inr e ↦ rw e (Keeps-pure tt)
  ]

  after_failure-Sent :
      (max delay k : ℕ) (c : R2ErrorClassification) (e : Thrown) (rest : Act Trace R2PutOutcome)
      → Keeps Sent rest
      → Keeps Sent (after_failure traced max delay c k e rest)
  unfolding after_failure
  after_failure-Sent max delay k non_retryable e rest h =
      Keeps-bind _ _ (record { at = λ t s. s }) λ _. Keeps-pure _
  after_failure-Sent max delay k retryable e rest h =
      Keeps-bind _ _ (back_off-Sent max delay k) λ _. h

  put_attempts-Sent :
      (max delay left k : ℕ) (last : Thrown)
      → Keeps Sent (put_attempts traced max delay left k last)
  unfolding put_attempts
  put_attempts-Sent max delay zero k last =
      Keeps-bind _ _ (record { at = λ t s. s }) λ _. Keeps-pure _
  put_attempts-Sent max delay (suc left) k last =
      Keeps-bind _ _ (Keeps-caught _ (record { at = λ t. (put_from-Sent t.script).at t })) (elim [
        | none ↦ Keeps-pure _
        | some e ↦
            after_failure-Sent max delay k (classify_r2_error e) e _
              (put_attempts-Sent max delay left (k + 1) e)
      ])

  retry_r2_put-Sent : (options : R2RetryOptions) → Keeps Sent (retry_r2_put traced options)
  unfolding retry_r2_put run_put
  retry_r2_put-Sent options =
      Keeps-bind _ _ (Keeps-lift _) λ (max, delay). put_attempts-Sent max delay max 1 undefined

module _ (events : List CaptureEvent) (batch_id : String) where
  deliver :
      (r : Outcome R2PutOutcome) (t t' : Trace) (o : R2PutOutcome)
      → continue r
          (λ outcome. do report_failure traced traced_send events batch_id outcome; pure outcome)
          t
        ≡ (ok o, t')
      → t'.letters ≡ t.letters ++ letters_of events batch_id o
  unfolding report_failure send_r2_put_failure_to_dlq ◌>>=◌
  deliver (ok (succeeded n)) t t' o h = ground (arith, append-nil t.letters)
  deliver (ok (failed e n)) t t' o h = ground arith
  deliver (throw e) t t' o h = cc
  deliver stuck t t' o h = cc

-- Whatever the PUT answers: where `putR2BatchWithRetry` answers success it sends no dead letter, and
-- where it answers failure it sends exactly one, which holds the whole batch, the error, the batch's
-- id and the number of attempts.
pub put_r2_batch_with_retry-letters :
    (events : List CaptureEvent) (batch_id : String) (options : R2RetryOptions) (t t' : Trace)
    (o : R2PutOutcome)
    → put_r2_batch_with_retry traced traced_send events batch_id options t ≡ (ok o, t')
    → t'.letters ≡ t.letters ++ letters_of events batch_id o
unfolding put_r2_batch_with_retry ◌>>=◌
put_r2_batch_with_retry-letters events batch_id options t t' o h =
    let (r, s) = retry_r2_put traced options t in
    deliver events batch_id r s t' o h
    ∙ ap (λ l. l ++ letters_of events batch_id o) ((retry_r2_put-Sent t.letters options).at t refl)
