-- ===== src/Batch/R2Retry/Contract.antt =====
-- What a caller of `putR2BatchWithRetry` may rely on, in terms of what its collaborators do.
use posta.Shared.{ℕ, zero, suc, ◌+◌, String, List, none, some, Bool-cases, inl, inr, ltb, Act}
use posta.Shared.Triples.{Triple, After, Triple-pure, Triple-lift, Triple-bind, Triple-caught}
use posta.Shared.Thrown.{Thrown, JsNumber, nat, not_nat, undefined}
use posta.Contracts.Capture.{CaptureEvent}
use posta.Batch.R2Retry.{
  classify_r2_error, R2ErrorClassification, retryable, non_retryable, R2RetryDeps, R2RetryLog,
  R2RetryOptions, R2PutOutcome, R2BatchDlqSend, succeeded, failed, back_off, after_failure,
  put_attempts, run_put, retry_r2_put, report_failure, validate_options, put_r2_batch_with_retry,
  send_r2_put_failure_to_dlq, r2_put_failed_dlq_reason,
}
use posta.Batch.SplitRetry.{DlqMeta}

-- What holds after an outcome: `S` after a success, `F` after a failure.
abbrev pub Settled : {W : Type 0} → (W → Type 0) → (W → Type 0) → R2PutOutcome → W → Type 0
Settled S F (succeeded attempts) w = S w
Settled S F (failed e attempts) w = F w

-- From `P`, a PUT that returns has `S`, and one that throws keeps `P`; a delay or a log call keeps `P`;
-- the sink takes a dead letter from `P` to `L`. Whatever else throws leaves `E`.
pub record Contract {W : Type 0} (P S L E : W → Type 0) (deps : R2RetryDeps W)
    (send : R2BatchDlqSend W) (events : List CaptureEvent) : Type 0 where
  pub put : Triple P deps.put (λ _. S) P
  pub sleep : (ms : ℕ) → Triple P (deps.sleep ms) (λ _. P) E
  pub log_error : (l : R2RetryLog) → Triple P (deps.log_error l) (λ _. P) E
  pub sends :
      (e : Thrown) (meta : DlqMeta)
      → Triple P (send r2_put_failed_dlq_reason events e meta) (λ _. L) E
  pub keeps : (w : W) → P w → E w

module _ {W : Type 0} {P S L E : W → Type 0} (deps : R2RetryDeps W) (send : R2BatchDlqSend W)
    (events : List CaptureEvent) (contract : Contract P S L E deps send events) where
  back_off-Triple : (max delay k : ℕ) → Triple P (back_off deps max delay k) (λ _. P) E
  unfolding back_off
  back_off-Triple max delay k = elim (Bool-cases (ltb k max)) [
    | inl e ↦ rw e (contract.sleep _)
    | inr e ↦ rw e (Triple-pure tt)
  ]

  after_failure-Triple :
      (max delay k : ℕ) (c : R2ErrorClassification) (e : Thrown) (rest : Act W R2PutOutcome)
      → Triple P rest (Settled S P) E
      → Triple P (after_failure deps max delay c k e rest) (Settled S P) E
  unfolding after_failure
  after_failure-Triple max delay k non_retryable e rest h =
      Triple-bind _ _ (contract.log_error _) λ _. Triple-pure _
  after_failure-Triple max delay k retryable e rest h =
      Triple-bind _ _ (back_off-Triple max delay k) λ _. h

  put_attempts-Triple :
      (max delay left k : ℕ) (last : Thrown)
      → Triple P (put_attempts deps max delay left k last) (Settled S P) E
  unfolding put_attempts
  put_attempts-Triple max delay zero k last =
      Triple-bind _ _ (contract.log_error _) λ _. Triple-pure _
  put_attempts-Triple max delay (suc left) k last =
      Triple-bind _ _ (Triple-caught _ contract.put) (elim [
        | none ↦ Triple-pure _
        | some e ↦
            after_failure-Triple max delay k (classify_r2_error e) e _
              (put_attempts-Triple max delay left (k + 1) e)
      ])

  validated : (a b : JsNumber) (w : W) → P w → After (λ _. P) E (validate_options a b) w
  validated not_nat b w p = contract.keeps w p
  validated (nat zero) b w p = contract.keeps w p
  validated (nat (suc n)) not_nat w p = contract.keeps w p
  validated (nat (suc n)) (nat delay) w p = p

  retry_r2_put-Triple :
      (options : R2RetryOptions) → Triple P (retry_r2_put deps options) (Settled S P) E
  unfolding retry_r2_put run_put
  retry_r2_put-Triple options =
      Triple-bind _ _ (Triple-lift _ (validated options.max_attempts options.initial_delay_ms))
        λ (max, delay). put_attempts-Triple max delay max 1 undefined

  report :
      (batch_id : String) (o : R2PutOutcome)
      → Triple (Settled S P o) (report_failure deps send events batch_id o) (λ _. Settled S L o) E
  unfolding report_failure send_r2_put_failure_to_dlq
  report batch_id (succeeded n) = Triple-pure tt
  report batch_id (failed e n) = contract.sends e _

  -- An outcome of success leaves what a PUT leaves, one of failure what the sink leaves, and the call comes to an end.
  pub put_r2_batch_with_retry-Triple :
      (batch_id : String) (options : R2RetryOptions)
      → Triple P (put_r2_batch_with_retry deps send events batch_id options) (Settled S L) E
  unfolding put_r2_batch_with_retry
  put_r2_batch_with_retry-Triple batch_id options =
      Triple-bind _ _ (retry_r2_put-Triple options)
        λ o. Triple-bind _ _ (report batch_id o) λ _. Triple-pure o
