-- ===== src/Batch/SplitRetry/Rejection.antt =====
-- A failure of the infrastructure rejects the whole batch.
use posta.Shared.{ℕ, suc, String, ◌≡◌, refl, ap₂, List, ◌∷◌, Option, none, some, length, arith}
use posta.Shared.Rules.{Gives, Throws, Gives-pure, Gives-lift, Throws-bind, Throws-raise}
use posta.Shared.Thrown.{Thrown, to_error, undefined, nat}
use posta.Contracts.Capture.{CaptureEvent}
use posta.Batch.ClassifyError.{FlushErrorClassification, infrastructure}
use posta.Batch.SplitRetry.{
  SplitRetryDeps, SplitRetryOptions, SplitRetryLog, reject, give_up, attempt_batch,
  retry_with_split, run_batch, validate_options, batch_id_or_new,
}
use posta.Batch.SplitRetry.Attempts.{attempts-reject}
use posta.Batch.SplitRetry.Partition.{classifier}

-- Every flush fails with an error that the classifier does not lay on a row.
pub record Fails {W : Type 0} (deps : SplitRetryDeps W)
    (classify : Thrown → FlushErrorClassification) : Type 0 where
  pub rejects :
      (events : List CaptureEvent) (id : String)
      → Throws (λ e. classify e ≡ infrastructure) (deps.flush_batch events id)
  pub sleeps : (ms : ℕ) → Gives (λ _. Unit {0}) (deps.sleep ms)
  pub logs : (l : SplitRetryLog) → Gives (λ _. Unit {0}) (deps.log_error l)
  pub names : Gives (λ _. Unit {0}) deps.new_id

-- The error is one that the classifier lays on the infrastructure, as an `Error`.
abbrev pub IsInfrastructure : (Thrown → FlushErrorClassification) → Thrown → Type 0
IsInfrastructure classify thrown =
    (cause : Thrown) × (thrown ≡ to_error cause) × (classify cause ≡ infrastructure)

module _ {W : Type 0} (deps : SplitRetryDeps W) (classify : Thrown → FlushErrorClassification)
    (h : Fails deps classify) (m delay : ℕ) where
  attempt_batch-Throws :
      (fuel : ℕ) (events : List CaptureEvent) (id : String)
      → Throws
          (IsInfrastructure classify)
          (attempt_batch deps classify (suc m) delay (suc fuel) events id)
  unfolding attempt_batch give_up reject
  attempt_batch-Throws fuel events id =
      Throws-bind _ _
        (attempts-reject deps classify (suc m) delay h.sleeps events id infrastructure (suc m) 1
          undefined (h.rejects events id) (λ z. absurd (omega arith)))
        λ o (e, p, f). rw (p, f) (Throws-bind _ _ (h.logs _) (λ _ _. Throws-raise _ (e, refl, f)))

module _ {W : Type 0} (deps : SplitRetryDeps W) (options : SplitRetryOptions)
    (h : Fails deps (classifier options)) where
  batch_id-Gives : (id : Option String) → Gives (λ _. Unit {0}) (batch_id_or_new deps id)
  batch_id-Gives none = h.names
  batch_id-Gives (some id) = Gives-pure id tt

  run_batch-Throws :
      (x : CaptureEvent) (xs : List CaptureEvent) (m delay : ℕ)
      → Throws
          (IsInfrastructure (classifier options))
          (run_batch deps options (x ∷ xs) (suc m, delay))
  unfolding run_batch
  run_batch-Throws x xs m delay =
      Throws-bind _ _ (batch_id-Gives options.batch_id)
        λ id _. attempt_batch-Throws deps (classifier options) h m delay (length xs) (x ∷ xs) id

-- Where every flush fails with an error that the classifier does not lay on a row, and the timer,
-- the logger and the id generator do not fail, `retryWithSplit` of a batch that is not empty, with
-- valid options, throws such an error: no event is given up as poison.
pub retry_with_split-Throws :
    {W : Type 0} (deps : SplitRetryDeps W) (x : CaptureEvent) (xs : List CaptureEvent)
    (options : SplitRetryOptions) (m delay : ℕ)
    → options.max_attempts_per_batch ≡ nat (suc m)
    → options.initial_delay_ms ≡ nat delay
    → Fails deps (classifier options)
    → Throws (IsInfrastructure (classifier options)) (retry_with_split deps (x ∷ xs) options)
unfolding retry_with_split
retry_with_split-Throws deps x xs options m delay valid delayed h =
    Throws-bind _ _ (Gives-lift _ (ap₂ validate_options valid delayed))
      λ numbers p. rw p (run_batch-Throws deps options h x xs m delay)
