-- ===== src/Batch/SplitRetry/Termination.antt =====
-- `retryWithSplit` comes to an end.
use posta.Shared.{
  ℕ, zero, suc, ◌+◌, ◌≤◌, ◌<◌, String, ◌≡◌, List, [], ◌∷◌, Option, none, some, Bool-cases, inl, inr,
  take, drop, length, length-take, length-drop, arith, Act, ltb, stuck,
}
use posta.Shared.Rules.{Ends, Ends-pure, Ends-raise, Ends-bind, Ends-caught, Ends-lift}
use posta.Shared.Thrown.{Thrown, undefined, nat, not_nat}
use posta.Contracts.Capture.{CaptureEvent}
use posta.Batch.ClassifyError.{FlushErrorClassification, row_fault, infrastructure}
use posta.Batch.SplitRetry.{
  SplitRetryResult, SplitRetryDeps, SplitRetryOptions, back_off, attempts, split, isolate, reject,
  give_up, attempt_batch, ceil_half, retry_with_split, run_batch, validate_options, batch_id_or_new,
  SplitRetryLog,
}
use posta.Batch.SplitRetry.Partition.{classifier}

-- Each collaborator comes to an end.
pub record DepsEnd {W : Type 0} (deps : SplitRetryDeps W) : Type 0 where
  pub flush_batch : (events : List CaptureEvent) (id : String) → Ends (deps.flush_batch events id)
  pub sleep : (ms : ℕ) → Ends (deps.sleep ms)
  pub log_error : (l : SplitRetryLog) → Ends (deps.log_error l)
  pub new_id : Ends deps.new_id

module _ {W : Type 0} (deps : SplitRetryDeps W) (classify : Thrown → FlushErrorClassification)
    (h : DepsEnd deps) (max delay : ℕ) where
  back_off-Ends : (k : ℕ) → Ends (back_off deps classify max delay k)
  unfolding back_off
  back_off-Ends k = elim (Bool-cases (ltb k max)) [
    | inl e ↦ rw e (h.sleep _)
    | inr e ↦ rw e (Ends-pure tt)
  ]

  attempts-Ends :
      (events : List CaptureEvent) (id : String) (left k : ℕ) (last : Thrown)
      → Ends (attempts deps classify max delay events id left k last)
  unfolding attempts
  attempts-Ends events id zero k last = Ends-pure _
  attempts-Ends events id (suc left) k last =
      Ends-bind _ _ (Ends-caught _ (h.flush_batch events id)) (elim [
        | none ↦ Ends-pure none
        | some e ↦ Ends-bind _ _ (back_off-Ends k) (λ _. attempts-Ends events id left (k + 1) e)
      ])

  module _ (rec : List CaptureEvent → String → Act W SplitRetryResult) where
    give_up-Ends :
        (c : FlushErrorClassification) (fuel : ℕ) (events : List CaptureEvent) (id : String)
        (e : Thrown)
        → 0 < length events
        → length events ≤ suc fuel
        → ((part : List CaptureEvent) (id : String)
            → 0 < length part
            → length part ≤ fuel
            → Ends (rec part id))
        → Ends (give_up deps classify max delay c rec events id e)
    unfolding give_up isolate reject split
    give_up-Ends infrastructure fuel events id e full fits ih =
        Ends-bind _ _ (h.log_error _) λ _. Ends-raise _
    give_up-Ends row_fault fuel [] id e full fits ih = absurd (omega arith)
    give_up-Ends row_fault fuel (x ∷ []) id e full fits ih =
        Ends-bind _ _ (h.log_error _) λ _. Ends-pure _
    give_up-Ends row_fault fuel (x ∷ y ∷ r) id e full fits ih =
        let events = x ∷ y ∷ r in
        let mid = ceil_half (length events) in
        Ends-bind _ _ (h.log_error _) λ _.
          Ends-bind _ _
            (ih (take mid events) _ (omega (arith, length-take mid events))
              (omega (arith, length-take mid events)))
            λ left.
              Ends-bind _ _
                (ih (drop mid events) _ (omega (arith, length-drop mid events))
                  (omega (arith, length-drop mid events)))
                λ right. Ends-pure _

  attempt_batch-Ends :
      (fuel : ℕ) (events : List CaptureEvent) (id : String)
      → 0 < length events
      → length events ≤ fuel
      → Ends (attempt_batch deps classify max delay fuel events id)
  unfolding attempt_batch
  attempt_batch-Ends zero events id full fits = absurd (omega arith)
  attempt_batch-Ends (suc fuel) events id full fits =
      Ends-bind _ _ (attempts-Ends events id max 1 undefined) (elim [
        | none ↦ Ends-pure _
        | some e ↦
            give_up-Ends (attempt_batch deps classify max delay fuel) (classify e) fuel events id e
              full fits (attempt_batch-Ends fuel)
      ])

module _ {W : Type 0} (deps : SplitRetryDeps W) (h : DepsEnd deps) where
  batch_id-Ends : (id : Option String) → Ends (batch_id_or_new deps id)
  batch_id-Ends none = h.new_id
  batch_id-Ends (some id) = Ends-pure id

  run_batch-Ends :
      (options : SplitRetryOptions) (events : List CaptureEvent) (numbers : ℕ × ℕ)
      → Ends (run_batch deps options events numbers)
  unfolding run_batch
  run_batch-Ends options [] (max, delay) = Ends-pure _
  run_batch-Ends options (x ∷ xs) (max, delay) =
      Ends-bind _ _ (batch_id-Ends options.batch_id) λ id.
        attempt_batch-Ends deps (classifier options) h max delay _ (x ∷ xs) id (omega arith)
          (omega arith)

validate_options-ne-stuck : (max delay : _) → validate_options max delay ≡ stuck → ⊥
validate_options-ne-stuck not_nat delay h = cc
validate_options-ne-stuck (nat zero) delay h = cc
validate_options-ne-stuck (nat (suc n)) not_nat h = cc
validate_options-ne-stuck (nat (suc n)) (nat delay) h = cc

-- Where the flush callback, the timer, the logger and the id generator come to an end, so does
-- `retryWithSplit`, whatever the batch, the options and the failures: the halving never runs out of
-- the fuel that the batch's length gives.
pub retry_with_split-Ends :
    {W : Type 0} (deps : SplitRetryDeps W) (events : List CaptureEvent)
    (options : SplitRetryOptions)
    → DepsEnd deps
    → Ends (retry_with_split deps events options)
unfolding retry_with_split
retry_with_split-Ends deps events options h =
    Ends-bind _ _ (Ends-lift _ (validate_options-ne-stuck _ _))
      (run_batch-Ends deps h options events)
