-- ===== src/Batch/SplitRetry/Partition.antt =====
-- Whatever the collaborators do, a batch that `retryWithSplit` returns is accounted for event by
-- event, and only a row fault makes an event poison.
use mathlib.Core.List.Perm
use mathlib.Core.List.{perm_append_comm}
use posta.Shared.{
  or_else, ℕ, zero, suc, String, ◌≡◌, refl, subst, List, [], ◌∷◌, ◌++◌, map, none, some, Perm,
  append-nil, append_assoc, map-append, take, drop, take-append-drop, length, All, All-append, Act,
  ok,
}
use posta.Shared.Rules.{Yields, Yields-pure, Yields-raise, Yields-no_fuel, Yields-then, Yields-bind}
use posta.Shared.Thrown.{Thrown, to_error}
use posta.Contracts.Capture.{CaptureEvent}
use posta.Batch.ClassifyError.{
  FlushErrorClassification, row_fault, infrastructure, classify_flush_error,
}
use posta.Batch.SplitRetry.{
  PoisonedEvent, SplitRetryResult, SplitRetryDeps, SplitRetryOptions, split, isolate, reject,
  give_up, attempt_batch, ceil_half, retry_with_split, run_batch,
}

abbrev pub events_of : SplitRetryResult → List CaptureEvent
events_of r = r.committed_events ++ map (λ p. p.event) r.poison_events

module _ (classify : Thrown → FlushErrorClassification) where
  -- The event was given up for a value that is a row fault, and carries the `toError` of that value.
  pub record IsRowFault (p : PoisonedEvent) : Type 0 where
    pub cause : Thrown
    pub kept : p.error ≡ to_error cause
    pub blamed : classify cause ≡ row_fault

  pub record IsPartition (events : List CaptureEvent) (r : SplitRetryResult) : Type 0 where
    pub accounted : Perm (events_of r) events
    pub faults : All IsRowFault r.poison_events

perm_interleave {ℓ} :
    {A : Type ℓ} (a b c d : List A) → Perm ((a ++ c) ++ (b ++ d)) ((a ++ b) ++ (c ++ d))
perm_interleave a b c d =
    subst (λ l. Perm l ((a ++ b) ++ (c ++ d))) (simp append_assoc)
      (subst (λ l. Perm (a ++ ((c ++ b) ++ d)) l) (simp append_assoc)
        (Perm.append_left a (Perm.append_right d (perm_append_comm c b))))

module _ {classify : Thrown → FlushErrorClassification} where
  -- Two partitions side by side, as `split` joins them.
  IsPartition-append :
      (xs ys : List CaptureEvent) (l r : SplitRetryResult)
      → IsPartition classify xs l
      → IsPartition classify ys r
      → IsPartition classify (xs ++ ys) (record {
        committed_events = l.committed_events ++ r.committed_events;
        poison_events = l.poison_events ++ r.poison_events;
      })
  IsPartition-append xs ys l r p q = record {
    accounted = rw (map-append (λ p. p.event) l.poison_events r.poison_events) (
        Perm.trans (perm_interleave l.committed_events _ r.committed_events _)
          (Perm.append p.accounted q.accounted));
    faults = All-append (IsRowFault classify) l.poison_events r.poison_events p.faults q.faults;
  }

module _ {W : Type 0} (deps : SplitRetryDeps W) (classify : Thrown → FlushErrorClassification)
    (max_attempts delay : ℕ) where
  -- What the recursion guarantees of a call.
  abbrev Partitions : (List CaptureEvent → String → Act W SplitRetryResult) → Type 0
  Partitions rec =
      (events : List CaptureEvent) (id : String)
      → Yields (IsPartition classify events) (rec events id)

  module _ (rec : List CaptureEvent → String → Act W SplitRetryResult) (ih : Partitions rec) where
    split-IsPartition :
        (events : List CaptureEvent) (id : String) (e : Thrown)
        → Yields
            (IsPartition classify events)
            (split deps classify max_attempts delay rec events id e)
    unfolding split
    split-IsPartition events id e =
        let mid = ceil_half (length events) in
        Yields-then _ _ λ _. Yields-bind _ _ (ih (take mid events) _) λ left p.
          Yields-bind _ _ (ih (drop mid events) _) λ right q. Yields-pure _ (
            rw take-append-drop at
              (IsPartition-append (take mid events) (drop mid events) left right p q))

    isolate-IsPartition :
        (events : List CaptureEvent) (id : String) (e : Thrown)
        → classify e ≡ row_fault
        → Yields
            (IsPartition classify events)
            (isolate deps classify max_attempts delay rec events id e)
    unfolding isolate
    isolate-IsPartition (x ∷ []) id e fault = Yields-then _ _ λ _. Yields-pure _ (record {
      accounted = Perm.refl (x ∷ []);
      faults = (record { cause = e; kept = refl; blamed = fault }, tt);
    })
    isolate-IsPartition [] id e fault = split-IsPartition [] id e
    isolate-IsPartition (x ∷ y ∷ r) id e fault = split-IsPartition (x ∷ y ∷ r) id e

    give_up-IsPartition :
        (c : FlushErrorClassification) (events : List CaptureEvent) (id : String) (e : Thrown)
        → classify e ≡ c
        → Yields
            (IsPartition classify events)
            (give_up deps classify max_attempts delay c rec events id e)
    unfolding give_up reject
    give_up-IsPartition infrastructure events id e h = Yields-then _ _ λ _. Yields-raise _
    give_up-IsPartition row_fault events id e h = isolate-IsPartition events id e h

  whole-IsPartition :
      (events : List CaptureEvent)
      → IsPartition classify events (record { committed_events = events; poison_events = [] })
  whole-IsPartition events = record { accounted = rw append-nil (Perm.refl events); faults = tt }

  attempt_batch-IsPartition :
      (fuel : ℕ) → Partitions (attempt_batch deps classify max_attempts delay fuel)
  unfolding attempt_batch
  attempt_batch-IsPartition zero events id = Yields-no_fuel
  attempt_batch-IsPartition (suc fuel) events id = Yields-then _ _ (elim [
    | none ↦ Yields-pure _ (whole-IsPartition events)
    | some e ↦
        give_up-IsPartition (attempt_batch deps classify max_attempts delay fuel)
          (attempt_batch-IsPartition fuel) (classify e) events id e refl
  ])

-- The classifier that `retryWithSplit` uses: the option, or `classifyFlushError`.
abbrev pub classifier : SplitRetryOptions → Thrown → FlushErrorClassification
classifier options = or_else options.classify classify_flush_error

run_batch-IsPartition :
    {W : Type 0} (deps : SplitRetryDeps W) (options : SplitRetryOptions)
    (events : List CaptureEvent) (numbers : ℕ × ℕ)
    → Yields (IsPartition (classifier options) events) (run_batch deps options events numbers)
unfolding run_batch
run_batch-IsPartition deps options [] (max_attempts, delay) =
    Yields-pure _ (whole-IsPartition deps (classifier options) max_attempts delay [])
run_batch-IsPartition deps options (x ∷ xs) (max_attempts, delay) =
    Yields-then _ _
      λ id. attempt_batch-IsPartition deps (classifier options) max_attempts delay _ (x ∷ xs) id

-- Whatever the flush callback, the timer and the logger do: where `retryWithSplit` returns, the
-- committed and the poison events together are the batch, each event once, and the error of every
-- poison event is the `toError` of a value that the classifier calls a row fault.
pub retry_with_split-IsPartition :
    {W : Type 0} (deps : SplitRetryDeps W) (events : List CaptureEvent)
    (options : SplitRetryOptions) (w : W) (r : SplitRetryResult)
    → (retry_with_split deps events options w).0 ≡ ok r
    → IsPartition (classifier options) events r
unfolding retry_with_split
retry_with_split-IsPartition deps events options w r =
    (Yields-then _ _ (run_batch-IsPartition deps options events)).at w r
