-- ===== src/Batch/SplitRetry/Isolation.antt =====
-- Bisection finds the poison: a flush that fails exactly on the batches that hold a bad event.
use posta.Shared.{
  ℕ, zero, suc, ◌≤◌, ◌<◌, String, ◌≡◌, refl, ap₂, List, [], ◌∷◌, ◌++◌, map, Bool, true, false, not,
  Option, none, some, map-append, take, drop, take-append-drop, length, length-take, length-drop,
  any, select, select-append, select-none, select-not_all, sym, arith, Act, Bool-cases, inl, inr,
}
use posta.Shared.Rules.{Gives, Throws, Gives-pure, Gives-lift, Gives-bind}
use posta.Shared.Thrown.{Thrown, undefined, nat}
use posta.Contracts.Capture.{CaptureEvent}
use posta.Batch.ClassifyError.{FlushErrorClassification, row_fault}
use posta.Batch.SplitRetry.{
  SplitRetryResult, SplitRetryDeps, SplitRetryOptions, split, isolate, give_up, left_batch_id,
  right_batch_id, attempt_batch, ceil_half, retry_with_split, run_batch, validate_options,
  batch_id_or_new,
}
use posta.Batch.SplitRetry.Attempts.{attempts-commit, attempts-reject}
use posta.Batch.SplitRetry.Partition.{classifier}

-- The flush rejects a batch, with a row fault, exactly where it holds a bad event; the timer and
-- the logger do not fail.
pub record Isolates {W : Type 0} (deps : SplitRetryDeps W)
    (classify : Thrown → FlushErrorClassification) (bad : CaptureEvent → Bool) : Type 0 where
  pub commits :
      (events : List CaptureEvent) (id : String)
      → any bad events ≡ false
      → Gives (λ _. Unit {0}) (deps.flush_batch events id)
  pub rejects :
      (events : List CaptureEvent) (id : String)
      → any bad events ≡ true
      → Throws (λ e. classify e ≡ row_fault) (deps.flush_batch events id)
  pub sleeps : (ms : ℕ) → Gives (λ _. Unit {0}) (deps.sleep ms)
  pub logs : (l : _) → Gives (λ _. Unit {0}) (deps.log_error l)
  pub names : Gives (λ _. Unit {0}) deps.new_id

-- The good events are committed and the bad ones are poison, each group in the batch's order.
pub record Isolated (bad : CaptureEvent → Bool) (events : List CaptureEvent) (r : SplitRetryResult)
    : Type 0 where
  pub committed : r.committed_events ≡ select (λ e. not (bad e)) events
  pub poison : map (λ p. p.event) r.poison_events ≡ select bad events

module _ {W : Type 0} (deps : SplitRetryDeps W) (classify : Thrown → FlushErrorClassification)
    (bad : CaptureEvent → Bool) (h : Isolates deps classify bad) (m delay : ℕ) where
  abbrev max : ℕ
  max = suc m

  Isolated-append :
      (xs ys : List CaptureEvent) (l r : SplitRetryResult)
      → Isolated bad xs l
      → Isolated bad ys r
      → Isolated bad (xs ++ ys) (record {
        committed_events = l.committed_events ++ r.committed_events;
        poison_events = l.poison_events ++ r.poison_events;
      })
  Isolated-append xs ys l r p q = record {
    committed = rw (select-append (λ e. not (bad e)) xs ys) (ap₂ ◌++◌ p.committed q.committed);
    poison =
        rw (map-append (λ p. p.event) l.poison_events r.poison_events, select-append bad xs ys)
          (ap₂ ◌++◌ p.poison q.poison);
  }

  module _ (rec : List CaptureEvent → String → Act W SplitRetryResult) where
    split-Isolated :
        (events : List CaptureEvent) (id : String) (e : Thrown)
        → let mid = ceil_half (length events) in
          Gives (Isolated bad (take mid events)) (rec (take mid events) (left_batch_id id))
          → Gives (Isolated bad (drop mid events)) (rec (drop mid events) (right_batch_id id))
          → Gives (Isolated bad events) (split deps classify max delay rec events id e)
    unfolding split
    split-Isolated events id e p q =
        let mid = ceil_half (length events) in
        Gives-bind _ _ (h.logs _) λ _ _. Gives-bind _ _ p λ left p'. Gives-bind _ _ q λ right q'.
          Gives-pure _ (
            rw take-append-drop at
              (Isolated-append (take mid events) (drop mid events) left right p' q'))

    isolate-Isolated_one :
        (x : CaptureEvent) (id : String) (e : Thrown)
        → bad x ≡ true
        → Gives (Isolated bad (x ∷ [])) (isolate deps classify max delay rec (x ∷ []) id e)
    unfolding isolate
    isolate-Isolated_one x id e poisoned =
        Gives-bind _ _ (h.logs _)
          λ _ _. Gives-pure _ (record { committed = ground arith; poison = ground arith })

    give_up-Isolated :
        (fuel : ℕ) (events : List CaptureEvent) (id : String) (e : Thrown)
        → any bad events ≡ true
        → length events ≤ suc fuel
        → ((part : List CaptureEvent) (id : String)
            → 0 < length part
            → length part ≤ fuel
            → Gives (Isolated bad part) (rec part id))
        → Gives (Isolated bad events) (give_up deps classify max delay row_fault rec events id e)
    unfolding give_up isolate
    give_up-Isolated fuel [] id e poisoned fits ih = cc
    give_up-Isolated fuel (x ∷ []) id e poisoned fits ih =
        isolate-Isolated_one x id e (ground arith)
    give_up-Isolated fuel (x ∷ y ∷ r) id e poisoned fits ih =
        let events = x ∷ y ∷ r in
        let mid = ceil_half (length events) in
        split-Isolated events id e
          (ih (take mid events) _ (omega (arith, length-take mid events))
            (omega (arith, length-take mid events)))
          (ih (drop mid events) _ (omega (arith, length-drop mid events))
            (omega (arith, length-drop mid events)))

  attempt_batch-Isolated :
      (fuel : ℕ) (events : List CaptureEvent) (id : String)
      → 0 < length events
      → length events ≤ fuel
      → Gives (Isolated bad events) (attempt_batch deps classify max delay fuel events id)
  unfolding attempt_batch
  attempt_batch-Isolated zero events id some_event fits = absurd (omega arith)
  attempt_batch-Isolated (suc fuel) events id some_event fits = elim (Bool-cases (any bad events)) [
    | inr good ↦
        Gives-bind _ _
          (attempts-commit deps classify max delay h.sleeps events id m 1 undefined
            (h.commits events id good))
          λ o p. rw p (
            Gives-pure _ (record {
              committed = sym (select-not_all bad events good);
              poison = sym (select-none bad events good);
            }))
    | inl poisoned ↦
        Gives-bind _ _
          (attempts-reject deps classify max delay h.sleeps events id row_fault max 1 undefined
            (h.rejects events id poisoned) (λ z. absurd (omega arith)))
          λ o (e, p, f).
            rw (p, f)
              (give_up-Isolated (attempt_batch deps classify max delay fuel) fuel events id e
                poisoned fits (attempt_batch-Isolated fuel))
  ]

module _ {W : Type 0} (deps : SplitRetryDeps W) (bad : CaptureEvent → Bool)
    (options : SplitRetryOptions) (h : Isolates deps (classifier options) bad) where
  batch_id-Gives : (id : Option String) → Gives (λ _. Unit {0}) (batch_id_or_new deps id)
  batch_id-Gives none = h.names
  batch_id-Gives (some id) = Gives-pure id tt

  run_batch-Isolated :
      (events : List CaptureEvent) (m delay : ℕ)
      → Gives (Isolated bad events) (run_batch deps options events (suc m, delay))
  unfolding run_batch
  run_batch-Isolated [] m delay = Gives-pure _ (record { committed = refl; poison = refl })
  run_batch-Isolated (x ∷ xs) m delay = Gives-bind _ _ (batch_id-Gives options.batch_id) λ id _.
      attempt_batch-Isolated deps (classifier options) bad h m delay _ (x ∷ xs) id (omega arith)
        (omega arith)

-- Where the flush callback rejects, with a row fault, exactly the batches that hold a bad event,
-- and the timer, the logger and the id generator do not fail, `retryWithSplit` with valid options
-- returns: it commits the good events and gives up the bad ones, in the order of the batch.
pub retry_with_split-Isolated :
    {W : Type 0} (deps : SplitRetryDeps W) (bad : CaptureEvent → Bool) (events : List CaptureEvent)
    (options : SplitRetryOptions) (m delay : ℕ)
    → options.max_attempts_per_batch ≡ nat (suc m)
    → options.initial_delay_ms ≡ nat delay
    → Isolates deps (classifier options) bad
    → Gives (Isolated bad events) (retry_with_split deps events options)
unfolding retry_with_split
retry_with_split-Isolated deps bad events options m delay valid delayed h =
    Gives-bind _ _ (Gives-lift _ (ap₂ validate_options valid delayed))
      λ numbers p. rw p (run_batch-Isolated deps bad options h events m delay)
