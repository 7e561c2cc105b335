-- ===== src/Batch/SplitRetry/Attempts.antt =====
-- The loop of attempts at one batch, where every flush of it succeeds and where every one fails.
use posta.Shared.{ℕ, zero, suc, ◌+◌, String, ◌≡◌, refl, List, none, some, Bool-cases, inl, inr, ltb}
use posta.Shared.Rules.{Gives, Throws, Gives-pure, Gives-bind, Gives-caught_ok, Gives-caught_throw}
use posta.Shared.Thrown.{Thrown}
use posta.Contracts.Capture.{CaptureEvent}
use posta.Batch.ClassifyError.{FlushErrorClassification}
use posta.Batch.SplitRetry.{SplitRetryDeps, back_off, attempts}

module _ {W : Type 0} (deps : SplitRetryDeps W) (classify : Thrown → FlushErrorClassification)
    (max delay : ℕ) (sleeps : (ms : ℕ) → Gives (λ _. Unit {0}) (deps.sleep ms)) where
  back_off-Gives : (k : ℕ) → Gives (λ _. Unit {0}) (back_off deps classify max delay k)
  unfolding back_off
  back_off-Gives k = elim (Bool-cases (ltb k max)) [
    | inl e ↦ rw e (sleeps _)
    | inr e ↦ rw e (Gives-pure tt tt)
  ]

  module _ (events : List CaptureEvent) (id : String) where
    pub attempts-commit :
        (left k : ℕ) (last : Thrown)
        → Gives (λ _. Unit {0}) (deps.flush_batch events id)
        → Gives (λ o. o ≡ none) (attempts deps classify max delay events id (suc left) k last)
    unfolding attempts
    attempts-commit left k last commits =
        Gives-bind _ _ (Gives-caught_ok _ commits) (λ o p. rw p (Gives-pure none refl))

    pub attempts-reject :
        (c : FlushErrorClassification) (left k : ℕ) (last : Thrown)
        → Throws (λ e. classify e ≡ c) (deps.flush_batch events id)
        → (left ≡ zero → classify last ≡ c)
        → Gives
            (λ o. (e : Thrown) × (o ≡ some e) × (classify e ≡ c))
            (attempts deps classify max delay events id left k last)
    unfolding attempts
    attempts-reject c zero k last rejects blamed = Gives-pure (some last) (last, refl, blamed refl)
    attempts-reject c (suc left) k last rejects blamed =
        Gives-bind _ _ (Gives-caught_throw _ rejects) λ o (e, p, f). rw p (
          Gives-bind _ _ (back_off-Gives k)
            (λ _ _. attempts-reject c left (k + 1) e rejects (λ _. f)))
