-- ===== src/Redirect/Enqueue/Tests.antt =====
-- Two calls are let through, the third is dropped, and one that comes after an answer is let through again.
use posta.Shared.{◌≡◌, refl, ℕ, List, [], ◌∷◌, some}
use posta.Redirect.Enqueue.{
  EnqueueAction, enqueues, settles, create_enqueue_capture, enqueue_capture, settle_add,
  enqueue_step, run_enqueuer, calls,
}
use posta.Redirect.Enqueue.Bounds.{IsCounted, run_enqueuer-IsCounted}

abbrev clicks : List (EnqueueAction ℕ)
clicks = enqueues 7 ∷ enqueues 8 ∷ enqueues 9 ∷ settles 1 ∷ enqueues 10 ∷ []

clicks_added : (run_enqueuer clicks (create_enqueue_capture (some 2))).added ≡ 7 ∷ 8 ∷ 10 ∷ []
unfolding run_enqueuer enqueue_step enqueue_capture settle_add create_enqueue_capture
clicks_added = refl

clicks_dropped : (run_enqueuer clicks (create_enqueue_capture (some 2))).dropped ≡ 1
unfolding run_enqueuer enqueue_step enqueue_capture settle_add create_enqueue_capture
clicks_dropped = refl

run_enqueuer-IsCounted_example :
    IsCounted 2 (calls clicks) (run_enqueuer clicks (create_enqueue_capture (some 2)))
run_enqueuer-IsCounted_example = run_enqueuer-IsCounted (some 2) clicks
