-- ===== src/Batch/Accumulator/Tests.antt =====
-- accumulator.ts on an interleaving of adds, timers and answers.
use posta.Shared.{ℕ, String, ◌≡◌, refl, List, [], ◌∷◌, Perm, none, some, ok}
use posta.Shared.Thrown.{nat}
use posta.Batch.Accumulator.{
  Accumulator, Action, adds, fires, answers, resolved, rejected, create, initial, size,
  trigger_flush, answer_flush, fire, add, flush_now, step, run,
}
use posta.Batch.Accumulator.Bounds.{IsBounded, run-create-IsBounded}
use posta.Batch.Accumulator.Order.{events_in, run-create-order}
use posta.Batch.Accumulator.Promises.{all_promises, run-create-promises}
use posta.Batch.Samples.{reset_error}

abbrev new_id : ℕ → String
new_id n = "batch"

-- A full batch, a stale timer, a batch that its timer flushes, and two answers out of order.
abbrev actions : List (Action ℕ)
actions =
    adds 10
    ∷ adds 11
    ∷ fires 0
    ∷ adds 12
    ∷ fires 1
    ∷ answers 1 none 70
    ∷ answers 0 (some reset_error) 80
    ∷ adds 13
    ∷ []

abbrev start : Accumulator ℕ
start = initial 2 1000 5

opened : Unit {0}
unfolding run step add fire flush_now answer_flush trigger_flush size create
opened = tt

settlements :
    (run new_id actions start).settled
    ≡ (2, resolved) ∷ (0, rejected reset_error) ∷ (1, rejected reset_error) ∷ []
unfolding opened
settlements = refl

last_success : (run new_id actions start).last_flush_at ≡ 70
unfolding opened
last_success = refl

started : create {T = ℕ} (nat 2) (nat 1000) 5 ≡ ok start
unfolding create
started = refl

run-create-IsBounded_example : IsBounded (run new_id actions start)
run-create-IsBounded_example =
    run-create-IsBounded new_id (nat 2) (nat 1000) 5 start actions started

run-create-order_example : events_in (run new_id actions start) ≡ 10 ∷ 11 ∷ 12 ∷ 13 ∷ []
run-create-order_example = run-create-order new_id (nat 2) (nat 1000) 5 start actions started

run-create-promises_example : Perm (all_promises (run new_id actions start)) (0 ∷ 1 ∷ 2 ∷ 3 ∷ [])
run-create-promises_example = run-create-promises new_id (nat 2) (nat 1000) 5 start actions started
