-- ===== src/Redirect/Enqueue.antt =====
-- apps/api/src/redirect/enqueue.ts: the calls of the queue that are under way are counted, and an event that
-- comes while there are too many is dropped. Each call of `enqueueCapture`, and each answer of the queue, is
-- one step. The queue is outside: `outstanding` holds the payloads whose `queue.add` has not settled,
-- `added` all that were given to it. `queue.add` answers with a promise; the one that is settled may have been
-- rejected, which the counter does not read.
pub mod Bounds
mod Tests
use posta.Shared.{
  ℕ, zero, suc, ◌+◌, ◌-◌, List, [], ◌∷◌, ◌++◌, Option, none, some, if◌then◌else◌, leb,
}

abbrev pub default_max_inflight_enqueues : ℕ
default_max_inflight_enqueues = 1000

pub record Enqueuer (P : Type 0) : Type 0 where
  pub max_inflight : ℕ
  pub inflight : ℕ
  pub dropped : ℕ
  pub added : List P
  pub outstanding : List P

pub data EnqueueAction (P : Type 0) : Type 0 where
  enqueues : P → EnqueueAction P
  settles : ℕ → EnqueueAction P

abbrev pub or_default : Option ℕ → ℕ
or_default none = default_max_inflight_enqueues
or_default (some n) = n

module _ {P : Type 0} where
  -- `createEnqueueCapture`
  pub create_enqueue_capture : Option ℕ → Enqueuer P
  create_enqueue_capture max_inflight = record {
    max_inflight = or_default max_inflight;
    inflight = 0;
    dropped = 0;
    added = [];
    outstanding = [];
  }

  pub enqueue_capture : P → Enqueuer P → Enqueuer P
  enqueue_capture payload s =
      if leb s.max_inflight s.inflight then record s { dropped = s.dropped + 1 } else record s {
        inflight = s.inflight + 1;
        added = s.added ++ payload ∷ [];
        outstanding = payload ∷ s.outstanding;
      }

  abbrev pub keep : P → Option (List P) → Option (List P)
  keep p none = none
  keep p (some ps) = some (p ∷ ps)

  -- The payloads that stay where the one at a place settles; `none` if there is none there.
  abbrev pub settled_at : List P → ℕ → Option (List P)
  settled_at [] i = none
  settled_at (p ∷ ps) zero = some ps
  settled_at (p ∷ ps) (suc i) = keep p (settled_at ps i)

  -- The `finally` of a call that has settled.
  abbrev pub finish : Option (List P) → Enqueuer P → Enqueuer P
  finish none s = s
  finish (some rest) s = record s { inflight = s.inflight - 1; outstanding = rest }

  pub settle_add : ℕ → Enqueuer P → Enqueuer P
  settle_add i s = finish (settled_at s.outstanding i) s

  pub enqueue_step : EnqueueAction P → Enqueuer P → Enqueuer P
  unfolding enqueue_capture settle_add
  enqueue_step (enqueues payload) s = enqueue_capture payload s
  enqueue_step (settles i) s = settle_add i s

  -- Any interleaving of calls and answers, the first step first.
  pub run_enqueuer : List (EnqueueAction P) → Enqueuer P → Enqueuer P
  run_enqueuer [] s = s
  run_enqueuer (a ∷ actions) s = run_enqueuer actions (enqueue_step a s)

  -- How often `enqueueCapture` is called.
  pub calls : List (EnqueueAction P) → ℕ
  calls [] = 0
  calls (enqueues payload ∷ actions) = calls actions + 1
  calls (settles i ∷ actions) = calls actions
