-- ===== src/Batch/Accumulator.antt =====
-- apps/worker/src/batch/accumulator.ts: events gather in one open batch, which is flushed when it is
-- full, when its timer fires, or on demand. Each call of the object, and each thing that the event
-- loop runs later (a timer's callback, the answer of a flush), is one step. A promise that `add`
-- hands out is the number of that call. `newId` is a parameter: the id of the k-th batch. The calls
-- of the flush callback are recorded in `calls`; those with no answer yet are `in_flight`.
mod Construction
pub mod Bounds
pub mod Order
pub mod Promises
mod Tests
use posta.Shared.{
  ℕ, zero, suc, ◌+◌, ◌-◌, String, Bool, List, [], ◌∷◌, ◌++◌, map, Option, none, some, length,
  Outcome, ok, throw, if◌then◌else◌, leb, ◌==◌,
}
use posta.Shared.Thrown.{Thrown, JsNumber, nat, not_nat, new_error}

module _ {T : Type 0} where
  abbrev pub get_elem? : List T → ℕ → Option T
  get_elem? [] i = none
  get_elem? (x ∷ xs) zero = some x
  get_elem? (x ∷ xs) (suc i) = get_elem? xs i

  abbrev pub erase_idx : List T → ℕ → List T
  erase_idx [] i = []
  erase_idx (x ∷ xs) zero = xs
  erase_idx (x ∷ xs) (suc i) = x ∷ erase_idx xs i

abbrev pub without : ℕ → List ℕ → List ℕ
without t [] = []
without t (u ∷ us) = if u == t then without t us else u ∷ without t us

abbrev pub is_in : ℕ → List ℕ → Bool
is_in t [] = Bool.false
is_in t (u ∷ us) = if u == t then Bool.true else is_in t us

pub record OpenBatch (T : Type 0) : Type 0 where
  pub batch_id : String
  pub events : List T
  pub waiters : List ℕ
  pub timer : ℕ

-- A call of the flush callback, with the promises that its answer settles.
pub record FlushCall (T : Type 0) : Type 0 where
  pub batch_id : String
  pub events : List T
  pub waiters : List ℕ

-- How a promise was settled.
pub data Settlement : Type 0 where
  resolved : Settlement
  rejected : Thrown → Settlement

pub record Accumulator (T : Type 0) : Type 0 where
  pub batch_size : ℕ
  pub batch_interval_ms : ℕ
  pub current_batch : Option (OpenBatch T)
  pub last_flush_at : ℕ
  pub batches : ℕ  -- batches started so far
  pub promises : ℕ  -- calls of `add` so far
  pub armed : List ℕ  -- timers that have been set and have neither fired nor been cleared
  pub calls : List (FlushCall T)
  pub in_flight : List (FlushCall T)
  pub settled : List (ℕ × Settlement)

-- One step: a call of `add` or `flushNow`, a timer that comes due, or the answer of the flush at
-- that place among those in flight (`none` is success), with the time of the answer.
pub data Action (T : Type 0) : Type 0 where
  adds : T → Action T
  flushes : Action T
  fires : ℕ → Action T
  answers : ℕ → Option Thrown → ℕ → Action T

-- The object with its checked options, at the time `now`.
abbrev pub initial : {T : Type 0} → ℕ → ℕ → ℕ → Accumulator T
initial batch_size interval now = record {
  batch_size = batch_size;
  batch_interval_ms = interval;
  current_batch = none;
  last_flush_at = now;
  batches = 0;
  promises = 0;
  armed = [];
  calls = [];
  in_flight = [];
  settled = [];
}

-- The constructor, at the time `now`.
pub create : {T : Type 0} → JsNumber → JsNumber → ℕ → Outcome (Accumulator T)
create not_nat interval now =
    throw (new_error "BatchAccumulator batchSize must be a positive integer")
create (nat zero) interval now =
    throw (new_error "BatchAccumulator batchSize must be a positive integer")
create (nat (suc n)) not_nat now =
    throw (new_error "BatchAccumulator batchIntervalMs must be a positive integer")
create (nat (suc n)) (nat zero) now =
    throw (new_error "BatchAccumulator batchIntervalMs must be a positive integer")
create (nat (suc n)) (nat (suc interval)) now = ok (initial (suc n) (suc interval) now)

module _ {T : Type 0} where
  -- `size()` and `lastFlushAgeMs()`; the clock does not go back.
  abbrev pub size_of : Option (OpenBatch T) → ℕ
  size_of none = 0
  size_of (some b) = length b.events

  pub size : Accumulator T → ℕ
  size s = size_of s.current_batch

  pub last_flush_age_ms : Accumulator T → ℕ → ℕ
  last_flush_age_ms s now = now - s.last_flush_at

  -- The batch is detached before its flush starts, with its timer cleared.
  abbrev pub detach : Option (OpenBatch T) → Accumulator T → Accumulator T
  detach none s = s
  detach (some b) s =
      let call : FlushCall T = record {
        batch_id = b.batch_id;
        events = b.events;
        waiters = b.waiters;
      } in
      record s {
        armed = without b.timer s.armed;
        current_batch = none;
        calls = s.calls ++ call ∷ [];
        in_flight = s.in_flight ++ call ∷ [];
      }

  pub trigger_flush : Accumulator T → Accumulator T
  trigger_flush s = detach s.current_batch s

  -- What `runFlush` does with the answer of the flush: `none` if it succeeded. The log call of a
  -- failure is guarded and changes nothing here.
  abbrev pub settle : FlushCall T → Option Thrown → ℕ → Accumulator T → Accumulator T
  settle call none now s = record s {
    last_flush_at = now;
    settled = s.settled ++ map (λ w. (w, resolved)) call.waiters;
  }
  settle call (some e) now s = record s {
    settled = s.settled ++ map (λ w. (w, rejected e)) call.waiters;
  }

  abbrev pub settle_found :
      Option (FlushCall T) → ℕ → Option Thrown → ℕ → Accumulator T → Accumulator T
  settle_found none i answer now s = s
  settle_found (some call) i answer now s =
      settle call answer now (record s { in_flight = erase_idx s.in_flight i })

  -- The answer of the flush that stands at `i` among those in flight.
  pub answer_flush : ℕ → Option Thrown → ℕ → Accumulator T → Accumulator T
  answer_flush i answer now s = settle_found (get_elem? s.in_flight i) i answer now s

  -- The callback of a timer; one that has been cleared does not fire.
  pub fire : ℕ → Accumulator T → Accumulator T
  unfolding trigger_flush
  fire t s = if is_in t s.armed then trigger_flush (record s { armed = without t s.armed }) else s

  module _ (new_id : ℕ → String) where
    -- `this.currentBatch ?? this.startBatch()`
    abbrev pub open_batch : Option (OpenBatch T) → Accumulator T → OpenBatch T × Accumulator T
    open_batch (some b) s = (b, s)
    open_batch none s = (
      record { batch_id = new_id s.batches; events = []; waiters = []; timer = s.batches },
      record s { batches = s.batches + 1; armed = s.batches ∷ s.armed },
    )

    -- The event and its promise go into the open batch.
    abbrev pub append_event : T → OpenBatch T → Accumulator T → Accumulator T
    append_event event b s = record s {
      current_batch =
          some
            (record b { events = b.events ++ event ∷ []; waiters = b.waiters ++ s.promises ∷ [] });
      promises = s.promises + 1;
    }

    abbrev pub put_event : T → Accumulator T → Accumulator T
    put_event event s = let (b, s') = open_batch s.current_batch s in append_event event b s'

    pub add : T → Accumulator T → Accumulator T
    unfolding trigger_flush size
    add event s =
        let s' = put_event event s in if leb s'.batch_size (size s') then trigger_flush s' else s'

    -- `flushNow()`
    pub flush_now : Accumulator T → Accumulator T
    unfolding trigger_flush
    flush_now s = trigger_flush s

    pub step : Action T → Accumulator T → Accumulator T
    unfolding add fire flush_now answer_flush
    step (adds event) s = add event s
    step (fires t) s = fire t s
    step flushes s = flush_now s
    step (answers i answer now) s = answer_flush i answer now s

    -- Any interleaving of calls, timers and answers, the first step first.
    pub run : List (Action T) → Accumulator T → Accumulator T
    run [] s = s
    run (a ∷ actions) s = run actions (step a s)
