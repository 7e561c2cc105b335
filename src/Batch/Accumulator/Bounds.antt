-- ===== src/Batch/Accumulator/Bounds.antt =====
-- The open batch is never full and has the only armed timer; no flush gets more than a full batch.
use posta.Shared.{
  ℕ, ◌≤◌, ◌<◌, String, ◌≡◌, refl, List, [], ◌∷◌, Option, none, some, length, length-append, All,
  All-append, arith, ok, true, sym, ap, subst, leb, Bool-cases, inl, inr, if◌then◌else◌,
}
use posta.Shared.Thrown.{Thrown, JsNumber}
use posta.Batch.Accumulator.{
  OpenBatch, FlushCall, Accumulator, Action, adds, flushes, fires, answers, create, size,
  trigger_flush, fire, add, step, run, open_batch, append_event, without, is_in, detach,
  settle_found, get_elem?,
}
use posta.Batch.Accumulator.Construction.{create_induction}

without_self : (t : ℕ) (ts : List ℕ) → ts ≡ t ∷ [] → without t ts ≡ []
without_self t ts h = ground (arith, h)

module _ {T : Type 0} where
  abbrev pub IsOpen : Accumulator T → Option (OpenBatch T) → Type 0
  IsOpen s none = s.armed ≡ []
  IsOpen s (some b) =
      (0 < length b.events) × (length b.events < s.batch_size) × (s.armed ≡ b.timer ∷ [])

  -- Between 1 and `batchSize` events.
  abbrev pub Fits : ℕ → FlushCall T → Type 0
  Fits n c = (0 < length c.events) × (length c.events ≤ n)

  pub record IsBounded (s : Accumulator T) : Type 0 where
    pub positive : 0 < s.batch_size
    pub open_batch : IsOpen s s.current_batch
    pub calls : All (Fits s.batch_size) s.calls

  -- The state between the two halves of `add`, where the open batch may be full.
  record IsReady (s : Accumulator T) (b : OpenBatch T) : Type 0 where
    positive : 0 < s.batch_size
    calls : All (Fits s.batch_size) s.calls
    full :
        Fits s.batch_size (record { batch_id = b.batch_id; events = b.events; waiters = b.waiters })
    timer : s.armed ≡ b.timer ∷ []

  detach_open :
      (b : OpenBatch T) (s : Accumulator T)
      → 0 < s.batch_size
      → All (Fits s.batch_size) s.calls
      → (0 < length b.events) × (length b.events ≤ s.batch_size)
      → without b.timer s.armed ≡ []
      → IsBounded (detach (some b) s)
  detach_open b s positive calls full cleared = record {
    positive = positive;
    open_batch = cleared;
    calls = All-append (Fits s.batch_size) s.calls _ calls (full, tt);
  }

  detach-IsReady :
      (b : OpenBatch T) (s : Accumulator T) → IsReady s b → IsBounded (detach (some b) s)
  detach-IsReady b s h =
      detach_open b s h.positive h.calls h.full (without_self b.timer s.armed h.timer)

  detach-IsBounded :
      (c : Option (OpenBatch T)) (s : Accumulator T)
      → IsBounded s
      → IsOpen s c
      → IsBounded (detach c s)
  detach-IsBounded none s h o = h
  detach-IsBounded (some b) s h o =
      detach-IsReady b s
        (record { positive = h.positive; calls = h.calls; full = omega arith; timer = o.2 })

  trigger_flush-IsBounded : (s : Accumulator T) → IsBounded s → IsBounded (trigger_flush s)
  unfolding trigger_flush
  trigger_flush-IsBounded s h = detach-IsBounded s.current_batch s h h.open_batch

  flush_if_full :
      (b : OpenBatch T) (s : Accumulator T)
      → s.current_batch ≡ some b
      → IsReady s b
      → IsBounded (if leb s.batch_size (size s) then trigger_flush s else s)
  unfolding size trigger_flush
  flush_if_full b s e h = elim (Bool-cases (leb s.batch_size (size s))) [
    | inl full ↦ rw full (subst (λ c. IsBounded (detach c s)) (sym e) (detach-IsReady b s h))
    | inr room ↦ rw room (record {
      positive = h.positive;
      open_batch = subst (IsOpen s) (sym e) (ground arith);
      calls = h.calls;
    })
  ]

  module _ (new_id : ℕ → String) where
    append-IsBounded :
        (event : T) (c : Option (OpenBatch T)) (s : Accumulator T)
        → IsBounded s
        → IsOpen s c
        → let (b, s') = open_batch new_id c s in
          let t = append_event new_id event b s' in
          IsBounded (if leb t.batch_size (size t) then trigger_flush t else t)
    append-IsBounded event none s h o = flush_if_full _ _ refl (record {
      positive = h.positive;
      calls = h.calls;
      full = omega (arith, h.positive);
      timer = ap (λ l. s.batches ∷ l) o;
    })
    append-IsBounded event (some b) s h o = flush_if_full _ _ refl (record {
      positive = h.positive;
      calls = h.calls;
      full = omega (arith, length-append b.events (event ∷ []));
      timer = o.2;
    })

    add-IsBounded : (event : T) (s : Accumulator T) → IsBounded s → IsBounded (add new_id event s)
    unfolding add
    add-IsBounded event s h = append-IsBounded event s.current_batch s h h.open_batch

    settle_found-IsBounded :
        (found : Option (FlushCall T)) (i : ℕ) (answer : Option Thrown) (now : ℕ)
        (s : Accumulator T)
        → IsBounded s
        → IsBounded (settle_found found i answer now s)
    settle_found-IsBounded none i answer now s h = h
    settle_found-IsBounded (some call) i none now s h = record {
      positive = h.positive;
      open_batch = h.open_batch;
      calls = h.calls;
    }
    settle_found-IsBounded (some call) i (some e) now s h = record {
      positive = h.positive;
      open_batch = h.open_batch;
      calls = h.calls;
    }

  fired :
      (t : ℕ) (c : Option (OpenBatch T)) (s : Accumulator T)
      → IsBounded s
      → IsOpen s c
      → is_in t s.armed ≡ true
      → IsBounded (detach c (record s { armed = without t s.armed }))
  fired t none s h o in_armed = ground (arith, o)
  fired t (some b) s h o in_armed =
      detach_open b (record s { armed = without t s.armed }) h.positive h.calls (omega arith)
        (ground (arith, o.2))

  fire-IsBounded : (t : ℕ) (s : Accumulator T) → IsBounded s → IsBounded (fire t s)
  unfolding fire
  fire-IsBounded t s h = elim (Bool-cases (is_in t s.armed)) [
    | inl armed ↦ rw armed (fired t s.current_batch s h h.open_batch armed)
    | inr idle ↦ rw idle h
  ]

  module _ (new_id : ℕ → String) where
    step-IsBounded : (a : Action T) (s : Accumulator T) → IsBounded s → IsBounded (step new_id a s)
    unfolding step
    step-IsBounded (adds event) s h = add-IsBounded new_id event s h
    step-IsBounded flushes s h = trigger_flush-IsBounded s h
    step-IsBounded (fires t) s h = fire-IsBounded t s h
    step-IsBounded (answers i answer now) s h =
        settle_found-IsBounded new_id (get_elem? s.in_flight i) i answer now s h

    run-IsBounded :
        (actions : List (Action T)) (s : Accumulator T)
        → IsBounded s
        → IsBounded (run new_id actions s)
    unfolding run
    run-IsBounded [] s h = h
    run-IsBounded (a ∷ actions) s h = run-IsBounded actions (step new_id a s) (step-IsBounded a s h)

-- From its construction on, whatever the calls, the timers and the answers: an accumulator's open
-- batch holds at least one event and fewer than `batchSize`, its timer is the only one armed, no
-- timer is armed while no batch is open, and every call of the flush callback got between 1 and
-- `batchSize` events.
pub run-create-IsBounded :
    {T : Type 0} (new_id : ℕ → String) (batch_size interval : JsNumber) (now : ℕ)
    (s : Accumulator T) (actions : List (Action T))
    → create batch_size interval now ≡ ok s
    → IsBounded (run new_id actions s)
run-create-IsBounded new_id batch_size interval now s actions h = run-IsBounded new_id actions s (
    create_induction IsBounded batch_size interval now s
      (λ n i p. record { positive = p; open_batch = refl; calls = tt }) h)
