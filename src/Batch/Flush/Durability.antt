-- ===== src/Batch/Flush/Durability.antt =====
-- The order of a flush: the event log first, the database after it.
use mathlib.Core.List.{Mem, mem-cons_self, mem-cons_of_mem}
use posta.Shared.{
  ℕ, ◌≡◌, refl, String, Bool, false, List, ◌∷◌, map, Option, none, some, Outcome, ok, throw, stuck,
  ◌⊎◌, inl, inr, Bool-cases,
}
use posta.Shared.Thrown.{Thrown}
use posta.Shared.Recording.{History, call, call-Triple}
use posta.Shared.Triples.{
  Triple, After, Triple-if, Triple-pure, Triple-raise, Triple-lift, Triple-bind, Triple-weaken,
}
use posta.Contracts.Capture.{CaptureEvent}
use posta.Core.Enrichment.{EnrichDeps}
use posta.Core.EventLog.Keys.{event_batch_key}
use posta.Core.EventLog.Keys.Totality.{event_batch_key-ends}
use posta.Core.EventLog.Ndjson.{serialize_batch}
use posta.Batch.SplitRetry.{DlqMeta}
use posta.Batch.R2Retry.{R2PutOutcome, succeeded, failed, r2_put_failed_dlq_reason}
use posta.Batch.R2Retry.Contract.{Contract, Settled, put_r2_batch_with_retry-Triple}
use posta.Batch.Rows.{to_new_event_row}
use posta.Batch.Flush.{
  LinkRow, r2, FlushDeps, FlushOptions, ResolvedEvent, logged_events, sink, put_deps, retry_options,
  resolve_destinations_by_link_ids, log_unresolved_destinations, put_event_batch,
  insert_events_batch, after_put, flush_events, flush_all, flush_batch, distinct, batch_id_or_new,
}
use posta.Batch.Flush.History.{
  Call, looked_up, put, inserted, letter, slept, logged, named, Oracle, recorded, is_insert,
  NoInsert,
}

-- A call that inserts nothing keeps the history free of inserts.
quiet :
    {A : Type 0} (oracle : Oracle) (c : Call) (a : History Call → A) {E : History Call → Type 0}
    → ((answer : Option Thrown) → is_insert (c, answer) ≡ false)
    → ((h : History Call) → NoInsert h → E h)
    → Triple NoInsert (call oracle.fails c a) (λ _. NoInsert) E
quiet oracle c a k e =
    call-Triple oracle.fails c a (λ h p. rw (k none) p) (λ h x p. e _ (rw (k (some x)) p))

-- A key that is computed, or refused, leaves the history as it is.
keyed :
    (r : Outcome String)
    → (r ≡ stuck → ⊥)
    → (h : History Call) → NoInsert h
    → After (λ _. NoInsert) NoInsert r h
keyed (ok key) k h p = p
keyed (throw e) k h p = p
keyed stuck k h p = k refl

module _ (oracle : Oracle) (has_sink : Bool) (date_parse : String → Option ℕ) (parsers : EnrichDeps)
    (options : FlushOptions) (first : CaptureEvent) (rest : List CaptureEvent) where
  abbrev pub deps : FlushDeps (History Call)
  deps = recorded oracle has_sink date_parse parsers

  abbrev pub events : List CaptureEvent
  events = first ∷ rest

  -- The events were stored, as they are logged with the destinations of `rows`.
  abbrev pub Stored : List LinkRow → History Call → Type 0
  Stored rows h =
      (key : String) × Mem
        (put options.r2_bucket key (serialize_batch (logged_events deps rows events)), none) h

  -- The rows of the same events were inserted.
  abbrev pub Inserted : List LinkRow → History Call → Type 0
  Inserted rows h =
      Mem (inserted (map (to_new_event_row date_parse) (logged_events deps rows events)), none) h

  -- The whole batch was sent to the dead-letter queue.
  abbrev pub Lettered : History Call → Type 0
  Lettered h =
      (e : Thrown) × (meta : DlqMeta) × Mem (letter r2_put_failed_dlq_reason events e meta, none) h

  -- What a flush that returns has done.
  abbrev pub IsAccounted : History Call → Type 0
  IsAccounted h =
      ((rows : List LinkRow) × Stored rows h × Inserted rows h) ⊎ (NoInsert h × Lettered h)

  -- What a flush that throws has done.
  abbrev pub IsOrdered : History Call → Type 0
  IsOrdered h = NoInsert h ⊎ ((rows : List LinkRow) × Stored rows h)

  -- A PUT has succeeded.
  abbrev Ready : List LinkRow → History Call → Type 0
  Ready rows h = NoInsert h × Stored rows h

  put_event_batch-Triple :
      (batch_id : String) (rows : List LinkRow)
      → Triple NoInsert
          (put_event_batch deps options.r2_bucket batch_id first.occurred_at
            (logged_events deps rows events))
          (λ _. Ready rows)
          NoInsert
  unfolding put_event_batch
  put_event_batch-Triple batch_id rows =
      Triple-bind {Q = λ _. NoInsert} _ _
        (Triple-lift _ (
          keyed (event_batch_key date_parse batch_id first.occurred_at)
            (event_batch_key-ends date_parse batch_id first.occurred_at)))
        λ key.
          call-Triple oracle.fails
            (put options.r2_bucket key (serialize_batch (logged_events deps rows events))) (λ _. tt)
            (λ h p. (p, (key, mem-cons_self))) (λ h e p. p)

  send-Triple :
      (e : Thrown) (meta : DlqMeta)
      → Triple NoInsert
          (sink deps r2_put_failed_dlq_reason events e meta)
          (λ _ h. NoInsert h × Lettered h)
          IsOrdered
  send-Triple e meta = elim (Bool-cases has_sink) [
    | inl s ↦ rw s (
        call-Triple oracle.fails (letter r2_put_failed_dlq_reason events e meta) (λ _. tt)
          (λ h p. (p, (e, meta, mem-cons_self))) (λ h x p. inl p))
    | inr s ↦ rw s (Triple-weaken _ (Triple-raise _) (λ h p. inl p) (λ _ h p. p) (λ h p. p))
  ]

  after_put-Triple :
      (rows : List LinkRow) (o : R2PutOutcome)
      → Triple
          (Settled (Ready rows) (λ h. NoInsert h × Lettered h) o)
          (after_put deps o (logged_events deps rows events))
          (λ _. IsAccounted)
          IsOrdered
  unfolding after_put insert_events_batch
  after_put-Triple rows (failed e n) =
      Triple-weaken _ (Triple-pure tt) (λ h p. inr p) (λ _ h p. p) (λ h p. p)
  after_put-Triple rows (succeeded n) =
      call-Triple oracle.fails
        (inserted (map (to_new_event_row date_parse) (logged_events deps rows events))) (λ _. tt)
        (λ h (p, (key, m)). inl (rows, (key, mem-cons_of_mem _ m), mem-cons_self))
        (λ h e (p, (key, m)). inr (rows, (key, mem-cons_of_mem _ m)))

  contract :
      (batch_id : String) (rows : List LinkRow)
      → Contract NoInsert
          (Ready rows)
          (λ h. NoInsert h × Lettered h)
          IsOrdered
          (put_deps deps options.r2_bucket batch_id first.occurred_at
            (logged_events deps rows events))
          (sink deps)
          events
  contract batch_id rows = record {
    put = put_event_batch-Triple batch_id rows;
    sleep = λ ms. quiet oracle (slept ms) _ (λ _. refl) (λ h p. inl p);
    log_error = λ l. quiet oracle (logged (r2 l)) _ (λ _. refl) (λ h p. inl p);
    sends = send-Triple;
    keeps = λ h p. inl p;
  }

  log_unresolved_destinations-Triple :
      (resolutions : List ResolvedEvent) (n : ℕ)
      → Triple NoInsert (log_unresolved_destinations deps resolutions n) (λ _. NoInsert) IsOrdered
  unfolding log_unresolved_destinations
  log_unresolved_destinations-Triple resolutions n =
      Triple-if _ _ _ (Triple-pure tt) (quiet oracle (logged _) _ (λ _. refl) (λ h p. inl p))

  flush_events-Triple :
      (batch_id : String)
      → Triple NoInsert (flush_events deps options batch_id first rest) (λ _. IsAccounted) IsOrdered
  unfolding flush_events resolve_destinations_by_link_ids distinct
  flush_events-Triple batch_id =
      Triple-bind {Q = λ _. NoInsert} _ _ (quiet oracle (looked_up _) _ (λ _. refl) (λ h p. inl p))
        λ rows. Triple-bind _ _ (log_unresolved_destinations-Triple _ _) λ _.
          Triple-bind _ _
            (put_r2_batch_with_retry-Triple _ _ events (contract batch_id rows) batch_id
              (retry_options deps options))
            λ o. after_put-Triple rows o

  name-Triple :
      (batch_id : Option String)
      → Triple NoInsert (batch_id_or_new deps batch_id) (λ _. NoInsert) IsOrdered
  name-Triple none = quiet oracle named _ (λ _. refl) (λ h p. inl p)
  name-Triple (some id) = Triple-pure id

  -- Whatever the database, object storage, the dead-letter queue, the timer and the logger do, a flush of a
  -- batch of at least one event comes to an end. Where it returns, the batch was stored in object
  -- storage and the rows of the same events were inserted, or nothing was inserted and the whole
  -- batch is in the dead-letter queue. Where it throws, no insert was tried, or the batch was stored.
  pub flush_batch-IsAccounted :
      (batch_id : Option String)
      → Triple NoInsert (flush_batch deps options events batch_id) (λ _. IsAccounted) IsOrdered
  unfolding flush_batch flush_all
  flush_batch-IsAccounted batch_id =
      Triple-bind _ _ (name-Triple batch_id) λ id. flush_events-Triple id
