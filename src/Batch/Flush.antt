-- ===== src/Batch/Flush.antt =====
-- apps/worker/src/batch/flush.ts: one batch is enriched, stored in the event log, and then inserted
-- into the database. The clients of both, the timer, the logger and the dead-letter sink are
-- parameters, and each may throw. The rows of the lookup of destinations are those of
-- packages/core/src/db/tenant.ts, and of packages/core/src/db/events.ts comes the empty insert.
pub mod Destinations
pub mod History
pub mod Durability
mod Tests
use posta.Shared.{
  ℕ, ◌+◌, ◌-◌, String, Bool, true, false, not, ◌&&◌, List, [], ◌∷◌, map, select, Option, none, some,
  length, or_else, if◌then◌else◌, str_eq, ◌==◌, Act, Outcome, ok, throw, pure, raise, lift, ◌>>=◌,
  ◌>>◌, bind_outcome,
}
use posta.Shared.Text.{includes}
use posta.Shared.Thrown.{Thrown, JsNumber, nat, new_error}
use posta.Contracts.Capture.{CaptureEvent}
use posta.Core.Enrichment.{EnrichDeps, UaDeviceType, SourcePlatformValue, enrich}
use posta.Core.EventLog.Keys.{event_batch_key}
use posta.Core.EventLog.Ndjson.{LoggedEvent, serialize_batch}
use posta.Batch.Rows.{NewEvent, to_new_event_row}
use posta.Batch.R2Retry.{
  R2RetryDeps, R2RetryLog, R2RetryOptions, R2PutOutcome, succeeded, failed, R2BatchDlqSend,
  put_r2_batch_with_retry,
}

-- A row of the lookup by `resolveDestinationsByLinkIds`.
pub record LinkRow : Type 0 where
  pub id : String
  pub tenant_id : String
  pub destination : String

pub data Unresolved : Type 0 where
  not_found tenant_mismatch : Unresolved

pub record ResolvedEvent : Type 0 where
  pub event : CaptureEvent
  pub destination : Option String
  pub reason : Option Unresolved

-- `get` of the map that the rows make: a later row takes the place of an earlier one.
abbrev pub matching : LinkRow → String → Option LinkRow
matching row id = if str_eq row.id id then some row else none

abbrev pub or_none {ℓ} : {A : Type ℓ} → Option A → Option A → Option A
or_none none other = other
or_none (some a) other = some a

pub lookup : String → List LinkRow → Option LinkRow
lookup id [] = none
lookup id (row ∷ rows) = or_none (lookup id rows) (matching row id)

abbrev pub resolution : CaptureEvent → Option LinkRow → ResolvedEvent
resolution event none = record { event = event; destination = none; reason = some not_found }
resolution event (some row) =
    if str_eq row.tenant_id event.tenant_id
    then record { event = event; destination = some row.destination; reason = none }
    else record { event = event; destination = none; reason = some tenant_mismatch }

pub resolve_destination : List LinkRow → CaptureEvent → ResolvedEvent
resolve_destination rows event = resolution event (lookup event.link_id rows)

abbrev pub is_not_found : Option Unresolved → Bool
is_not_found (some not_found) = true
is_not_found (some tenant_mismatch) = false
is_not_found none = false

abbrev pub is_tenant_mismatch : Option Unresolved → Bool
is_tenant_mismatch (some not_found) = false
is_tenant_mismatch (some tenant_mismatch) = true
is_tenant_mismatch none = false

-- The calls of `logger.error`, with the counts that they carry.
pub data FlushLog : Type 0 where
  unresolved : (batch_size distinct_link_ids unresolved not_found tenant_mismatch : ℕ) → FlushLog
  r2 : R2RetryLog → FlushLog

-- `[...new Set(ids)]`: each text once, where it stands first.
pub distinct : List String → List String
distinct [] = []
distinct (id ∷ ids) = id ∷ select (λ other. not (str_eq other id)) (distinct ids)

pub record FlushDeps (W : Type 0) : Type 0 where
  pub select_links : List String → Act W (List LinkRow)
  pub put_object : (bucket key body : String) → Act W (Unit {0})
  pub insert : List NewEvent → Act W (Unit {0})
  pub dlq_send : Option (R2BatchDlqSend W)
  pub sleep : ℕ → Act W (Unit {0})
  pub log_error : FlushLog → Act W (Unit {0})
  pub new_id : Act W String
  pub date_parse : String → Option ℕ
  pub parsers : EnrichDeps

pub record FlushOptions : Type 0 where
  pub r2_bucket : String
  pub max_attempts : Option JsNumber
  pub initial_delay_ms : Option JsNumber

abbrev pub default_r2_max_attempts : ℕ
default_r2_max_attempts = 5

abbrev pub default_r2_initial_delay_ms : ℕ
default_r2_initial_delay_ms = 200

abbrev pub rejecting_dlq_sink : {W : Type 0} → R2BatchDlqSend W
rejecting_dlq_sink reason events e meta =
    raise (new_error "createFlushBatch: the R2 PUT failed and no real dlqSink was configured")

module _ {W : Type 0} (deps : FlushDeps W) where
  abbrev pub to_logged_event : ResolvedEvent → LoggedEvent
  to_logged_event resolved = record {
    event = resolved.event;
    enrichment =
        enrich deps.parsers resolved.event.user_agent resolved.event.referer resolved.destination;
  }

  pub resolve_destinations_by_link_ids : List String → Act W (List LinkRow)
  resolve_destinations_by_link_ids [] = pure []
  resolve_destinations_by_link_ids (id ∷ ids) = deps.select_links (id ∷ ids)

  pub log_unresolved_destinations : List ResolvedEvent → ℕ → Act W (Unit {0})
  log_unresolved_destinations resolutions distinct_link_ids =
      let not_founds = length (select (λ r. is_not_found r.reason) resolutions) in
      let mismatches = length (select (λ r. is_tenant_mismatch r.reason) resolutions) in
      if not_founds + mismatches == 0
      then pure tt
      else deps.log_error (
          unresolved (length resolutions) distinct_link_ids (not_founds + mismatches) not_founds
            mismatches)

  pub insert_events_batch : List NewEvent → Act W (Unit {0})
  insert_events_batch [] = pure tt
  insert_events_batch (row ∷ rows) = deps.insert (row ∷ rows)

  pub put_event_batch : String → String → String → List LoggedEvent → Act W (Unit {0})
  put_event_batch bucket batch_id first_occurred_at logged = do
    key ← lift (event_batch_key deps.date_parse batch_id first_occurred_at)
    deps.put_object bucket key (serialize_batch logged)

  -- The collaborators of `putR2BatchWithRetry`, for the PUT of these events.
  abbrev pub put_deps : String → String → String → List LoggedEvent → R2RetryDeps W
  put_deps bucket batch_id first_occurred_at logged = record {
    put = put_event_batch bucket batch_id first_occurred_at logged;
    sleep = deps.sleep;
    log_error = λ l. deps.log_error (r2 l);
  }

  abbrev pub sink : R2BatchDlqSend W
  sink = or_else deps.dlq_send rejecting_dlq_sink

  abbrev pub retry_options : FlushOptions → R2RetryOptions
  retry_options options = record {
    max_attempts = or_else options.max_attempts (nat default_r2_max_attempts);
    initial_delay_ms = or_else options.initial_delay_ms (nat default_r2_initial_delay_ms);
  }

  pub after_put : R2PutOutcome → List LoggedEvent → Act W (Unit {0})
  after_put (failed e attempts) logged = pure tt
  after_put (succeeded attempts) logged =
      insert_events_batch (map (to_new_event_row deps.date_parse) logged)

  abbrev pub batch_id_or_new : Option String → Act W String
  batch_id_or_new none = deps.new_id
  batch_id_or_new (some batch_id) = pure batch_id

  -- The events as they are logged, once their destinations are known.
  abbrev pub logged_events : List LinkRow → List CaptureEvent → List LoggedEvent
  logged_events rows events = map (λ event. to_logged_event (resolve_destination rows event)) events

  pub flush_events : FlushOptions → String → CaptureEvent → List CaptureEvent → Act W (Unit {0})
  flush_events options batch_id first rest = do
    let events = first ∷ rest
    let link_ids = distinct (map (λ e. e.link_id) events)
    rows ← resolve_destinations_by_link_ids link_ids
    log_unresolved_destinations (map (resolve_destination rows) events) (length link_ids)
    let logged = logged_events rows events
    outcome ←
        put_r2_batch_with_retry (put_deps options.r2_bucket batch_id first.occurred_at logged) sink
          events batch_id (retry_options options)
    after_put outcome logged

  pub flush_all : FlushOptions → List CaptureEvent → String → Act W (Unit {0})
  flush_all options [] batch_id = pure tt
  flush_all options (first ∷ rest) batch_id = flush_events options batch_id first rest

  -- `createFlushBatch(options)(events, batchId)`
  pub flush_batch : FlushOptions → List CaptureEvent → Option String → Act W (Unit {0})
  flush_batch options events batch_id = do
    id ← batch_id_or_new batch_id
    flush_all options events id
