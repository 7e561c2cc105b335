-- ===== src/Replay/Driver.antt =====
-- apps/worker/src/cli/replay-driver.ts: replayEventLog. Its local variables are the first part of the state, and
-- those of a dry run, which counts and writes nothing, the second; the storage and the database act on the whole. `rounds` bounds the pages of a listing.
pub mod History
pub mod Steps
pub mod Rows
mod Tests
use posta.Shared.{
  ℕ, ◌+◌, Bool, List, [], ◌∷◌, ◌++◌, Option, none, some, length, or_else, if◌then◌else◌, leb,
  String, Act, pure, ◌>>=◌, ◌>>◌,
}
use posta.Core.EventLog.Ndjson.{LoggedEvent, LogDeps, stream_event_log}
use posta.Batch.Rows.{NewEvent, to_new_event_row}

abbrev pub default_replay_batch_size : ℕ
default_replay_batch_size = 500

pub record Replay (W : Type 0) : Type 0 where
  pub records_read : ℕ
  pub batches_written : ℕ
  pub buffer : List NewEvent
  pub matched_count : ℕ
  pub total_read : ℕ
  pub outer : W

pub record ReplayDeps (W : Type 0) : Type 0 where
  pub log : LogDeps (Replay W)
  -- The `INSERT` of rows, of which there is at least one.
  pub insert : List NewEvent → Act (Replay W) (Unit {0})
  pub date_parse : String → Option ℕ
  pub rounds : ℕ

pub record ReplayDriverOptions : Type 0 where
  pub prefixes : List String
  pub batch_size : Option ℕ
  pub filter : Option (LoggedEvent → Bool)

pub record ReplaySummary : Type 0 where
  pub records_read : ℕ
  pub batches_written : ℕ

abbrev pub batch_size_of : ReplayDriverOptions → ℕ
batch_size_of options = or_else options.batch_size default_replay_batch_size

-- `!(filter && !filter(logged))`
abbrev pub passes : Option (LoggedEvent → Bool) → LoggedEvent → Bool
passes none logged = Bool.true
passes (some filter) logged = filter logged

module _ {W : Type 0} where
  pub count_record : Act (Replay W) (Unit {0})
  unfolding pure
  count_record s = pure tt (record s { records_read = s.records_read + 1 })

  pub push : NewEvent → Act (Replay W) (Unit {0})
  unfolding pure
  push row s = pure tt (record s { buffer = s.buffer ++ row ∷ [] })

  pub count_batch : Act (Replay W) (Unit {0})
  unfolding pure
  count_batch s = pure tt (record s { batches_written = s.batches_written + 1; buffer = [] })

  pub declare_variables : Act (Replay W) (Unit {0})
  unfolding pure
  declare_variables s = pure tt (record s { records_read = 0; batches_written = 0; buffer = [] })

  pub summary : Act (Replay W) ReplaySummary
  unfolding pure
  summary s = pure (record { records_read = s.records_read; batches_written = s.batches_written }) s

module _ {W : Type 0} (deps : ReplayDeps W) where
  -- `flushBuffer`, for what the buffer holds.
  abbrev pub flush_rows : List NewEvent → Act (Replay W) (Unit {0})
  flush_rows [] = pure tt
  flush_rows (row ∷ rows) = do deps.insert (row ∷ rows); count_batch

  pub flush_buffer : Act (Replay W) (Unit {0})
  flush_buffer s = flush_rows s.buffer s

  pub flush_if_full : ℕ → Act (Replay W) (Unit {0})
  flush_if_full batch_size s =
      if leb batch_size (length s.buffer) then flush_buffer s else pure tt s

  abbrev pub keep_row : ReplayDriverOptions → LoggedEvent → Bool → Act (Replay W) (Unit {0})
  keep_row options logged Bool.false = pure tt
  keep_row options logged Bool.true = do
    push (to_new_event_row deps.date_parse logged)
    flush_if_full (batch_size_of options)

  pub replay_record : ReplayDriverOptions → LoggedEvent → Act (Replay W) (Unit {0})
  replay_record options logged = do
    count_record
    keep_row options logged (passes options.filter logged)

  pub replay_event_log : ReplayDriverOptions → Act (Replay W) ReplaySummary
  replay_event_log options = do
    declare_variables
    stream_event_log deps.log (replay_record options) deps.rounds options.prefixes
    flush_buffer
    summary
