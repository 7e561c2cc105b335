-- ===== src/Replay/Report.antt =====
-- apps/worker/src/cli/replay-report.ts: replayWithReport, with insertEventsBatchWithCounts of
-- packages/core/src/db/events.ts. Its local variables are the first part of the state. The schema, the listing of
-- the storage library, the statement of the database, the clock and the two outputs are parameters. The statement gives
-- back no more ids than it gets rows, so the difference that counts the skipped ones is a natural number.
pub mod Ledger
pub mod Steps
pub mod Records
pub mod Printed
pub mod Reconciled
mod Tests
use posta.Shared.Loops.{for_each}
use posta.Shared.{
  ℕ, ◌+◌, ◌-◌, String, Bool, true, false, List, [], ◌∷◌, ◌++◌, map, Option, none, some, length,
  or_else, if◌then◌else◌, leb, ltb, ◌==◌, str_eq, Act, pure, raise, ◌>>=◌, ◌>>◌,
}
use posta.Shared.Text.{concat, join, show}
use posta.Shared.Thrown.{Thrown, error, undefined}
use posta.Core.EventLog.Ndjson.{LoggedEvent, LogDeps, stream_event_log}
use posta.Batch.Rows.{NewEvent, to_new_event_row}
use posta.Replay.Driver.{default_replay_batch_size}
use posta.Replay.Reconciliation.{
  Issue, RejectionReasonCount, ReplayReport, describe_rejection, build_replay_report, count_reason,
  format_progress_line, format_final_report_lines, elapsed,
}

abbrev pub max_insert_size : ℕ
max_insert_size = 500

pub record Tally (W : Type 0) : Type 0 where
  pub records_parsed : ℕ
  pub rows_inserted : ℕ
  pub rows_skipped : ℕ
  pub records_since_progress : ℕ
  pub rejection_counts : List RejectionReasonCount
  pub buffer : List NewEvent
  pub outer : W

pub record ReportDeps (W : Type 0) : Type 0 where
  pub log : LogDeps (Tally W)
  -- The pages of a prefix, each with its `Contents?.length`.
  pub list_pages : String → Act (Tally W) (List (Option ℕ))
  -- The `INSERT … ON CONFLICT DO NOTHING RETURNING` of rows, of which there is at least one.
  pub insert_returning : List NewEvent → Act (Tally W) (List String)
  -- `ReplayRecordSchema.safeParse(record)`: the issues, `none` where it succeeds.
  pub validate : LoggedEvent → Option (List Issue)
  pub date_parse : String → Option ℕ
  pub now : Act (Tally W) ℕ
  pub stdout : String → Act (Tally W) (Unit {0})
  pub stderr : String → Act (Tally W) (Unit {0})
  pub rounds : ℕ

pub record ReplayReportOptions : Type 0 where
  pub prefixes : List String
  pub batch_size : Option ℕ
  pub progress_every_records : Option ℕ

abbrev pub rows_per_insert : ReplayReportOptions → ℕ
rows_per_insert options = or_else options.batch_size default_replay_batch_size

abbrev pub progress_every : ReplayReportOptions → ℕ
progress_every options = or_else options.progress_every_records default_replay_batch_size

module _ {W : Type 0} where
  pub declare_counters : Act (Tally W) (Unit {0})
  unfolding pure
  declare_counters s = pure tt (record s {
    records_parsed = 0;
    rows_inserted = 0;
    rows_skipped = 0;
    records_since_progress = 0;
    rejection_counts = [];
    buffer = [];
  })

  pub reject_record : String → Act (Tally W) (Unit {0})
  unfolding pure
  reject_record reason s =
      pure tt (record s { rejection_counts = count_reason reason s.rejection_counts })

  pub accept_record : NewEvent → Act (Tally W) (Unit {0})
  unfolding pure
  accept_record row s = pure tt (record s {
    records_parsed = s.records_parsed + 1;
    records_since_progress = s.records_since_progress + 1;
    buffer = s.buffer ++ row ∷ [];
  })

  pub count_rows : List String → Act (Tally W) (Unit {0})
  unfolding pure
  count_rows inserted_event_ids s = pure tt (record s {
    rows_inserted = s.rows_inserted + length inserted_event_ids;
    rows_skipped = s.rows_skipped + (length s.buffer - length inserted_event_ids);
    buffer = [];
  })

  pub reset_progress : Act (Tally W) (Unit {0})
  unfolding pure
  reset_progress s = pure tt (record s { records_since_progress = 0 })

  pub report_of : ℕ → Act (Tally W) ReplayReport
  unfolding pure
  report_of objects_read s =
      pure
        (build_replay_report (record {
          objects_read = objects_read;
          records_parsed = s.records_parsed;
          rows_inserted = s.rows_inserted;
          rows_skipped = s.rows_skipped;
          rejection_reasons = s.rejection_counts;
        }))
        s

abbrev pub report_batch_size_error : ℕ → Thrown
report_batch_size_error batch_size =
    error "ReplayReportBatchSizeError"
      (concat (
        "posta replay-report: batchSize "
        ∷ show batch_size
        ∷ " exceeds the maximum of "
        ∷ show max_insert_size
        ∷ " (matches replay.ts's own --batch-size ceiling — apps/worker/src/cli/replay.ts's MAX_BATCH_SIZE)"
        ∷ " — refusing to run before any R2 read or Postgres write"
        ∷ []))
      none false none undefined

abbrev pub page_sizes : List (Option ℕ) → ℕ
page_sizes [] = 0
page_sizes (page ∷ pages) = or_else page 0 + page_sizes pages

module _ {W : Type 0} (deps : ReportDeps W) where
  pub count_objects_under_prefixes : List String → ℕ → Act (Tally W) ℕ
  count_objects_under_prefixes [] count = pure count
  count_objects_under_prefixes (prefix ∷ prefixes) count = do
    pages ← deps.list_pages prefix
    count_objects_under_prefixes prefixes (count + page_sizes pages)

  pub insert_events_batch_with_counts : List NewEvent → Act (Tally W) (List String)
  insert_events_batch_with_counts [] = pure []
  insert_events_batch_with_counts (row ∷ rows) = deps.insert_returning (row ∷ rows)

  -- `flushBuffer`, for what the buffer holds.
  abbrev pub insert_rows : List NewEvent → Act (Tally W) (Unit {0})
  insert_rows [] = pure tt
  insert_rows (row ∷ rows) = insert_events_batch_with_counts (row ∷ rows) >>= count_rows

  pub flush_rows_buffered : Act (Tally W) (Unit {0})
  flush_rows_buffered s = insert_rows s.buffer s

  pub flush_full : ℕ → Act (Tally W) (Unit {0})
  flush_full batch_size s =
      if leb batch_size (length s.buffer) then flush_rows_buffered s else pure tt s

  abbrev pub print_progress :
      (objects_read started_at records_parsed : ℕ) → Act (Tally W) (Unit {0})
  print_progress objects_read started_at records_parsed = do
    now ← deps.now
    deps.stderr (format_progress_line objects_read records_parsed (elapsed started_at now))
    reset_progress

  pub report_progress : (every objects_read started_at : ℕ) → Act (Tally W) (Unit {0})
  report_progress every objects_read started_at s =
      if leb every s.records_since_progress
      then print_progress objects_read started_at s.records_parsed s
      else pure tt s

  abbrev pub tally_record :
      ReplayReportOptions
      → (objects_read started_at : ℕ) → LoggedEvent
      → Option (List Issue)
      → Act (Tally W) (Unit {0})
  tally_record options objects_read started_at logged (some issues) =
      reject_record (describe_rejection issues)
  tally_record options objects_read started_at logged none = do
    accept_record (to_new_event_row deps.date_parse logged)
    flush_full (rows_per_insert options)
    report_progress (progress_every options) objects_read started_at

  abbrev pub run_report : ReplayReportOptions → Act (Tally W) ReplayReport
  run_report options = do
    objects_read ← count_objects_under_prefixes options.prefixes 0
    started_at ← deps.now
    declare_counters
    stream_event_log deps.log
        (λ logged. tally_record options objects_read started_at logged (deps.validate logged))
        deps.rounds options.prefixes
    flush_rows_buffered
    report ← report_of objects_read
    for_each deps.stdout (format_final_report_lines report)
    pure report

  pub replay_with_report : ReplayReportOptions → Act (Tally W) ReplayReport
  replay_with_report options =
      if ltb max_insert_size (rows_per_insert options)
      then raise (report_batch_size_error (rows_per_insert options))
      else run_report options
