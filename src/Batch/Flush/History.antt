-- ===== src/Batch/Flush/History.antt =====
-- The world of a flush: its collaborators' calls, answered by an oracle.
use posta.Shared.{ℕ, ◌≡◌, String, Bool, true, false, List, Option, none, some, any, if◌then◌else◌}
use posta.Shared.Thrown.{Thrown}
use posta.Shared.Recording.{Entry, History, call}
use posta.Contracts.Capture.{CaptureEvent}
use posta.Core.Enrichment.{EnrichDeps}
use posta.Batch.SplitRetry.{DlqMeta}
use posta.Batch.R2Retry.{R2BatchDlqSend}
use posta.Batch.Rows.{NewEvent}
use posta.Batch.Flush.{LinkRow, FlushLog, FlushDeps}

pub data Call : Type 0 where
  looked_up : List String → Call
  put : (bucket key body : String) → Call
  inserted : List NewEvent → Call
  letter : (reason : String) (events : List CaptureEvent) (error : Thrown) (meta : DlqMeta) → Call
  slept : ℕ → Call
  logged : FlushLog → Call
  named : Call

pub record Oracle : Type 0 where
  pub fails : History Call → Call → Option Thrown
  pub rows : History Call → List LinkRow
  pub id : History Call → String

abbrev pub letter_sink : Oracle → R2BatchDlqSend (History Call)
letter_sink oracle reason events e meta = call oracle.fails (letter reason events e meta) (λ h. tt)

abbrev pub recorded : Oracle → Bool → (String → Option ℕ) → EnrichDeps → FlushDeps (History Call)
recorded oracle has_sink date_parse parsers = record {
  select_links = λ ids. call oracle.fails (looked_up ids) oracle.rows;
  put_object = λ bucket key body. call oracle.fails (put bucket key body) (λ h. tt);
  insert = λ rows. call oracle.fails (inserted rows) (λ h. tt);
  dlq_send = if has_sink then some (letter_sink oracle) else none;
  sleep = λ ms. call oracle.fails (slept ms) (λ h. tt);
  log_error = λ l. call oracle.fails (logged l) (λ h. tt);
  new_id = call oracle.fails named oracle.id;
  date_parse = date_parse;
  parsers = parsers;
}

abbrev pub is_insert : Entry Call → Bool
is_insert (inserted rows, answer) = true
is_insert (looked_up ids, answer) = false
is_insert (put bucket key body, answer) = false
is_insert (letter reason events e meta, answer) = false
is_insert (slept ms, answer) = false
is_insert (logged l, answer) = false
is_insert (named, answer) = false

-- No insert was tried.
abbrev pub NoInsert : History Call → Type 0
NoInsert h = any is_insert h ≡ false
