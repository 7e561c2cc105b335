-- ===== src/Replay/Driver/Tests.antt =====
-- Two prefixes of two events each, in inserts of three.
use posta.Shared.{◌≡◌, refl, arith, [], ◌∷◌, none, some, ◌>>=◌}
use posta.Shared.Triples.{Triple}
use posta.Core.EventLog.Ndjson.Samples.{logged, serve, pages, events, store, store-IsStored}
use posta.Core.EventLog.Ndjson.Stored.{stored_events}
use posta.Replay.Driver.{
  ReplayDriverOptions, count_record, push, count_batch, flush_buffer, flush_if_full, replay_record,
  replay_event_log,
}
use posta.Replay.Driver.Steps.{State, Setting, recorded, IsCut}
use posta.Replay.Driver.Rows.{wanted, IsLanded, replay_event_log-Lands}

abbrev setting : Setting
setting = record { fails = λ h rows. none; log = store; date_parse = λ text. some 0; rounds = 1 }

abbrev options : ReplayDriverOptions
options = record { prefixes = "p" ∷ "q" ∷ []; batch_size = some 3; filter = none }

abbrev empty : State
empty = record {
  records_read = 0;
  batches_written = 0;
  buffer = [];
  matched_count = 0;
  total_read = 0;
  outer = [];
}

-- The second record fills the batch.
replay_record-flush :
    ((replay_record (recorded setting) (record options { batch_size = some 2 }) (logged "a")
        >>= λ _.
            replay_record (recorded setting) (record options { batch_size = some 2 }) (logged "b"))
      empty).1.batches_written
    ≡ 1
unfolding replay_record count_record push count_batch flush_if_full flush_buffer ◌>>=◌
replay_record-flush = refl

replay_event_log-Lands_example :
    Triple
      (λ s. s.outer ≡ [])
      (replay_event_log (recorded setting) options)
      (λ a s.
        IsLanded 3
          (stored_events pages events ("p" ∷ "q" ∷ []))
          (wanted (λ text. some 0) options (stored_events pages events ("p" ∷ "q" ∷ [])))
          a
          s)
      (IsCut 3 (wanted (λ text. some 0) options (stored_events pages events ("p" ∷ "q" ∷ []))))
replay_event_log-Lands_example =
    replay_event_log-Lands setting options (omega arith) {serve = serve} {pages = pages}
      {stored = events} store-IsStored
