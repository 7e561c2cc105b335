-- ===== src/Replay/Driver/Rows.antt =====
-- What lands in the database is what the store holds.
use posta.Shared.Loops.{for_each-Triple}
use posta.Shared.{
  ◌≡◌, refl, sym, ap, ◌∙◌, subst, arith, append_assoc, append-nil, map-append, ℕ, ◌+◌, ◌-◌, ◌<◌,
  String, Bool, true, false, List, [], ◌∷◌, ◌++◌, map, Option, length, length-append, select,
  select-append, if◌then◌else◌, pure,
}
use posta.Shared.Triples.{After, Triple, Triple-pure, Triple-bind, Triple-weaken}
use posta.Core.EventLog.Ndjson.{LoggedEvent, ListPage}
use posta.Core.EventLog.Ndjson.Stored.{IsStored, stored_events, stream_event_log-for_each}
use posta.Batch.Rows.{NewEvent, to_new_event_row}
use posta.Replay.Driver.{
  ReplayDriverOptions, ReplaySummary, batch_size_of, passes, declare_variables, summary, keep_row,
  replay_record, replay_event_log,
}
use posta.Replay.Driver.History.{landed, IsBatched}
use posta.Replay.Driver.Steps.{
  State, Setting, recorded, IsReplayed, IsCut, advance, push-Triple, flush_if_full-Triple,
  flush_buffer-Triple,
}

-- The rows of the records that pass the filter.
abbrev pub wanted : (String → Option ℕ) → ReplayDriverOptions → List LoggedEvent → List NewEvent
wanted date_parse options events =
    map (to_new_event_row date_parse) (select (passes options.filter) events)

-- Every row wanted has landed, once and in order, in inserts of at most a full batch, and the summary says how many
-- records were read and how many inserts made.
pub record IsLanded (max : ℕ) (events : List LoggedEvent) (rows : List NewEvent)
    (summary : ReplaySummary) (s : State) : Type 0 where
  pub read : summary.records_read ≡ length events
  pub kept : landed s.outer ≡ rows
  pub batched : IsBatched max s.outer
  pub written : summary.batches_written ≡ length s.outer

module _ (setting : Setting) (options : ReplayDriverOptions)
    (positive : 0 < batch_size_of options) where
  abbrev max : ℕ
  max = batch_size_of options

  abbrev rows_of : List LoggedEvent → List NewEvent
  rows_of events = wanted setting.date_parse options events

  keep_row-Triple :
      (rows : List NewEvent) (count : ℕ) (logged : LoggedEvent) (b : Bool)
      → Triple
          (IsReplayed max rows count (max - 1))
          (keep_row (recorded setting) options logged b)
          (λ _.
            IsReplayed max
              (rows ++ map (to_new_event_row setting.date_parse) (if b then logged ∷ [] else []))
              count
              (max - 1))
          (IsCut max
            (rows ++ map (to_new_event_row setting.date_parse) (if b then logged ∷ [] else [])))
  keep_row-Triple rows count logged false =
      Triple-weaken _
        (Triple-pure {E = IsCut max rows} {Q = λ _. IsReplayed max rows count (max - 1)} tt)
        (λ _ p. p) (λ _ s p. rw (append-nil rows) p) (λ s p. rw (append-nil rows) p)
  keep_row-Triple rows count logged true =
      Triple-bind _ _
        (push-Triple setting max positive rows (to_new_event_row setting.date_parse logged) count
          (max - 1))
        λ _. flush_if_full-Triple setting max positive _ count

  wanted-append : (xs ys : List LoggedEvent) → rows_of (xs ++ ys) ≡ rows_of xs ++ rows_of ys
  wanted-append xs ys =
      ap (map (to_new_event_row setting.date_parse)) (select-append (passes options.filter) xs ys)
      ∙ map-append (to_new_event_row setting.date_parse) (select (passes options.filter) xs) _

  -- What the loop keeps: the rows of the records that were read.
  abbrev IsRead : List LoggedEvent → State → Type 0
  IsRead done = IsReplayed max (rows_of done) (length done) (max - 1)

  IsCut-append :
      (done more : List LoggedEvent) (s : State)
      → IsCut max (rows_of done) s
      → IsCut max (rows_of (done ++ more)) s
  IsCut-append done more s h =
      let (rest, e) = h.first in
      record {
        broken = h.broken;
        first = (
          rest ++ rows_of more,
          wanted-append done more
              ∙ ap (λ r. r ++ rows_of more) e
              ∙ append_assoc (landed s.outer) rest (rows_of more),
        );
      }

  one_more :
      (done : List LoggedEvent) (logged : LoggedEvent) (s : State)
      → IsReplayed max (rows_of done ++ rows_of (logged ∷ [])) (length done + 1) (max - 1) s
      → IsRead (done ++ logged ∷ []) s
  one_more done logged s h = record {
    counted = rw (length-append done (logged ∷ [])) h.counted;
    kept = h.kept ∙ sym (wanted-append done (logged ∷ []));
    room = h.room;
    batched = h.batched;
    written = h.written;
  }

  replay_record-Triple :
      (all done : List LoggedEvent) (logged : LoggedEvent) (rest : List LoggedEvent)
      → all ≡ done ++ logged ∷ rest
      → Triple
          (IsRead done)
          (replay_record (recorded setting) options logged)
          (λ _. IsRead (done ++ logged ∷ []))
          (IsCut max (rows_of all))
  unfolding replay_record
  replay_record-Triple all done logged rest e =
      Triple-bind _ _ (advance setting max positive _ (length done) _) λ _.
        Triple-weaken _
          (keep_row-Triple (rows_of done) (length done + 1) logged (passes options.filter logged))
          (λ _ p. p) (λ _ s p. one_more done logged s p)
          (λ s p.
            subst (λ events. IsCut max (rows_of events) s)
              (append_assoc done (logged ∷ []) rest ∙ sym e)
              (IsCut-append (done ++ logged ∷ []) rest s
                (subst (λ rows. IsCut max rows s) (sym (wanted-append done (logged ∷ []))) p)))

  declared : {E : State → Type 0} → Triple (λ s. s.outer ≡ []) declare_variables (λ _. IsRead []) E
  unfolding declare_variables pure
  declared = record {
    at = λ s h. record {
      counted = refl;
      kept = rw h refl;
      room = omega arith;
      batched = rw h tt;
      written = rw h refl;
    };
  }

  summary-Triple :
      {E : State → Type 0} (events : List LoggedEvent)
      → Triple
          (λ s. IsReplayed max (rows_of events) (length events) 0 s × (s.buffer ≡ []))
          summary
          (λ a s. IsLanded max events (rows_of events) a s)
          E
  unfolding summary pure
  summary-Triple events = record {
    at = λ s (h, e). record {
      read = h.counted;
      kept = sym (append-nil (landed s.outer)) ∙ ap (λ b. landed s.outer ++ b) (sym e) ∙ h.kept;
      batched = h.batched;
      written = h.written;
    };
  }

  -- Over a store that holds batches as `serializeBatch` wrote them, none of whose texts has the character U+2028 or
  -- U+2029, and a database whose inserts fail as they like, `replayEventLog` ends. If it returns, every stored event under the prefixes that passes the filter has landed as
  -- its row, each once and in order, in inserts of 1 to `batchSize` rows, and the summary counts the records and the
  -- inserts. If it throws, the last insert failed, and what landed before are the first of those rows.
  pub replay_event_log-Lands :
      {serve : String → Option String → ListPage} {pages : String → List ListPage}
      {stored : String → List LoggedEvent}
      → IsStored setting.log setting.rounds serve pages stored
      → Triple
          (λ s. s.outer ≡ [])
          (replay_event_log (recorded setting) options)
          (λ a s.
            IsLanded
              (batch_size_of options)
              (stored_events pages stored options.prefixes)
              (wanted setting.date_parse options (stored_events pages stored options.prefixes))
              a
              s)
          (IsCut
            (batch_size_of options)
            (wanted setting.date_parse options (stored_events pages stored options.prefixes)))
  unfolding replay_event_log
  replay_event_log-Lands {pages = pages} {stored = stored} store =
      let events = stored_events pages stored options.prefixes in
      Triple-bind _ _ declared λ _.
        Triple-bind _ _
          (record {
            at = λ s h.
                subst (λ r. After (λ _. IsRead events) (IsCut max (rows_of events)) r.0 r.1)
                  (sym (stream_event_log-for_each store _ options.prefixes s))
                  ((for_each-Triple IsRead _ events (replay_record-Triple events)).at s h);
          })
          λ _.
            Triple-bind _ _
              (flush_buffer-Triple setting max positive (rows_of events) (length events) (max - 1)
                (omega arith))
              λ _. summary-Triple events
