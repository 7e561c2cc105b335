-- ===== src/Replay/Report/Steps.antt =====
-- What each step of a report keeps.
use posta.Shared.{
  ◌≡◌, refl, sym, ap, ◌∙◌, arith, append-nil, append_assoc, ℕ, suc, ◌+◌, ◌-◌, ◌≤◌, ◌<◌, String,
  false, List, [], ◌∷◌, ◌++◌, length, length-append, leb, str_eq, Bool-cases, ◌⊎◌, inl, inr, Option,
  none, some, continue, pure, ◌>>=◌,
}
use posta.Shared.Triples.{After, Triple, Triple-weaken}
use posta.Shared.Thrown.{Thrown}
use posta.Batch.Rows.{NewEvent}
use posta.Replay.Driver.History.{IsPrefix}
use posta.Replay.Reconciliation.{RejectionReasonCount, sum_counts, count_reason}
use posta.Replay.Report.{
  reject_record, accept_record, count_rows, reset_progress, insert_events_batch_with_counts,
  insert_rows, flush_rows_buffered, flush_full, report_progress,
}
use posta.Replay.Report.Ledger.{
  State, Setting, IsReturning, recorded, printed_or, add_err, landed_rows, returned, IsSized,
}

-- After the first records: their rows have landed or wait in the buffer, with at most `limit` there, and each record
-- has been counted as parsed or as rejected, each row of an insert as inserted or as skipped.
pub record IsTallied (max : ℕ) (rows : List NewEvent) (total limit : ℕ) (s : State) : Type 0 where
  pub parsed : s.records_parsed ≡ length rows
  pub judged : s.records_parsed + sum_counts s.rejection_counts ≡ total
  pub kept : landed_rows s.outer.inserts ++ s.buffer ≡ rows
  pub summed : s.rows_inserted + s.rows_skipped + length s.buffer ≡ s.records_parsed
  pub given : s.rows_inserted ≡ returned s.outer.inserts
  pub room : length s.buffer ≤ limit
  pub sized : IsSized max s.outer.inserts
  pub silent : s.outer.out ≡ []

-- The report came to nothing: what landed is the first part of the rows, and nothing was printed.
pub record IsStopped (rows : List NewEvent) (s : State) : Type 0 where
  pub first : IsPrefix (landed_rows s.outer.inserts) rows
  pub silent : s.outer.out ≡ []

pub sum_counts-count_reason :
    (reason : String) (entries : List RejectionReasonCount)
    → sum_counts (count_reason reason entries) ≡ sum_counts entries + 1
sum_counts-count_reason reason [] = omega arith
sum_counts-count_reason reason (entry ∷ entries) = elim (Bool-cases (str_eq entry.reason reason)) [
  | inl e ↦ rw e (omega arith)
  | inr e ↦ rw e (omega (arith, sum_counts-count_reason reason entries))
]

below : (max n : ℕ) → leb max n ≡ false → n ≤ max - 1
below max n h = ground (arith, h)

⊎-cases : {A B : Type 0} (o : A ⊎ B) → ((a : A) × (o ≡ inl a)) ⊎ ((b : B) × (o ≡ inr b))
⊎-cases (inl a) = inl (a, refl)
⊎-cases (inr b) = inr (b, refl)

module _ (setting : Setting) (max : ℕ) (positive : 0 < max) (returning : IsReturning setting)
    (all : List NewEvent) where
  -- What fails between two inserts leaves the rows that have landed.
  stopped :
      (rows rest : List NewEvent) (total limit : ℕ) (s : State)
      → all ≡ rows ++ rest
      → IsTallied max rows total limit s
      → IsStopped all s
  stopped rows rest total limit s a h = record {
    first = (
      s.buffer ++ rest,
      a
          ∙ ap (λ r. r ++ rest) (sym h.kept)
          ∙ append_assoc (landed_rows s.outer.inserts) s.buffer rest,
    );
    silent = h.silent;
  }

  insert_rows-Triple :
      (rows rest buffer : List NewEvent) (total limit : ℕ)
      → all ≡ rows ++ rest
      → limit ≤ max
      → Triple
          (λ s. IsTallied max rows total limit s × (s.buffer ≡ buffer))
          (insert_rows (recorded setting) buffer)
          (λ _ s. IsTallied max rows total 0 s × (s.buffer ≡ []))
          (IsStopped all)
  unfolding ◌>>=◌ count_rows pure insert_events_batch_with_counts
  insert_rows-Triple rows rest [] total limit a k = record {
    at = λ s (h, e). (
      record {
        parsed = h.parsed;
        judged = h.judged;
        kept = h.kept;
        summed = h.summed;
        given = h.given;
        room = rw e (omega arith);
        sized = h.sized;
        silent = h.silent;
      },
      e,
    );
  }
  insert_rows-Triple rows rest (row ∷ more) total limit a k = record {
    at = λ s (h, e).
        let n : length s.buffer ≡ suc (length more) = ap length e in
        elim (⊎-cases (setting.answer s.outer.inserts (row ∷ more))) [
          | inl (x, f) ↦ rw f (record {
            first = (stopped rows rest total limit s a h).first;
            silent = (stopped rows rest total limit s a h).silent;
          })
          | inr (ids, f) ↦
              let r : length ids ≤ suc (length more) =
                returning s.outer.inserts (row ∷ more) ids f in
              rw f (
                record {
                  parsed = h.parsed;
                  judged = h.judged;
                  kept = append-nil _ ∙ ap (λ b. landed_rows s.outer.inserts ++ b) (sym e) ∙ h.kept;
                  summed = omega (arith, h.summed, n, r);
                  given = omega (arith, h.given);
                  room = omega arith;
                  sized = (omega arith, omega (arith, n, h.room, k), h.sized);
                  silent = h.silent;
                },
                refl,
              )
        ];
  }

  pub accept_record-Triple :
      (rows : List NewEvent) (row : NewEvent) (total limit : ℕ)
      → Triple
          (IsTallied max rows total limit)
          (accept_record row)
          (λ _. IsTallied max (rows ++ row ∷ []) (total + 1) (suc limit))
          (IsStopped all)
  unfolding accept_record pure
  accept_record-Triple rows row total limit = record {
    at = λ s h.
        let n : length (s.buffer ++ row ∷ []) ≡ length s.buffer + 1 =
          length-append s.buffer (row ∷ []) in
        record {
          parsed = rw (length-append rows (row ∷ [])) (omega (arith, h.parsed));
          judged = omega (arith, h.judged);
          kept =
              sym (append_assoc (landed_rows s.outer.inserts) s.buffer (row ∷ []))
              ∙ ap (λ r. r ++ row ∷ []) h.kept;
          summed = rw n (omega (arith, h.summed));
          given = h.given;
          room = rw n (omega (arith, h.room));
          sized = h.sized;
          silent = h.silent;
        };
  }

  pub reject_record-Triple :
      (rows : List NewEvent) (reason : String) (total limit : ℕ)
      → Triple
          (IsTallied max rows total limit)
          (reject_record reason)
          (λ _. IsTallied max rows (total + 1) limit)
          (IsStopped all)
  unfolding reject_record pure
  reject_record-Triple rows reason total limit = record {
    at = λ s h. record {
      parsed = h.parsed;
      judged = rw (sum_counts-count_reason reason s.rejection_counts) (omega (arith, h.judged));
      kept = h.kept;
      summed = h.summed;
      given = h.given;
      room = h.room;
      sized = h.sized;
      silent = h.silent;
    };
  }

  pub flush_rows_buffered-Triple :
      (rows rest : List NewEvent) (total limit : ℕ)
      → all ≡ rows ++ rest
      → limit ≤ max
      → Triple
          (IsTallied max rows total limit)
          (flush_rows_buffered (recorded setting))
          (λ _ s. IsTallied max rows total 0 s × (s.buffer ≡ []))
          (IsStopped all)
  unfolding flush_rows_buffered
  flush_rows_buffered-Triple rows rest total limit a k = record {
    at = λ s h. (insert_rows-Triple rows rest s.buffer total limit a k).at s (h, refl);
  }

  with_room :
      (rows : List NewEvent) (total limit limit' : ℕ) (s : State)
      → length s.buffer ≤ limit'
      → IsTallied max rows total limit s
      → IsTallied max rows total limit' s
  with_room rows total limit limit' s k h = record {
    parsed = h.parsed;
    judged = h.judged;
    kept = h.kept;
    summed = h.summed;
    given = h.given;
    room = k;
    sized = h.sized;
    silent = h.silent;
  }

  pub flush_full-Triple :
      (rows rest : List NewEvent) (total : ℕ)
      → all ≡ rows ++ rest
      → Triple
          (IsTallied max rows total (suc (max - 1)))
          (flush_full (recorded setting) max)
          (λ _. IsTallied max rows total (max - 1))
          (IsStopped all)
  unfolding flush_full pure
  flush_full-Triple rows rest total a = record {
    at = λ s h. elim (Bool-cases (leb max (length s.buffer))) [
      | inl full ↦ rw full (
          (Triple-weaken _
              (flush_rows_buffered-Triple rows rest total (suc (max - 1)) a (omega arith))
              (λ _ p. p)
              (λ _ w (p, e). with_room rows total 0 (max - 1) w (omega (arith, p.room)) p)
              (λ _ p. p)).at
            s h)
      | inr part ↦
          rw part
            (with_room rows total (suc (max - 1)) (max - 1) s (below max (length s.buffer) part) h)
    ];
  }

  -- A line of progress is printed, and the count starts again.
  progress-After :
      (o : Option Thrown) (line : String) (rows rest : List NewEvent) (total limit : ℕ) (s : State)
      → all ≡ rows ++ rest
      → IsTallied max rows total limit s
      → After
          (λ _. IsTallied max rows total limit)
          (IsStopped all)
          (continue
            (printed_or o (add_err line s) s).0
            (λ _. reset_progress)
            (printed_or o (add_err line s) s).1).0
          (continue
            (printed_or o (add_err line s) s).0
            (λ _. reset_progress)
            (printed_or o (add_err line s) s).1).1
  unfolding reset_progress pure
  progress-After none line rows rest total limit s a h = record {
    parsed = h.parsed;
    judged = h.judged;
    kept = h.kept;
    summed = h.summed;
    given = h.given;
    room = h.room;
    sized = h.sized;
    silent = h.silent;
  }
  progress-After (some e) line rows rest total limit s a h = stopped rows rest total limit s a h

  pub report_progress-Triple :
      (every objects started : ℕ) (rows rest : List NewEvent) (total limit : ℕ)
      → all ≡ rows ++ rest
      → Triple
          (IsTallied max rows total limit)
          (report_progress (recorded setting) every objects started)
          (λ _. IsTallied max rows total limit)
          (IsStopped all)
  unfolding report_progress pure ◌>>=◌
  report_progress-Triple every objects started rows rest total limit a = record {
    at = λ s h. elim (Bool-cases (leb every s.records_since_progress)) [
      | inl due ↦ rw due (progress-After _ _ rows rest total limit s a h)
      | inr early ↦ rw early h
    ];
  }
