-- ===== src/Replay/Driver/Steps.antt =====
-- What each step of a replay keeps.
use posta.Shared.{
  ◌≡◌, refl, sym, ap, ◌∙◌, arith, append-nil, append_assoc, ℕ, suc, ◌+◌, ◌-◌, ◌≤◌, ◌<◌, String,
  false, List, [], ◌∷◌, ◌++◌, Option, length, length-append, leb, Bool-cases, Option-cases, inl,
  inr, Act, pure, ◌>>=◌,
}
use posta.Shared.Recording.{History, reply}
use posta.Shared.Triples.{Triple, Triple-weaken}
use posta.Core.EventLog.Ndjson.{LogDeps}
use posta.Batch.Rows.{NewEvent}
use posta.Replay.Driver.{
  Replay, ReplayDeps, count_record, push, count_batch, flush_rows, flush_buffer, flush_if_full,
}
use posta.Replay.Driver.History.{Oracle, landed, IsBatched, IsBroken, IsPrefix}

abbrev pub State : Type 0
State = Replay (History (List NewEvent))

abbrev pub insert : Oracle → List NewEvent → Act State (Unit {0})
insert fails rows s =
    (reply (fails s.outer rows) tt, record s { outer = (rows, fails s.outer rows) ∷ s.outer })

-- The database of the history, and any store of batches.
pub record Setting : Type 0 where
  pub fails : Oracle
  pub log : LogDeps State
  pub date_parse : String → Option ℕ
  pub rounds : ℕ

abbrev pub recorded : Setting → ReplayDeps (History (List NewEvent))
recorded setting = record {
  log = setting.log;
  insert = insert setting.fails;
  date_parse = setting.date_parse;
  rounds = setting.rounds;
}

-- After the first records: their rows have landed or wait in the buffer, with at most `limit` there.
pub record IsReplayed (max : ℕ) (rows : List NewEvent) (count limit : ℕ) (s : State) : Type 0 where
  pub counted : s.records_read ≡ count
  pub kept : landed s.outer ++ s.buffer ≡ rows
  pub room : length s.buffer ≤ limit
  pub batched : IsBatched max s.outer
  pub written : s.batches_written ≡ length s.outer

-- An insert failed; what landed before it is the first part of the rows.
pub record IsCut (max : ℕ) (rows : List NewEvent) (s : State) : Type 0 where
  pub broken : IsBroken max s.outer
  pub first : IsPrefix (landed s.outer) rows

below : (max n : ℕ) → leb max n ≡ false → n ≤ max - 1
below max n h = ground (arith, h)

module _ (setting : Setting) (max : ℕ) (positive : 0 < max) where
  flush_rows-Triple :
      (rows buffer : List NewEvent) (count limit : ℕ)
      → limit ≤ max
      → Triple
          (λ s. IsReplayed max rows count limit s × (s.buffer ≡ buffer))
          (flush_rows (recorded setting) buffer)
          (λ _ s. IsReplayed max rows count 0 s × (s.buffer ≡ []))
          (IsCut max rows)
  unfolding ◌>>=◌ count_batch pure
  flush_rows-Triple rows [] count limit k = record {
    at = λ s (h, e). (
      record {
        counted = h.counted;
        kept = h.kept;
        room = rw e (omega arith);
        batched = h.batched;
        written = h.written;
      },
      e,
    );
  }
  flush_rows-Triple rows (row ∷ rest) count limit k = record {
    at = λ s (h, e). elim (Option-cases (setting.fails s.outer (row ∷ rest))) [
      | inl n ↦ rw n (
        record {
          counted = h.counted;
          kept = append-nil _ ∙ ap (λ b. landed s.outer ++ b) (sym e) ∙ h.kept;
          room = omega arith;
          batched = (omega arith, omega (arith, ap length e, h.room), h.batched);
          written = omega (arith, h.written);
        },
        refl,
      )
      | inr (x, n) ↦ rw n (record {
        broken = (omega arith, omega (arith, ap length e, h.room), h.batched);
        first = (s.buffer, sym h.kept);
      })
    ];
  }

  -- The next record has been read.
  pub advance :
      {E : State → Type 0} (rows : List NewEvent) (count limit : ℕ)
      → Triple
          (IsReplayed max rows count limit)
          count_record
          (λ _. IsReplayed max rows (count + 1) limit)
          E
  unfolding count_record pure
  advance rows count limit = record {
    at = λ s h. record {
      counted = omega (arith, h.counted);
      kept = h.kept;
      room = h.room;
      batched = h.batched;
      written = h.written;
    };
  }

  pub push-Triple :
      (rows : List NewEvent) (row : NewEvent) (count limit : ℕ)
      → Triple
          (IsReplayed max rows count limit)
          (push row)
          (λ _. IsReplayed max (rows ++ row ∷ []) count (suc limit))
          (IsCut max (rows ++ row ∷ []))
  unfolding push pure
  push-Triple rows row count limit = record {
    at = λ s h. record {
      counted = h.counted;
      kept =
          sym (append_assoc (landed s.outer) s.buffer (row ∷ [])) ∙ ap (λ r. r ++ row ∷ []) h.kept;
      room = rw (length-append s.buffer (row ∷ [])) (omega (arith, h.room));
      batched = h.batched;
      written = h.written;
    };
  }

  pub flush_buffer-Triple :
      (rows : List NewEvent) (count limit : ℕ)
      → limit ≤ max
      → Triple
          (IsReplayed max rows count limit)
          (flush_buffer (recorded setting))
          (λ _ s. IsReplayed max rows count 0 s × (s.buffer ≡ []))
          (IsCut max rows)
  unfolding flush_buffer
  flush_buffer-Triple rows count limit k = record {
    at = λ s h. (flush_rows-Triple rows s.buffer count limit k).at s (h, refl);
  }

  weaken_room :
      (rows : List NewEvent) (count limit limit' : ℕ) (s : State)
      → limit ≤ limit'
      → IsReplayed max rows count limit s
      → IsReplayed max rows count limit' s
  weaken_room rows count limit limit' s k h = record {
    counted = h.counted;
    kept = h.kept;
    room = omega (arith, h.room);
    batched = h.batched;
    written = h.written;
  }

  pub flush_if_full-Triple :
      (rows : List NewEvent) (count : ℕ)
      → Triple
          (IsReplayed max rows count (suc (max - 1)))
          (flush_if_full (recorded setting) max)
          (λ _. IsReplayed max rows count (max - 1))
          (IsCut max rows)
  unfolding flush_if_full pure
  flush_if_full-Triple rows count = record {
    at = λ s h. elim (Bool-cases (leb max (length s.buffer))) [
      | inl full ↦ rw full (
          (Triple-weaken _ (flush_buffer-Triple rows count (suc (max - 1)) (omega arith)) (λ _ p. p)
              (λ _ w (p, e). weaken_room rows count 0 (max - 1) w (omega arith) p) (λ _ p. p)).at
            s h)
      | inr open_batch ↦ rw open_batch (record {
        counted = h.counted;
        kept = h.kept;
        room = below max (length s.buffer) open_batch;
        batched = h.batched;
        written = h.written;
      })
    ];
  }
