-- ===== src/Consumer/DeadLetters/Tests.antt =====
-- A letter is stored although the sweep that it starts fails.
use posta.Shared.{◌≡◌, refl, ℕ, [], ◌∷◌, Option, none, some, ok, ◌>>=◌, try_catch}
use posta.Shared.Thrown.{Thrown, new_error}
use posta.Shared.Recording.{History}
use posta.Shared.Triples.{After}
use posta.Consumer.Events.{DlqSendMeta, flush_poison}
use posta.Consumer.DeadLetters.{DlqRetentionOptions, entry, send, clean_aged_entries_throttled}
use posta.Consumer.DeadLetters.Storing.{
  Call, added, cleaned, logged, Oracle, State, recorded, Stored, send-Stored,
}

abbrev answers : History (Call ℕ) → Call ℕ → Option Thrown
answers h (added e) = none
answers h (cleaned window limit) = some (new_error "busy")
answers h (logged text) = none

abbrev oracle : Oracle ℕ
oracle = record {
  fails = answers;
  redact_keys = λ n. (n, []);
  redact = λ text. text;
  now_iso = λ h. "2026-07-01T10:00:00.000Z";
  now = λ h. 4000000;
}

abbrev defaults : DlqRetentionOptions
defaults = record {
  retention_window_ms = none;
  retention_clean_limit = none;
  clean_throttle_ms = none;
}

abbrev fresh : State ℕ
fresh = record { last_clean_attempt_at_ms = 0; outer = [] }

abbrev meta : DlqSendMeta
meta = record { original_job_id = "7"; attempts_made = 1; issues = none }

send-swept : (send (recorded oracle) defaults flush_poison 3 (new_error "x") meta fresh).0 ≡ ok tt
unfolding ◌>>=◌ try_catch send clean_aged_entries_throttled
send-swept = refl

send-remembers :
    (send
      (recorded oracle)
      defaults
      flush_poison
      3
      (new_error "x")
      meta
      fresh).1.last_clean_attempt_at_ms
    ≡ 4000000
unfolding ◌>>=◌ try_catch send clean_aged_entries_throttled
send-remembers = refl

send-Stored_example :
    After
      (λ _. Stored (
        (added (entry (recorded oracle) defaults flush_poison 3 (new_error "x") meta []), none)
        ∷ []))
      (λ s'.
        (x : Thrown) × Stored
          ((added (entry (recorded oracle) defaults flush_poison 3 (new_error "x") meta []), some x)
            ∷ [])
          s')
      (send (recorded oracle) defaults flush_poison 3 (new_error "x") meta fresh).0
      (send (recorded oracle) defaults flush_poison 3 (new_error "x") meta fresh).1
send-Stored_example =
    send-Stored oracle defaults (λ h text. refl) flush_poison 3 (new_error "x") meta fresh refl
