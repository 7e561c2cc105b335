-- ===== src/Batch/R2Retry/Trace.antt =====
-- A world that answers each PUT from a script, and records the PUTs, the delays, the log calls and
-- the dead letters. A PUT past the end of the script succeeds.
use posta.Shared.{ℕ, ◌+◌, String, List, [], ◌∷◌, ◌++◌, Option, none, some, Act, ok, throw}
use posta.Shared.Thrown.{Thrown}
use posta.Contracts.Capture.{CaptureEvent}
use posta.Batch.SplitRetry.{DlqMeta}
use posta.Batch.R2Retry.{R2RetryDeps, R2RetryLog, R2BatchDlqSend}

pub record DeadLetter : Type 0 where
  pub reason : String
  pub events : List CaptureEvent
  pub error : Thrown
  pub meta : DlqMeta

pub record Trace : Type 0 where
  pub script : List (Option Thrown)
  pub puts : ℕ
  pub delays : List ℕ
  pub logs : List R2RetryLog
  pub letters : List DeadLetter

abbrev pub put_from : List (Option Thrown) → Act Trace (Unit {0})
put_from [] t = (ok tt, record t { puts = t.puts + 1 })
put_from (none ∷ rest) t = (ok tt, record t { script = rest; puts = t.puts + 1 })
put_from (some e ∷ rest) t = (throw e, record t { script = rest; puts = t.puts + 1 })

abbrev pub traced : R2RetryDeps Trace
traced = record {
  put = λ t. put_from t.script t;
  sleep = λ ms t. (ok tt, record t { delays = t.delays ++ ms ∷ [] });
  log_error = λ l t. (ok tt, record t { logs = t.logs ++ l ∷ [] });
}

abbrev pub traced_send : R2BatchDlqSend Trace
traced_send reason events e meta t = (
  ok tt,
  record t {
    letters = t.letters ++ record { reason = reason; events = events; error = e; meta = meta } ∷ [];
  },
)
