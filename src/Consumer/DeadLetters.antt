-- ===== src/Consumer/DeadLetters.antt =====
-- apps/worker/src/consumer/dlq.service.ts: class DlqService. The queue, the clock, the logger and the redaction
-- of a payload's keys are parameters; the time of the last sweep is the service's own state.
pub mod Storing
mod Tests
use posta.Shared.{
  ℕ, ◌+◌, ◌*◌, String, List, [], ◌∷◌, Option, or_else, if◌then◌else◌, ltb, Act, pure, try_catch,
  ◌>>=◌, ◌>>◌,
}
use posta.Shared.Text.{concat, show}
use posta.Shared.Thrown.{Thrown, error_message}
use posta.Batch.ClassifyError.{extract_sql_state}
use posta.Consumer.Events.{EventsDlqIssue, DlqReason, DlqSendMeta}

abbrev pub dlq_retention_window_ms : ℕ
dlq_retention_window_ms = 604800000

abbrev pub dlq_retention_clean_limit : ℕ
dlq_retention_clean_limit = 1000

abbrev pub dlq_clean_throttle_ms : ℕ
dlq_clean_throttle_ms = 3600000

pub record DlqRetentionOptions : Type 0 where
  pub retention_window_ms : Option ℕ
  pub retention_clean_limit : Option ℕ
  pub clean_throttle_ms : Option ℕ

-- `EventsDlqJobPayload`; `D` is the payload.
pub record DlqEntry (D : Type 0) : Type 0 where
  pub reason : DlqReason
  pub raw_payload : D
  pub redacted_keys : List String
  pub message : String
  pub sqlstate : Option String
  pub issues : List EventsDlqIssue
  pub attempts_made : ℕ
  pub original_job_id : String
  pub failed_at : String

pub record DlqService (V : Type 0) : Type 0 where
  pub last_clean_attempt_at_ms : ℕ
  pub outer : V

pub record DlqDeps (V D : Type 0) : Type 0 where
  -- `redactForbiddenKeys` and `redactCredentialsFromMessage`
  pub redact_keys : D → D × List String
  pub redact : String → String
  -- `new Date().toISOString()` and `Date.now()`
  pub now_iso : V → String
  pub now : V → ℕ
  pub add : DlqEntry D → Act (DlqService V) (Unit {0})
  pub clean : (window limit : ℕ) → Act (DlqService V) (Unit {0})
  pub log_error : String → Act (DlqService V) (Unit {0})

module _ {V D : Type 0} (deps : DlqDeps V D) (options : DlqRetentionOptions) where
  abbrev pub retention_window : ℕ
  retention_window = or_else options.retention_window_ms dlq_retention_window_ms

  abbrev pub clean_limit : ℕ
  clean_limit = or_else options.retention_clean_limit dlq_retention_clean_limit

  abbrev pub sweep_text : Thrown → String
  sweep_text e = concat (
      "DlqService retention clean() failed; DLQ entries older than "
      ∷ show retention_window
      ∷ "ms may persist past their intended retention window until the next successful sweep: "
      ∷ deps.redact (error_message e)
      ∷ [])

  abbrev pub sweep : Act (DlqService V) (Unit {0})
  sweep = try_catch (deps.clean retention_window clean_limit) (λ e. deps.log_error (sweep_text e))

  -- `now - last < throttle` of integers. The time is written before anything is waited for.
  pub clean_aged_entries_throttled : Act (DlqService V) (Unit {0})
  unfolding pure
  clean_aged_entries_throttled s =
      if ltb (deps.now s.outer)
        (s.last_clean_attempt_at_ms + or_else options.clean_throttle_ms dlq_clean_throttle_ms)
      then pure tt s
      else sweep (record s { last_clean_attempt_at_ms = deps.now s.outer })

  abbrev pub entry : DlqReason → D → Thrown → DlqSendMeta → V → DlqEntry D
  entry reason payload e meta v =
      let (redacted_payload, keys) = deps.redact_keys payload in
      record {
        reason = reason;
        raw_payload = redacted_payload;
        redacted_keys = keys;
        message = deps.redact (error_message e);
        sqlstate = extract_sql_state e;
        issues = or_else meta.issues [];
        attempts_made = meta.attempts_made;
        original_job_id = meta.original_job_id;
        failed_at = deps.now_iso v;
      }

  abbrev pub store : DlqEntry D → Act (DlqService V) (Unit {0})
  store e = do deps.add e; clean_aged_entries_throttled

  pub send : DlqReason → D → Thrown → DlqSendMeta → Act (DlqService V) (Unit {0})
  send reason payload e meta s = store (entry reason payload e meta s.outer) s
