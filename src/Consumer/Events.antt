-- ===== src/Consumer/Events.antt =====
-- apps/worker/src/consumer/events.consumer.ts: class EventsConsumer. `D` is what a job carries; the schema of
-- an event, the sink, the queue of dead letters and the logger are parameters. They act on the whole state, as
-- other jobs are processed while one waits for them. Log calls keep the values that they carry.
pub mod InFlight
pub mod Routing
pub mod Failures
mod Tests
use posta.Shared.{
  ℕ, ◌+◌, ◌-◌, String, List, [], ◌∷◌, map, Option, none, some, length, or_else, if◌then◌else◌, ltb,
  Act, pure, raise, caught, try_catch, try_finally, ◌>>=◌, ◌>>◌,
}
use posta.Shared.Text.{concat, join, show}
use posta.Shared.Thrown.{Thrown, error_message}
use posta.Contracts.Capture.{CaptureEvent}

pub record Job (D : Type 0) : Type 0 where
  pub payload : D
  pub id : Option String
  pub attempts : Option ℕ
  pub attempts_made : ℕ

-- An issue of the schema, with its path as strings.
pub record ZodIssue : Type 0 where
  pub path : List String
  pub message : String
  pub code : String

pub record ZodError : Type 0 where
  pub issues : List ZodIssue
  pub thrown : Thrown

pub data SafeParse : Type 0 where
  success : CaptureEvent → SafeParse
  failure : ZodError → SafeParse

pub record EventsDlqIssue : Type 0 where
  pub path : String
  pub message : String
  pub code : String

pub data DlqReason : Type 0 where
  schema_validation_failed attempts_exhausted flush_poison r2_put_failed : DlqReason

pub record DlqSendMeta : Type 0 where
  pub original_job_id : String
  pub attempts_made : ℕ
  pub issues : Option (List EventsDlqIssue)

-- What is sent: the data of the job as it came, or the event that was read from it.
pub data DlqPayload (D : Type 0) : Type 0 where
  raw : D → DlqPayload D
  parsed : CaptureEvent → DlqPayload D

pub data ConsumerLog : Type 0 where
  sink_failed : (message : String) (event_id link_id tenant_id : String) → ConsumerLog
  routing_failed : (job_id : Option String) (message : String) → ConsumerLog
  routed : (job_id : Option String) (issues : ℕ) → ConsumerLog
  exhausted_unrouted : (job_id : Option String) (message : String) → ConsumerLog
  exhausted_routed : (job_id : Option String) (attempts : ℕ) → ConsumerLog

pub record Consumer (V : Type 0) : Type 0 where
  pub in_flight_job_count : ℕ
  pub outer : V

pub record ConsumerDeps (V D : Type 0) : Type 0 where
  pub safe_parse : D → SafeParse
  pub handle : CaptureEvent → Act (Consumer V) (Unit {0})
  pub send : DlqReason → DlqPayload D → Thrown → DlqSendMeta → Act (Consumer V) (Unit {0})
  pub log_error : ConsumerLog → Act (Consumer V) (Unit {0})
  -- `redactCredentialsFromMessage`
  pub redact : String → String

abbrev pub to_dlq_issue : ZodIssue → EventsDlqIssue
to_dlq_issue issue = record {
  path = join "." issue.path;
  message = issue.message;
  code = issue.code;
}

abbrev pub to_dlq_issues : List ZodIssue → List EventsDlqIssue
to_dlq_issues issues = map to_dlq_issue issues

abbrev pub original_job_id : {D : Type 0} → Job D → String
original_job_id job = or_else job.id "(no id)"

module _ {V : Type 0} where
  -- `get pendingJobCount`
  abbrev pub pending_job_count : Consumer V → ℕ
  pending_job_count s = s.in_flight_job_count

  pub count_in : Act (Consumer V) (Unit {0})
  unfolding pure
  count_in s = pure tt (record s { in_flight_job_count = s.in_flight_job_count + 1 })

  pub count_out : Act (Consumer V) (Unit {0})
  unfolding pure
  count_out s = pure tt (record s { in_flight_job_count = s.in_flight_job_count - 1 })

module _ {V D : Type 0} (deps : ConsumerDeps V D) where
  pub safe_log : ConsumerLog → Act (Consumer V) (Unit {0})
  safe_log l = try_catch (deps.log_error l) (λ e. pure tt)

  -- The texts that are logged of an error, redacted as a whole.
  abbrev pub sink_text : CaptureEvent → Thrown → String
  sink_text event e =
      deps.redact
        (concat ("Sink failed to handle event " ∷ event.event_id ∷ ": " ∷ error_message e ∷ []))

  abbrev pub routing_text : Job D → Thrown → String
  routing_text job e = deps.redact (
      concat (
        "Job "
        ∷ original_job_id job
        ∷ " failed eventJobSchema validation AND failed to route to events-dlq: "
        ∷ error_message e
        ∷ []))

  abbrev pub exhausted_text : Job D → Thrown → String
  exhausted_text job e = deps.redact (
      concat (
        "Job "
        ∷ original_job_id job
        ∷ " exhausted all "
        ∷ show job.attempts_made
        ∷ " attempt(s) AND failed to route to events-dlq: "
        ∷ error_message e
        ∷ []))

  pub route_to_dlq : Job D → ZodError → Act (Consumer V) (Unit {0})
  route_to_dlq job e = do
    try_catch
        (deps.send schema_validation_failed (raw job.payload) e.thrown (record {
          original_job_id = original_job_id job;
          attempts_made = 1;
          issues = some (to_dlq_issues e.issues);
        }))
        (λ x. do safe_log (routing_failed job.id (routing_text job x)); raise x)
    safe_log (routed job.id (length (to_dlq_issues e.issues)))

  pub handle_event : CaptureEvent → Act (Consumer V) (Unit {0})
  handle_event event = try_catch (deps.handle event) (λ e. do
    safe_log (sink_failed (sink_text event e) event.event_id event.link_id event.tenant_id)
    raise e)

  abbrev pub dispatch : Job D → SafeParse → Act (Consumer V) (Unit {0})
  dispatch job (failure e) = route_to_dlq job e
  dispatch job (success event) = handle_event event

  pub process : Job D → Act (Consumer V) (Unit {0})
  process job = do count_in; try_finally (dispatch job (deps.safe_parse job.payload)) count_out

  -- The letter of a job that has used up its attempts.
  abbrev pub send_exhausted : Job D → Thrown → SafeParse → Act (Consumer V) (Unit {0})
  send_exhausted job e (success event) = deps.send attempts_exhausted (parsed event) e (record {
    original_job_id = original_job_id job;
    attempts_made = job.attempts_made;
    issues = none;
  })
  send_exhausted job e (failure z) =
      deps.send schema_validation_failed (raw job.payload) e (record {
        original_job_id = original_job_id job;
        attempts_made = job.attempts_made;
        issues = some (to_dlq_issues z.issues);
      })

  abbrev pub after_exhausted : Job D → Option Thrown → Act (Consumer V) (Unit {0})
  after_exhausted job (some e) = safe_log (exhausted_unrouted job.id (exhausted_text job e))
  after_exhausted job none = safe_log (exhausted_routed job.id job.attempts_made)

  pub on_failed : Job D → Thrown → Act (Consumer V) (Unit {0})
  on_failed job e = if ltb job.attempts_made (or_else job.attempts 1) then pure tt else (do
    answer ← caught (send_exhausted job e (deps.safe_parse job.payload))
    after_exhausted job answer)
