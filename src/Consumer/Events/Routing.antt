-- ===== src/Consumer/Events/Routing.antt =====
-- Where a job goes. The world records each call with its answer; the sink, the dead letters and the logger may
-- throw at any call.
use posta.Shared.{
  ◌≡◌, refl, ap, String, Bool, true, false, List, [], ◌∷◌, Option, none, some, select, Option-cases,
  inl, inr, Act, pure, raise, try_catch, ◌>>◌,
}
use posta.Shared.Thrown.{Thrown}
use posta.Shared.Recording.{Entry, History, reply}
use posta.Shared.Triples.{
  Triple, Triple-pure, Triple-raise, Triple-bind, Triple-try_catch, Triple-try_finally,
  Triple-weaken,
}
use posta.Contracts.Capture.{CaptureEvent}
use posta.Consumer.Events.{
  Job, SafeParse, success, failure, DlqReason, schema_validation_failed, DlqPayload, raw,
  DlqSendMeta, ConsumerLog, Consumer, ConsumerDeps, to_dlq_issues, original_job_id, count_in,
  count_out, safe_log, route_to_dlq, handle_event, dispatch, process,
}

pub data Call (D : Type 0) : Type 0 where
  handled : CaptureEvent → Call D
  sent : DlqReason → DlqPayload D → Thrown → DlqSendMeta → Call D
  logged : ConsumerLog → Call D

pub record Oracle (D : Type 0) : Type 0 where
  pub fails : History (Call D) → Call D → Option Thrown
  pub safe_parse : D → SafeParse
  pub redact : String → String

-- A state whose world is the history of calls.
abbrev pub State : Type 0 → Type 0
State D = Consumer (History (Call D))

module _ {D : Type 0} (oracle : Oracle D) where
  abbrev pub answered : Call D → Act (State D) (Unit {0})
  answered c s = (
    reply (oracle.fails s.outer c) tt,
    record s { outer = (c, oracle.fails s.outer c) ∷ s.outer },
  )

  abbrev pub recorded : ConsumerDeps (History (Call D)) D
  recorded = record {
    safe_parse = oracle.safe_parse;
    handle = λ event. answered (handled event);
    send = λ reason payload e meta. answered (sent reason payload e meta);
    log_error = λ l. answered (logged l);
    redact = oracle.redact;
  }

module _ {D : Type 0} where
  abbrev pub is_delivery : Entry (Call D) → Bool
  is_delivery (handled event, answer) = true
  is_delivery (sent reason payload e meta, answer) = true
  is_delivery (logged l, answer) = false

  -- All calls but those of the logger, the latest first.
  abbrev pub deliveries : State D → List (Entry (Call D))
  deliveries s = select is_delivery s.outer

  -- The one call that a job leads to: its event goes to the sink, or its data to the dead letters.
  abbrev pub delivery : Job D → SafeParse → Call D
  delivery job (success event) = handled event
  delivery job (failure e) = sent schema_validation_failed (raw job.payload) e.thrown (record {
    original_job_id = original_job_id job;
    attempts_made = 1;
    issues = some (to_dlq_issues e.issues);
  })

  abbrev pub Succeeded : Call D → State D → Type 0
  Succeeded c s = deliveries s ≡ (c, none) ∷ []

  abbrev pub Failed : Call D → State D → Type 0
  Failed c s = (e : Thrown) × (deliveries s ≡ (c, some e) ∷ [])

  abbrev pub Fresh : State D → Type 0
  Fresh s = deliveries s ≡ []

module _ {D : Type 0} (oracle : Oracle D) where
  pub answered-Triple :
      (c : Call D)
      → ((o : Option Thrown) → is_delivery (c, o) ≡ true)
      → Triple Fresh (answered oracle c) (λ _. Succeeded c) (Failed c)
  answered-Triple c d = record {
    at = λ s h. elim (Option-cases (oracle.fails s.outer c)) [
      | inl n ↦ rw n (rw (d none) (ap (λ h. (c, none) ∷ h) h))
      | inr (e, n) ↦ rw n (e, rw (d (some e)) (ap (λ h. (c, some e) ∷ h) h))
    ];
  }

  -- A log call is no delivery, and what it throws is dropped.
  safe_log-Triple :
      (l : ConsumerLog) (h : List (Entry (Call D)))
      → Triple
          (λ s. deliveries s ≡ h)
          (safe_log (recorded oracle) l)
          (λ _ s. deliveries s ≡ h)
          (λ _. ⊥)
  unfolding safe_log
  safe_log-Triple l h =
      Triple-try_catch {F = λ s. deliveries s ≡ h} _ _
        (record {
          at = λ s p. elim (Option-cases (oracle.fails s.outer (logged l))) [
            | inl n ↦ rw n p
            | inr (e, n) ↦ rw n p
          ];
        })
        (λ e. Triple-pure tt)

  pub log-Failed-Triple :
      {E : State D → Type 0} (l : ConsumerLog) (c : Call D)
      → Triple (Failed c) (safe_log (recorded oracle) l) (λ _. Failed c) E
  log-Failed-Triple l c = record {
    at = λ s (e, h).
        (Triple-weaken _ (safe_log-Triple l _) (λ _ p. p) (λ _ w p. (e, p)) (λ w n. elim n [ ])).at
          s h;
  }

  pub log-Succeeded-Triple :
      {E : State D → Type 0} (l : ConsumerLog) (c : Call D)
      → Triple (Succeeded c) (safe_log (recorded oracle) l) (λ _. Succeeded c) E
  log-Succeeded-Triple l c =
      Triple-weaken _ (safe_log-Triple l _) (λ _ p. p) (λ _ w p. p) (λ w n. elim n [ ])

  guarded-Triple :
      (c : Call D) (l : Thrown → ConsumerLog)
      → ((o : Option Thrown) → is_delivery (c, o) ≡ true)
      → Triple Fresh
          (try_catch (answered oracle c) (λ e. do safe_log (recorded oracle) (l e); raise e))
          (λ _. Succeeded c)
          (Failed c)
  guarded-Triple c l d =
      Triple-try_catch _ _ (answered-Triple c d)
        λ e. Triple-bind _ _ (log-Failed-Triple (l e) c) λ _. Triple-raise e

  dispatch-Triple :
      (job : Job D) (p : SafeParse)
      → Triple Fresh
          (dispatch (recorded oracle) job p)
          (λ _. Succeeded (delivery job p))
          (Failed (delivery job p))
  unfolding route_to_dlq handle_event
  dispatch-Triple job (failure e) =
      Triple-bind _ _ (guarded-Triple _ _ (λ o. refl)) λ _. log-Succeeded-Triple _ _
  dispatch-Triple job (success event) = guarded-Triple _ _ (λ o. refl)

  count_in-Triple : {E : State D → Type 0} → Triple Fresh count_in (λ _. Fresh) E
  unfolding count_in pure
  count_in-Triple = record { at = λ s h. h }

  count_out-Triple :
      (P : History (Call D) → Type 0) {E : State D → Type 0}
      → Triple (λ s. P s.outer) count_out (λ _ s. P s.outer) E
  unfolding count_out pure
  count_out-Triple P = record { at = λ s h. h }

  -- Whatever the sink, the dead letters and the logger answer, `process` makes one delivery: of the event to the
  -- sink if the data of the job is one, of the data with the issues to the dead letters otherwise. It returns,
  -- which completes the job, if the delivery succeeds, and throws if it fails; log calls that throw change
  -- neither.
  pub process-Delivers :
      (job : Job D)
      → Triple Fresh
          (process (recorded oracle) job)
          (λ _. Succeeded (delivery job (oracle.safe_parse job.payload)))
          (Failed (delivery job (oracle.safe_parse job.payload)))
  unfolding process
  process-Delivers job = Triple-bind _ _ count_in-Triple λ _.
      Triple-try_finally _ _ (dispatch-Triple job (oracle.safe_parse job.payload))
        (λ _. count_out-Triple (λ h. select is_delivery h ≡ (_, none) ∷ []))
        (count_out-Triple (λ h. (e : Thrown) × (select is_delivery h ≡ (_, some e) ∷ [])))
