-- ===== src/Batch/Accumulator/Order.antt =====
-- No event is lost, repeated or reordered on its way to the flush callback, and each stays beside
-- the promise that its `add` handed out.
use posta.Shared.{
  ℕ, String, ◌≡◌, refl, sym, ap, ◌∙◌, List, [], ◌∷◌, ◌++◌, Option, none, some, append-nil,
  append_assoc, ok, Bool-cases, inl, inr, leb,
}
use posta.Shared.Thrown.{Thrown, JsNumber}
use posta.Batch.Accumulator.{
  OpenBatch, FlushCall, Accumulator, Action, adds, flushes, fires, answers, create, size,
  trigger_flush, answer_flush, fire, add, flush_now, step, run, open_batch, put_event, append_event,
  without, is_in, detach, settle_found, get_elem?,
}
use posta.Batch.Accumulator.Construction.{create_induction}

module _ {T A : Type 0} (f : List T → List ℕ → List A) where
  abbrev pub flown : List (FlushCall T) → List A
  flown [] = []
  flown (c ∷ cs) = f c.events c.waiters ++ flown cs

  abbrev pub waiting : Option (OpenBatch T) → List A
  waiting none = []
  waiting (some b) = f b.events b.waiters

  -- What the flush callback has got so far, call after call, and then what the open batch holds.
  abbrev pub flow : Accumulator T → List A
  flow s = flown s.calls ++ waiting s.current_batch

  pub flown-append : (xs ys : List (FlushCall T)) → flown (xs ++ ys) ≡ flown xs ++ flown ys
  flown-append [] ys = refl
  flown-append (x ∷ xs) ys = rw (flown-append xs ys, append_assoc)

  flow-detach :
      (c : Option (OpenBatch T)) (s : Accumulator T)
      → s.current_batch ≡ c
      → flow (detach c s) ≡ flow s
  flow-detach none s e = refl
  flow-detach (some b) s e =
      rw (flown-append s.calls _) (simp (append-nil) (ap (λ c. flown s.calls ++ waiting c) (sym e)))

  pub flow-trigger_flush : (s : Accumulator T) → flow (trigger_flush s) ≡ flow s
  unfolding trigger_flush
  flow-trigger_flush s = flow-detach s.current_batch s refl

  pub flow-fire : (t : ℕ) (s : Accumulator T) → flow (fire t s) ≡ flow s
  unfolding fire
  flow-fire t s = elim (Bool-cases (is_in t s.armed)) [
    | inl armed ↦ rw armed (flow-trigger_flush (record s { armed = without t s.armed }))
    | inr idle ↦ rw idle
  ]

  pub flow-settle_found :
      (found : Option (FlushCall T)) (i : ℕ) (answer : Option Thrown) (now : ℕ) (s : Accumulator T)
      → flow (settle_found found i answer now s) ≡ flow s
  flow-settle_found none i answer now s = refl
  flow-settle_found (some call) i none now s = refl
  flow-settle_found (some call) i (some e) now s = refl

  -- `g` is what one event and its promise add to `f`.
  module _ (g : T → ℕ → List A) (start : f [] [] ≡ [])
      (grow : (es : List T) (ws : List ℕ) (e : T) (w : ℕ)
        → f (es ++ e ∷ []) (ws ++ w ∷ []) ≡ f es ws ++ g e w)
      (new_id : ℕ → String) where
    flow-append_event :
        (event : T) (c : Option (OpenBatch T)) (s : Accumulator T)
        → let (b, s') = open_batch new_id c s in
          s.current_batch ≡ c → flow (append_event new_id event b s') ≡ flow s ++ g event s.promises
    flow-append_event event none s e =
        ap (λ l. flown s.calls ++ l)
          (grow [] [] event s.promises ∙ ap (λ l. l ++ g event s.promises) start)
        ∙ sym (ap (λ c. (flown s.calls ++ waiting c) ++ g event s.promises) e ∙ rw append-nil)
    flow-append_event event (some b) s e =
        ap (λ l. flown s.calls ++ l) (grow b.events b.waiters event s.promises)
        ∙ sym (ap (λ c. (flown s.calls ++ waiting c) ++ g event s.promises) e ∙ rw append_assoc)

    pub flow-add :
        (event : T) (s : Accumulator T) → flow (add new_id event s) ≡ flow s ++ g event s.promises
    unfolding add
    flow-add event s =
        let t = put_event new_id event s in
        let appended = flow-append_event event s.current_batch s refl in
        elim (Bool-cases (leb t.batch_size (size t))) [
          | inl full ↦ rw full (flow-trigger_flush t ∙ appended)
          | inr room ↦ rw room appended
        ]

-- The events of the steps that are calls of `add`.
abbrev pub added : {T : Type 0} → List (Action T) → List T
added [] = []
added (adds event ∷ actions) = event ∷ added actions
added (flushes ∷ actions) = added actions
added (fires t ∷ actions) = added actions
added (answers i answer now ∷ actions) = added actions

-- The events handed to the flush callback, call after call, and then those of the open batch.
abbrev pub events_in : {T : Type 0} → Accumulator T → List T
events_in s = flow (λ events waiters. events) s

module _ {T : Type 0} (new_id : ℕ → String) where
  events_in-run :
      (actions : List (Action T)) (s : Accumulator T)
      → events_in (run new_id actions s) ≡ events_in s ++ added actions
  unfolding run step flush_now answer_flush
  events_in-run [] s = sym (append-nil (events_in s))
  events_in-run (adds event ∷ actions) s =
      events_in-run actions (add new_id event s)
      ∙ (ap (λ l. l ++ added actions)
            (flow-add (λ es ws. es) (λ e w. e ∷ []) refl (λ es ws e w. refl) new_id event s)
          ∙ append_assoc (events_in s) (event ∷ []) (added actions))
  events_in-run (flushes ∷ actions) s =
      events_in-run actions (trigger_flush s)
      ∙ ap (λ l. l ++ added actions) (flow-trigger_flush (λ es ws. es) s)
  events_in-run (fires t ∷ actions) s =
      events_in-run actions (fire t s) ∙ ap (λ l. l ++ added actions) (flow-fire (λ es ws. es) t s)
  events_in-run (answers i answer now ∷ actions) s =
      events_in-run actions (answer_flush i answer now s)
      ∙ ap (λ l. l ++ added actions)
          (flow-settle_found (λ es ws. es) (get_elem? s.in_flight i) i answer now s)

-- From the construction on, whatever the interleaving: the events handed to the flush callback, call
-- after call, followed by those of the open batch, are the events added, each once and in order.
pub run-create-order :
    {T : Type 0} (new_id : ℕ → String) (batch_size interval : JsNumber) (now : ℕ)
    (s : Accumulator T) (actions : List (Action T))
    → create batch_size interval now ≡ ok s
    → events_in (run new_id actions s) ≡ added actions
run-create-order new_id batch_size interval now s actions h =
    events_in-run new_id actions s
    ∙ ap (λ l. l ++ added actions)
        (create_induction (λ s. events_in s ≡ []) batch_size interval now s (λ n i p. refl) h)
