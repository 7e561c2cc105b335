-- ===== src/Batch/Accumulator/Promises.antt =====
-- Every promise that `add` handed out is either settled, once, or still owed by one batch.
use mathlib.Core.List.Perm
use mathlib.Core.List.{perm_append_comm}
use posta.Shared.{
  ℕ, zero, suc, ◌+◌, String, ◌≡◌, refl, sym, ap, subst, ◌∙◌, List, [], ◌∷◌, ◌++◌, map, Perm, Option,
  none, some, append_assoc, map-append, arith, ok, length, Bool-cases, inl, inr, leb,
}
use posta.Shared.Thrown.{Thrown, JsNumber}
use posta.Batch.Accumulator.{
  OpenBatch, FlushCall, Settlement, resolved, rejected, Accumulator, Action, adds, flushes, fires,
  answers, create, size, trigger_flush, answer_flush, fire, add, flush_now, step, run, put_event,
  open_batch, append_event, without, is_in, detach, settle_found, get_elem?, erase_idx,
}
use posta.Batch.Accumulator.Construction.{create_induction}
use posta.Batch.Accumulator.Order.{
  flown, waiting, flow, added, flown-append, flow-trigger_flush, flow-fire, flow-settle_found,
  flow-add,
}

perm_front {ℓ} : {A : Type ℓ} (a b r : List A) → Perm (a ++ (b ++ r)) (b ++ (a ++ r))
perm_front a b r =
    subst (λ l. Perm l (b ++ (a ++ r))) (append_assoc a b r)
      (subst (λ l. Perm ((a ++ b) ++ r) l) (append_assoc b a r)
        (Perm.append_right r (perm_append_comm a b)))

-- 0, 1, …, n - 1.
abbrev pub iota : ℕ → List ℕ
iota zero = []
iota (suc n) = iota n ++ n ∷ []

abbrev pub promises_of : {T : Type 0} → List T → List ℕ → List ℕ
promises_of events waiters = waiters

abbrev pub settled_ids : List (ℕ × Settlement) → List ℕ
settled_ids l = map (λ p. p.0) l

settled_ids-map : (r : Settlement) (ws : List ℕ) → settled_ids (map (λ w. (w, r)) ws) ≡ ws
settled_ids-map r [] = refl
settled_ids-map r (w ∷ ws) = ap (λ l. w ∷ l) (settled_ids-map r ws)

module _ {T : Type 0} where
  -- The settled promises and those of the flushes in flight are those of all flushes.
  abbrev IsOwed : Accumulator T → Type 0
  IsOwed s =
      Perm (settled_ids s.settled ++ flown promises_of s.in_flight) (flown promises_of s.calls)

  flown-erase_idx :
      (cs : List (FlushCall T)) (i : ℕ) (c : FlushCall T)
      → get_elem? cs i ≡ some c
      → Perm (c.waiters ++ flown promises_of (erase_idx cs i)) (flown promises_of cs)
  flown-erase_idx [] i c h = cc
  flown-erase_idx (x ∷ cs) zero c h =
      let same : x ≡ c = cc in
      subst
        (λ (y : FlushCall T).
          Perm (y.waiters ++ flown promises_of cs) (x.waiters ++ flown promises_of cs))
        same (Perm.refl _)
  flown-erase_idx (x ∷ cs) (suc i) c h =
      Perm.trans (perm_front c.waiters x.waiters _)
        (Perm.append_left x.waiters (flown-erase_idx cs i c h))

  detach-IsOwed : (c : Option (OpenBatch T)) (s : Accumulator T) → IsOwed s → IsOwed (detach c s)
  detach-IsOwed none s h = h
  detach-IsOwed (some b) s h =
      rw (flown-append promises_of s.in_flight _, flown-append promises_of s.calls _)
        (rw append_assoc at (Perm.append_right (b.waiters ++ []) h))

  answered :
      (r : Settlement) (call : FlushCall T) (i : ℕ) (s : Accumulator T)
      → get_elem? s.in_flight i ≡ some call
      → IsOwed s
      → Perm
          (settled_ids (s.settled ++ map (λ w. (w, r)) call.waiters)
            ++ flown promises_of (erase_idx s.in_flight i))
          (flown promises_of s.calls)
  answered r call i s found h =
      rw (map-append (λ p. p.0) s.settled _, settled_ids-map r call.waiters, append_assoc)
        (Perm.trans
          (Perm.append_left (settled_ids s.settled) (flown-erase_idx s.in_flight i call found)) h)

  settle_found-IsOwed :
      (found : Option (FlushCall T)) (i : ℕ) (answer : Option Thrown) (now : ℕ) (s : Accumulator T)
      → get_elem? s.in_flight i ≡ found
      → IsOwed s
      → IsOwed (settle_found found i answer now s)
  settle_found-IsOwed none i answer now s e h = h
  settle_found-IsOwed (some call) i none now s e h = answered resolved call i s e h
  settle_found-IsOwed (some call) i (some e') now s e h = answered (rejected e') call i s e h

  trigger_flush-IsOwed : (s : Accumulator T) → IsOwed s → IsOwed (trigger_flush s)
  unfolding trigger_flush
  trigger_flush-IsOwed s h = detach-IsOwed s.current_batch s h

  fire-IsOwed : (t : ℕ) (s : Accumulator T) → IsOwed s → IsOwed (fire t s)
  unfolding fire
  fire-IsOwed t s h = elim (Bool-cases (is_in t s.armed)) [
    | inl armed ↦ rw armed (trigger_flush-IsOwed (record s { armed = without t s.armed }) h)
    | inr idle ↦ rw idle h
  ]

  -- Promises are numbered by the calls of `add`.
  promises-trigger_flush : (s : Accumulator T) → (trigger_flush s).promises ≡ s.promises
  unfolding trigger_flush
  promises-trigger_flush s = ground arith

  promises-fire : (t : ℕ) (s : Accumulator T) → (fire t s).promises ≡ s.promises
  unfolding fire trigger_flush
  promises-fire t s = ground arith

  promises-answer_flush :
      (i : ℕ) (answer : Option Thrown) (now : ℕ) (s : Accumulator T)
      → (answer_flush i answer now s).promises ≡ s.promises
  unfolding answer_flush
  promises-answer_flush i answer now s = ground arith

  module _ (new_id : ℕ → String) where
    put_event-IsOwed :
        (event : T) (s : Accumulator T) → IsOwed s → IsOwed (put_event new_id event s)
    put_event-IsOwed event s h = opened s.current_batch h
      where
        opened :
            (c : Option (OpenBatch T))
            → IsOwed s
            → let (b, s') = open_batch new_id c s in IsOwed (append_event new_id event b s')
        opened none h = h
        opened (some b) h = h

    add-IsOwed : (event : T) (s : Accumulator T) → IsOwed s → IsOwed (add new_id event s)
    unfolding add
    add-IsOwed event s h =
        let t = put_event new_id event s in
        let put = put_event-IsOwed event s h in
        elim (Bool-cases (leb t.batch_size (size t))) [
          | inl full ↦ rw full (trigger_flush-IsOwed t put)
          | inr room ↦ rw room put
        ]

    promises-add : (event : T) (s : Accumulator T) → (add new_id event s).promises ≡ suc s.promises
    unfolding add trigger_flush
    promises-add event s = ground arith

  record IsNumbered (s : Accumulator T) : Type 0 where
    owed : IsOwed s
    numbered : flow promises_of s ≡ iota s.promises

  module _ (new_id : ℕ → String) where
    step-IsNumbered :
        (a : Action T) (s : Accumulator T) → IsNumbered s → IsNumbered (step new_id a s)
    unfolding step flush_now answer_flush
    step-IsNumbered (adds event) s h = record {
      owed = add-IsOwed new_id event s h.owed;
      numbered =
          flow-add promises_of (λ e w. w ∷ []) refl (λ es ws e w. refl) new_id event s
          ∙ (ap (λ l. l ++ s.promises ∷ []) h.numbered
              ∙ ap iota (sym (promises-add new_id event s)));
    }
    step-IsNumbered flushes s h = record {
      owed = trigger_flush-IsOwed s h.owed;
      numbered =
          flow-trigger_flush promises_of s
          ∙ (h.numbered ∙ ap iota (sym (promises-trigger_flush s)));
    }
    step-IsNumbered (fires t) s h = record {
      owed = fire-IsOwed t s h.owed;
      numbered = flow-fire promises_of t s ∙ (h.numbered ∙ ap iota (sym (promises-fire t s)));
    }
    step-IsNumbered (answers i answer now) s h = record {
      owed = settle_found-IsOwed (get_elem? s.in_flight i) i answer now s refl h.owed;
      numbered =
          flow-settle_found promises_of (get_elem? s.in_flight i) i answer now s
          ∙ (h.numbered ∙ ap iota (sym (promises-answer_flush i answer now s)));
    }

    run-IsNumbered :
        (actions : List (Action T)) (s : Accumulator T)
        → IsNumbered s
        → IsNumbered (run new_id actions s)
    unfolding run
    run-IsNumbered [] s h = h
    run-IsNumbered (a ∷ actions) s h =
        run-IsNumbered actions (step new_id a s) (step-IsNumbered a s h)

    promises-run :
        (actions : List (Action T)) (s : Accumulator T)
        → (run new_id actions s).promises ≡ s.promises + length (added actions)
    unfolding run step flush_now answer_flush
    promises-run [] s = omega arith
    promises-run (adds event ∷ actions) s =
        omega (arith, promises-run actions (add new_id event s), promises-add new_id event s)
    promises-run (flushes ∷ actions) s =
        promises-run actions (trigger_flush s)
        ∙ ap (λ n. n + length (added actions)) (promises-trigger_flush s)
    promises-run (fires t ∷ actions) s =
        promises-run actions (fire t s) ∙ ap (λ n. n + length (added actions)) (promises-fire t s)
    promises-run (answers i answer now ∷ actions) s =
        promises-run actions (answer_flush i answer now s)
        ∙ ap (λ n. n + length (added actions)) (promises-answer_flush i answer now s)

-- The promises settled so far, those that a flush in flight owes, and those of the open batch.
abbrev pub all_promises : {T : Type 0} → Accumulator T → List ℕ
all_promises s =
    settled_ids s.settled ++ (flown promises_of s.in_flight ++ waiting promises_of s.current_batch)

all_promises-perm :
    {T : Type 0} (s : Accumulator T) → IsNumbered s → Perm (all_promises s) (iota s.promises)
all_promises-perm s h =
    rw (← h.numbered)
      (rw append_assoc at (Perm.append_right (waiting promises_of s.current_batch) h.owed))

-- From the construction on, whatever the interleaving: the promises settled so far, those of the
-- flushes in flight and those of the open batch are together those of the calls of `add`, each once.
-- So no promise is settled twice, and none is lost.
pub run-create-promises :
    {T : Type 0} (new_id : ℕ → String) (batch_size interval : JsNumber) (now : ℕ)
    (s : Accumulator T) (actions : List (Action T))
    → create batch_size interval now ≡ ok s
    → Perm (all_promises (run new_id actions s)) (iota (length (added actions)))
run-create-promises new_id batch_size interval now s actions h =
    let fresh =
      create_induction (λ s. IsNumbered s × (s.promises ≡ 0)) batch_size interval now s
        (λ n i p. (record { owed = Perm.refl []; numbered = refl }, refl)) h in
    let count : (run new_id actions s).promises ≡ length (added actions) =
      omega (arith, promises-run new_id actions s, fresh.1) in
    rw count at (all_promises-perm (run new_id actions s) (run-IsNumbered new_id actions s fresh.0))
