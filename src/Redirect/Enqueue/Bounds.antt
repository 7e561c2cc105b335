-- ===== src/Redirect/Enqueue/Bounds.antt =====
-- The number of calls under way stays in bounds, and no call goes uncounted.
use posta.Shared.{
  arith, ◌≡◌, refl, sym, ap, ℕ, zero, suc, ◌+◌, ◌≤◌, List, [], ◌∷◌, Option, none, some, length,
  length-append, leb, leb→le, false, Bool-cases, inl, inr, subst,
}
use posta.Redirect.Enqueue.{
  Enqueuer, EnqueueAction, enqueues, settles, or_default, create_enqueue_capture, enqueue_capture,
  settled_at, finish, settle_add, enqueue_step, run_enqueuer, calls, keep,
}

room_left :
    (bound counter max count : ℕ)
    → leb bound counter ≡ false
    → bound ≡ max
    → counter ≡ count
    → suc count ≤ max
room_left bound counter max count room e f = ground (arith, room, e, f)

module _ {P : Type 0} where
  -- After `n` calls: the counter is the number of those under way, which is within the bound; each was added or
  -- dropped, and none dropped as long as they were no more than the bound.
  pub record IsCounted (max n : ℕ) (s : Enqueuer P) : Type 0 where
    pub bound : s.max_inflight ≡ max
    pub counts : s.inflight ≡ length s.outstanding
    pub within : length s.outstanding ≤ max
    pub known : length s.outstanding ≤ length s.added
    pub balanced : length s.added + s.dropped ≡ n
    pub lossless : n ≤ max → s.dropped ≡ 0

  -- What is left when one of `n` calls has settled.
  abbrev IsOneLess : ℕ → Option (List P) → Type 0
  IsOneLess n none = Unit {0}
  IsOneLess n (some rest) = n ≡ suc (length rest)

  keep-IsOneLess :
      (p : P) (n : ℕ) (o : Option (List P)) → IsOneLess n o → IsOneLess (suc n) (keep p o)
  keep-IsOneLess p n none h = tt
  keep-IsOneLess p n (some rest) h = ap suc h

  settled_at-IsOneLess : (ps : List P) (i : ℕ) → IsOneLess (length ps) (settled_at ps i)
  settled_at-IsOneLess [] i = tt
  settled_at-IsOneLess (p ∷ ps) zero = refl
  settled_at-IsOneLess (p ∷ ps) (suc i) =
      keep-IsOneLess p (length ps) (settled_at ps i) (settled_at-IsOneLess ps i)

  finish-IsCounted :
      (max n : ℕ) (s : Enqueuer P) (o : Option (List P))
      → IsCounted max n s
      → IsOneLess (length s.outstanding) o
      → IsCounted max n (finish o s)
  finish-IsCounted max n s none h l = h
  finish-IsCounted max n s (some rest) h l = record {
    bound = h.bound;
    counts = omega (arith, h.counts, l);
    within = omega (arith, h.within, l);
    known = omega (arith, h.known, l);
    balanced = h.balanced;
    lossless = h.lossless;
  }

  enqueue_capture-IsCounted :
      (max n : ℕ) (payload : P) (s : Enqueuer P)
      → IsCounted max n s
      → IsCounted max (n + 1) (enqueue_capture payload s)
  unfolding enqueue_capture
  enqueue_capture-IsCounted max n payload s h = elim (Bool-cases (leb s.max_inflight s.inflight)) [
    | inl full ↦ rw full (record {
      bound = h.bound;
      counts = h.counts;
      within = h.within;
      known = h.known;
      balanced = omega (arith, h.balanced);
      lossless = λ m.
          omega
            (arith, h.counts, h.known, h.balanced, h.bound, leb→le s.max_inflight s.inflight full);
    })
    | inr room ↦ rw room (record {
      bound = h.bound;
      counts = omega (arith, h.counts);
      within = room_left s.max_inflight s.inflight _ _ room h.bound h.counts;
      known = rw (length-append s.added (payload ∷ [])) (omega (arith, h.known));
      balanced = rw (length-append s.added (payload ∷ [])) (omega (arith, h.balanced));
      lossless = λ m. h.lossless (omega arith);
    })
  ]

  enqueue_step-IsCounted :
      (max n : ℕ) (a : EnqueueAction P) (s : Enqueuer P)
      → IsCounted max n s
      → IsCounted max (n + calls (a ∷ [])) (enqueue_step a s)
  unfolding enqueue_step calls settle_add
  enqueue_step-IsCounted max n (enqueues payload) s h = enqueue_capture-IsCounted max n payload s h
  enqueue_step-IsCounted max n (settles i) s h =
      subst (λ m. IsCounted max m (finish (settled_at s.outstanding i) s)) (sym (ground arith))
        (finish-IsCounted max n s _ h (settled_at-IsOneLess s.outstanding i))

  calls_after :
      (a : EnqueueAction P) (actions : List (EnqueueAction P))
      → calls (a ∷ actions) ≡ calls (a ∷ []) + calls actions
  unfolding calls
  calls_after (enqueues payload) actions = omega arith
  calls_after (settles i) actions = omega arith

  run_from :
      (max n : ℕ) (actions : List (EnqueueAction P)) (s : Enqueuer P)
      → IsCounted max n s
      → IsCounted max (n + calls actions) (run_enqueuer actions s)
  unfolding run_enqueuer calls
  run_from max n [] s h = subst (λ m. IsCounted max m s) (sym (omega arith)) h
  run_from max n (a ∷ actions) s h =
      subst (λ m. IsCounted max m (run_enqueuer actions (enqueue_step a s)))
        (omega (arith, calls_after a actions))
        (run_from max (n + calls (a ∷ [])) actions (enqueue_step a s)
          (enqueue_step-IsCounted max n a s h))

  created : (max : Option ℕ) → IsCounted (or_default max) 0 (create_enqueue_capture max)
  unfolding create_enqueue_capture
  created max = record {
    bound = refl;
    counts = refl;
    within = omega arith;
    known = omega arith;
    balanced = omega arith;
    lossless = λ m. refl;
  }

  -- In any interleaving of calls of a fresh `enqueueCapture` with the answers of the queue, the counter is the
  -- number of `queue.add` calls that have not settled and never exceeds the bound, each call was either given to
  -- the queue or counted as dropped, and none was dropped if there were no more calls than the bound.
  pub run_enqueuer-IsCounted :
      (max : Option ℕ) (actions : List (EnqueueAction P))
      → IsCounted
          (or_default max)
          (calls actions)
          (run_enqueuer actions (create_enqueue_capture max))
  run_enqueuer-IsCounted max actions =
      subst (λ n. IsCounted (or_default max) n (run_enqueuer actions (create_enqueue_capture max)))
        (omega arith)
        (run_from (or_default max) 0 actions (create_enqueue_capture max) (created max))
