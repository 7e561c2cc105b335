-- ===== src/Consumer/Shutdown/Drained.antt =====
-- A shutdown ends, and says so where it leaves work behind.
use posta.Shared.{
  ◌≡◌, refl, arith, ℕ, zero, suc, ◌≤◌, ◌<◌, true, false, ◌||◌, ◌⊎◌, ltb→lt, ltb, Bool-cases, inl,
  inr, Act, Outcome, ok, throw, stuck, pure, no_fuel, continue, ◌>>=◌,
}
use posta.Shared.Triples.{After, Triple, Triple-pure, Triple-bind, Triple-try_catch, Triple-weaken}
use posta.Consumer.Shutdown.{
  ShutdownLog, ShutdownDeps, ShutdownResult, drained, exceeded, broken, is_busy, wait_for_jobs,
  drain_round, drain_loop, drain, settled, with_timeout, safe_log, after_drain, on_module_destroy,
  drain_poll_interval_ms,
}

-- No job is in flight and no event waits in the accumulator.
pub record IsDrained {W : Type 0} (deps : ShutdownDeps W) (w : W) : Type 0 where
  pub no_jobs : deps.pending_job_count w ≡ 0
  pub no_events : deps.size w ≡ 0

-- A line that is logged is `Reported`, even where the logger throws.
pub record IsLogging {W : Type 0} (Reported : W → Type 0) (deps : ShutdownDeps W) : Type 0 where
  pub logs : (l : ShutdownLog) → Triple (λ _. Unit {0}) (deps.log_error l) (λ _. Reported) Reported

idle : (a b : ℕ) → (ltb 0 a || ltb 0 b) ≡ false → (a ≡ 0) × (b ≡ 0)
idle a b h = ground (arith, h)

module _ {W : Type 0} (deps : ShutdownDeps W) where
  is_busy-IsDrained : (w : W) → is_busy deps w ≡ false → IsDrained deps w
  is_busy-IsDrained w h =
      let (p, s) = idle (deps.pending_job_count w) (deps.size w) h in
      record { no_jobs = p; no_events = s }

  -- The drain has come to an end with nothing left, or not (yet).
  abbrev Ended : Outcome (Unit {0}) → W → Type 0
  Ended (ok a) w = IsDrained deps w
  Ended (throw e) w = Unit {0}
  Ended stuck w = Unit {0}

  Ended-continue :
      (r : Outcome (Unit {0})) (f : Unit {0} → Act W (Unit {0})) (w : W)
      → ((a : Unit {0}) (w : W) → Ended (f a w).0 (f a w).1)
      → Ended (continue r f w).0 (continue r f w).1
  Ended-continue (ok a) f w h = h a w
  Ended-continue (throw e) f w h = tt
  Ended-continue stuck f w h = tt

  drain_loop-Ended :
      (rounds : ℕ) (w : W) → Ended (drain_loop deps rounds w).0 (drain_loop deps rounds w).1
  unfolding drain_loop pure no_fuel ◌>>=◌
  drain_loop-Ended zero w = elim (Bool-cases (is_busy deps w)) [
    | inl busy ↦ rw busy tt
    | inr rest ↦ rw rest (is_busy-IsDrained w rest)
  ]
  drain_loop-Ended (suc rounds) w = elim (Bool-cases (is_busy deps w)) [
    | inl busy ↦
        rw busy (Ended-continue (drain_round deps w).0 _ _ (λ _ v. drain_loop-Ended rounds v))
    | inr rest ↦ rw rest (is_busy-IsDrained w rest)
  ]

  drain-Ended : (rounds : ℕ) (w : W) → Ended (drain deps rounds w).0 (drain deps rounds w).1
  unfolding drain ◌>>=◌
  drain-Ended rounds w = Ended-continue (deps.pause w).0 _ _ (λ _ v. drain_loop-Ended rounds v)

  settled-After :
      (r : Outcome (Unit {0})) (w : W)
      → Ended r w
      → After
          (λ a v. (a ≡ drained → IsDrained deps v))
          (λ _. ⊥)
          (settled deps r w).0
          (settled deps r w).1
  settled-After (ok a) w h = λ _. h
  settled-After (throw e) w h = λ same. cc
  settled-After stuck w h = λ same. cc

  module _ {Reported : W → Type 0} (logging : IsLogging Reported deps) where
    -- Nothing is left, or a line says why.
    abbrev Settled : W → Type 0
    Settled w = IsDrained deps w ⊎ Reported w

    safe_log-Triple :
        (l : ShutdownLog) → Triple (λ _. Unit {0}) (safe_log deps l) (λ _. Reported) (λ _. ⊥)
    unfolding safe_log
    safe_log-Triple l = Triple-try_catch _ _ (logging.logs l) (λ e. Triple-pure tt)

    reported :
        (l : ShutdownLog) (P : W → Type 0) → Triple P (safe_log deps l) (λ _. Settled) (λ _. ⊥)
    reported l P = Triple-weaken _ (safe_log-Triple l) (λ _ _. tt) (λ _ _ r. inr r) (λ _ n. n)

    after_drain-Triple :
        (result : ShutdownResult)
        → Triple
            (λ w. result ≡ drained → IsDrained deps w)
            (after_drain deps result)
            (λ _. Settled)
            (λ _. ⊥)
    after_drain-Triple drained =
        Triple-weaken _ (Triple-pure {Q = λ _. Settled} tt) (λ w h. inl (h refl)) (λ _ _ p. p)
          (λ _ n. n)
    after_drain-Triple exceeded = reported _ _
    after_drain-Triple (broken e) = reported _ _

    -- Whatever the drain meets (a pause or a flush that throws, a timer that fires after any number of rounds, a
    -- logger that throws), `onModuleDestroy` ends without throwing, and no job is in flight and no event waits, or a
    -- line was logged.
    pub on_module_destroy-Settles :
        (rounds : ℕ)
        → Triple
            (λ _. Unit {0})
            (on_module_destroy deps rounds)
            (λ _ w. IsDrained deps w ⊎ Reported w)
            (λ _. ⊥)
    unfolding on_module_destroy with_timeout
    on_module_destroy-Settles rounds =
        Triple-bind _ _ (record { at = λ w _. settled-After _ _ (drain-Ended rounds w) })
          after_drain-Triple

-- What progress asks of the collaborators. `left` measures the work: a flush adds none, and gets some done if
-- it leaves no job in flight; a sleep with a job in flight gets some done; once paused, the consumer starts
-- nothing new. None of them throws.
pub record IsProgressing {W : Type 0} (left : W → ℕ) (deps : ShutdownDeps W) : Type 0 where
  pub pauses : (n : ℕ) → Triple (λ w. left w ≤ n) deps.pause (λ _ w. left w ≤ n) (λ _. ⊥)
  pub flushes :
      (n : ℕ)
      → Triple
          (λ w. (is_busy deps w ≡ true) × (left w ≤ suc n))
          deps.flush_now
          (λ _ w. (left w ≤ suc n) × (deps.pending_job_count w ≡ 0 → left w ≤ n))
          (λ _. ⊥)
  pub sleeps :
      (n : ℕ)
      → Triple
          (λ w. (0 < deps.pending_job_count w) × (left w ≤ suc n))
          (deps.sleep drain_poll_interval_ms)
          (λ _ w. left w ≤ n)
          (λ _. ⊥)
  pub idles : (w : W) → left w ≡ 0 → is_busy deps w ≡ false

not_pos : (a : ℕ) → ltb 0 a ≡ false → a ≡ 0
not_pos a h = ground (arith, h)

module _ {W : Type 0} (deps : ShutdownDeps W) (left : W → ℕ)
    (progress : IsProgressing left deps) where
  wait-Triple :
      (n : ℕ)
      → Triple
          (λ w. (left w ≤ suc n) × (deps.pending_job_count w ≡ 0 → left w ≤ n))
          (wait_for_jobs deps)
          (λ _ w. left w ≤ n)
          (λ _. ⊥)
  unfolding pure
  wait-Triple n = record {
    at = λ w (h, k). elim (Bool-cases (ltb 0 (deps.pending_job_count w))) [
      | inl some ↦ rw some ((progress.sleeps n).at w (ltb→lt _ _ some, h))
      | inr none ↦ rw none (k (not_pos (deps.pending_job_count w) none))
    ];
  }

  round-Triple :
      (n : ℕ)
      → Triple
          (λ w. (is_busy deps w ≡ true) × (left w ≤ suc n))
          (drain_round deps)
          (λ _ w. left w ≤ n)
          (λ _. ⊥)
  unfolding drain_round
  round-Triple n = Triple-bind _ _ (progress.flushes n) λ _. wait-Triple n

  drain_loop-Triple :
      (n : ℕ) → Triple (λ w. left w ≤ n) (drain_loop deps n) (λ _ w. IsDrained deps w) (λ _. ⊥)
  unfolding drain_loop pure
  drain_loop-Triple zero = record {
    at = λ w h.
        rw (progress.idles w (omega arith))
          (is_busy-IsDrained deps w (progress.idles w (omega arith)));
  }
  drain_loop-Triple (suc n) = record {
    at = λ w h. elim (Bool-cases (is_busy deps w)) [
      | inl busy ↦ rw busy (
          (Triple-bind (drain_round deps) _ (round-Triple n) (λ _. drain_loop-Triple n)).at w
            (busy, h))
      | inr rest ↦ rw rest (is_busy-IsDrained deps w rest)
    ];
  }

  -- Where the paused consumer takes no new job, and each flush or sleep gets some of the work done, as many rounds
  -- as there is work are enough: the drain returns, with no job in flight and no event waiting.
  pub drain-Drains :
      (n : ℕ) → Triple (λ w. left w ≤ n) (drain deps n) (λ _ w. IsDrained deps w) (λ _. ⊥)
  unfolding drain
  drain-Drains n = Triple-bind _ _ (progress.pauses n) λ _. drain_loop-Triple n
