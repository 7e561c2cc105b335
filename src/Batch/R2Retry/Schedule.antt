-- ===== src/Batch/R2Retry/Schedule.antt =====
-- The attempts of `retryR2Put`, on every script of answers.
use posta.Shared.{
  ℕ, zero, suc, ◌+◌, ◌-◌, ◌*◌, ◌^◌, ◌≤◌, ◌<◌, ◌≡◌, refl, ap, ap₂, ◌∙◌, List, [], ◌∷◌, ◌++◌, map,
  Option, none, some, append_assoc, append-nil, All, length, arith, ok, ◌>>=◌,
}
use native.Mathlib.Nat.{add-zero, zero-add, suc-add}
use posta.Shared.Thrown.{Thrown, nat, undefined, to_error, error_message}
use posta.Batch.R2Retry.{
  classify_r2_error, retryable, non_retryable, R2RetryOptions, succeeded, failed, giving_up,
  exhausted, back_off, after_failure, put_attempts, run_put, retry_r2_put, validate_options,
}
use posta.Batch.R2Retry.Trace.{Trace, traced}

abbrev pub IsRetryable : Thrown → Type 0
IsRetryable e = classify_r2_error e ≡ retryable

-- `n` delays, the first that after attempt `k`: each twice the one before.
abbrev pub delays_from : (delay k n : ℕ) → List ℕ
delays_from delay k zero = []
delays_from delay k (suc n) = (delay * 2 ^ (k - 1)) ∷ delays_from delay (k + 1) n

abbrev last_of : Thrown → List Thrown → Thrown
last_of last [] = last
last_of last (e ∷ es) = last_of e es

module _ (max delay : ℕ) where
  one_failure :
      (left k : ℕ) (last e : Thrown) (s : List (Option Thrown)) (t : Trace)
      → IsRetryable e
      → k < max
      → put_attempts traced max delay (suc left) k last (record t { script = some e ∷ s })
        ≡ put_attempts traced max delay left (k + 1) e (record t {
          script = s;
          puts = t.puts + 1;
          delays = t.delays ++ (delay * 2 ^ (k - 1)) ∷ [];
        })
  unfolding put_attempts after_failure back_off ◌>>=◌
  one_failure left k last e s t h lt = ground arith

  retryable_prefix :
      (es : List Thrown) (left k : ℕ) (last : Thrown) (s : List (Option Thrown)) (t : Trace)
      → All IsRetryable es
      → k + length es ≤ max
      → put_attempts traced max delay
          (length es + left)
          k
          last
          (record t { script = map some es ++ s })
        ≡ put_attempts traced max delay left (k + length es) (last_of last es) (record t {
          script = s;
          puts = t.puts + length es;
          delays = t.delays ++ delays_from delay k (length es);
        })
  retryable_prefix [] left k last s t h fits = simp (zero-add, add-zero, append-nil)
  retryable_prefix (e ∷ es) left k last s t (h, hs) fits =
      let next : Trace = record t {
        puts = t.puts + 1;
        delays = t.delays ++ (delay * 2 ^ (k - 1)) ∷ [];
      } in
      let later : (k + 1) + length es ≡ k + suc (length es) = omega arith in
      let more : (t.puts + 1) + length es ≡ t.puts + suc (length es) = omega arith in
      rw suc-add (
        one_failure (length es + left) k last e (map some es ++ s) t h (omega arith)
        ∙ (retryable_prefix es left (k + 1) e s next hs (omega arith)
            ∙ rw (later, more, append_assoc)))

  success_at :
      (left k : ℕ) (last : Thrown) (s : List (Option Thrown)) (t : Trace)
      → put_attempts traced max delay (suc left) k last (record t { script = none ∷ s })
        ≡ (ok (succeeded k), record t { script = s; puts = t.puts + 1 })
  unfolding put_attempts ◌>>=◌
  success_at left k last s t = refl

  refusal_at :
      (left k : ℕ) (last e : Thrown) (s : List (Option Thrown)) (t : Trace)
      → classify_r2_error e ≡ non_retryable
      → put_attempts traced max delay (suc left) k last (record t { script = some e ∷ s }) ≡ (
        ok (failed (to_error e) k),
        record t {
          script = s;
          puts = t.puts + 1;
          logs = t.logs ++ giving_up k (error_message e) ∷ [];
        },
      )
  unfolding put_attempts after_failure ◌>>=◌
  refusal_at left k last e s t h = ground arith

  -- The last attempt: no delay follows it.
  last_failure :
      (last e : Thrown) (s : List (Option Thrown)) (t : Trace)
      → IsRetryable e
      → put_attempts traced max delay 1 max last (record t { script = some e ∷ s }) ≡ (
        ok (failed (to_error e) max),
        record t {
          script = s;
          puts = t.puts + 1;
          logs = t.logs ++ exhausted max (error_message e) ∷ [];
        },
      )
  unfolding put_attempts after_failure back_off ◌>>=◌
  last_failure last e s t h = ground arith

-- The state after `n` failures with a delay after each.
abbrev pub paused : ℕ → ℕ → List (Option Thrown) → Trace
paused delay n s = record {
  script = s;
  puts = n;
  delays = delays_from delay 1 n;
  logs = [];
  letters = [];
}

-- The state after `n` failures with a delay after each, and an answer that ends the loop.
abbrev pub after_delays : ℕ → ℕ → List (Option Thrown) → Trace
after_delays delay n s = record {
  script = s;
  puts = n + 1;
  delays = delays_from delay 1 n;
  logs = [];
  letters = [];
}

abbrev pub before : List (Option Thrown) → Trace
before s = record { script = s; puts = 0; delays = []; logs = []; letters = [] }

module _ (options : R2RetryOptions) (m delay : ℕ) (es : List Thrown) (s : List (Option Thrown))
    (valid : options.max_attempts ≡ nat (suc m)) (delayed : options.initial_delay_ms ≡ nat delay)
    (h : All IsRetryable es) where
  -- The run up to the attempt that ends it.
  run-eq :
      (left : ℕ)
      → suc m ≡ length es + left
      → 0 < left
      → retry_r2_put traced options (before (map some es ++ s))
        ≡ put_attempts traced
            (suc m)
            delay
            left
            (suc (length es))
            (last_of undefined es)
            (paused delay (length es) s)
  unfolding retry_r2_put run_put ◌>>=◌
  run-eq left fits more =
      let one_more : 1 + length es ≡ suc (length es) = omega arith in
      rw (ap₂ validate_options valid delayed) (
        ap (λ n. put_attempts traced (suc m) delay n 1 undefined (before (map some es ++ s))) fits
        ∙ (retryable_prefix (suc m) delay es left 1 undefined s (before (map some es ++ s)) h
              (omega arith)
            ∙ rw (one_more, zero-add)))

-- Where the PUT fails with retryable errors fewer times than there are attempts, and then succeeds,
-- `retryR2Put` answers success with that number of attempts: it waited after each failure, each
-- delay twice the one before, and made no further PUT.
pub retry_r2_put-succeeded :
    (options : R2RetryOptions) (m delay : ℕ) (es : List Thrown) (s : List (Option Thrown))
    → options.max_attempts ≡ nat (suc m)
    → options.initial_delay_ms ≡ nat delay
    → All IsRetryable es
    → length es ≤ m
    → retry_r2_put traced options (before (map some es ++ none ∷ s))
      ≡ (ok (succeeded (suc (length es))), after_delays delay (length es) s)
retry_r2_put-succeeded options m delay es s valid delayed h fits =
    run-eq options m delay es (none ∷ s) valid delayed h (suc (m - length es)) (omega arith)
      (omega arith)
    ∙ success_at (suc m) delay (m - length es) _ _ s (paused delay (length es) s)

-- Where such failures are followed by an error that is not retryable, `retryR2Put` answers failure
-- with that error and number of attempts, and logs it: it makes no further PUT.
pub retry_r2_put-refused :
    (options : R2RetryOptions) (m delay : ℕ) (es : List Thrown) (e : Thrown)
    (s : List (Option Thrown))
    → options.max_attempts ≡ nat (suc m)
    → options.initial_delay_ms ≡ nat delay
    → All IsRetryable es
    → length es ≤ m
    → classify_r2_error e ≡ non_retryable
    → retry_r2_put traced options (before (map some es ++ some e ∷ s)) ≡ (
      ok (failed (to_error e) (suc (length es))),
      record (after_delays delay (length es) s) {
        logs = giving_up (suc (length es)) (error_message e) ∷ [];
      },
    )
retry_r2_put-refused options m delay es e s valid delayed h fits refused =
    run-eq options m delay es (some e ∷ s) valid delayed h (suc (m - length es)) (omega arith)
      (omega arith)
    ∙ refusal_at (suc m) delay (m - length es) _ _ e s (paused delay (length es) s) refused

-- Where every attempt fails with a retryable error, `retryR2Put` answers failure with the last
-- error after exactly the configured number of PUTs, and no delay follows the last of them.
pub retry_r2_put-exhausted :
    (options : R2RetryOptions) (m delay : ℕ) (es : List Thrown) (e : Thrown)
    (s : List (Option Thrown))
    → options.max_attempts ≡ nat (suc m)
    → options.initial_delay_ms ≡ nat delay
    → All IsRetryable es
    → length es ≡ m
    → IsRetryable e
    → retry_r2_put traced options (before (map some es ++ some e ∷ s)) ≡ (
      ok (failed (to_error e) (suc m)),
      record (after_delays delay m s) { logs = exhausted (suc m) (error_message e) ∷ [] },
    )
retry_r2_put-exhausted options m delay es e s valid delayed h full last =
    run-eq options m delay es (some e ∷ s) valid delayed h 1 (omega arith) (omega arith)
    ∙ rw full (last_failure (suc m) delay _ e s (paused delay m s) last)
