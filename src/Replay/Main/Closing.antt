-- ===== src/Replay/Main/Closing.antt =====
-- Both clients are closed, whatever fails.
use posta.Shared.{
  ◌≡◌, refl, ap, ℕ, String, Bool, true, false, List, [], ◌∷◌, ◌++◌, Option, none, some, ◌⊎◌, inl,
  inr, ltb, length, Outcome, ok, throw, Act, pure, raise, caught, try_catch, ◌>>=◌,
}
use posta.Shared.Thrown.{Thrown}
use posta.Shared.Triples.{Triple, Triple-bind, Triple-given}
use posta.Replay.Command.{ReplayCliResult}
use posta.Replay.Main.{
  MainDeps, caught_run, truthy, run_error, failures, exit_code_of, report_failures, run_opened,
}

pub data Client : Type 0 where
  r2_client db_client : Client

-- The clients that were closed, in their order, and the exit code that was set.
pub record Process : Type 0 where
  pub closed : List Client
  pub code : Option ℕ

-- What running the command and closing each client come to.
pub record Setting : Type 0 where
  pub outcome : List String → Thrown ⊎ ReplayCliResult
  pub r2_fails : Option Thrown
  pub db_fails : Option Thrown
  pub is_truthy : Thrown → Bool

abbrev pub answer : {A : Type 0} → Thrown ⊎ A → Outcome A
answer (inl e) = throw e
answer (inr a) = ok a

abbrev pub closing_outcome : Option Thrown → Outcome (Unit {0})
closing_outcome none = ok tt
closing_outcome (some e) = throw e

abbrev pub close : Client → Option Thrown → Act Process (Unit {0})
close client fails s = (closing_outcome fails, record s { closed = s.closed ++ client ∷ [] })

abbrev pub main_deps : Setting → MainDeps Process
main_deps setting = record {
  load_env = pure none;
  console_error = λ text. pure tt;
  set_exit_code = λ code s. (ok tt, record s { code = some code });
  create_db_client = pure tt;
  create_r2_client = pure tt;
  run_replay_cli = λ argv s. (answer (setting.outcome argv), s);
  destroy_r2_client = close r2_client setting.r2_fails;
  close_db = close db_client setting.db_fails;
  is_truthy = setting.is_truthy;
}

-- These clients are closed and no exit code is set.
pub record IsClosed (clients : List Client) (s : Process) : Type 0 where
  pub closed : s.closed ≡ clients
  pub code : s.code ≡ none

append_closed :
    (client : Client) (clients : List Client) (s : Process)
    → IsClosed clients s
    → IsClosed (clients ++ client ∷ []) (record s { closed = s.closed ++ client ∷ [] })
append_closed client clients s h = record {
  closed = ap (λ xs. xs ++ client ∷ []) h.closed;
  code = h.code;
}

-- The client is closed, whether or not that fails, and what it threw is kept as a value.
closing :
    (client : Client) (fails : Option Thrown) (clients : List Client) (E : Process → Type 0)
    → Triple
        (IsClosed clients)
        (caught (close client fails))
        (λ r s. IsClosed (clients ++ client ∷ []) s × (r ≡ fails))
        E
unfolding caught
closing client none clients E = record { at = λ s h. (append_closed client clients s h, refl) }
closing client (some e) clients E = record { at = λ s h. (append_closed client clients s h, refl) }

module _ (setting : Setting) (argv : List String) where
  -- One of the three did fail.
  abbrev pub any_failed : (run r2 db : Option Thrown) → Bool
  any_failed run r2 db = ltb 0 (length (failures (main_deps setting) run r2 db))

  -- The clients are closed, nothing failed, and this exit code is set.
  abbrev pub IsExited : (run r2 db : Option Thrown) → List Client → ℕ → Process → Type 0
  IsExited run r2 db clients code s =
      (s.closed ≡ clients) × (s.code ≡ some code) × (any_failed run r2 db ≡ false)

  -- The clients are closed, something failed, and no exit code is set.
  abbrev pub IsFailed : (run r2 db : Option Thrown) → List Client → Process → Type 0
  IsFailed run r2 db clients s = IsClosed clients s × (any_failed run r2 db ≡ true)

  report_failures-Triple :
      (run r2 db : Option Thrown) (clients : List Client) (code : ℕ)
      → Triple
          (IsClosed clients)
          (report_failures (main_deps setting) run r2 db code)
          (λ _. IsExited run r2 db clients code)
          (IsFailed run r2 db clients)
  unfolding raise
  report_failures-Triple none none none clients code = record { at = λ s h. (h.closed, refl, refl) }
  report_failures-Triple none none (some e) clients code = record { at = λ s h. (h, refl) }
  report_failures-Triple none (some e) none clients code = record { at = λ s h. (h, refl) }
  report_failures-Triple none (some e) (some f) clients code = record { at = λ s h. (h, refl) }
  report_failures-Triple (some e) none none clients code = record { at = λ s h. (h, refl) }
  report_failures-Triple (some e) none (some f) clients code = record { at = λ s h. (h, refl) }
  report_failures-Triple (some e) (some f) none clients code = record { at = λ s h. (h, refl) }
  report_failures-Triple (some e) (some f) (some g) clients code = record { at = λ s h. (h, refl) }

  -- The command's outcome is kept as a value.
  caught_run-Triple :
      (E : Process → Type 0) (r : Thrown ⊎ ReplayCliResult)
      → setting.outcome argv ≡ r
      → Triple
          (IsClosed [])
          (caught_run (main_deps setting) argv)
          (λ o s. IsClosed [] s × (o ≡ r))
          E
  unfolding try_catch ◌>>=◌ pure
  caught_run-Triple E (inl e) h = record { at = λ s p. rw h (p, refl) }
  caught_run-Triple E (inr a) h = record { at = λ s p. rw h (p, refl) }

  -- What the command, and the closing of each client, leave for `main` to throw.
  abbrev pub run_failure : Option Thrown
  run_failure = run_error (main_deps setting) (setting.outcome argv)

  abbrev pub closing_failure : Option Thrown → Option Thrown
  closing_failure fails = truthy (main_deps setting) fails

  -- Whatever the command and the closing of the two clients come to: after the clients were opened, `main` closes the
  -- storage client and then the database, each once. It returns if none of the three threw a value that `if` takes for
  -- one, with the exit code of the command (2 if the command threw another value); otherwise it throws, and no exit
  -- code is set.
  pub run_opened-IsClosed :
      Triple
        (IsClosed [])
        (run_opened (main_deps setting) argv)
        (λ _.
          IsExited run_failure
            (closing_failure setting.r2_fails)
            (closing_failure setting.db_fails)
            (r2_client ∷ db_client ∷ [])
            (exit_code_of (main_deps setting) (setting.outcome argv)))
        (IsFailed run_failure
          (closing_failure setting.r2_fails)
          (closing_failure setting.db_fails)
          (r2_client ∷ db_client ∷ []))
  unfolding run_opened
  run_opened-IsClosed = Triple-bind _ _ (caught_run-Triple _ (setting.outcome argv) refl) λ outcome.
      Triple-given λ e. Triple-bind _ _ (closing r2_client setting.r2_fails [] _) λ r2_error.
        Triple-given λ r.
          Triple-bind _ _ (closing db_client setting.db_fails (r2_client ∷ []) _)
            λ db_error. Triple-given λ d. rw (e, r, d) (report_failures-Triple _ _ _ _ _)
