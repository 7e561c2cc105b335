-- ===== src/Replay/Main/Tests.antt =====
-- The command fails, and so does closing the storage client.
use posta.Shared.{
  ◌≡◌, refl, true, false, [], ◌∷◌, none, some, inl, inr, ok, throw, pure, raise, caught, try_catch,
  ◌>>=◌,
}
use posta.Shared.Thrown.{new_error}
use posta.Shared.Triples.{Triple}
use posta.Replay.Main.{missing_addressing, run_opened, exit_code_of, main}
use posta.Replay.Main.Closing.{
  r2_client, db_client, Process, Setting, main_deps, IsClosed, IsExited, IsFailed,
  run_opened-IsClosed, run_failure, closing_failure,
}

abbrev failing : Setting
failing = record {
  outcome = λ argv. inl (new_error "the command");
  r2_fails = some (new_error "the storage");
  db_fails = none;
  is_truthy = λ e. true;
}

abbrev succeeding : Setting
succeeding = record {
  outcome = λ argv. inr (record { exit_code = 1; matched_count = none; summary = none });
  r2_fails = none;
  db_fails = none;
  is_truthy = λ e. true;
}

abbrev unset : Process
unset = record { closed = []; code = none }

test_missing : missing_addressing false false ≡ "R2_ENDPOINT" ∷ "R2_ACCOUNT_ID" ∷ []
test_missing = refl

test_both_fail : run_opened (main_deps failing) [] unset ≡ (
  throw (
      new_error
        "posta replay: multiple failures — the replay itself failed with \"the command\"; then, separately, closing the R2 client failed with \"the storage\"."),
  record { closed = r2_client ∷ db_client ∷ []; code = none },
)
unfolding run_opened try_catch caught ◌>>=◌ pure raise
test_both_fail = refl

test_exit_code :
    main (main_deps succeeding) [] unset
    ≡ (ok tt, record { closed = r2_client ∷ db_client ∷ []; code = some 1 })
unfolding run_opened main try_catch caught ◌>>=◌ pure raise
test_exit_code = refl

run_opened-IsClosed_example :
    Triple
      (IsClosed [])
      (run_opened (main_deps failing) [])
      (λ _.
        IsExited failing []
          (run_failure failing [])
          (closing_failure failing [] failing.r2_fails)
          (closing_failure failing [] failing.db_fails)
          (r2_client ∷ db_client ∷ [])
          (exit_code_of (main_deps failing) (failing.outcome [])))
      (IsFailed failing []
        (run_failure failing [])
        (closing_failure failing [] failing.r2_fails)
        (closing_failure failing [] failing.db_fails)
        (r2_client ∷ db_client ∷ []))
run_opened-IsClosed_example = run_opened-IsClosed failing []
