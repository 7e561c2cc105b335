-- ===== src/Replay/Main.antt =====
-- apps/worker/src/cli/replay.ts: main, which opens the clients, runs the command, and closes them. Whether a thrown
-- value counts as one under `if` is a parameter.
pub mod Closing
mod Tests
use posta.Shared.{
  ℕ, ◌+◌, String, Bool, true, false, List, [], ◌∷◌, ◌++◌, Option, none, some, length, if◌then◌else◌,
  ltb, ◌⊎◌, inl, inr, Act, pure, raise, caught, try_catch, ◌>>=◌, ◌>>◌,
}
use posta.Shared.Text.{concat, join}
use posta.Shared.Thrown.{Thrown, new_error, error_message}
use posta.Replay.Command.{ReplayCliResult, exit_args_error, exit_runtime_error}

pub record MainDeps (W : Type 0) : Type 0 where
  -- `loadEnv(…)`: what `formatEnvFailures` prints, or nothing where the environment is good.
  pub load_env : Act W (Option String)
  pub console_error : String → Act W (Unit {0})
  pub set_exit_code : ℕ → Act W (Unit {0})
  pub create_db_client : Act W (Unit {0})
  pub create_r2_client : Act W (Unit {0})
  pub run_replay_cli : List String → Act W ReplayCliResult
  pub destroy_r2_client : Act W (Unit {0})
  pub close_db : Act W (Unit {0})
  pub is_truthy : Thrown → Bool

-- `R2_ENDPOINT` and `R2_ACCOUNT_ID`, of which at least one is to be given: the names that an issue is added for.
abbrev pub missing_addressing : (endpoint_given account_given : Bool) → List String
missing_addressing true account_given = []
missing_addressing false true = []
missing_addressing false false = "R2_ENDPOINT" ∷ "R2_ACCOUNT_ID" ∷ []

module _ {W : Type 0} (deps : MainDeps W) where
  abbrev pub caught_run : List String → Act W (Thrown ⊎ ReplayCliResult)
  caught_run argv =
      try_catch (deps.run_replay_cli argv >>= λ result. pure (inr result)) λ e. pure (inl e)

  -- `if (error)`
  abbrev pub truthy : Option Thrown → Option Thrown
  truthy none = none
  truthy (some e) = if deps.is_truthy e then some e else none

  abbrev pub run_error : Thrown ⊎ ReplayCliResult → Option Thrown
  run_error (inl e) = truthy (some e)
  run_error (inr result) = none

  abbrev pub describe_failure : String → Option Thrown → List String
  describe_failure what none = []
  describe_failure what (some e) =
      concat (what ∷ " failed with \"" ∷ error_message e ∷ "\"" ∷ []) ∷ []

  abbrev pub failures : (run r2 db : Option Thrown) → List String
  failures run r2 db =
      describe_failure "the replay itself" run
      ++ describe_failure "closing the R2 client" r2
      ++ describe_failure "closing the db pool" db

  -- `result?.exitCode ?? EXIT_RUNTIME_ERROR`
  abbrev pub exit_code_of : Thrown ⊎ ReplayCliResult → ℕ
  exit_code_of (inl e) = exit_runtime_error
  exit_code_of (inr result) = result.exit_code

  abbrev pub conclude : (run r2 db : Option Thrown) → ℕ → Act W (Unit {0})
  conclude (some e) r2 db code = raise e
  conclude none (some e) db code = raise e
  conclude none none (some e) code = raise e
  conclude none none none code = deps.set_exit_code code

  abbrev pub report_failures : (run r2 db : Option Thrown) → ℕ → Act W (Unit {0})
  report_failures run r2 db code =
      if ltb 1 (length (failures run r2 db))
      then raise (
          new_error (
            concat (
              "posta replay: multiple failures — "
              ∷ join "; then, separately, " (failures run r2 db)
              ∷ "."
              ∷ [])))
      else conclude run r2 db code

  unfoldable pub run_opened : List String → Act W (Unit {0})
  run_opened argv = do
    outcome ← caught_run argv
    r2_close_error ← caught deps.destroy_r2_client
    db_close_error ← caught deps.close_db
    report_failures (run_error outcome) (truthy r2_close_error) (truthy db_close_error)
        (exit_code_of outcome)

  abbrev pub after_env : List String → Option String → Act W (Unit {0})
  after_env argv (some printed) = do deps.console_error printed; deps.set_exit_code exit_args_error
  after_env argv none = do deps.create_db_client; deps.create_r2_client; run_opened argv

  pub main : List String → Act W (Unit {0})
  main argv = deps.load_env >>= after_env argv

  -- What runs where the file is the program.
  pub start_program : List String → Act W (Unit {0})
  start_program argv = try_catch (main argv) λ e.
      deps.console_error (concat ("posta replay: fatal error: " ∷ error_message e ∷ []))
      >> deps.set_exit_code exit_runtime_error
