-- ===== src/Core/Migrations.antt =====
-- packages/core/src/db/sql-migrate.ts: hand-written migrations are applied in order, each in a transaction of its
-- own, and tracked by name and checksum. The file system, the statements of the database and the hash are parameters;
-- `release` is told of an error where the connection is to be discarded.
pub mod Database
pub mod Transactions
pub mod Files
pub mod Applied
pub mod Reverted
mod Tests
use posta.Shared.Loops.{for_each}
use Prim.Native.Char.{code}
use Prim.Native.String
use Prim.Native.Nat.{Ordering}
use posta.Shared.{
  ℕ, String, Bool, true, false, not, ◌&&◌, ◌||◌, List, [], ◌∷◌, Option, none, some, select,
  if◌then◌else◌, leb, ◌==◌, str_eq, Act, pure, raise, caught, try_catch, ◌>>=◌, ◌>>◌,
}
use posta.Shared.Text.{concat, is_some, strip_suffix}
use posta.Shared.Chars.{every}
use posta.Shared.Thrown.{Thrown, new_error, error_message, to_error}

pub record SqlDeps (W : Type 0) : Type 0 where
  pub read_dir : String → Act W (List String)
  pub read_file : String → Act W String
  pub join_path : String → String → String
  pub sha256 : String → String
  -- `CREATE TABLE IF NOT EXISTS`, and the checksum of a name, outside of any transaction.
  pub create_tracking_table : Act W (Unit {0})
  pub select_checksum : String → Act W (Option String)
  -- The statements of a connection.
  pub connect : Act W (Unit {0})
  pub begin : Act W (Unit {0})
  pub commit : Act W (Unit {0})
  pub rollback : Act W (Unit {0})
  pub release : Option Thrown → Act W (Unit {0})
  pub execute : String → Act W (Unit {0})
  pub set_force : Bool → Act W (Unit {0})
  pub insert_tracking : (filename checksum : String) → Act W (Unit {0})
  pub delete_tracking : String → Act W (Unit {0})

abbrev pub is_lower_or_digit : ℕ → Bool
is_lower_or_digit n = leb 97 n && leb n 122 || leb 48 n && leb n 57 || n == 95

abbrev pub is_digit_code : ℕ → Bool
is_digit_code n = leb 48 n && leb n 57

abbrev pub name_part : Option String → Bool
name_part none = false
name_part (some name) = not (str_eq name "") && every is_lower_or_digit name

-- `MIGRATION_FILENAME_PATTERN.test(filename)`
abbrev pub is_migration_filename : String → Bool
is_migration_filename (String.◌∷◌ a (String.◌∷◌ b (String.◌∷◌ c (String.◌∷◌ d rest)))) =
    is_digit_code (code a)
    && is_digit_code (code b)
    && is_digit_code (code c)
    && code d == 95
    && name_part (strip_suffix ".sql" rest)
is_migration_filename _ = false

-- `files.sort()`
abbrev pub before : String → String → Bool
before s t = elim (String.compare s t) [ Ordering.gt ↦ false | _ ↦ true ]

abbrev pub sorted_insert : String → List String → List String
sorted_insert s [] = s ∷ []
sorted_insert s (t ∷ ts) =
    let rest = sorted_insert s ts in if before s t then s ∷ t ∷ ts else t ∷ rest

abbrev pub sort : List String → List String
sort [] = []
sort (s ∷ ss) = sorted_insert s (sort ss)

abbrev pub is_up_migration : String → Bool
is_up_migration name =
    is_some (strip_suffix ".sql" name) && not (is_some (strip_suffix ".down.sql" name))

abbrev pub down_filename_for : String → String
down_filename_for filename = elim (strip_suffix ".sql" filename) [
  | some name ↦ String.◌++◌ name ".down.sql"
  | none ↦ filename
]

module _ {W : Type 0} (deps : SqlDeps W) where
  unfoldable pub assert_safe_migration_filename : String → Act W (Unit {0})
  assert_safe_migration_filename filename =
      if not (is_migration_filename filename)
      then raise (
          new_error (
            concat (
              "Invalid migration filename \"" ∷ filename
              ∷ "\": must match NNN_name.sql — refusing to use it to construct a filesystem path."
              ∷ [])))
      else pure tt

  unfoldable pub read_migration_file : (full_path filename : String) → Act W String
  read_migration_file full_path filename = try_catch (deps.read_file full_path) λ e. raise (
      new_error
        (concat ("Failed to read migration file \"" ∷ filename ∷ "\": " ∷ error_message e ∷ [])))

  unfoldable pub list_migration_files : String → Act W (List String)
  list_migration_files migrations_dir = do
    names ← deps.read_dir migrations_dir
    pure (sort (select is_up_migration names))

  abbrev pub after_rollback : String → Thrown → Option Thrown → Act W (Unit {0})
  after_rollback context e none = raise (new_error (concat (context ∷ ": " ∷ error_message e ∷ [])))
  after_rollback context e (some rollback_error) = do
    deps.release (some (to_error rollback_error))
    raise (
        new_error (
          concat (
            context
            ∷ ": "
            ∷ error_message e
            ∷ ". Additionally, ROLLBACK itself failed: "
            ∷ error_message rollback_error
            ∷ " — the connection has been discarded, not returned to the pool."
            ∷ [])))

  abbrev pub roll_back : String → Thrown → Act W (Unit {0})
  roll_back context e = caught (deps.rollback >> deps.release none) >>= after_rollback context e

  unfoldable pub run_in_transaction : Act W (Unit {0}) → String → Act W (Unit {0})
  run_in_transaction work context = do
    deps.connect
    try_catch (deps.begin >> work >> deps.commit >> deps.release none) (roll_back context)

  abbrev pub apply_work : (filename content : String) → Act W (Unit {0})
  apply_work filename content = do
    deps.execute content
    deps.insert_tracking filename (deps.sha256 content)

  abbrev pub apply_unless : (filename content : String) → Option String → Act W (Unit {0})
  apply_unless filename content (some checksum) =
      if not (str_eq checksum (deps.sha256 content))
      then raise (
          new_error (
            concat (
              "Migration \"" ∷ filename
              ∷ "\" has already been applied, but its content has changed since then (checksum mismatch)."
              ∷ " An applied migration must never be edited — add a NEW migration file instead."
              ∷ [])))
      else pure tt
  apply_unless filename content none =
      run_in_transaction (apply_work filename content)
        (concat ("Failed to apply migration \"" ∷ filename ∷ "\"" ∷ []))

  unfoldable pub apply_file : String → String → Act W (Unit {0})
  apply_file migrations_dir filename = do
    content ← read_migration_file (deps.join_path migrations_dir filename) filename
    existing ← deps.select_checksum filename
    apply_unless filename content existing

  unfoldable pub run_sql_migrations : String → Act W (Unit {0})
  run_sql_migrations migrations_dir = do
    deps.create_tracking_table
    files ← list_migration_files migrations_dir
    for_each (apply_file migrations_dir) files

  abbrev pub down_work : (filename content : String) → Bool → Act W (Unit {0})
  down_work filename content force = do
    deps.set_force force
    deps.execute content
    deps.delete_tracking filename

  unfoldable pub down_sql_migration : (filename migrations_dir : String) → Bool → Act W (Unit {0})
  down_sql_migration filename migrations_dir force = do
    assert_safe_migration_filename filename
    content ←
        read_migration_file (deps.join_path migrations_dir (down_filename_for filename))
          (down_filename_for filename)
    run_in_transaction (down_work filename content force)
        (concat ("Failed to roll back migration \"" ∷ filename ∷ "\"" ∷ []))
