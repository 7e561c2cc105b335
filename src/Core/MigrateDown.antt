-- ===== src/Core/MigrateDown.antt =====
-- packages/core/src/db/migrate-down.ts: the newest applied migration that has a script to revert it is reverted. The
-- file system and the tracking table are parameters; the table answers its names the newest first.
pub mod Newest
mod Tests
use posta.Shared.{
  String, Bool, true, false, List, [], ◌∷◌, Option, none, some, if◌then◌else◌, str_eq, Act, pure,
  raise, ◌>>=◌, ◌>>◌,
}
use posta.Shared.Thrown.{new_error}
use posta.Core.Migrations.{SqlDeps, down_filename_for, down_sql_migration}

pub record DownDeps (W : Type 0) : Type 0 where
  pub sql : SqlDeps W
  -- `SELECT EXISTS` on the tracking table.
  pub table_exists : Act W Bool
  -- `SELECT filename … ORDER BY filename DESC`
  pub applied_filenames : Act W (List String)
  pub exists_sync : String → Act W Bool
  pub default_migrations_dir : String

pub record MigrateDownOptions : Type 0 where
  pub sql_migrations_dir : Option String
  pub force : Option Bool

abbrev pub flag : Option Bool → Bool
flag none = false
flag (some force) = force

module _ {W : Type 0} (deps : DownDeps W) where
  abbrev pub migrations_dir_of : Option String → String
  migrations_dir_of none = deps.default_migrations_dir
  migrations_dir_of (some dir) = dir

  abbrev pub down_path : (migrations_dir filename : String) → String
  down_path migrations_dir filename = deps.sql.join_path migrations_dir (down_filename_for filename)

  unfoldable pub first_revertible : String → List String → Act W (Option String)
  first_revertible migrations_dir [] = pure none
  first_revertible migrations_dir (filename ∷ rows) = do
    exists ← deps.exists_sync (down_path migrations_dir filename)
    if exists then pure (some filename) else first_revertible migrations_dir rows

  unfoldable pub find_newest_revertible_migration : String → Act W (Option String)
  find_newest_revertible_migration migrations_dir = do
    exists ← deps.table_exists
    if exists then deps.applied_filenames >>= first_revertible migrations_dir else pure none

  abbrev pub nothing_to_revert : Act W String
  nothing_to_revert = raise (
      new_error
        "migrateDown: nothing to revert — no applied hand-written SQL migration has a .down.sql pair on disk.")

  -- `if (!filename)` is also true of the empty name.
  abbrev pub revert_found : String → Bool → Option String → Act W String
  revert_found migrations_dir force none = nothing_to_revert
  revert_found migrations_dir force (some filename) =
      if str_eq filename ""
      then nothing_to_revert
      else down_sql_migration deps.sql filename migrations_dir force >> pure filename

  unfoldable pub migrate_down : MigrateDownOptions → Act W String
  migrate_down options = do
    filename ← find_newest_revertible_migration (migrations_dir_of options.sql_migrations_dir)
    revert_found (migrations_dir_of options.sql_migrations_dir) (flag options.force) filename
