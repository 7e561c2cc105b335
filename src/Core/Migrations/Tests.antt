-- ===== src/Core/Migrations/Tests.antt =====
-- Two migrations, of which the first is tracked.
use posta.Shared.Loops.{for_each}
use posta.Shared.{◌≡◌, refl, ℕ, true, false, [], ◌∷◌, none, some, ◌==◌, if◌then◌else◌, ◌>>=◌}
use posta.Shared.Thrown.{new_error}
use posta.Shared.Triples.{Triple}
use posta.Core.Migrations.{
  is_migration_filename, read_migration_file, list_migration_files, run_in_transaction, apply_file,
  run_sql_migrations, down_sql_migration,
}
use posta.Core.Migrations.Database.{Db, Session, Setting, find_checksum, database}
use posta.Core.Migrations.Transactions.{IsIdle, IsHalted}
use posta.Core.Migrations.Applied.{IsMigrated, IsCutShort, run_sql_migrations-IsMigrated}
use posta.Core.Migrations.Reverted.{revert_one, down_sql_migration-IsReverted}

-- The statement with this number fails.
abbrev failing : ℕ → Setting
failing n = record {
  fails = λ step. if step == n then some (new_error "lost") else none;
  names = "002_b.sql" ∷ "001_a.down.sql" ∷ "readme" ∷ "001_a.sql" ∷ [];
  contents = λ path. path;
  join_path = λ dir name. name;
  sha256 = λ content. content;
}

abbrev db : Db
db = record { tracked = ("001_a.sql", "001_a.sql") ∷ []; executed = "001_a.sql" ∷ [] }

abbrev session : Session
session = record { committed = db; working = none; steps = 0 }

filenames :
    (is_migration_filename "001_a.sql" ≡ true)
    × (is_migration_filename "01_a.sql" ≡ false)
    × (is_migration_filename "001_../x.sql" ≡ false)
filenames = (refl, refl, refl)

run-second :
    (run_sql_migrations (database (failing 100)) "m" session).1.committed.executed
    ≡ "001_a.sql" ∷ "002_b.sql" ∷ []
unfolding run_sql_migrations for_each list_migration_files apply_file read_migration_file
    run_in_transaction ◌>>=◌
run-second = refl

-- The INSERT of the second migration fails, after its script has run.
run-lost : (run_sql_migrations (database (failing 9)) "m" session).1.committed ≡ db
unfolding run_sql_migrations for_each list_migration_files apply_file read_migration_file
    run_in_transaction ◌>>=◌
run-lost = refl

run_sql_migrations-IsMigrated_example :
    Triple
      (IsIdle db)
      (run_sql_migrations (database (failing 9)) "m")
      (λ _. IsMigrated (failing 9) "m" db)
      (IsCutShort (failing 9) "m" db)
run_sql_migrations-IsMigrated_example = run_sql_migrations-IsMigrated (failing 9) "m" db

down_sql_migration-IsReverted_example :
    Triple
      (IsIdle db)
      (down_sql_migration (database (failing 5)) "001_a.sql" "m" true)
      (λ _ s.
        IsIdle (revert_one (failing 5) "m" db "001_a.sql") s
        × (find_checksum "001_a.sql" s.committed.tracked ≡ none))
      (IsHalted db (revert_one (failing 5) "m" db "001_a.sql"))
down_sql_migration-IsReverted_example =
    down_sql_migration-IsReverted (failing 5) "m" db "001_a.sql" true
