-- ===== src/Core/MigrateDown/Tests.antt =====
-- Three applied migrations, of which the two oldest have a pair.
use posta.Shared.{◌≡◌, refl, true, [], ◌∷◌, none, some, inr, ◌||◌, str_eq, ok, pure, ◌>>=◌}
use posta.Core.Migrations.Database.{Session, database}
use posta.Core.MigrateDown.{
  MigrateDownOptions, migrations_dir_of, first_revertible, find_newest_revertible_migration,
  migrate_down,
}
use posta.Core.MigrateDown.Newest.{Setting, reading, names_of, Downs, migrate_down-Downs}

abbrev setting : Setting Session
setting = record {
  sql = database (record {
    fails = λ step. none;
    names = [];
    contents = λ path. path;
    join_path = λ dir name. name;
    sha256 = λ content. content;
  });
  table = inr true;
  applied = inr ("003_c.sql" ∷ "002_b.sql" ∷ "001_a.sql" ∷ []);
  on_disk = λ path. str_eq path "002_b.down.sql" || str_eq path "001_a.down.sql";
  dir = "m";
}

abbrev session : Session
session = record {
  committed = record { tracked = ("002_b.sql", "") ∷ []; executed = [] };
  working = none;
  steps = 0;
}

abbrev options : MigrateDownOptions
options = record { sql_migrations_dir = none; force = some true }

newest :
    find_newest_revertible_migration (reading setting) "m" session
    ≡ (ok (some "002_b.sql"), session)
unfolding find_newest_revertible_migration first_revertible pure ◌>>=◌
newest = refl

migrate_down-Downs_example :
    Downs setting
      (migrations_dir_of (reading setting) none)
      (names_of setting.table setting.applied)
      none
      true
      session
      (migrate_down (reading setting) options session)
migrate_down-Downs_example = migrate_down-Downs setting options session
