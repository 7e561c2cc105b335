-- ===== src/Core/Migrations/Database.antt =====
-- A database with transactions, of which any statement can fail. What an open transaction has done is kept only by
-- its COMMIT; a ROLLBACK, or the end of the connection, drops it.
use posta.Shared.{
  ℕ, ◌+◌, String, List, [], ◌∷◌, ◌++◌, Option, none, some, select, not, str_eq, if◌then◌else◌,
  Outcome, ok, throw, Act, or_else,
}
use posta.Shared.Thrown.{Thrown}
use posta.Core.Migrations.{SqlDeps}

-- The migrations that are tracked, with their checksums, and the scripts that have run.
pub record Db : Type 0 where
  pub tracked : List (String × String)
  pub executed : List String

pub record Session : Type 0 where
  pub committed : Db
  pub working : Option Db
  pub steps : ℕ

-- Files that do not change, and the failures of the statements by their number.
pub record Setting : Type 0 where
  pub fails : ℕ → Option Thrown
  pub names : List String
  pub contents : String → String
  pub join_path : String → String → String
  pub sha256 : String → String

abbrev pub step : Session → Session
step s = record s { steps = s.steps + 1 }

-- A statement: what it answers and does if it does not fail, and what it does if it fails.
abbrev pub settled : {A : Type 0} → Option Thrown → A → Session → Session → Outcome A × Session
settled none a s t = (ok a, s)
settled (some e) a s t = (throw e, t)

abbrev pub change : (Db → Db) → Session → Session
change f s = elim s.working [
  | some db ↦ record s { working = some (f db) }
  | none ↦ record s { committed = f s.committed }
]

abbrev pub find_checksum : String → List (String × String) → Option String
find_checksum name [] = none
find_checksum name ((n, c) ∷ rows) =
    let rest = find_checksum name rows in if str_eq n name then some c else rest

abbrev pub add_executed : String → Db → Db
add_executed content db = record db { executed = db.executed ++ content ∷ [] }

abbrev pub add_tracked : String → String → Db → Db
add_tracked name checksum db = record db { tracked = db.tracked ++ (name, checksum) ∷ [] }

abbrev pub without_name : String → List (String × String) → List (String × String)
without_name name rows = select (λ r. not (str_eq r.0 name)) rows

abbrev pub remove_tracked : String → Db → Db
remove_tracked name db = record db { tracked = without_name name db.tracked }

module _ (setting : Setting) where
  abbrev pub statement : {A : Type 0} → A → (Session → Session) → Act Session A
  statement a f s = settled (setting.fails s.steps) a (step (f s)) (step s)

  abbrev pub released : Option Thrown → Act Session (Unit {0})
  released none s = statement tt (λ s. s) s
  released (some e) s =
      settled (setting.fails s.steps) tt (step (record s { working = none }))
        (step (record s { working = none }))

  abbrev pub database : SqlDeps Session
  database = record {
    read_dir = λ dir. statement setting.names (λ s. s);
    read_file = λ path. statement (setting.contents path) (λ s. s);
    join_path = setting.join_path;
    sha256 = setting.sha256;
    create_tracking_table = statement tt (λ s. s);
    select_checksum = λ name s.
        settled (setting.fails s.steps) (find_checksum name s.committed.tracked) (step s) (step s);
    connect = statement tt (λ s. s);
    begin = statement tt (λ s. record s { working = some s.committed });
    commit =
        statement tt (λ s. record s { committed = or_else s.working s.committed; working = none });
    rollback = statement tt (λ s. record s { working = none });
    release = released;
    execute = λ content. statement tt (change (add_executed content));
    set_force = λ force. statement tt (λ s. s);
    insert_tracking = λ name checksum. statement tt (change (add_tracked name checksum));
    delete_tracking = λ name. statement tt (change (remove_tracked name));
  }
