-- ===== src/Core/MigrateDown/Newest.antt =====
-- Which migration is reverted.
use posta.Shared.{
  ◌≡◌, refl, ap, String, Bool, true, false, List, [], ◌∷◌, ◌++◌, Option, none, some, All, inl, inr,
  Bool-cases, Act, pure, raise, ◌>>=◌, ◌⊎◌, Outcome, ok, throw, stuck, continue, str_eq, str_eq_iff,
  subst,
}
use posta.Shared.Thrown.{Thrown, new_error}
use posta.Core.Migrations.{SqlDeps, down_sql_migration}
use posta.Core.MigrateDown.{
  DownDeps, MigrateDownOptions, flag, migrations_dir_of, down_path, first_revertible,
  find_newest_revertible_migration, revert_found, migrate_down,
}

-- What the two queries answer, and the files on disk; reading does not change them.
pub record Setting (W : Type 0) : Type 1 where
  pub sql : SqlDeps W
  pub table : Thrown ⊎ Bool
  pub applied : Thrown ⊎ List String
  pub on_disk : String → Bool
  pub dir : String

-- The applied migrations, of which there are none without the table.
abbrev pub names_of : Thrown ⊎ Bool → Thrown ⊎ List String → List String
names_of (inr true) (inr names) = names
names_of _ _ = []

-- The error of the first query that fails; the second is not asked without the table.
abbrev pub query_error : Thrown ⊎ Bool → Thrown ⊎ List String → Option Thrown
query_error (inl e) applied = some e
query_error (inr true) (inl e) = some e
query_error (inr _) _ = none

abbrev pub answer : {W A : Type 0} → Thrown ⊎ A → Act W A
answer (inl e) w = (throw e, w)
answer (inr a) w = (ok a, w)

module _ {W : Type 0} (setting : Setting W) where
  abbrev pub reading : DownDeps W
  reading = record {
    sql = setting.sql;
    table_exists = answer setting.table;
    applied_filenames = answer setting.applied;
    exists_sync = λ path. pure (setting.on_disk path);
    default_migrations_dir = setting.dir;
  }

  abbrev pub has_pair : (dir name : String) → Bool
  has_pair dir name = setting.on_disk (down_path reading dir name)

  -- The name has a pair, and no name before it has one.
  pub record IsNewest (dir : String) (names : List String) (name : String) : Type 0 where
    pub newer : List String
    pub older : List String
    pub split : names ≡ newer ++ name ∷ older
    pub skipped : All (λ n. has_pair dir n ≡ false) newer
    pub pair : has_pair dir name ≡ true

  abbrev pub IsChoice : (dir : String) → List String → Option String → Type 0
  IsChoice dir names none = All (λ n. has_pair dir n ≡ false) names
  IsChoice dir names (some name) = IsNewest dir names name

  record Chooses {A : Type 0} (dir : String) (names : List String) (m : Act W A)
      (then_do : Option String → Act W A) (w : W) : Type 0 where
    choice : Option String
    is_choice : IsChoice dir names choice
    same : m w ≡ then_do choice w

  Choice-skipped :
      (dir name : String) (names : List String) (choice : Option String)
      → has_pair dir name ≡ false
      → IsChoice dir names choice
      → IsChoice dir (name ∷ names) choice
  Choice-skipped dir name names none e h = (e, h)
  Choice-skipped dir name names (some found) e h = record {
    newer = name ∷ h.newer;
    older = h.older;
    split = ap (λ rest. name ∷ rest) h.split;
    skipped = (e, h.skipped);
    pair = h.pair;
  }

  first_revertible-Chooses :
      (dir : String) (names : List String) (w : W)
      → Chooses dir names (first_revertible reading dir names) pure w
  unfolding first_revertible pure ◌>>=◌
  first_revertible-Chooses dir [] w = record { choice = none; is_choice = tt; same = refl }
  first_revertible-Chooses dir (name ∷ names) w =
      let rest = first_revertible-Chooses dir names w in
      elim (Bool-cases (has_pair dir name)) [
        | inl e ↦ record {
          choice = some name;
          is_choice = record { newer = []; older = names; split = refl; skipped = tt; pair = e };
          same = rw e refl;
        }
        | inr e ↦ record {
          choice = rest.choice;
          is_choice = Choice-skipped dir name names rest.choice e rest.is_choice;
          same = rw e rest.same;
        }
      ]

  -- What is answered after a revert: its name, unless it throws.
  abbrev pub named : String → Outcome (Unit {0}) → Outcome String
  named name (ok _) = ok name
  named name (throw e) = throw e
  named name stuck = stuck

  abbrev pub nothing_error : Thrown
  nothing_error =
      new_error
        "migrateDown: nothing to revert — no applied hand-written SQL migration has a .down.sql pair on disk."

  -- How a call in a world ends.
  pub data Downs (dir : String) (names : List String) (error : Option Thrown) (force : Bool) (w : W)
      : Outcome String × W → Type 0 where
    failed : (e : Thrown) → error ≡ some e → Downs dir names error force w (throw e, w)
    nothing :
        error ≡ none
        → All (λ n. has_pair dir n ≡ false) names
        → Downs dir names error force w (throw nothing_error, w)
    nameless :
        error ≡ none
        → IsNewest dir names ""
        → Downs dir names error force w (throw nothing_error, w)
    reverted :
        (name : String)
        → error ≡ none
        → IsNewest dir names name
        → Downs dir names error force w (
          named name (down_sql_migration setting.sql name dir force w).0,
          (down_sql_migration setting.sql name dir force w).1,
        )

  named-continue :
      (name : String) (r : Outcome (Unit {0})) (w : W)
      → continue r (λ _. pure name) w ≡ (named name r, w)
  unfolding pure
  named-continue name (ok _) w = refl
  named-continue name (throw e) w = refl
  named-continue name stuck w = refl

  reverted-Downs :
      (dir : String) (names : List String) (force : Bool) (w : W) (choice : Option String)
      → IsChoice dir names choice
      → Downs dir names none force w (revert_found reading dir force choice w)
  unfolding raise ◌>>=◌
  reverted-Downs dir names force w none h = nothing refl h
  reverted-Downs dir names force w (some name) h = elim (Bool-cases (str_eq name "")) [
    | inl e ↦ rw e (nameless refl (subst (IsNewest dir names) ((str_eq_iff name "").0 e) h))
    | inr e ↦
        rw
          (
            e,
            named-continue name (down_sql_migration setting.sql name dir force w).0
                (down_sql_migration setting.sql name dir force w).1,
          )
          (reverted name refl h)
  ]

-- The queries' answers, case by case.
cases-Downs :
    {W : Type 0} (sql : SqlDeps W) (table : Thrown ⊎ Bool) (applied : Thrown ⊎ List String)
    (on_disk : String → Bool) (default : String) (options : MigrateDownOptions) (w : W)
    → let setting : Setting W = record {
      sql = sql;
      table = table;
      applied = applied;
      on_disk = on_disk;
      dir = default;
    } in
      Downs setting
        (migrations_dir_of (reading setting) options.sql_migrations_dir)
        (names_of table applied)
        (query_error table applied)
        (flag options.force)
        w
        (migrate_down (reading setting) options w)
unfolding migrate_down find_newest_revertible_migration pure ◌>>=◌
cases-Downs sql (inl e) applied on_disk default options w = failed e refl
cases-Downs sql (inr false) applied on_disk default options w = nothing refl tt
cases-Downs sql (inr true) (inl e) on_disk default options w = failed e refl
cases-Downs {W = W} sql (inr true) (inr names) on_disk default options w =
    let setting : Setting W = record {
      sql = sql;
      table = inr true;
      applied = inr names;
      on_disk = on_disk;
      dir = default;
    } in
    let dir = migrations_dir_of (reading setting) options.sql_migrations_dir in
    let found = first_revertible-Chooses setting dir names w in
    rw found.same
      (reverted-Downs setting dir names (flag options.force) w found.choice found.is_choice)

-- `migrateDown` reverts the newest applied migration that has a `.down.sql` pair on disk, and no newer one has a pair:
-- it does what `downSqlMigration` does with that migration, and answers its name, or throws what that throws. It
-- throws that there is nothing to revert, and changes nothing, if no applied migration has a pair (as where there is no
-- tracking table), or if the newest that has one is tracked under the empty name. It throws the error of the first
-- query that fails, and changes nothing.
pub migrate_down-Downs :
    {W : Type 0} (setting : Setting W) (options : MigrateDownOptions) (w : W)
    → Downs setting
        (migrations_dir_of (reading setting) options.sql_migrations_dir)
        (names_of setting.table setting.applied)
        (query_error setting.table setting.applied)
        (flag options.force)
        w
        (migrate_down (reading setting) options w)
migrate_down-Downs setting options w =
    cases-Downs setting.sql setting.table setting.applied setting.on_disk setting.dir options w
