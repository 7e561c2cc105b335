-- ===== src/Core/Migrations/Reverted.antt =====
-- One migration is reverted as a whole or not at all.
use posta.Shared.{
  ◌≡◌, refl, sym, ap, ◌∙◌, subst, String, Bool, not, List, [], ◌∷◌, none, str_eq, Bool-cases, inl,
  inr,
}
use posta.Shared.Triples.{
  Triple-given, Triple, Triple-pure, Triple-raise, Triple-bind, Triple-weaken, Triple-if,
}
use posta.Core.Migrations.{
  down_filename_for, is_migration_filename, assert_safe_migration_filename, down_work,
  down_sql_migration,
}
use posta.Core.Migrations.Database.{
  Db, Setting, find_checksum, without_name, add_executed, remove_tracked, change, database,
}
use posta.Core.Migrations.Transactions.{
  IsIdle, IsOpen, IsHalted, IsEither, statement-Triple, run_in_transaction-Triple,
}
use posta.Core.Migrations.Files.{changed, reads, either_one}

find_checksum-without_name :
    (name : String) (rows : List (String × String))
    → find_checksum name (without_name name rows) ≡ none
find_checksum-without_name name [] = refl
find_checksum-without_name name ((n, c) ∷ rows) = elim (Bool-cases (str_eq n name)) [
  | inl e ↦ rw e (find_checksum-without_name name rows)
  | inr e ↦ rw (e, e) (find_checksum-without_name name rows)
]

module _ (setting : Setting) (dir : String) where
  -- The script that reverts a migration has run, and the migration is not tracked any more.
  abbrev pub revert_one : Db → String → Db
  revert_one db name =
      remove_tracked name
        (add_executed (setting.contents (setting.join_path dir (down_filename_for name))) db)

  down_work-Triple :
      (db : Db) (name : String) (force : Bool)
      → Triple
          (IsOpen db db)
          (down_work
            (database setting)
            name
            (setting.contents (setting.join_path dir (down_filename_for name)))
            force)
          (λ _. IsOpen db (revert_one db name))
          (IsEither db (revert_one db name))
  down_work-Triple db name force =
      let content = setting.contents (setting.join_path dir (down_filename_for name)) in
      Triple-bind _ _
        (statement-Triple setting (IsOpen db db) (IsEither db (revert_one db name))
          (λ _. IsOpen db db) tt (λ s. s) (λ s p. record { kept = p.kept; open_work = p.open_work })
          (λ s p. inl p.kept))
        λ _.
          Triple-bind _ _
            (statement-Triple setting (IsOpen db db) (IsEither db (revert_one db name))
              (λ _. IsOpen db (add_executed content db)) tt (change (add_executed content))
              (changed db db (add_executed content)) (λ s p. inl p.kept))
            λ _.
              statement-Triple setting (IsOpen db (add_executed content db))
                (IsEither db (revert_one db name)) (λ _. IsOpen db (revert_one db name)) tt
                (change (remove_tracked name))
                (changed db (add_executed content db) (remove_tracked name)) (λ s p. inl p.kept)

  checked_name :
      (db : Db) (name : String)
      → Triple
          (IsIdle db)
          (assert_safe_migration_filename (database setting) name)
          (λ _. IsIdle db)
          (IsHalted db (revert_one db name))
  unfolding assert_safe_migration_filename
  checked_name db name =
      Triple-if (not (is_migration_filename name)) _ _
        (Triple-weaken _ (Triple-raise {E = IsHalted db (revert_one db name)} _)
          (either_one setting dir db (revert_one db name)) (λ _ _ q. q) (λ _ p. p))
        (Triple-pure tt)

  -- Whatever statements fail: a run of `downSqlMigration` between transactions ends. If it returns, the script that
  -- reverts the migration has run on what was committed and the migration is not tracked. If it throws, what is committed
  -- is that or what it was before, and no transaction is left open.
  pub down_sql_migration-IsReverted :
      (db : Db) (name : String) (force : Bool)
      → Triple
          (IsIdle db)
          (down_sql_migration (database setting) name dir force)
          (λ _ s. IsIdle (revert_one db name) s × (find_checksum name s.committed.tracked ≡ none))
          (IsHalted db (revert_one db name))
  unfolding down_sql_migration
  down_sql_migration-IsReverted db name force = Triple-bind _ _ (checked_name db name) λ _.
      Triple-bind _ _ (reads setting dir db (revert_one db name) (down_filename_for name))
        λ content. Triple-given λ e.
          Triple-weaken _
            (run_in_transaction-Triple setting db (revert_one db name) _ _ (
              subst
                (λ c.
                  Triple (IsOpen db db) (down_work (database setting) name c force)
                    (λ _. IsOpen db (revert_one db name)) (IsEither db (revert_one db name)))
                (sym e) (down_work-Triple db name force)))
            (λ _ p. p)
            (λ _ s p. (
              p,
              ap (λ d. find_checksum name d.tracked) p.kept
                  ∙ find_checksum-without_name name db.tracked,
            ))
            (λ _ p. p)
