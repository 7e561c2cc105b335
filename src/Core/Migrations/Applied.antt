-- ===== src/Core/Migrations/Applied.antt =====
-- The migrations of a directory are applied in order, each at most once, and a run that stops has applied the first
-- of them.
use posta.Shared.Loops.{for_each-Triple, for_each}
use posta.Shared.{
  ◌≡◌, refl, sym, ap, ◌∙◌, subst, inl, inr, String, List, [], ◌∷◌, ◌++◌, append_assoc, select,
  Option-cases, All, All-append,
}
use posta.Shared.Triples.{Triple-given, Triple, Triple-pure, Triple-bind, Triple-weaken}
use posta.Core.Migrations.{
  sort, is_up_migration, list_migration_files, apply_file, run_sql_migrations,
}
use posta.Core.Migrations.Database.{Db, Session, Setting, find_checksum, database}
use posta.Core.Migrations.Transactions.{IsIdle, IsHalted}
use posta.Core.Migrations.Files.{
  script, apply_one, IsTracked, find_checksum-append, quiet, apply_file-Triple,
}

module _ (setting : Setting) (dir : String) where
  abbrev pub apply_all : Db → List String → Db
  apply_all db [] = db
  apply_all db (name ∷ names) = apply_all (apply_one setting dir db name) names

  abbrev pub up_migrations : List String
  up_migrations = sort (select is_up_migration setting.names)

  -- All migrations are applied, and are tracked as they are in the directory.
  pub record IsMigrated (db : Db) (s : Session) : Type 0 where
    pub idle : IsIdle (apply_all db up_migrations) s
    pub all_tracked : All (IsTracked setting dir s.committed) up_migrations

  -- The first migrations are applied, and no transaction is left open.
  pub record IsCutShort (db : Db) (s : Session) : Type 0 where
    pub done : List String
    pub rest : List String
    pub first : up_migrations ≡ done ++ rest
    pub idle : IsIdle (apply_all db done) s

  apply_all-append :
      (db : Db) (xs ys : List String) → apply_all db (xs ++ ys) ≡ apply_all (apply_all db xs) ys
  apply_all-append db [] ys = refl
  apply_all-append db (x ∷ xs) ys = apply_all-append (apply_one setting dir db x) xs ys

  IsTracked-kept :
      (db : Db) (name other : String)
      → IsTracked setting dir db other
      → IsTracked setting dir (apply_one setting dir db name) other
  IsTracked-kept db name other h = elim (Option-cases (find_checksum name db.tracked)) [
    | inl e ↦ rw e (
        find_checksum-append setting dir other (setting.sha256 (script setting dir other))
          db.tracked _ h)
    | inr (c, e) ↦ rw e h
  ]

  all_kept :
      (db : Db) (name : String) (names : List String)
      → All (IsTracked setting dir db) names
      → All (IsTracked setting dir (apply_one setting dir db name)) names
  all_kept db name [] h = tt
  all_kept db name (n ∷ ns) (h, k) = (IsTracked-kept db name n h, all_kept db name ns k)

  -- What the loop keeps.
  abbrev IsDone : Db → List String → Session → Type 0
  IsDone db done s =
      IsIdle (apply_all db done) s × All (IsTracked setting dir (apply_all db done)) done

  more-IsDone :
      (db : Db) (done : List String) (name : String) (s : Session)
      → IsIdle (apply_one setting dir (apply_all db done) name) s
      → IsTracked setting dir (apply_one setting dir (apply_all db done) name) name
      → All (IsTracked setting dir (apply_all db done)) done
      → IsDone db (done ++ name ∷ []) s
  more-IsDone db done name s i t q =
      subst (λ d. IsIdle d s × All (IsTracked setting dir d) (done ++ name ∷ []))
        (sym (apply_all-append db done (name ∷ [])))
        (
          i,
          All-append (IsTracked setting dir (apply_one setting dir (apply_all db done) name)) done
              (name ∷ []) (all_kept (apply_all db done) name done q) (t, tt),
        )

  cut_short :
      (db : Db) (done : List String) (name : String) (rest : List String)
      → up_migrations ≡ done ++ name ∷ rest
      → (s : Session)
      → IsHalted (apply_all db done) (apply_one setting dir (apply_all db done) name) s
      → IsCutShort db s
  cut_short db done name rest e s h = elim h.either [
    | inl k ↦ record {
      done = done;
      rest = name ∷ rest;
      first = e;
      idle = record { kept = k; closed = h.closed };
    }
    | inr k ↦ record {
      done = done ++ name ∷ [];
      rest = rest;
      first = e ∙ sym (append_assoc done (name ∷ []) rest);
      idle = record { kept = k ∙ sym (apply_all-append db done (name ∷ [])); closed = h.closed };
    }
  ]

  one_more :
      (db : Db) (done : List String) (name : String) (rest : List String)
      → up_migrations ≡ done ++ name ∷ rest
      → Triple
          (IsDone db done)
          (apply_file (database setting) dir name)
          (λ _. IsDone db (done ++ name ∷ []))
          (IsCutShort db)
  one_more db done name rest e =
      let now = apply_all db done in
      record {
        at = λ s (p, q).
            (Triple-weaken _ (apply_file-Triple setting dir now name) (λ _ r. r)
                (λ _ w (i, t). more-IsDone db done name w i t q)
                (λ w h. cut_short db done name rest e w h)).at
              s p;
      }

  none_done : (db : Db) (s : Session) → IsIdle db s → IsCutShort db s
  none_done db s p = record { done = []; rest = up_migrations; first = refl; idle = p }

  listed :
      (db : Db)
      → Triple
          (IsIdle db)
          (list_migration_files (database setting) dir)
          (λ files s. IsIdle db s × (files ≡ up_migrations))
          (IsCutShort db)
  unfolding list_migration_files
  listed db =
      Triple-bind _ _ (quiet setting dir setting.names db (IsCutShort db) (none_done db)) λ names.
        Triple-given λ e.
          Triple-weaken _
            (Triple-pure {E = IsCutShort db} {Q = λ files s. IsIdle db s × (files ≡ up_migrations)}
              (sort (select is_up_migration names)))
            (λ s p. (p, ap (λ l. sort (select is_up_migration l)) e)) (λ _ _ q. q) (λ _ p. p)

  all_applied :
      (db : Db)
      → Triple
          (IsIdle db)
          (for_each (apply_file (database setting) dir) up_migrations)
          (λ _. IsMigrated db)
          (IsCutShort db)
  all_applied db =
      Triple-weaken _
        (for_each-Triple (IsDone db) (apply_file (database setting) dir) up_migrations
          (one_more db))
        (λ s p. (p, tt)) (λ _ s (p, q). record { idle = p; all_tracked = rw p.kept q }) (λ _ p. p)

  -- Whatever statements fail: a run of `runSqlMigrations` between transactions ends. If it returns, the migrations of the
  -- directory have been applied in their order to what was committed, each that was not tracked run once and tracked, the
  -- others left alone, and all are tracked with the checksums of their scripts. If it throws, what is committed are the
  -- first of them, applied as a whole, and no transaction is left open.
  pub run_sql_migrations-IsMigrated :
      (db : Db)
      → Triple
          (IsIdle db)
          (run_sql_migrations (database setting) dir)
          (λ _. IsMigrated db)
          (IsCutShort db)
  unfolding run_sql_migrations
  run_sql_migrations-IsMigrated db =
      Triple-bind _ _ (quiet setting dir tt db (IsCutShort db) (none_done db)) λ _.
        Triple-given λ _. Triple-bind _ _ (listed db) λ files. Triple-given λ e.
          subst
            (λ names.
              Triple (IsIdle db) (for_each (apply_file (database setting) dir) names)
                (λ _. IsMigrated db) (IsCutShort db))
            (sym e) (all_applied db)
