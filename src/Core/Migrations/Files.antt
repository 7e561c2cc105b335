-- ===== src/Core/Migrations/Files.antt =====
-- One migration is applied, unless it is tracked.
use posta.Shared.{
  ◌≡◌, refl, sym, ap, ◌∙◌, subst, inl, inr, String, Bool, true, false, List, [], ◌∷◌, ◌++◌, Option,
  none, some, if◌then◌else◌, str_eq, str_eq_iff, Bool-cases, pure, raise,
}
use posta.Shared.Triples.{
  Triple-given, Triple, Triple-raise, Triple-bind, Triple-weaken, Triple-try_catch,
}
use posta.Core.Migrations.{read_migration_file, apply_work, apply_unless, apply_file}
use posta.Core.Migrations.Database.{
  Db, Session, Setting, step, statement, find_checksum, add_executed, add_tracked, change, database,
}
use posta.Core.Migrations.Transactions.{
  IsIdle, IsOpen, IsHalted, IsEither, settled-After, statement-Triple, run_in_transaction-Triple,
}

if_found :
    (b : Bool) (d c : String) (r r' : Option String)
    → (r ≡ some c → r' ≡ some c)
    → (if b then some d else r) ≡ some c
    → (if b then some d else r') ≡ some c
if_found true d c r r' k h = h
if_found false d c r r' k h = k h

if_missed :
    (b : Bool) (d c : String) (r r' : Option String)
    → (r ≡ none → r' ≡ some c)
    → (if b then some d else r) ≡ none
    → (if b then some d else r') ≡ some c
if_missed true d c r r' k h = cc
if_missed false d c r r' k h = k h

-- A statement within a transaction changes its work only.
pub changed :
    (base db : Db) (f : Db → Db) (s : Session)
    → IsOpen base db s
    → IsOpen base (f db) (step (change f s))
changed base db f s p = rw p.open_work (record { kept = p.kept; open_work = refl })

module _ (setting : Setting) (dir : String) where
  -- The script of a migration.
  abbrev pub script : String → String
  script name = setting.contents (setting.join_path dir name)

  abbrev apply_new : Db → String → Option String → Db
  apply_new db name (some checksum) = db
  apply_new db name none =
      add_tracked name (setting.sha256 (script name)) (add_executed (script name) db)

  -- A migration that is not tracked is run and tracked.
  abbrev pub apply_one : Db → String → Db
  apply_one db name = apply_new db name (find_checksum name db.tracked)

  -- The migration is tracked, with the checksum of its script.
  abbrev pub IsTracked : Db → String → Type 0
  IsTracked db name = find_checksum name db.tracked ≡ some (setting.sha256 (script name))

  pub find_checksum-append :
      (name c : String) (xs ys : List (String × String))
      → find_checksum name xs ≡ some c
      → find_checksum name (xs ++ ys) ≡ some c
  find_checksum-append name c [] ys h = cc
  find_checksum-append name c ((n, d) ∷ xs) ys h =
      if_found (str_eq n name) d c _ _ (find_checksum-append name c xs ys) h

  find_checksum-new :
      (name c : String) (xs : List (String × String))
      → find_checksum name xs ≡ none
      → find_checksum name (xs ++ (name, c) ∷ []) ≡ some c
  find_checksum-new name c [] h = rw ((str_eq_iff name name).1 refl) refl
  find_checksum-new name c ((n, d) ∷ xs) h =
      if_missed (str_eq n name) d c _ _ (find_checksum-new name c xs) h

  idle_step : (db : Db) (s : Session) → IsIdle db s → IsIdle db (step s)
  idle_step db s p = record { kept = p.kept; closed = p.closed }

  -- A statement that changes nothing.
  pub quiet :
      {A : Type 0} (a : A) (db : Db) (E : Session → Type 0)
      → ((s : Session) → IsIdle db s → E s)
      → Triple (IsIdle db) (statement setting a (λ s. s)) (λ b s. IsIdle db s × (b ≡ a)) (λ s. E s)
  quiet a db E e = record {
    at =
        (statement-Triple setting (IsIdle db) E (λ b s. IsIdle db s × (b ≡ a)) a (λ s. s)
          (λ s p. (idle_step db s p, refl)) (λ s p. e (step s) (idle_step db s p))).at;
  }

  apply_work-Triple :
      (db : Db) (name content : String)
      → Triple
          (IsOpen db db)
          (apply_work (database setting) name content)
          (λ _. IsOpen db (add_tracked name (setting.sha256 content) (add_executed content db)))
          (IsEither db (add_tracked name (setting.sha256 content) (add_executed content db)))
  apply_work-Triple db name content =
      Triple-bind _ _
        (statement-Triple setting (IsOpen db db) _ (λ _. IsOpen db (add_executed content db)) tt
          (change (add_executed content)) (changed db db (add_executed content))
          (λ s p. inl p.kept))
        λ _.
          statement-Triple setting (IsOpen db (add_executed content db)) _
            (λ _. IsOpen db (add_tracked name (setting.sha256 content) (add_executed content db)))
            tt (change (add_tracked name (setting.sha256 content)))
            (changed db (add_executed content db) (add_tracked name (setting.sha256 content)))
            (λ s p. inl p.kept)

  -- What holds after one migration.
  abbrev pub IsOneApplied : Db → String → Session → Type 0
  IsOneApplied db name s = IsIdle (apply_one db name) s × IsTracked (apply_one db name) name

  -- The same, for what the tracking table answered.
  abbrev IsNewApplied : Db → String → Option String → Session → Type 0
  IsNewApplied db name existing s =
      IsIdle (apply_new db name existing) s × IsTracked (apply_new db name existing) name

  apply_unless-Triple :
      (db : Db) (name : String) (existing : Option String)
      → find_checksum name db.tracked ≡ existing
      → Triple
          (IsIdle db)
          (apply_unless (database setting) name (script name) existing)
          (λ _. IsNewApplied db name existing)
          (IsHalted db (apply_new db name existing))
  unfolding pure raise
  apply_unless-Triple db name (some checksum) e =
      elim (Bool-cases (str_eq checksum (setting.sha256 (script name)))) [
        | inl same ↦ rw same (record {
          at =
              λ s p. (p, e ∙ ap some ((str_eq_iff checksum (setting.sha256 (script name))).0 same));
        })
        | inr other ↦
            rw other (record { at = λ s p. record { either = inl p.kept; closed = p.closed } })
      ]
  apply_unless-Triple db name none e =
      Triple-weaken _
        (run_in_transaction-Triple setting db (apply_new db name none) _ _
          (apply_work-Triple db name (script name)))
        (λ _ p. p)
        (λ _ s p. (p, find_checksum-new name (setting.sha256 (script name)) db.tracked e))
        (λ _ p. p)

  apply_as_tracked :
      (db : Db) (name : String) (existing : Option String)
      → find_checksum name db.tracked ≡ existing
      → Triple
          (IsIdle db)
          (apply_unless (database setting) name (script name) existing)
          (λ _. IsOneApplied db name)
          (IsHalted db (apply_one db name))
  apply_as_tracked db name existing e =
      subst
        (λ r.
          Triple (IsIdle db) (apply_unless (database setting) name (script name) existing)
            (λ _. IsNewApplied db name r) (IsHalted db (apply_new db name r)))
        (sym e) (apply_unless-Triple db name existing e)

  pub either_one : (db db' : Db) (s : Session) → IsIdle db s → IsHalted db db' s
  either_one db db' s p = record { either = inl p.kept; closed = p.closed }

  pub reads :
      (db db' : Db) (name : String)
      → Triple
          (IsIdle db)
          (read_migration_file (database setting) (setting.join_path dir name) name)
          (λ content s. IsIdle db s × (content ≡ script name))
          (IsHalted db db')
  unfolding read_migration_file
  reads db db' name = Triple-try_catch _ _ (quiet (script name) db (IsIdle db) (λ s p. p)) λ x.
      Triple-weaken _ (Triple-raise {E = IsHalted db db'} _) (either_one db db') (λ _ _ q. q)
        (λ _ p. p)

  selects :
      (db db' : Db) (name : String)
      → Triple
          (IsIdle db)
          ((database setting).select_checksum name)
          (λ existing s. IsIdle db s × (find_checksum name db.tracked ≡ existing))
          (IsHalted db db')
  selects db db' name = record {
    at = λ s p.
        settled-After (λ existing s. IsIdle db s × (find_checksum name db.tracked ≡ existing))
          (IsHalted db db') (setting.fails s.steps) (find_checksum name s.committed.tracked)
          (step s) (step s) (idle_step db s p, ap (λ d. find_checksum name d.tracked) (sym p.kept))
          (either_one db db' (step s) (idle_step db s p));
  }

  pub apply_file-Triple :
      (db : Db) (name : String)
      → Triple
          (IsIdle db)
          (apply_file (database setting) dir name)
          (λ _. IsOneApplied db name)
          (IsHalted db (apply_one db name))
  unfolding apply_file
  apply_file-Triple db name = Triple-bind _ _ (reads db (apply_one db name) name) λ content.
      Triple-given λ e. Triple-bind _ _ (selects db (apply_one db name) name) λ existing.
        Triple-given λ f.
          subst
            (λ c.
              Triple (IsIdle db) (apply_unless (database setting) name c existing)
                (λ _. IsOneApplied db name) (IsHalted db (apply_one db name)))
            (sym e) (apply_as_tracked db name existing f)
