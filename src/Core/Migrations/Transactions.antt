-- ===== src/Core/Migrations/Transactions.antt =====
-- A transaction is done as a whole or not at all, whatever fails.
use posta.Shared.{◌≡◌, refl, ap, ◌⊎◌, inl, inr, String, Option, none, some, or_else, Act, ◌>>◌}
use posta.Shared.Thrown.{Thrown, to_error}
use posta.Shared.Triples.{
  After, Triple, Triple-raise, Triple-bind, Triple-caught, Triple-try_catch, Caught,
}
use posta.Core.Migrations.{run_in_transaction, roll_back, after_rollback}
use posta.Core.Migrations.Database.{
  Db, Session, Setting, step, settled, statement, released, database,
}

-- Between transactions.
pub record IsIdle (db : Db) (s : Session) : Type 0 where
  pub kept : s.committed ≡ db
  pub closed : s.working ≡ none

-- Within a transaction.
pub record IsOpen (base db : Db) (s : Session) : Type 0 where
  pub kept : s.committed ≡ base
  pub open_work : s.working ≡ some db

-- What is committed is the one or the other.
abbrev pub IsEither : (base db : Db) → Session → Type 0
IsEither base db s = (s.committed ≡ base) ⊎ (s.committed ≡ db)

-- No transaction is left open.
pub record IsHalted (base db : Db) (s : Session) : Type 0 where
  pub either : IsEither base db s
  pub closed : s.working ≡ none

pub settled-After :
    {A : Type 0} (Q : A → Session → Type 0) (E : Session → Type 0) (r : Option Thrown) (a : A)
    (s t : Session)
    → Q a s
    → E t
    → After Q E (settled r a s t).0 (settled r a s t).1
settled-After Q E none a s t q e = q
settled-After Q E (some x) a s t q e = e

module _ (setting : Setting) where
  pub statement-Triple :
      {A : Type 0} (P E : Session → Type 0) (Q : A → Session → Type 0) (a : A)
      (f : Session → Session)
      → ((s : Session) → P s → Q a (step (f s)))
      → ((s : Session) → P s → E (step s))
      → Triple P (statement setting a f) Q E
  statement-Triple P E Q a f q e = record {
    at = λ s p. settled-After Q E (setting.fails s.steps) a (step (f s)) (step s) (q s p) (e s p);
  }

  discarded :
      (x : Thrown) (base db : Db)
      → Triple
          (IsEither base db)
          (released setting (some x))
          (λ _. IsHalted base db)
          (IsHalted base db)
  discarded x base db = record {
    at = λ s p.
        settled-After (λ _. IsHalted base db) (IsHalted base db) (setting.fails s.steps) tt _ _
          (record { either = p; closed = refl }) (record { either = p; closed = refl });
  }

  releasing :
      (P E : Session → Type 0)
      → ((s : Session) → P s → P (step s))
      → ((s : Session) → P s → E (step s))
      → Triple P ((database setting).release none) (λ _. P) E
  releasing P E p e = record { at = (statement-Triple P E (λ _. P) tt (λ s. s) p e).at }

  ended :
      (base db : Db)
      → Triple
          (IsEither base db)
          ((database setting).rollback >> (database setting).release none)
          (λ _. IsHalted base db)
          (IsEither base db)
  ended base db =
      Triple-bind _ _
        (statement-Triple (IsEither base db) (IsEither base db) (λ _. IsHalted base db) tt
          (λ s. record s { working = none }) (λ s p. record { either = p; closed = refl })
          (λ s p. p))
        λ _.
          releasing (IsHalted base db) (IsEither base db)
            (λ s p. record { either = p.either; closed = p.closed }) (λ s p. p.either)

  after_rollback-Triple :
      (base db : Db) (context : String) (x : Thrown) (r : Option Thrown)
      → Triple
          (Caught (IsHalted base db) (IsEither base db) r)
          (after_rollback (database setting) context x r)
          (λ _. IsIdle db)
          (IsHalted base db)
  after_rollback-Triple base db context x none = Triple-raise _
  after_rollback-Triple base db context x (some y) =
      Triple-bind _ _ (discarded (to_error y) base db) λ _. Triple-raise _

  transaction :
      (base db : Db) (work : Act Session (Unit {0}))
      → Triple (IsOpen base base) work (λ _. IsOpen base db) (IsEither base db)
      → Triple
          (IsIdle base)
          ((database setting).begin
            >> work
            >> (database setting).commit
            >> (database setting).release none)
          (λ _. IsIdle db)
          (IsEither base db)
  transaction base db work t =
      Triple-bind _ _
        (Triple-bind _ _
          (Triple-bind _ _
            (statement-Triple (IsIdle base) (IsEither base db) (λ _. IsOpen base base) tt
              (λ s. record s { working = some s.committed })
              (λ s p. record { kept = p.kept; open_work = ap some p.kept }) (λ s p. inl p.kept))
            λ _. t)
          λ _.
            statement-Triple (IsOpen base db) (IsEither base db) (λ _. IsIdle db) tt
              (λ s. record s { committed = or_else s.working s.committed; working = none })
              (λ s p. record { kept = ap (λ w. or_else w s.committed) p.open_work; closed = refl })
              (λ s p. inl p.kept))
        λ _.
          releasing (IsIdle db) (IsEither base db)
            (λ s p. record { kept = p.kept; closed = p.closed }) (λ s p. inr p.kept)

  -- Work that is kept to an open transaction.
  pub run_in_transaction-Triple :
      (base db : Db) (work : Act Session (Unit {0})) (context : String)
      → Triple (IsOpen base base) work (λ _. IsOpen base db) (IsEither base db)
      → Triple
          (IsIdle base)
          (run_in_transaction (database setting) work context)
          (λ _. IsIdle db)
          (IsHalted base db)
  unfolding run_in_transaction
  run_in_transaction-Triple base db work context t =
      Triple-bind _ _
        (statement-Triple (IsIdle base) (IsHalted base db) (λ _. IsIdle base) tt (λ s. s)
          (λ s p. record { kept = p.kept; closed = p.closed })
          (λ s p. record { either = inl p.kept; closed = p.closed }))
        λ _.
          Triple-try_catch _ (roll_back (database setting) context) (transaction base db work t)
            λ x.
              Triple-bind _ _ (Triple-caught _ (ended base db))
                λ r. after_rollback-Triple base db context x r
