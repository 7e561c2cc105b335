-- ===== src/Replay/Report/Ledger.antt =====
-- The world of a report: the inserts that were tried, with their answers, the latest first, and the lines that were
-- printed, in their order.
use posta.Shared.{
  ℕ, ◌+◌, ◌≤◌, ◌<◌, ◌≡◌, String, List, [], ◌∷◌, ◌++◌, Option, none, some, length, ◌⊎◌, inl, inr,
  Outcome, ok, throw, Act,
}
use posta.Shared.Thrown.{Thrown}
use posta.Core.EventLog.Ndjson.{LoggedEvent, LogDeps}
use posta.Batch.Rows.{NewEvent}
use posta.Replay.Reconciliation.{Issue}
use posta.Replay.Report.{Tally, ReportDeps}

-- An insert fails, or gives back the ids of the rows that were not there yet.
abbrev pub Inserts : Type 0
Inserts = List (List NewEvent × (Thrown ⊎ List String))

pub record Ledger : Type 0 where
  pub inserts : Inserts
  pub out : List String
  pub err : List String

abbrev pub State : Type 0
State = Tally Ledger

-- What a database of the ledger answers, and the rest of the collaborators: any store, listing, schema and clock, and
-- two outputs that may fail at a line.
pub record Setting : Type 0 where
  pub answer : Inserts → List NewEvent → Thrown ⊎ List String
  pub log : LogDeps State
  pub sizes : String → Thrown ⊎ List (Option ℕ)
  pub validate : LoggedEvent → Option (List Issue)
  pub date_parse : String → Option ℕ
  pub clock : Ledger → ℕ
  pub out_fails : List String → String → Option Thrown
  pub err_fails : List String → String → Option Thrown
  pub rounds : ℕ

-- `RETURNING` gives back at most one id for each row.
abbrev pub IsReturning : Setting → Type 0
IsReturning setting =
    (h : Inserts) (rows : List NewEvent) (ids : List String)
    → setting.answer h rows ≡ inr ids
    → length ids ≤ length rows

abbrev pub answered : {A : Type 0} → Thrown ⊎ A → Outcome A
answered (inl e) = throw e
answered (inr a) = ok a

abbrev pub insert_returning : Setting → List NewEvent → Act State (List String)
insert_returning setting rows s = (
  answered (setting.answer s.outer.inserts rows),
  record s {
    outer = record s.outer {
      inserts = (rows, setting.answer s.outer.inserts rows) ∷ s.outer.inserts;
    };
  },
)

abbrev pub add_out : String → State → State
add_out line s = record s { outer = record s.outer { out = s.outer.out ++ line ∷ [] } }

abbrev pub add_err : String → State → State
add_err line s = record s { outer = record s.outer { err = s.outer.err ++ line ∷ [] } }

-- A line is printed, unless that fails.
abbrev pub printed_or : Option Thrown → (after before : State) → Outcome (Unit {0}) × State
printed_or none after before = (ok tt, after)
printed_or (some e) after before = (throw e, before)

abbrev pub print_out : Setting → String → Act State (Unit {0})
print_out setting line s = printed_or (setting.out_fails s.outer.out line) (add_out line s) s

abbrev pub print_err : Setting → String → Act State (Unit {0})
print_err setting line s = printed_or (setting.err_fails s.outer.err line) (add_err line s) s

abbrev pub recorded : Setting → ReportDeps Ledger
recorded setting = record {
  log = setting.log;
  list_pages = λ prefix s. (answered (setting.sizes prefix), s);
  insert_returning = insert_returning setting;
  validate = setting.validate;
  date_parse = setting.date_parse;
  now = λ s. (ok (setting.clock s.outer), s);
  stdout = print_out setting;
  stderr = print_err setting;
  rounds = setting.rounds;
}

-- The rows of the inserts that succeeded, in their order.
abbrev pub landed_rows : Inserts → List NewEvent
landed_rows [] = []
landed_rows ((rows, inl e) ∷ h) = landed_rows h
landed_rows ((rows, inr ids) ∷ h) = landed_rows h ++ rows

-- How many ids were given back.
abbrev pub returned : Inserts → ℕ
returned [] = 0
returned ((rows, inl e) ∷ h) = returned h
returned ((rows, inr ids) ∷ h) = returned h + length ids

-- Each insert has between one row and `max`.
abbrev pub IsSized : ℕ → Inserts → Type 0
IsSized max [] = Unit {0}
IsSized max ((rows, answer) ∷ h) = (0 < length rows) × (length rows ≤ max) × IsSized max h
