-- ===== src/Replay/Driver/History.antt =====
-- The world of a replay: the inserts that were tried, with their answers, the latest first.
use posta.Shared.{ℕ, ◌≤◌, ◌<◌, ◌≡◌, List, [], ◌∷◌, ◌++◌, Option, none, some, length}
use posta.Shared.Thrown.{Thrown}
use posta.Shared.Recording.{History}
use posta.Batch.Rows.{NewEvent}

-- Whether an insert fails is decided from those before it.
abbrev pub Oracle : Type 0
Oracle = History (List NewEvent) → List NewEvent → Option Thrown

-- The rows of the inserts that succeeded, in their order.
abbrev pub landed : History (List NewEvent) → List NewEvent
landed [] = []
landed ((rows, none) ∷ h) = landed h ++ rows
landed ((rows, some e) ∷ h) = landed h

-- No insert failed, and each had between one row and `max`.
abbrev pub IsBatched : ℕ → History (List NewEvent) → Type 0
IsBatched max [] = Unit {0}
IsBatched max ((rows, none) ∷ h) = (0 < length rows) × (length rows ≤ max) × IsBatched max h
IsBatched max ((rows, some e) ∷ h) = ⊥

-- The last insert failed, and none before it.
abbrev pub IsBroken : ℕ → History (List NewEvent) → Type 0
IsBroken max [] = ⊥
IsBroken max ((rows, none) ∷ h) = ⊥
IsBroken max ((rows, some e) ∷ h) = (0 < length rows) × (length rows ≤ max) × IsBatched max h

-- The rows are the first of a list.
abbrev pub IsPrefix : List NewEvent → List NewEvent → Type 0
IsPrefix rows all = (rest : List NewEvent) × (all ≡ rows ++ rest)
