-- ===== src/Core/Tenants/Queries.antt =====
-- The queries of tenants on one table, and what each does to the rows of its tenant.
use posta.Shared.{
  ◌≡◌, String, Bool, true, false, not, List, [], ◌∷◌, ◌++◌, map, Option, none, or_else,
  if◌then◌else◌, select, str_eq, Act, Outcome, ok, throw, stuck, some,
}
use posta.Shared.Thrown.{Thrown}
use posta.Core.Tenants.{Row, Changes, TableDeps, and_extra, scoped}

-- A table: a statement acts on the rows that pass its test.
abbrev pub apply_changes : {C : Type 0} → Changes C → Row C → Row C
apply_changes values row = record {
  tenant_id = or_else values.tenant_id row.tenant_id;
  columns = values.change row.columns;
}

abbrev pub change_rows : {C : Type 0} → Changes C → (Row C → Bool) → List (Row C) → List (Row C)
change_rows values p rows = map (λ row. if p row then apply_changes values row else row) rows

-- A call of one of the scoped queries.
pub data Query (C : Type 0) : Type 0 where
  selects : Option (Row C → Bool) → Query C
  updates : Changes C → Option (Row C → Bool) → Query C
  deletes : Option (Row C → Bool) → Query C
  inserts : C → Query C

-- The tenant is not among the values of an update.
abbrev pub IsOwn : {C : Type 0} → Query C → Type 0
IsOwn (selects extra) = Unit {0}
IsOwn (updates values extra) = values.tenant_id ≡ none
IsOwn (deletes extra) = Unit {0}
IsOwn (inserts values) = Unit {0}

abbrev pub rows_of : {C : Type 0} → String → List (Row C) → List (Row C)
rows_of tenant_id rows = select (λ row. str_eq row.tenant_id tenant_id) rows

-- What a query does to the rows of its tenant and what it answers, if there are no other rows.
abbrev pub own_effect : {C : Type 0} → String → Query C → List (Row C) → List (Row C)
own_effect tenant_id (selects extra) rows = rows
own_effect tenant_id (updates values extra) rows = change_rows values (and_extra extra) rows
own_effect tenant_id (deletes extra) rows = select (λ row. not (and_extra extra row)) rows
own_effect tenant_id (inserts values) rows =
    rows ++ record { tenant_id = tenant_id; columns = values } ∷ []

abbrev pub own_answer : {C : Type 0} → Query C → List (Row C) → List (Row C)
own_answer (selects extra) rows = select (and_extra extra) rows
own_answer (updates values extra) rows = []
own_answer (deletes extra) rows = []
own_answer (inserts values) rows = []

abbrev pub own_effects : {C : Type 0} → List (String × Query C) → List (Row C) → List (Row C)
own_effects [] rows = rows
own_effects ((tenant_id, query) ∷ queries) rows =
    own_effects queries (own_effect tenant_id query rows)

-- The queries of one tenant among those of all.
abbrev pub queries_of : {C : Type 0} → String → List (String × Query C) → List (String × Query C)
queries_of tenant_id queries = select (λ q. str_eq q.0 tenant_id) queries

-- A statement that the database refuses changes nothing.
abbrev pub settled : {A R : Type 0} → Option Thrown → A → R → R → Outcome A × R
settled none a after before = (ok a, after)
settled (some e) a after before = (throw e, before)

abbrev pub no_rows : {C R : Type 0} → Outcome (Unit {0}) × R → Outcome (List C) × R
no_rows (ok _, rows) = (ok [], rows)
no_rows (throw e, rows) = (throw e, rows)
no_rows (stuck, rows) = (stuck, rows)

abbrev pub is_ok : {A : Type 0} → Outcome A → Bool
is_ok (ok a) = true
is_ok (throw e) = false
is_ok stuck = false

-- `refusal` tells of a statement, from the rows before and after it, whether the database refuses it: it can break a
-- constraint that spans the rows of all tenants, such as the unique handle of a page, or fail of itself.
module _ {C : Type 0} (refusal : (before after : List (Row C)) → Option Thrown) where
  abbrev pub table : TableDeps (List (Row C)) C
  table = record {
    select = λ p rows. settled (refusal rows rows) (select p rows) rows rows;
    update = λ values p rows.
        settled (refusal rows (change_rows values p rows)) tt (change_rows values p rows) rows;
    delete = λ p rows.
        settled (refusal rows (select (λ row. not (p row)) rows)) tt
          (select (λ row. not (p row)) rows) rows;
    insert = λ row rows. settled (refusal rows (rows ++ row ∷ [])) tt (rows ++ row ∷ []) rows;
  }

  abbrev pub asks : String → Query C → Act (List (Row C)) (List (Row C))
  asks tenant_id (selects extra) rows = (scoped table tenant_id).select extra rows
  asks tenant_id (updates values extra) rows =
      no_rows ((scoped table tenant_id).update values extra rows)
  asks tenant_id (deletes extra) rows = no_rows ((scoped table tenant_id).delete extra rows)
  asks tenant_id (inserts values) rows = no_rows ((scoped table tenant_id).insert values rows)

  abbrev pub asks_all : List (String × Query C) → List (Row C) → List (Row C)
  asks_all [] rows = rows
  asks_all ((tenant_id, query) ∷ queries) rows = asks_all queries (asks tenant_id query rows).1

  -- The queries that are not refused, when all are made in their order.
  abbrev pub accepted : List (String × Query C) → List (Row C) → List (String × Query C)
  accepted [] rows = []
  accepted ((tenant_id, query) ∷ queries) rows =
      let rest = accepted queries (asks tenant_id query rows).1 in
      if is_ok (asks tenant_id query rows).0 then (tenant_id, query) ∷ rest else rest
