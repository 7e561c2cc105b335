-- ===== src/Core/Tenants/Isolation.antt =====
-- Whatever is asked through the queries of tenants, each sees and changes its own rows only.
use posta.Shared.{
  ◌≡◌, refl, sym, ap, ◌∙◌, subst, arith, String, Bool, true, false, not, ◌&&◌, List, [], ◌∷◌, ◌++◌,
  append-nil, map, Option, none, if◌then◌else◌, select, select-append, str_eq, str_eq_iff,
  Bool-cases, inl, inr, All, Outcome, ok, throw, stuck, some,
}
use posta.Shared.Thrown.{Thrown}
use posta.Core.Tenants.{Row, Changes, tenant_scope, and_extra}
use posta.Core.Tenants.Queries.{
  apply_changes, change_rows, IsOwn, rows_of, own_effect, own_answer, own_effects, queries_of, asks,
  asks_all, accepted, Query, selects, updates, deletes, inserts,
}

other_tenant : (s t u : String) → (t ≡ u → ⊥) → str_eq s t ≡ true → str_eq s u ≡ false
other_tenant s t u n h = elim (Bool-cases (str_eq s u)) [
  | inl e ↦ elim (n (sym ((str_eq_iff s t).0 h) ∙ (str_eq_iff s u).0 e)) [ ]
  | inr e ↦ e
]

module _ {C : Type 0} (tenant_id other : String) (different : tenant_id ≡ other → ⊥) where
  scope-other :
      (extra : Option (Row C → Bool)) (row : Row C)
      → str_eq row.tenant_id other ≡ true
      → tenant_scope tenant_id extra row ≡ false
  scope-other extra row h =
      rw (other_tenant row.tenant_id other tenant_id (λ e. different (sym e)) h) refl

  update-other :
      (values : Changes C) (extra : Option (Row C → Bool)) (rows : List (Row C))
      → values.tenant_id ≡ none
      → rows_of other (change_rows values (tenant_scope tenant_id extra) rows) ≡ rows_of other rows
  update-other values extra [] e = refl
  update-other values extra (row ∷ rows) e = elim (Bool-cases (str_eq row.tenant_id other)) [
    | inl h ↦ rw (scope-other extra row h, h, update-other values extra rows e) refl
    | inr h ↦ elim (Bool-cases (tenant_scope tenant_id extra row)) [
      | inl p ↦ rw (p, e, h, update-other values extra rows e) refl
      | inr p ↦ rw (p, h, update-other values extra rows e) refl
    ]
  ]

  delete-other :
      (extra : Option (Row C → Bool)) (rows : List (Row C))
      → rows_of other (select (λ row. not (tenant_scope tenant_id extra row)) rows)
        ≡ rows_of other rows
  delete-other extra [] = refl
  delete-other extra (row ∷ rows) = elim (Bool-cases (str_eq row.tenant_id other)) [
    | inl h ↦ rw (scope-other extra row h, h, delete-other extra rows) refl
    | inr h ↦ elim (Bool-cases (tenant_scope tenant_id extra row)) [
      | inl p ↦ rw (p, h, delete-other extra rows) refl
      | inr p ↦ rw (p, h, delete-other extra rows) refl
    ]
  ]

  insert-other :
      (values : C) (rows : List (Row C))
      → rows_of other (rows ++ record { tenant_id = tenant_id; columns = values } ∷ [])
        ≡ rows_of other rows
  insert-other values rows =
      let e : str_eq tenant_id other ≡ false =
        other_tenant tenant_id tenant_id other different
          ((str_eq_iff tenant_id tenant_id).1 refl) in
      select-append (λ row. str_eq row.tenant_id other) rows _
      ∙ rw e (append-nil (rows_of other rows))

-- What is done within a part of a list is done to that part.
module _ {A : Type 0} (own extra : A → Bool) where
  select-within : (xs : List A) → select (λ x. own x && extra x) xs ≡ select extra (select own xs)
  select-within [] = refl
  select-within (x ∷ xs) = ground (arith, select-within xs)

  delete-within :
      (xs : List A)
      → select own (select (λ x. not (own x && extra x)) xs)
        ≡ select (λ x. not (extra x)) (select own xs)
  delete-within [] = refl
  delete-within (x ∷ xs) = ground (arith, delete-within xs)

  update-within :
      (f : A → A)
      → ((x : A) → own (f x) ≡ own x)
      → (xs : List A)
      → select own (map (λ x. if own x && extra x then f x else x) xs)
        ≡ map (λ x. if extra x then f x else x) (select own xs)
  update-within f keeps [] = refl
  update-within f keeps (x ∷ xs) = let k = keeps x in ground (arith, k, update-within f keeps xs)

-- What a scoped query does to the whole table and answers from it, if it is not refused.
abbrev scoped_effect : {C : Type 0} → String → Query C → List (Row C) → List (Row C)
scoped_effect tenant_id (selects extra) rows = rows
scoped_effect tenant_id (updates values extra) rows =
    change_rows values (tenant_scope tenant_id extra) rows
scoped_effect tenant_id (deletes extra) rows =
    select (λ row. not (tenant_scope tenant_id extra row)) rows
scoped_effect tenant_id (inserts values) rows =
    rows ++ record { tenant_id = tenant_id; columns = values } ∷ []

abbrev scoped_answer : {C : Type 0} → String → Query C → List (Row C) → List (Row C)
scoped_answer tenant_id (selects extra) rows = select (tenant_scope tenant_id extra) rows
scoped_answer tenant_id query rows = []

scoped_effect-other :
    {C : Type 0} (tenant_id other : String)
    → (tenant_id ≡ other → ⊥)
    → (query : Query C) (rows : List (Row C)) → IsOwn query
    → rows_of other (scoped_effect tenant_id query rows) ≡ rows_of other rows
scoped_effect-other t other d (selects extra) rows h = refl
scoped_effect-other t other d (updates values extra) rows h =
    update-other t other d values extra rows h
scoped_effect-other t other d (deletes extra) rows h = delete-other t other d extra rows
scoped_effect-other t other d (inserts values) rows h = insert-other t other d values rows

scoped_effect-own :
    {C : Type 0} (tenant_id : String) (query : Query C) (rows : List (Row C))
    → IsOwn query
    → rows_of tenant_id (scoped_effect tenant_id query rows)
      ≡ own_effect tenant_id query (rows_of tenant_id rows)
scoped_effect-own t (selects extra) rows h = refl
scoped_effect-own t (updates values extra) rows h =
    update-within (λ row. str_eq row.tenant_id t) (and_extra extra) (apply_changes values)
      (λ row. rw h refl) rows
scoped_effect-own t (deletes extra) rows h =
    delete-within (λ row. str_eq row.tenant_id t) (and_extra extra) rows
scoped_effect-own t (inserts values) rows h =
    select-append (λ row. str_eq row.tenant_id t) rows _ ∙ rw ((str_eq_iff t t).1 refl) refl

scoped_answer-own :
    {C : Type 0} (tenant_id : String) (query : Query C) (rows : List (Row C))
    → scoped_answer tenant_id query rows ≡ own_answer query (rows_of tenant_id rows)
scoped_answer-own t (selects extra) rows =
    select-within (λ row. str_eq row.tenant_id t) (and_extra extra) rows
scoped_answer-own t (updates values extra) rows = refl
scoped_answer-own t (deletes extra) rows = refl
scoped_answer-own t (inserts values) rows = refl

module _ {C : Type 0} (refusal : (before after : List (Row C)) → Option Thrown) where
  asks-accepted :
      (t : String) (query : Query C) (rows : List (Row C))
      → refusal rows (scoped_effect t query rows) ≡ none
      → asks refusal t query rows ≡ (ok (scoped_answer t query rows), scoped_effect t query rows)
  asks-accepted t (selects extra) rows h = rw h refl
  asks-accepted t (updates values extra) rows h = rw h refl
  asks-accepted t (deletes extra) rows h = rw h refl
  asks-accepted t (inserts values) rows h = rw h refl

  asks-refused :
      (t : String) (query : Query C) (rows : List (Row C)) (e : Thrown)
      → refusal rows (scoped_effect t query rows) ≡ some e
      → asks refusal t query rows ≡ (throw e, rows)
  asks-refused t (selects extra) rows e h = rw h refl
  asks-refused t (updates values extra) rows e h = rw h refl
  asks-refused t (deletes extra) rows e h = rw h refl
  asks-refused t (inserts values) rows e h = rw h refl

  -- The rows of a tenant after queries.
  abbrev IsIsolated : String → List (String × Query C) → List (Row C) → Type 0
  IsIsolated tenant_id queries rows =
      rows_of tenant_id (asks_all refusal queries rows)
      ≡ own_effects (queries_of tenant_id (accepted refusal queries rows)) (rows_of tenant_id rows)

  own_effects_step :
      (tenant_id t : String) (query : Query C) (rest : List (String × Query C))
      (rows : List (Row C))
      → IsOwn query
      → own_effects (queries_of tenant_id rest) (rows_of tenant_id (scoped_effect t query rows))
        ≡ own_effects (queries_of tenant_id ((t, query) ∷ rest)) (rows_of tenant_id rows)
  own_effects_step tenant_id t query rest rows o = elim (Bool-cases (str_eq t tenant_id)) [
    | inl e ↦
        let same : t ≡ tenant_id = (str_eq_iff t tenant_id).0 e in
        rw e (
          ap (own_effects (queries_of tenant_id rest)) (
            subst
              (λ u. rows_of u (scoped_effect t query rows) ≡ own_effect t query (rows_of u rows))
              same (scoped_effect-own t query rows o)))
    | inr e ↦ rw e (
        ap (own_effects (queries_of tenant_id rest)) (
          scoped_effect-other t tenant_id
            (λ d. let no : true ≡ false = sym ((str_eq_iff t tenant_id).1 d) ∙ e in cc) query rows
            o))
  ]

  step-IsIsolated :
      (r : Option Thrown) (tenant_id t : String) (query : Query C)
      (queries : List (String × Query C)) (rows : List (Row C))
      → refusal rows (scoped_effect t query rows) ≡ r
      → IsOwn query
      → ((next : List (Row C)) → IsIsolated tenant_id queries next)
      → IsIsolated tenant_id ((t, query) ∷ queries) rows
  step-IsIsolated none tenant_id t query queries rows h o k = rw (asks-accepted t query rows h) (
      k (scoped_effect t query rows)
      ∙ own_effects_step tenant_id t query (accepted refusal queries (scoped_effect t query rows))
          rows o)
  step-IsIsolated (some e) tenant_id t query queries rows h o k =
      rw (asks-refused t query rows e h) (k rows)

  all-IsIsolated :
      (tenant_id : String) (queries : List (String × Query C)) (rows : List (Row C))
      → All (λ q. IsOwn q.1) queries
      → IsIsolated tenant_id queries rows
  all-IsIsolated tenant_id [] rows h = refl
  all-IsIsolated tenant_id ((t, query) ∷ queries) rows (o, h) =
      step-IsIsolated (refusal rows (scoped_effect t query rows)) tenant_id t query queries rows
        refl o λ next. all-IsIsolated tenant_id queries next h

  -- These rows, or the error of a refusal.
  abbrev pub IsAnswer : (before rows : List (Row C)) → Outcome (List (Row C)) → Type 0
  IsAnswer before rows (ok found) = found ≡ rows
  IsAnswer before rows (throw e) = (after : List (Row C)) × (refusal before after ≡ some e)
  IsAnswer before rows stuck = ⊥

  step-IsAnswer :
      (r : Option Thrown) (tenant_id : String) (query : Query C) (rows : List (Row C))
      → refusal rows (scoped_effect tenant_id query rows) ≡ r
      → IsAnswer rows
          (own_answer query (rows_of tenant_id rows))
          (asks refusal tenant_id query rows).0
  step-IsAnswer none tenant_id query rows h =
      rw (asks-accepted tenant_id query rows h) (scoped_answer-own tenant_id query rows)
  step-IsAnswer (some e) tenant_id query rows h =
      rw (asks-refused tenant_id query rows e h) (scoped_effect tenant_id query rows, h)

  -- Whatever queries the tenants make of a table, in any order, of which no update names a tenant among its values, and
  -- whichever of them the database refuses: the rows of a tenant are what its own accepted queries make of its rows,
  -- as if there were no others; and a further query of its own answers from those rows only, unless the database
  -- refuses it. What other tenants have can decide no more than that.
  pub asks_all-queries_of :
      (tenant_id : String) (queries : List (String × Query C)) (query : Query C)
      (rows : List (Row C))
      → All (λ q. IsOwn q.1) queries
      → (rows_of tenant_id (asks_all refusal queries rows)
          ≡ own_effects
              (queries_of tenant_id (accepted refusal queries rows))
              (rows_of tenant_id rows))
        × IsAnswer
            (asks_all refusal queries rows)
            (own_answer query (
              own_effects
                (queries_of tenant_id (accepted refusal queries rows))
                (rows_of tenant_id rows)))
            (asks refusal tenant_id query (asks_all refusal queries rows)).0
  asks_all-queries_of tenant_id queries query rows h =
      let own = all-IsIsolated tenant_id queries rows h in
      (
        own,
        subst
            (λ mine.
              IsAnswer (asks_all refusal queries rows) (own_answer query mine)
                (asks refusal tenant_id query (asks_all refusal queries rows)).0)
            own (step-IsAnswer _ tenant_id query (asks_all refusal queries rows) refl),
      )
