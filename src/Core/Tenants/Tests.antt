-- ===== src/Core/Tenants/Tests.antt =====
-- Two tenants with one link each, under the same slug.
use posta.Shared.{
  ◌≡◌, refl, String, Bool, false, ◌||◌, List, [], ◌∷◌, Option, none, some, ok, ◌>>=◌, map, length,
  str_eq, if◌then◌else◌,
}
use posta.Shared.Thrown.{Thrown, new_error}
use posta.Core.Tenants.{
  Row, LinkColumns, BioPageColumns, Database, TableDeps, resolve_tenant_by_handle,
  resolve_link_by_slug,
}
use posta.Core.Tenants.Queries.{
  table, Query, inserts, updates, deletes, selects, asks, asks_all, accepted, rows_of, queries_of,
  own_effects, own_answer,
}
use posta.Core.Tenants.Isolation.{IsAnswer, asks_all-queries_of}

abbrev link_of : String → String → Row LinkColumns
link_of tenant destination = record {
  tenant_id = tenant;
  columns = record {
    id = destination;
    slug = "go";
    destination = destination;
    title = none;
    archived_at = none;
  };
}

abbrev links : List (Row LinkColumns)
links = link_of "a" "https://a.test" ∷ link_of "b" "https://b.test" ∷ []

-- The tables that the two look-ups do not ask are empty.
abbrev idle : {C : Type 0} → TableDeps (List (Row LinkColumns)) C
idle = record {
  select = λ p s. (ok [], s);
  update = λ v p s. (ok tt, s);
  delete = λ p s. (ok tt, s);
  insert = λ r s. (ok tt, s);
}

abbrev database : Database (List (Row LinkColumns)) (Unit {0}) (Unit {0})
database = record {
  links = table (λ before after. none);
  bio_pages = idle;
  bio_links = idle;
  domains = idle;
}

resolve-own :
    (resolve_link_by_slug database "b" "go" links).0
    ≡ ok (
        some
          (record { link_id = "https://b.test"; tenant_id = "b"; destination = "https://b.test" }))
unfolding resolve_link_by_slug ◌>>=◌
resolve-own = refl

resolve-unknown : (resolve_tenant_by_handle database "jua" links).0 ≡ ok none
unfolding resolve_tenant_by_handle ◌>>=◌
resolve-unknown = refl

-- The values of an update can name a tenant: the row of "a" is then one of "b".
moved :
    rows_of "b"
      (asks
        (λ before after. none)
        "a"
        (updates (record { tenant_id = some "b"; change = λ c. c }) none)
        (link_of "a" "x" ∷ [])).1
    ≡ link_of "b" "x" ∷ []
moved = refl

abbrev page_of : String → String → Row BioPageColumns
page_of tenant handle = record {
  tenant_id = tenant;
  columns = record { id = tenant; handle = handle; display_name = none };
}

abbrev handles : List (Row BioPageColumns) → List String
handles rows = map (λ row. row.columns.handle) rows

abbrev is_taken : String → List String → Bool
is_taken handle [] = false
is_taken handle (h ∷ hs) = str_eq h handle || is_taken handle hs

abbrev duplicate : List String → Option Thrown
duplicate [] = none
duplicate (h ∷ hs) =
    let rest = duplicate hs in if is_taken h hs then some (new_error "23505") else rest

-- The handle of a page is unique among the pages of all tenants.
abbrev unique_handle : (before after : List (Row BioPageColumns)) → Option Thrown
unique_handle before after = duplicate (handles after)

abbrev pages : List (Row BioPageColumns)
pages = page_of "a" "ana" ∷ page_of "b" "bia" ∷ []

abbrev queries : List (String × Query BioPageColumns)
queries =
    ("a", deletes none)
    ∷ ("a", inserts (record { id = "2"; handle = "bia"; display_name = none }))
    ∷ ("b", inserts (record { id = "3"; handle = "ana"; display_name = none }))
    ∷ []

-- The page of "b" has taken the handle that "a" asks for.
refused : length (accepted unique_handle queries pages) ≡ 2
refused = refl

asks_all-queries_of_example :
    (rows_of "b" (asks_all unique_handle queries pages)
      ≡ own_effects (queries_of "b" (accepted unique_handle queries pages)) (rows_of "b" pages))
    × IsAnswer unique_handle
        (asks_all unique_handle queries pages)
        (own_answer
          (selects none)
          (own_effects (queries_of "b" (accepted unique_handle queries pages)) (rows_of "b" pages)))
        (asks unique_handle "b" (selects none) (asks_all unique_handle queries pages)).0
asks_all-queries_of_example =
    asks_all-queries_of unique_handle "b" queries (selects none) pages (tt, (tt, (tt, tt)))
