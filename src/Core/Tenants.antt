-- ===== src/Core/Tenants.antt =====
-- packages/core/src/db/tenant.ts: queries that are scoped to a tenant. A condition is a test of a row; the statements
-- of the database are parameters. What a row has beside its tenant is a type of its own for each table.
pub mod Queries
pub mod Isolation
mod Tests
use posta.Shared.{
  String, Bool, true, false, ◌&&◌, if◌then◌else◌, List, [], ◌∷◌, Option, none, some, or_else,
  str_eq, Act, pure, ◌>>=◌,
}
use posta.Shared.Text.{is_some}
use posta.Redirect.Handler.{CachedLink}

pub record Row (C : Type 0) : Type 0 where
  pub tenant_id : String
  pub columns : C

-- `Partial<typeof table.$inferInsert>`: it can name the tenant too.
pub record Changes (C : Type 0) : Type 0 where
  pub tenant_id : Option String
  pub change : C → C

pub record TableDeps (W C : Type 0) : Type 0 where
  pub select : (Row C → Bool) → Act W (List (Row C))
  pub update : Changes C → (Row C → Bool) → Act W (Unit {0})
  pub delete : (Row C → Bool) → Act W (Unit {0})
  pub insert : Row C → Act W (Unit {0})

-- `and(scoped, extra)`
abbrev pub and_extra : {C : Type 0} → Option (Row C → Bool) → Row C → Bool
and_extra none row = true
and_extra (some extra) row = extra row

abbrev pub tenant_scope : {C : Type 0} → String → Option (Row C → Bool) → Row C → Bool
tenant_scope tenant_id extra row = str_eq row.tenant_id tenant_id && and_extra extra row

pub record ScopedTable (W C : Type 0) : Type 0 where
  pub select : Option (Row C → Bool) → Act W (List (Row C))
  pub update : Changes C → Option (Row C → Bool) → Act W (Unit {0})
  pub delete : Option (Row C → Bool) → Act W (Unit {0})
  pub insert : C → Act W (Unit {0})

-- `scopedLinks`, `scopedBioPages`, `scopedBioLinks` and `scopedDomains`, which differ in the table only.
abbrev pub scoped : {W C : Type 0} → TableDeps W C → String → ScopedTable W C
scoped table tenant_id = record {
  select = λ extra. table.select (tenant_scope tenant_id extra);
  update = λ values extra. table.update values (tenant_scope tenant_id extra);
  delete = λ extra. table.delete (tenant_scope tenant_id extra);
  insert = λ values. table.insert (record { tenant_id = tenant_id; columns = values });
}

-- The columns of a link and of a page, less those the look-ups of this file leave alone.
pub record LinkColumns : Type 0 where
  pub id : String
  pub slug : String
  pub destination : String
  pub title : Option String
  pub archived_at : Option String

pub record BioPageColumns : Type 0 where
  pub id : String
  pub handle : String
  pub display_name : Option String

pub record Database (W BioLink Domain : Type 0) : Type 0 where
  pub links : TableDeps W LinkColumns
  pub bio_pages : TableDeps W BioPageColumns
  pub bio_links : TableDeps W BioLink
  pub domains : TableDeps W Domain

pub record TenantQueries (W BioLink Domain : Type 0) : Type 0 where
  pub links : ScopedTable W LinkColumns
  pub bio_pages : ScopedTable W BioPageColumns
  pub bio_links : ScopedTable W BioLink
  pub domains : ScopedTable W Domain

-- `row?.tenantId ?? null`
abbrev pub first_tenant : {C : Type 0} → List (Row C) → Option String
first_tenant [] = none
first_tenant (row ∷ rows) = some row.tenant_id

abbrev pub first_link : List (Row LinkColumns) → Option CachedLink
first_link [] = none
first_link (row ∷ rows) = some (record {
  link_id = row.columns.id;
  tenant_id = row.tenant_id;
  destination = row.columns.destination;
})

abbrev pub is_live_slug : String → Row LinkColumns → Bool
is_live_slug slug row =
    str_eq row.columns.slug slug && (if is_some row.columns.archived_at then false else true)

module _ {W BioLink Domain : Type 0} (db : Database W BioLink Domain) where
  abbrev pub for_tenant : String → TenantQueries W BioLink Domain
  for_tenant tenant_id = record {
    links = scoped db.links tenant_id;
    bio_pages = scoped db.bio_pages tenant_id;
    bio_links = scoped db.bio_links tenant_id;
    domains = scoped db.domains tenant_id;
  }

  unfoldable pub resolve_tenant_by_handle : String → Act W (Option String)
  resolve_tenant_by_handle handle = do
    rows ← db.bio_pages.select (λ row. str_eq row.columns.handle handle)
    pure (first_tenant rows)

  unfoldable pub resolve_link_by_slug : (tenant_id slug : String) → Act W (Option CachedLink)
  resolve_link_by_slug tenant_id slug = do
    rows ← (for_tenant tenant_id).links.select (some (is_live_slug slug))
    pure (first_link rows)
