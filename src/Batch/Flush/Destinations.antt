-- ===== src/Batch/Flush/Destinations.antt =====
-- A click is given the destination of its own link only.
use mathlib.Core.List.{Mem, mem-cons_self, mem-cons_of_mem}
use posta.Shared.{
  ap, subst, ◌≡◌, refl, ◌∙◌, sym, String, Bool, true, false, List, [], ◌∷◌, Option, none, some,
  str_eq, str_eq_iff, Option-cases, inl, inr, ◌⊎◌, if◌then◌else◌,
}
use posta.Contracts.Capture.{CaptureEvent}
use posta.Batch.Flush.{
  LinkRow, tenant_mismatch, ResolvedEvent, lookup, matching, or_none, resolution,
  resolve_destination,
}

chosen :
    (b : Bool) (row found : LinkRow)
    → (if b then some row else none) ≡ some found
    → (row ≡ found) × (b ≡ true)
chosen true row found h = (cc, refl)
chosen false row found h = cc

either :
    (later other : Option LinkRow) (found : LinkRow)
    → or_none later other ≡ some found
    → (later ≡ some found) ⊎ (other ≡ some found)
either none other found h = inr h
either (some row) other found h = inl h

lookup-Mem :
    (id : String) (rows : List LinkRow) (row : LinkRow)
    → lookup id rows ≡ some row
    → Mem row rows × (row.id ≡ id)
unfolding lookup
lookup-Mem id [] row h = cc
lookup-Mem id (r ∷ rows) row h = elim (either (lookup id rows) (matching r id) row h) [
  | inl e ↦ let (m, i) = lookup-Mem id rows row e in (mem-cons_of_mem r m, i)
  | inr e ↦
      let (same, test) = chosen (str_eq r.id id) r row e in
      (
        subst (λ x. Mem x (r ∷ rows)) same mem-cons_self,
        ap (λ x. x.id) (sym same) ∙ (str_eq_iff r.id id).0 test,
      )
]

-- A row of the lookup for the link and the tenant of an event.
pub record IsOwn (rows : List LinkRow) (event : CaptureEvent) (destination : String) (row : LinkRow)
    : Type 0 where
  pub listed : Mem row rows
  pub link : row.id ≡ event.link_id
  pub tenant : row.tenant_id ≡ event.tenant_id
  pub same : row.destination ≡ destination

settled :
    (event : CaptureEvent) (row : LinkRow) (d : String) (b : Bool)
    → (if◌then◌else◌ {A = ResolvedEvent} b
        (record { event = event; destination = some row.destination; reason = none })
        (record { event = event; destination = none; reason = some tenant_mismatch })).destination
      ≡ some d
    → (b ≡ true) × (row.destination ≡ d)
settled event row d true h = (refl, cc)
settled event row d false h = cc

resolution-IsOwn :
    (rows : List LinkRow) (event : CaptureEvent) (d : String) (row : LinkRow)
    → lookup event.link_id rows ≡ some row
    → (resolution event (some row)).destination ≡ some d
    → IsOwn rows event d row
resolution-IsOwn rows event d row l h =
    let (m, i) = lookup-Mem event.link_id rows row l in
    let (test, e) = settled event row d (str_eq row.tenant_id event.tenant_id) h in
    record {
      listed = m;
      link = i;
      tenant = (str_eq_iff row.tenant_id event.tenant_id).0 test;
      same = e;
    }

unknown_link :
    (event : CaptureEvent) (d : String) → (resolution event none).destination ≡ some d → ⊥
unknown_link event d h = cc

-- Where an event is given a destination, the lookup returned a row with that destination for the event's own
-- link and the event's own tenant: no click ever gets the destination of another tenant's link.
pub resolve_destination-IsOwn :
    (rows : List LinkRow) (event : CaptureEvent) (d : String)
    → (resolve_destination rows event).destination ≡ some d
    → (row : LinkRow) × IsOwn rows event d row
unfolding resolve_destination
resolve_destination-IsOwn rows event d h = elim (Option-cases (lookup event.link_id rows)) [
  | inl e ↦ elim (unknown_link event d (sym (ap (λ o. (resolution event o).destination) e) ∙ h)) [ ]
  | inr (row, e) ↦ (
    row,
    resolution-IsOwn rows event d row e (sym (ap (λ o. (resolution event o).destination) e) ∙ h),
  )
]
