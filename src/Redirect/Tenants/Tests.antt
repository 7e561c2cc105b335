-- ===== src/Redirect/Tenants/Tests.antt =====
-- A memo of two entries at most, and a lookup that the database answers.
use posta.Shared.{◌≡◌, refl, none, some, [], ◌∷◌, ok}
use posta.Shared.Rules.{Keeps}
use posta.Redirect.Links.{value}
use posta.Redirect.Tenants.{
  MemoEntry, TenantDeps, set, has_key, evict, remember_in_memo, resolve_tenant,
}
use posta.Redirect.Tenants.Bounds.{IsBounded, resolve_tenant-IsBounded}

abbrev entry : MemoEntry
entry = record { tenant_id = some "t1"; expires_at = 60005 }

opened : Unit {0}
unfolding remember_in_memo evict set has_key
opened = tt

-- The oldest of two entries makes room for a third.
room :
    remember_in_memo 2 "c" (some "t1") 5 (("a", entry) ∷ ("b", entry) ∷ [])
    ≡ ("b", entry) ∷ ("c", entry) ∷ []
unfolding opened
room = refl

abbrev cold : TenantDeps (Unit {0})
cold = record {
  redis_get = λ key w. (ok (value none), w);
  redis_setex = λ key seconds text w. (ok tt, w);
  select_tenant = λ handle w. (ok (some "t1"), w);
  warn = λ warning w. (ok tt, w);
  now = λ w. (ok 5, w);
}

resolve_tenant-IsBounded_example : Keeps IsBounded (resolve_tenant cold "ana")
resolve_tenant-IsBounded_example = resolve_tenant-IsBounded cold "ana"
