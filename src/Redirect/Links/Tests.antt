-- ===== src/Redirect/Links/Tests.antt =====
-- A link that Redis cannot be asked for.
use posta.Shared.{◌≡◌, refl, some, ok, throw}
use posta.Shared.Thrown.{new_error}
use posta.Shared.Triples.{Triple}
use posta.Redirect.Handler.{CachedLink}
use posta.Redirect.Links.{LinkDeps, value, resolve_link}
use posta.Redirect.Links.Transparency.{Backed, resolve_link-IsStored}

abbrev promo : CachedLink
promo = record { link_id = "l1"; tenant_id = "t1"; destination = "https://example.com/" }

-- The cache holds the link, and no write of it succeeds.
abbrev cached : LinkDeps (Unit {0})
cached = record {
  redis_get = λ key w. (ok (value (some "{}")), w);
  redis_setex = λ key seconds text w. (throw (new_error "READONLY"), w);
  select_link = λ tenant slug w. (ok (some promo), w);
  warn = λ warning w. (ok tt, w);
  parse_cached_link = λ raw. some promo;
  stringify_link = λ link. ok "{}";
  cache_ttl_seconds = 300;
}

cached-Backed : Backed (λ w. Unit {0}) cached "t1" "promo" (some promo)
cached-Backed = record {
  reads = record { at = λ w i. (record { absent = λ e. cc; present = λ link e h. h }, tt) };
  writes = λ seconds text. record { at = λ w i. tt };
  selects = record { at = λ w i. (refl, tt) };
  warns = λ warning. record { at = λ w i. tt };
  stringifies = λ link e. cc;
}

resolve_link-IsStored_example :
    Triple
      (λ w. Unit {0})
      (resolve_link cached "t1" "promo")
      (λ o w. (o ≡ some promo) × Unit {0})
      (λ _. ⊥)
resolve_link-IsStored_example = resolve_link-IsStored cached "t1" "promo" (some promo) cached-Backed
