-- ===== src/Core/Enrichment/Markers.antt =====
-- The two readings of a user agent's markers agree, and what is read off the texts has the shape
-- that the columns of the database promise.
use posta.Shared.{◌≡◌, refl, ◌≢◌, ◌⊎◌, String, Bool, true, Option, none, some, arith, any, inl, inr}
use posta.Shared.Text.{includes}
use posta.Core.Enrichment.{
  EnrichDeps, resolve_source_platform, platform_from_referer, referer_host, is_in_app, directo,
  platform_from_ua, find_platform, ua_marker_platforms, in_app_markers,
}

find_platform-any :
    (p : String → Bool)
    → (find_platform p ua_marker_platforms ≡ none) ⊎ (any p in_app_markers ≡ true)
find_platform-any p = ground arith

decide : (ua : Option String) → (platform_from_ua ua ≡ directo) ⊎ (is_in_app ua ≡ true)
unfolding is_in_app
decide none = inl refl
decide (some ua) = elim (find_platform-any (λ marker. includes ua marker)) [
  | inl e ↦ inl (rw e refl)
  | inr e ↦ inr e
]

-- A click that its referer does not place but its user agent does is a click from inside an app.
pub resolve_source_platform-is_in_app :
    (deps : EnrichDeps) (referer ua : Option String)
    → platform_from_referer (referer_host deps referer) ≡ none
    → resolve_source_platform deps referer ua ≢ directo
    → is_in_app ua ≡ true
unfolding resolve_source_platform
resolve_source_platform-is_in_app deps referer ua h d = elim (decide ua) [
  | inl e ↦ elim (d (rw h e)) [ ]
  | inr e ↦ e
]
