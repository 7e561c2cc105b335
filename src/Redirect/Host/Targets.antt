-- ===== src/Redirect/Host/Targets.antt =====
-- A request for a link addresses it, and no other request does.
use Prim.Native.String
use posta.Shared.{
  ◌≡◌, refl, sym, ap, ◌∙◌, subst, arith, ◌≤◌, String, Bool, true, false, not, ◌||◌, Option, none,
  some, if◌then◌else◌, leb, str_eq, [], ◌∷◌, ok,
}
use posta.Shared.Text.{utf16_length, trim, concat}
use posta.Shared.Cuts.{text-nil}
use posta.Contracts.Domain.{
  normalize_label, handle_max_length, build_link_url, parse_handle_from_host, host_for, origin_for,
}
use posta.Contracts.Domain.Hosts.{IsHandle}
use posta.Contracts.Domain.Handles.{
  IsDomain, IsHostOf, IsLinkUrl, parse_handle_from_host-IsHostOf, build_link_url-IsLinkUrl,
}
use posta.Contracts.Reserved.{is_reserved_handle, is_reserved_path}
use posta.Contracts.Slugs.{is_valid_slug}
use posta.Redirect.Handler.{
  RequestTarget, link, handle_root, reserved_path, reserved_handle, invalid_path, not_ours,
}
use posta.Redirect.Host.{
  RequestTargetParserConfig, extract_slug, only_slashes, slug_target, target_on_host,
  parse_request_target,
}
use posta.Redirect.Host.Slugs.{
  path_of, is_valid_slug-inv, slug_pattern-handle_pattern, handle_pattern-IsSegment, path-empty,
  path-slash, is_reserved_path-segment, extract_slug-segment, IsSegment, trim-segment,
}

-- Of the targets, only a link is read as one.
abbrev link_parts : RequestTarget → Option (String × String)
link_parts (link handle slug) = some (handle, slug)
link_parts (handle_root handle) = none
link_parts reserved_path = none
link_parts (reserved_handle handle) = none
link_parts invalid_path = none
link_parts not_ours = none

if_link-inv :
    (b : Bool) (t u : RequestTarget) (handle slug : String)
    → link_parts t ≡ none
    → (if b then t else u) ≡ link handle slug
    → (b ≡ false) × (u ≡ link handle slug)
if_link-inv true t u handle slug k h =
    let e : link_parts t ≡ some (handle, slug) = ap link_parts h in cc
if_link-inv false t u handle slug k h = (refl, h)

link_text :
    (origin_of : String → String) (label slug : String)
    → trim slug ≡ slug
    → concat (origin_of label ∷ "/" ∷ trim slug ∷ []) ≡ String.◌++◌ (origin_of label) (path_of slug)
link_text origin_of label slug e = rw (e, text-nil slug) refl

module _ (config : RequestTargetParserConfig) where
  -- The slug of a link and its handle, as a tenant can have claimed them.
  pub record IsAddress (handle slug : String) : Type 0 where
    pub open_handle : is_reserved_handle handle config.reserved_handles ≡ false
    pub valid : is_valid_slug slug ≡ true

  slug_target-inv :
      (label handle slug : String) (r : Option String)
      → slug_target label r ≡ link handle slug
      → (label ≡ handle) × (r ≡ some slug) × (is_valid_slug slug ≡ true)
  slug_target-inv label handle slug none h =
      let e : ◌≡◌ {A = Option (String × String)} none (some (handle, slug)) = ap link_parts h in cc
  slug_target-inv label handle slug (some s) h =
      let (e, k) = if_link-inv (not (is_valid_slug s)) _ _ handle slug refl h in
      let a : label ≡ handle = cc in
      let b : s ≡ slug = cc in (a, ap some b, rw (sym b) (ground (arith, e)))

  target_on_host-inv :
      (r : Option String) (path handle slug : String)
      → target_on_host config r path ≡ link handle slug
      → (r ≡ some handle) × (extract_slug path ≡ some slug) × IsAddress handle slug
  target_on_host-inv none path handle slug h =
      let e : ◌≡◌ {A = Option (String × String)} none (some (handle, slug)) = ap link_parts h in cc
  target_on_host-inv (some label) path handle slug h =
      let (e, h₁) =
        if_link-inv (is_reserved_handle label config.reserved_handles) _ _ handle slug refl h in
      let (f, h₂) = if_link-inv (str_eq path "" || str_eq path "/") _ _ handle slug refl h₁ in
      let (g, h₃) = if_link-inv (only_slashes path) _ _ handle slug refl h₂ in
      let (i, h₄) = if_link-inv (is_reserved_path path) _ _ handle slug refl h₃ in
      let (a, b, c) = slug_target-inv label handle slug (extract_slug path) h₄ in
      (ap some a, b, record { open_handle = rw (sym a) e; valid = c })

  target_on_host-path_of :
      (handle slug : String)
      → IsAddress handle slug
      → target_on_host config (some handle) (path_of slug) ≡ link handle slug
  target_on_host-path_of handle slug a =
      let (shape, room) = slug_pattern-handle_pattern slug (is_valid_slug-inv slug a.valid) in
      let s : IsSegment slug = handle_pattern-IsSegment slug shape in
      rw
        (
          a.open_handle,
          path-empty slug s,
          path-slash slug s,
          s.inner,
          is_reserved_path-segment slug s,
          extract_slug-segment slug s room,
          a.valid,
        )
        refl

  -- Over a domain of labels and dots, whatever the host and the path: if they are taken for a link, then the host is that
  -- of its handle, which a tenant can have, which is not reserved, and its slug is valid and what the path is decoded to.
  pub parse_request_target-IsAddress :
      (host path handle slug : String)
      → IsDomain config.urls.domain
      → parse_request_target config host path ≡ link handle slug
      → IsHandle config.urls handle
        × IsHostOf config.urls handle host
        × (extract_slug path ≡ some slug)
        × IsAddress handle slug
  unfolding parse_request_target
  parse_request_target-IsAddress host path handle slug d h =
      let (e, f, a) =
        target_on_host-inv (parse_handle_from_host config.urls host) path handle slug h in
      let (i, j) = (parse_handle_from_host-IsHostOf config.urls handle host d).0 e in (i, j, f, a)

  -- Over a domain of labels and dots, for a handle whose label has at most 63 units and is not reserved, and a valid
  -- slug: a URL that is built for them is the protocol, the label's host, and the path of the slug; and a request for
  -- that path at that host is taken for that link.
  pub build_link_url-parse_request_target :
      (handle slug url : String)
      → IsDomain config.urls.domain
      → build_link_url config.urls handle slug ≡ ok url
      → IsAddress (normalize_label handle) slug
      → utf16_length (normalize_label handle) ≤ handle_max_length
      → (url
          ≡ String.◌++◌
              (origin_for config.urls (host_for config.urls (normalize_label handle)))
              (path_of slug))
        × (parse_request_target config
              (host_for config.urls (normalize_label handle))
              (path_of slug)
            ≡ link (normalize_label handle) slug)
  unfolding parse_request_target
  build_link_url-parse_request_target handle slug url d h a k =
      let origin_of : String → String = λ l. origin_for config.urls (host_for config.urls l) in
      let u : IsLinkUrl config.urls handle slug url =
        build_link_url-IsLinkUrl config.urls handle slug url d h in
      let (shape, room) = slug_pattern-handle_pattern slug (is_valid_slug-inv slug a.valid) in
      let s : IsSegment slug = handle_pattern-IsSegment slug shape in
      let short : leb (utf16_length u.label) handle_max_length ≡ true =
        rw u.named (ground (arith, k)) in
      let read : parse_handle_from_host config.urls (host_for config.urls u.label) ≡ some u.label =
        u.read ∙ ap (λ b. if b then some u.label else none) short in
      let read' : parse_handle_from_host config.urls (host_for config.urls (normalize_label handle))
          ≡ some (normalize_label handle) =
        subst (λ l. parse_handle_from_host config.urls (host_for config.urls l) ≡ some l) u.named
          read in
      (
        u.built
            ∙ link_text origin_of u.label slug (trim-segment slug s)
            ∙ ap (λ l. String.◌++◌ (origin_of l) (path_of slug)) u.named,
        rw read' (target_on_host-path_of (normalize_label handle) slug a),
      )
