-- ===== src/Contracts/Domain/Handles.antt =====
-- The handle of a Host header, and the hosts of the URLs that are built.
use Prim.Native.Char.{Char, code}
use Prim.Native.String
use posta.Shared.{
  ◌≡◌, refl, sym, ap, ◌∙◌, ◌↔◌, arith, ℕ, String, Bool, true, false, not, ◌||◌, [], ◌∷◌, Option,
  none, some, if◌then◌else◌, ◌==◌, leb, str_eq, ok,
}
use posta.Shared.Text.{concat, trim, strip_suffix, utf16_length}
use posta.Shared.Chars.{every, every-append}
use posta.Shared.Binding.{bind_outcome-ok, if_throw-inv, ok-inv}
use posta.Shared.Cuts.{
  text-nil, count-append, strip_suffix-inv, strip_suffix-longer, is_normal, trim-normal,
  to_lower_case-normal,
}
use posta.Contracts.Domain.{
  is_label_char, ends_label, handle_pattern, handle_max_length, normalize_label, strip_port,
  without_root_dot, UrlBuilders, domain_suffix, is_reserved_subdomain, claimed_label, link_url,
  host_for, origin_for, assert_claimable_handle, build_link_url, parse_handle_from_host,
}
use posta.Contracts.Domain.Hosts.{
  not_colon, port_text, IsPortOf, dot_text, every_weaken, strip_port-append, strip_port-inv,
  without_root_dot-append, without_root_dot-inv, IsHandle, claimed_label-some, handle_of_host-inv,
  handle_of_host-host_for,
}

abbrev pub is_host_char : ℕ → Bool
is_host_char n = is_label_char n || n == 46

is_host_char-colon : (n : ℕ) → is_host_char n ≡ true → not_colon n ≡ true
is_host_char-colon n h = ground arith

is_host_char-normal : (n : ℕ) → is_host_char n ≡ true → is_normal n ≡ true
is_host_char-normal n h = ground arith

pub ends_label-every :
    (c : Char) (s : String) → ends_label c s ≡ true → every is_label_char s ≡ true
ends_label-every c String.[] h = refl
ends_label-every c (String.◌∷◌ d s) h =
    let e : is_label_char (code d) ≡ true = ground arith in
    rw (e, ends_label-every d s (ground arith)) refl

pub handle_pattern-every : (s : String) → handle_pattern s ≡ true → every is_label_char s ≡ true
handle_pattern-every String.[] h = refl
handle_pattern-every (String.◌∷◌ c s) h =
    let e : is_label_char (code c) ≡ true = ground arith in
    rw (e, ends_label-every c s (ground arith)) refl

-- A domain of labels and dots, without a dot at its end.
pub record IsDomain (domain : String) : Type 0 where
  pub plain : every is_host_char domain ≡ true
  pub rooted : strip_suffix "." (String.◌++◌ "." domain) ≡ none

module _ (urls : UrlBuilders) where
  -- The header names the label's host, in any case, perhaps with the root's dot and with a port.
  pub record IsHostOf (label raw_host : String) : Type 0 where
    pub dot : Bool
    pub port : Option String
    pub numeric : IsPortOf port
    pub named :
        normalize_label raw_host
        ≡ String.◌++◌ (String.◌++◌ (host_for urls label) (dot_text dot)) (port_text port)

  host_for-every :
      (label : String)
      → IsDomain urls.domain
      → handle_pattern label ≡ true
      → every is_host_char (host_for urls label) ≡ true
  host_for-every label d h =
      every-append is_host_char label (domain_suffix urls)
        (every_weaken is_label_char is_host_char (λ n k. ground arith) label
          (handle_pattern-every label h))
        (every-append is_host_char "." urls.domain refl d.plain)

  host_for-rooted :
      (label : String) → IsDomain urls.domain → strip_suffix "." (host_for urls label) ≡ none
  host_for-rooted label d =
      strip_suffix-longer "." label (domain_suffix urls)
        (rw (count-append "." urls.domain) (omega arith)) d.rooted

  dot_text-every : (dot : Bool) → every not_colon (dot_text dot) ≡ true
  dot_text-every true = refl
  dot_text-every false = refl

  dotted_host-every :
      (label : String) (dot : Bool)
      → IsDomain urls.domain
      → handle_pattern label ≡ true
      → every not_colon (String.◌++◌ (host_for urls label) (dot_text dot)) ≡ true
  dotted_host-every label dot d h =
      every-append not_colon (host_for urls label) (dot_text dot)
        (every_weaken is_host_char not_colon is_host_char-colon (host_for urls label)
          (host_for-every label d h))
        (dot_text-every dot)

  parse_named :
      (label raw_host : String)
      → IsDomain urls.domain
      → handle_pattern label ≡ true
      → IsHostOf label raw_host
      → parse_handle_from_host urls raw_host ≡ claimed_label urls (some label)
  unfolding parse_handle_from_host
  parse_named label raw_host d h k =
      rw
        (
          k.named,
          strip_port-append (String.◌++◌ (host_for urls label) (dot_text k.dot)) k.port
              (dotted_host-every label k.dot d h) k.numeric,
          without_root_dot-append (host_for urls label) k.dot (host_for-rooted label d),
        )
        (handle_of_host-host_for urls label)

  parse_handle :
      (label raw_host : String)
      → IsDomain urls.domain
      → IsHandle urls label
      → IsHostOf label raw_host
      → parse_handle_from_host urls raw_host ≡ some label
  parse_handle label raw_host d h k =
      let short : leb (utf16_length label) handle_max_length ≡ true = ground (arith, h.room) in
      parse_named label raw_host d h.shape k
      ∙ claimed_label-some urls label h.shape h.free
      ∙ ap (λ b. if b then some label else none) short

  named_parse :
      (label raw_host : String)
      → parse_handle_from_host urls raw_host ≡ some label
      → IsHandle urls label × IsHostOf label raw_host
  unfolding parse_handle_from_host
  named_parse label raw_host h =
      let host = without_root_dot (strip_port (normalize_label raw_host)) in
      let (port, numeric, p) = strip_port-inv (normalize_label raw_host) in
      let (dot, q) = without_root_dot-inv (strip_port (normalize_label raw_host)) in
      let (e, handle) = handle_of_host-inv urls host label h in
      let r = strip_suffix-inv (domain_suffix urls) host label e in
      (
        handle,
        record {
          dot = dot;
          port = port;
          numeric = numeric;
          named =
              p
              ∙ ap (λ s. String.◌++◌ s (port_text port))
                  (q ∙ ap (λ s. String.◌++◌ s (dot_text dot)) r);
        },
      )

  -- Over a domain of labels and dots, a Host header gives a handle exactly if the handle is a label that a tenant can
  -- have and the header, trimmed and in lower case, is the label, the domain, at most one dot and at most one numeric port.
  pub parse_handle_from_host-IsHostOf :
      (label raw_host : String)
      → IsDomain urls.domain
      → (parse_handle_from_host urls raw_host ≡ some label)
        ↔ (IsHandle urls label × IsHostOf label raw_host)
  parse_handle_from_host-IsHostOf label raw_host d =
      (named_parse label raw_host, λ (h, k). parse_handle label raw_host d h k)

  normalize_label-host_for :
      (label : String)
      → IsDomain urls.domain
      → handle_pattern label ≡ true
      → normalize_label (host_for urls label) ≡ host_for urls label
  normalize_label-host_for label d h =
      let n : every is_normal (host_for urls label) ≡ true =
        every_weaken is_host_char is_normal is_host_char-normal (host_for urls label)
          (host_for-every label d h) in
      rw (trim-normal (host_for urls label) n) (to_lower_case-normal (host_for urls label) n)

  -- What a link's URL is made of, and what its host is read as.
  pub record IsLinkUrl (handle slug url : String) : Type 0 where
    pub label : String
    pub named : label ≡ normalize_label handle
    pub shape : handle_pattern label ≡ true
    pub free : is_reserved_subdomain urls label ≡ false
    pub filled : str_eq (trim slug) "" ≡ false
    pub built : url ≡ concat (origin_for urls (host_for urls label) ∷ "/" ∷ trim slug ∷ [])
    pub read :
        parse_handle_from_host urls (host_for urls label)
        ≡ (if leb (utf16_length label) handle_max_length then some label else none)

  parse_handle_from_host-host_for :
      (label : String)
      → IsDomain urls.domain
      → handle_pattern label ≡ true
      → is_reserved_subdomain urls label ≡ false
      → parse_handle_from_host urls (host_for urls label)
        ≡ (if leb (utf16_length label) handle_max_length then some label else none)
  parse_handle_from_host-host_for label d h f =
      parse_named label (host_for urls label) d h (record {
        dot = false;
        port = none;
        numeric = tt;
        named =
            normalize_label-host_for label d h
            ∙ sym (text-nil (host_for urls label))
            ∙ sym (text-nil (String.◌++◌ (host_for urls label) ""));
      })
      ∙ claimed_label-some urls label h f

  assert_claimable_handle-inv :
      (handle label : String)
      → assert_claimable_handle urls handle ≡ ok label
      → (label ≡ normalize_label handle)
        × (handle_pattern label ≡ true)
        × (is_reserved_subdomain urls label ≡ false)
  unfolding assert_claimable_handle
  assert_claimable_handle-inv handle label h =
      let label' = normalize_label handle in
      let (e, h₁) = if_throw-inv (not (handle_pattern label')) _ _ label h in
      let (f, h₂) = if_throw-inv (is_reserved_subdomain urls label') _ _ label h₁ in
      let g : label' ≡ label = ok-inv label' label h₂ in
      (sym g, rw (sym g) (ground (arith, e)), rw (sym g) f)

  link_url-inv :
      (slug label url : String)
      → link_url urls slug label ≡ ok url
      → (str_eq (trim slug) "" ≡ false)
        × (url ≡ concat (origin_for urls (host_for urls label) ∷ "/" ∷ trim slug ∷ []))
  link_url-inv slug label url h =
      let (e, h₁) = if_throw-inv (str_eq (trim slug) "") _ _ url h in (e, sym (ok-inv _ url h₁))

  -- Over a domain of labels and dots, the URL that `buildLinkUrl` returns is the protocol, the host of the handle's
  -- label, a slash and the trimmed slug, which is not empty. The label has the shape of a handle and is not one of the
  -- deployment's own. `parseHandleFromHost` reads that host back as the label if it has at most 63 units, and as no
  -- handle if it is longer.
  pub build_link_url-IsLinkUrl :
      (handle slug url : String)
      → IsDomain urls.domain
      → build_link_url urls handle slug ≡ ok url
      → IsLinkUrl handle slug url
  unfolding build_link_url
  build_link_url-IsLinkUrl handle slug url d h =
      let (label, e, f) =
        bind_outcome-ok (assert_claimable_handle urls handle) (link_url urls slug) url h in
      let (named, shape, free) = assert_claimable_handle-inv handle label e in
      let (filled, built) = link_url-inv slug label url f in
      record {
        label = label;
        named = named;
        shape = shape;
        free = free;
        filled = filled;
        built = built;
        read = parse_handle_from_host-host_for label d shape free;
      }
