-- ===== src/Contracts/Domain/Hosts.antt =====
-- What a host is made of: a label, the domain, perhaps the root's dot, and perhaps a port.
use Prim.Native.Char.{Char, code}
use Prim.Native.String
use Prim.Native.String.append
use Prim.Native.String.{count}
use Prim.Native.String.count as counting
use text.Mathlib.TextEquality.{Char-path}
use posta.Shared.{
  ◌≡◌, refl, sym, ap, arith, ℕ, ◌<◌, ◌≤◌, String, Bool, true, false, not, ◌||◌, Option, none, some,
  if◌then◌else◌, ◌==◌, leb, ltb, str_eq, str_eq_iff, ==_iff, if_none-inv, if_some-inv, subst,
  Bool-cases, Option-cases, inl, inr,
}
use posta.Shared.Text.{strip_suffix, utf16_length}
use posta.Shared.Chars.{every}
use posta.Shared.Cuts.{
  text-nil, count-append, str_eq-count, strip_suffix-inv, strip_suffix-append_lem,
}
use posta.Contracts.Domain.{
  handle_pattern, handle_max_length, colon_step, at_last_colon, is_decimal, is_port, without_port,
  strip_port, without_root_dot, UrlBuilders, domain_suffix, is_reserved_subdomain, claimed_label,
  handle_of_host, host_for,
}

abbrev pub not_colon : ℕ → Bool
not_colon n = not (n == 58)

abbrev pub port_text : Option String → String
port_text none = ""
port_text (some port) = String.◌++◌ ":" port

abbrev pub IsPortOf : Option String → Type 0
IsPortOf none = Unit {0}
IsPortOf (some port) = is_port port ≡ true

abbrev pub dot_text : Bool → String
dot_text true = "."
dot_text false = ""

pub every_weaken :
    (p q : ℕ → Bool)
    → ((n : ℕ) → p n ≡ true → q n ≡ true)
    → (s : String) → every p s ≡ true
    → every q s ≡ true
every_weaken p q k String.[] h = refl
every_weaken p q k (String.◌∷◌ c s) h =
    let a = k (code c) (ground arith) in
    let b = every_weaken p q k s (ground arith) in rw (a, b) refl

at_last_colon-none : (s : String) → every not_colon s ≡ true → at_last_colon s ≡ none
at_last_colon-none String.[] h = refl
at_last_colon-none (String.◌∷◌ c s) h =
    let e : (code c == 58) ≡ false = ground arith in
    rw (at_last_colon-none s (ground arith), e) refl

at_last_colon-append :
    (a p : String)
    → every not_colon p ≡ true
    → at_last_colon (String.◌++◌ a (String.◌++◌ ":" p)) ≡ some (a, p)
at_last_colon-append String.[] p h =
    rw (append.nil (String.◌++◌ ":" p), append.cons (String.char_at ":" 0) "" p, append.nil p)
      (rw (at_last_colon-none p h) refl)
at_last_colon-append (String.◌∷◌ c a) p h =
    rw (append.cons c a (String.◌++◌ ":" p)) (rw (at_last_colon-append a p h) refl)

pub strip_port-append :
    (host : String) (port : Option String)
    → every not_colon host ≡ true
    → IsPortOf port
    → strip_port (String.◌++◌ host (port_text port)) ≡ host
strip_port-append host none h k = rw (text-nil host, at_last_colon-none host h) refl
strip_port-append host (some port) h k =
    rw
      (
        at_last_colon-append host port
            (every_weaken is_decimal not_colon (λ n d. ground arith) port (ground arith)),
        k,
      )
      refl

pub without_root_dot-append :
    (host : String) (dot : Bool)
    → strip_suffix "." host ≡ none
    → without_root_dot (String.◌++◌ host (dot_text dot)) ≡ host
without_root_dot-append host true h = rw (strip_suffix-append_lem host "." (omega arith)) refl
without_root_dot-append host false h = rw (text-nil host, h) refl

colon_step-inv :
    (c : Char) (s : String) (r : Option (String × String)) (a p : String)
    → colon_step c s r ≡ some (a, p)
    → ((b q : String) → r ≡ some (b, q) → s ≡ String.◌++◌ b (String.◌++◌ ":" q))
    → String.◌∷◌ c s ≡ String.◌++◌ a (String.◌++◌ ":" p)
colon_step-inv c s (some (b, q)) a p h k =
    let e : String.◌∷◌ c b ≡ a = cc in
    let f : q ≡ p = cc in
    rw (sym e, sym f, append.cons c b (String.◌++◌ ":" q)) (ap (String.◌∷◌ c) (k b q refl))
colon_step-inv c s none a p h k =
    let (e, f) = if_some-inv (code c == 58) ("", s) (a, p) h in
    let g : "" ≡ a = ap (λ r. r.0) f in
    let i : s ≡ p = ap (λ r. r.1) f in
    let d : c ≡ String.char_at ":" 0 =
      Char-path c (String.char_at ":" 0) ((==_iff (code c) 58).0 e) in
    rw
      (
        sym g,
        sym i,
        append.nil (String.◌++◌ ":" s),
        append.cons (String.char_at ":" 0) "" s,
        append.nil s,
      )
      (ap (λ x. String.◌∷◌ x s) d)

pub at_last_colon-inv :
    (s a p : String) → at_last_colon s ≡ some (a, p) → s ≡ String.◌++◌ a (String.◌++◌ ":" p)
at_last_colon-inv String.[] a p h = cc
at_last_colon-inv (String.◌∷◌ c s) a p h =
    colon_step-inv c s (at_last_colon s) a p h (at_last_colon-inv s)

without_port-inv :
    (host : String) (r : Option (String × String))
    → ((a p : String) → r ≡ some (a, p) → host ≡ String.◌++◌ a (String.◌++◌ ":" p))
    → (port : Option String) × IsPortOf port
      × (host ≡ String.◌++◌ (without_port host r) (port_text port))
without_port-inv host none k = (none, tt, sym (text-nil host))
without_port-inv host (some (a, p)) k = elim (Bool-cases (is_port p)) [
  | inl e ↦ (some p, e, rw e (k a p refl))
  | inr e ↦ (none, tt, rw e (sym (text-nil host)))
]

-- What is taken off is a port.
pub strip_port-inv :
    (host : String)
    → (port : Option String) × IsPortOf port
      × (host ≡ String.◌++◌ (strip_port host) (port_text port))
strip_port-inv host = without_port-inv host (at_last_colon host) (at_last_colon-inv host)

pub without_root_dot-inv :
    (host : String) → (dot : Bool) × (host ≡ String.◌++◌ (without_root_dot host) (dot_text dot))
without_root_dot-inv host = elim (Option-cases (strip_suffix "." host)) [
  | inl e ↦ (false, rw e (sym (text-nil host)))
  | inr (a, e) ↦ (true, rw e (strip_suffix-inv "." host a e))
]

module _ (urls : UrlBuilders) where
  -- A label that can be a tenant's: of the right shape, not too long, and not one of the deployment's own.
  pub record IsHandle (label : String) : Type 0 where
    pub shape : handle_pattern label ≡ true
    pub room : utf16_length label ≤ handle_max_length
    pub free : is_reserved_subdomain urls label ≡ false

  claimed_label-inv :
      (r : Option String) (label : String)
      → claimed_label urls r ≡ some label
      → (r ≡ some label) × IsHandle label
  claimed_label-inv none label h = cc
  claimed_label-inv (some l) label h =
      let (e, h₁) = if_none-inv (str_eq l "" || ltb handle_max_length (utf16_length l)) _ label h in
      let (f, h₂) = if_none-inv (not (handle_pattern l)) _ label h₁ in
      let (g, h₃) = if_none-inv (is_reserved_subdomain urls l) _ label h₂ in
      let i : l ≡ label = cc in
      (
        h₃,
        record {
          shape = rw (sym i) (ground (arith, f));
          room = rw (sym i) (ground (arith, e));
          free = rw (sym i) g;
        },
      )

  pub handle_of_host-inv :
      (host label : String)
      → handle_of_host urls host ≡ some label
      → (strip_suffix (domain_suffix urls) host ≡ some label) × IsHandle label
  handle_of_host-inv host label h =
      let (e, h₁) = if_none-inv (str_eq host "") _ label h in
      let (f, h₂) = if_none-inv (str_eq host urls.domain) _ label h₁ in
      claimed_label-inv (strip_suffix (domain_suffix urls) host) label h₂

  host_for-count : (label : String) → count urls.domain < count (host_for urls label)
  host_for-count label =
      rw (count-append label (domain_suffix urls), count-append "." urls.domain) (omega arith)

  host_for-empty : (label : String) → str_eq (host_for urls label) "" ≡ false
  host_for-empty label =
      str_eq-count (host_for urls label) "" (λ e. omega (arith, e, host_for-count label))

  host_for-domain : (label : String) → str_eq (host_for urls label) urls.domain ≡ false
  host_for-domain label =
      str_eq-count (host_for urls label) urls.domain (λ e. omega (arith, e, host_for-count label))

  pub handle_of_host-host_for :
      (label : String) → handle_of_host urls (host_for urls label) ≡ claimed_label urls (some label)
  handle_of_host-host_for label =
      rw
        (
          host_for-empty label,
          host_for-domain label,
          strip_suffix-append_lem label (domain_suffix urls)
              (rw (count-append "." urls.domain) (omega arith)),
        )
        refl

  handle_pattern-filled : (label : String) → handle_pattern label ≡ true → str_eq label "" ≡ false
  handle_pattern-filled label h = elim (Bool-cases (str_eq label "")) [
    | inl e ↦
        let f : handle_pattern "" ≡ true =
          subst (λ s. handle_pattern s ≡ true) ((str_eq_iff label "").0 e) h in
        cc
    | inr e ↦ e
  ]

  -- A label of the right shape that is not reserved is refused for its length only.
  pub claimed_label-some :
      (label : String)
      → handle_pattern label ≡ true
      → is_reserved_subdomain urls label ≡ false
      → claimed_label urls (some label)
        ≡ (if leb (utf16_length label) handle_max_length then some label else none)
  claimed_label-some label h f = elim (Bool-cases (leb (utf16_length label) handle_max_length)) [
    | inl e ↦
        let short : ltb handle_max_length (utf16_length label) ≡ false = ground (arith, e) in
        rw (handle_pattern-filled label h, short, h, f, e) refl
    | inr e ↦
        let long : ltb handle_max_length (utf16_length label) ≡ true = ground (arith, e) in
        rw (handle_pattern-filled label h, long, e) refl
  ]
