-- ===== src/Redirect/Host/Slugs.antt =====
-- The path of a valid slug is no reserved path, and the slug is read back from it.
use Prim.Native.Char.{Char}
use Prim.Native.String
use Prim.Native.String.append
use Prim.Native.String.{count}
use Prim.Native.String.count as counting
use posta.Shared.{
  ◌≡◌, refl, ap, ◌∙◌, subst, arith, ℕ, ◌≤◌, ◌<◌, String, Bool, true, false, ◌||◌, none, some, ◌==◌,
  ltb, str_eq, str_eq_iff, Bool-cases, inl, inr, leb→le,
}
use posta.Shared.Text.{strip_suffix, starts_with, utf16_length, trim}
use posta.Shared.Chars.{every, every-append}
use posta.Shared.Uri.{not_percent, decode_uri_component-plain}
use posta.Shared.Cuts.{
  count-append, str_eq-count, strip_suffix-longer, is_normal, trim-normal, to_lower_case-normal,
}
use posta.Contracts.Domain.{is_label_char, handle_pattern}
use posta.Contracts.Domain.Hosts.{every_weaken}
use posta.Contracts.Domain.Handles.{handle_pattern-every}
use posta.Contracts.Reserved.{normalize_path, is_reserved_path}
use posta.Contracts.Slugs.{slug_pattern, is_valid_slug}
use posta.Redirect.Host.{max_encoded_slug_length, is_slash, no_slash, extract_slug}

abbrev pub path_of : String → String
path_of slug = String.◌++◌ "/" slug

abbrev pub is_path_char : ℕ → Bool
is_path_char n = is_label_char n || n == 47

pub slug_pattern-handle_pattern :
    (s : String) → slug_pattern s ≡ true → (handle_pattern s ≡ true) × (utf16_length s ≤ 64)
slug_pattern-handle_pattern String.[] h = cc
slug_pattern-handle_pattern (String.◌∷◌ c s) h = (ground arith, leb→le _ 64 (ground arith))

pub is_valid_slug-inv : (s : String) → is_valid_slug s ≡ true → slug_pattern s ≡ true
unfolding is_valid_slug
is_valid_slug-inv s h = ground arith

str_eq-every :
    (p : ℕ → Bool) (s t : String) → every p s ≡ true → every p t ≡ false → str_eq s t ≡ false
str_eq-every p s t h k = elim (Bool-cases (str_eq s t)) [
  | inl e ↦ let f : every p t ≡ true = subst (λ r. every p r ≡ true) ((str_eq_iff s t).0 e) h in cc
  | inr e ↦ e
]

strip_slash-none : (s : String) → every no_slash s ≡ true → strip_suffix "/" s ≡ none
strip_slash-none String.[] h = refl
strip_slash-none (String.◌∷◌ c s) h =
    rw (str_eq-every no_slash (String.◌∷◌ c s) "/" h refl, strip_slash-none s (ground arith)) refl

-- What a text of the shape of a slug is.
pub record IsSegment (s : String) : Type 0 where
  pub chars : every is_label_char s ≡ true
  pub filled : 1 ≤ count s
  pub inner : every is_slash (path_of s) ≡ false
  pub outside : starts_with "/.well-known/" (path_of s) ≡ false

path_cons :
    (c : Char) (s : String)
    → path_of (String.◌∷◌ c s) ≡ String.◌∷◌ (String.char_at "/" 0) (String.◌∷◌ c s)
path_cons c s =
    append.cons (String.char_at "/" 0) "" (String.◌∷◌ c s)
    ∙ ap (String.◌∷◌ (String.char_at "/" 0)) (append.nil (String.◌∷◌ c s))

pub handle_pattern-IsSegment : (s : String) → handle_pattern s ≡ true → IsSegment s
handle_pattern-IsSegment String.[] h = cc
handle_pattern-IsSegment (String.◌∷◌ c s) h = record {
  chars = handle_pattern-every (String.◌∷◌ c s) h;
  filled = let k = counting.cons c s in omega (arith, k);
  inner = rw (path_cons c s) (ground arith);
  outside = rw (path_cons c s) (ground arith);
}

module _ (s : String) (h : IsSegment s) where
  path-every : every is_path_char (path_of s) ≡ true
  path-every =
      every-append is_path_char "/" s refl
        (every_weaken is_label_char is_path_char (λ n k. ground arith) s h.chars)

  path-filled : 1 < count (path_of s)
  path-filled = rw (count-append "/" s) (omega (arith, h.filled))

  pub path-empty : str_eq (path_of s) "" ≡ false
  path-empty = str_eq-count (path_of s) "" (λ e. omega (arith, e, path-filled))

  pub path-slash : str_eq (path_of s) "/" ≡ false
  path-slash = str_eq-count (path_of s) "/" (λ e. omega (arith, e, path-filled))

  segment-slash : every no_slash s ≡ true
  segment-slash = every_weaken is_label_char no_slash (λ n k. ground arith) s h.chars

  normalize_path-segment : normalize_path (path_of s) ≡ path_of s
  normalize_path-segment =
      let n : every is_normal (path_of s) ≡ true =
        every_weaken is_path_char is_normal (λ n k. ground arith) (path_of s) path-every in
      rw
        (
          trim-normal (path_of s) n,
          to_lower_case-normal (path_of s) n,
          path-empty,
          path-slash,
          strip_suffix-longer "/" "/" s h.filled (strip_slash-none s segment-slash),
        )
        refl

  -- The path is none of the reserved ones.
  pub is_reserved_path-segment : is_reserved_path (path_of s) ≡ false
  unfolding is_reserved_path
  is_reserved_path-segment =
      rw
        (
          normalize_path-segment,
          path-slash,
          str_eq-every is_path_char (path_of s) "/favicon.ico" path-every refl,
          str_eq-every is_path_char (path_of s) "/robots.txt" path-every refl,
          str_eq-every is_path_char (path_of s) "/.well-known" path-every refl,
          h.outside,
        )
        refl

  -- The path is decoded to the slug.
  pub extract_slug-segment : utf16_length s ≤ 64 → extract_slug (path_of s) ≡ some s
  unfolding extract_slug
  extract_slug-segment k =
      let short : ltb max_encoded_slug_length (utf16_length s) ≡ false = ground (arith, k) in
      let f : str_eq s "" ≡ false = str_eq-count s "" (λ e. omega (arith, e, h.filled)) in
      let p : every not_percent s ≡ true =
        every_weaken is_label_char not_percent (λ n q. ground arith) s h.chars in
      rw
        (
          append.cons (String.char_at "/" 0) "" s,
          append.nil s,
          f,
          short,
          segment-slash,
          decode_uri_component-plain s p,
          segment-slash,
        )
        refl

  pub trim-segment : trim s ≡ s
  trim-segment =
      trim-normal s (every_weaken is_label_char is_normal (λ n k. ground arith) s h.chars)
