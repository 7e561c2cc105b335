-- ===== src/Shared/Cuts.antt =====
-- Cutting a text's end off, and texts that nothing is taken off.
use Prim.Native.Nat.{ℕ, ◌+◌, ◌≤◌, ◌<◌}
use Prim.Native.Char.{Char, code}
use Prim.Native.String.{String, count}
use Prim.Native.String
use Prim.Native.String.append
use Prim.Native.String.count as counting
use mathlib.Core.Path.{◌≡◌, refl, sym, ap, ◌∙◌}
use mathlib.Core.Logic.{inl, inr}
use mathlib.Core.Bool.{Bool, true, false, not, ◌&&◌}
use mathlib.Core.Option.{Option, none, some}
use native.Mathlib.Omega.{arith}
use posta.Shared.Tests.{◌==◌, leb, str_eq, str_eq_iff, Bool-cases}
use posta.Shared.Text.{
  is_space, trim_start, trim_end, trim, lower_char, to_lower_case, before_end, strip_suffix,
}
use posta.Shared.Chars.{every}

pub text_assoc :
    (s t u : String) → String.◌++◌ (String.◌++◌ s t) u ≡ String.◌++◌ s (String.◌++◌ t u)
text_assoc String.[] t u = rw (append.nil t, append.nil (String.◌++◌ t u)) refl
text_assoc (String.◌∷◌ c s) t u =
    rw (append.cons c s t, append.cons c (String.◌++◌ s t) u, append.cons c s (String.◌++◌ t u))
      (ap (String.◌∷◌ c) (text_assoc s t u))

pub text-nil : (s : String) → String.◌++◌ s "" ≡ s
text-nil String.[] = append.nil ""
text-nil (String.◌∷◌ c s) = rw (append.cons c s "") (ap (String.◌∷◌ c) (text-nil s))

pub count-append : (s t : String) → count (String.◌++◌ s t) ≡ count s + count t
count-append String.[] t = rw (append.nil t, counting.nil) (omega arith)
count-append (String.◌∷◌ c s) t =
    rw (append.cons c s t, counting.cons c (String.◌++◌ s t), counting.cons c s)
      (omega (arith, count-append s t))

pub str_eq-count : (s t : String) → (count s ≡ count t → ⊥) → str_eq s t ≡ false
str_eq-count s t h = elim (Bool-cases (str_eq s t)) [
  | inl e ↦ elim (h (ap count ((str_eq_iff s t).0 e))) [ ]
  | inr e ↦ e
]

module _ (suffix : String) where
  pub strip_suffix-shorter : (s : String) → count s < count suffix → strip_suffix suffix s ≡ none
  strip_suffix-shorter String.[] h = refl
  strip_suffix-shorter (String.◌∷◌ c s) h =
      let k = counting.cons c s in
      rw
        (
          str_eq-count (String.◌∷◌ c s) suffix (λ e. omega (arith, h, k, e)),
          strip_suffix-shorter s (omega (arith, h, k)),
        )
        refl

  pub strip_suffix-longer :
      (a s : String)
      → count suffix ≤ count s
      → strip_suffix suffix s ≡ none
      → strip_suffix suffix (String.◌++◌ a s) ≡ none
  strip_suffix-longer String.[] s h e = rw (append.nil s) e
  strip_suffix-longer (String.◌∷◌ c a) s h e =
      let k = counting.cons c (String.◌++◌ a s) in
      rw
        (
          append.cons c a s,
          str_eq-count (String.◌∷◌ c (String.◌++◌ a s)) suffix
              (λ f. omega (arith, h, k, f, count-append a s)),
          strip_suffix-longer a s h e,
        )
        refl

  before_end-inv :
      (c : Char) (s : String) (r : Option String) (a : String)
      → before_end c (str_eq (String.◌∷◌ c s) suffix) r ≡ some a
      → ((b : String) → r ≡ some b → s ≡ String.◌++◌ b suffix)
      → String.◌∷◌ c s ≡ String.◌++◌ a suffix
  before_end-inv c s (some b) a h k =
      let e : String.◌∷◌ c b ≡ a = cc in
      rw (sym e, append.cons c b suffix) (ap (String.◌∷◌ c) (k b refl))
  before_end-inv c s none a h k = elim (Bool-cases (str_eq (String.◌∷◌ c s) suffix)) [
    | inl e ↦
        let f : before_end c true none ≡ some a = sym (ap (λ b. before_end c b none) e) ∙ h in
        let g : "" ≡ a = cc in
        rw (sym g, append.nil suffix) ((str_eq_iff (String.◌∷◌ c s) suffix).0 e)
    | inr e ↦
        let f : before_end c false none ≡ some a = sym (ap (λ b. before_end c b none) e) ∙ h in cc
  ]

  -- What is left, with the suffix, is the text.
  pub strip_suffix-inv : (s a : String) → strip_suffix suffix s ≡ some a → s ≡ String.◌++◌ a suffix
  strip_suffix-inv String.[] a h = cc
  strip_suffix-inv (String.◌∷◌ c s) a h =
      before_end-inv c s (strip_suffix suffix s) a h (strip_suffix-inv s)

strip_suffix_self :
    (d : Char) (t : String) → strip_suffix (String.◌∷◌ d t) (String.◌∷◌ d t) ≡ some ""
strip_suffix_self d t =
    let k = counting.cons d t in
    rw
      (
        strip_suffix-shorter (String.◌∷◌ d t) t (omega (arith, k)),
        (str_eq_iff (String.◌∷◌ d t) (String.◌∷◌ d t)).1 refl,
      )
      refl

strip_suffix-append :
    (a : String) (d : Char) (t : String)
    → strip_suffix (String.◌∷◌ d t) (String.◌++◌ a (String.◌∷◌ d t)) ≡ some a
strip_suffix-append String.[] d t = rw (append.nil (String.◌∷◌ d t)) (strip_suffix_self d t)
strip_suffix-append (String.◌∷◌ c a) d t =
    rw (append.cons c a (String.◌∷◌ d t), strip_suffix-append a d t) refl

abbrev pub is_upper : ℕ → Bool
is_upper n = leb 65 n && leb n 90

-- Neither white space nor a character with another lower case.
abbrev pub is_normal : ℕ → Bool
is_normal n = not (is_space n) && not (is_upper n) && not (n == 8490)

lower_char-normal : (c : Char) → is_normal (code c) ≡ true → lower_char c ≡ c
lower_char-normal c h =
    let e : is_upper (code c) ≡ false = ground arith in
    let k : (code c == 8490) ≡ false = ground arith in rw (e, k) refl

-- Nothing is taken off a text without white space and capitals.
pub to_lower_case-normal : (s : String) → every is_normal s ≡ true → to_lower_case s ≡ s
to_lower_case-normal String.[] h = refl
to_lower_case-normal (String.◌∷◌ c s) h =
    rw (lower_char-normal c (ground arith), to_lower_case-normal s (ground arith)) refl

trim_start-normal : (s : String) → every is_normal s ≡ true → trim_start s ≡ s
trim_start-normal String.[] h = refl
trim_start-normal (String.◌∷◌ c s) h = let e : is_space (code c) ≡ false = ground arith in rw e refl

trim_end-normal : (s : String) → every is_normal s ≡ true → trim_end s ≡ s
trim_end-normal String.[] h = refl
trim_end-normal (String.◌∷◌ c s) h =
    let e : is_space (code c) ≡ false = ground arith in
    rw (e, trim_end-normal s (ground arith)) refl

pub trim-normal : (s : String) → every is_normal s ≡ true → trim s ≡ s
trim-normal s h = rw (trim_start-normal s h) (trim_end-normal s h)

pub strip_suffix-append_lem :
    (a suffix : String) → 0 < count suffix → strip_suffix suffix (String.◌++◌ a suffix) ≡ some a
strip_suffix-append_lem a String.[] h = let no : ⊥ = omega (arith, h) in elim no [ ]
strip_suffix-append_lem a (String.◌∷◌ d t) h = strip_suffix-append a d t
