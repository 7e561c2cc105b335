-- ===== src/Redirect/Escape/Safety.antt =====
-- No text can break out of the markup around it, and a slug is shown whole.
use Prim.Native.Char.{Char, code}
use Prim.Native.String
use Prim.Native.String.append
use posta.Shared.{
  ℕ, ◌+◌, ◌*◌, ◌≤◌, ◌≡◌, refl, String, Bool, true, false, not, ◌||◌, if◌then◌else◌, leb, ltb, ◌==◌,
  leb→le, Bool-cases, inl, inr, arith,
}
use posta.Shared.Chars.{every, every-append}
use posta.Shared.Text.{units, utf16_length}
use posta.Contracts.Slugs.{slug_max_length}
use posta.Redirect.Escape.{
  max_input_length, max_escaped_html_length, truncate_from, truncate_at_code_point_boundary,
  escape_entity, escape_chars, escape_html,
}

-- The number of none of `<`, `>`, `"`, `'` and `/`.
abbrev pub is_plain : ℕ → Bool
is_plain n = not (n == 60 || n == 62 || n == 34 || n == 39 || n == 47)

-- Each entity, and any other character, which is tested for all of the five.
entity_of :
    (P : String → Type 0) (b₁ b₂ b₃ b₄ b₅ b₆ : Bool) (s : String)
    → P "&amp;"
    → P "&lt;"
    → P "&gt;"
    → P "&quot;"
    → P "&#x27;"
    → P "&#x2F;"
    → (not (b₂ || b₃ || b₄ || b₅ || b₆) ≡ true → P s)
    → P (
        if b₁
        then "&amp;"
        else if b₂
        then "&lt;"
        else if b₃
        then "&gt;"
        else if b₄
        then "&quot;"
        else if b₅
        then "&#x27;"
        else if b₆
        then "&#x2F;"
        else s)
entity_of P true b₂ b₃ b₄ b₅ b₆ s p₁ p₂ p₃ p₄ p₅ p₆ p = p₁
entity_of P false true b₃ b₄ b₅ b₆ s p₁ p₂ p₃ p₄ p₅ p₆ p = p₂
entity_of P false false true b₄ b₅ b₆ s p₁ p₂ p₃ p₄ p₅ p₆ p = p₃
entity_of P false false false true b₅ b₆ s p₁ p₂ p₃ p₄ p₅ p₆ p = p₄
entity_of P false false false false true b₆ s p₁ p₂ p₃ p₄ p₅ p₆ p = p₅
entity_of P false false false false false true s p₁ p₂ p₃ p₄ p₅ p₆ p = p₆
entity_of P false false false false false false s p₁ p₂ p₃ p₄ p₅ p₆ p = p refl

plain-escape_entity : (c : Char) → every is_plain (escape_entity c) ≡ true
unfolding escape_entity
plain-escape_entity c =
    entity_of (λ s. every is_plain s ≡ true) (code c == 38) (code c == 60) (code c == 62)
      (code c == 34) (code c == 39) (code c == 47) (String.◌∷◌ c "") refl refl refl refl refl refl
      (λ h. rw h refl)

plain-escape_chars : (s : String) → every is_plain (escape_chars s) ≡ true
unfolding escape_chars
plain-escape_chars String.[] = refl
plain-escape_chars (String.◌∷◌ c s) =
    every-append is_plain (escape_entity c) (escape_chars s) (plain-escape_entity c)
      (plain-escape_chars s)

every-truncate_from :
    (p : ℕ → Bool) (max n : ℕ) (s : String)
    → every p s ≡ true
    → every p (truncate_from max n s) ≡ true
unfolding truncate_from
every-truncate_from p max n String.[] h = refl
every-truncate_from p max n (String.◌∷◌ c s) h = elim (Bool-cases (ltb max (n + units c))) [
  | inl e ↦ rw e refl
  | inr e ↦ rw e (let k = every-truncate_from p max (n + units c) s (ground arith) in ground arith)
]

utf16_length-truncate_from :
    (max n : ℕ) (s : String) → n ≤ max → n + utf16_length (truncate_from max n s) ≤ max
unfolding truncate_from utf16_length
utf16_length-truncate_from max n String.[] h = omega arith
utf16_length-truncate_from max n (String.◌∷◌ c s) h = elim (Bool-cases (ltb max (n + units c))) [
  | inl e ↦ rw e (omega arith)
  | inr e ↦ rw e (
      let k = utf16_length-truncate_from max (n + units c) s (ground (arith, e)) in
      omega (arith, k))
]

utf16_length-truncate :
    (s : String) (max : ℕ) → utf16_length (truncate_at_code_point_boundary s max) ≤ max
unfolding truncate_at_code_point_boundary
utf16_length-truncate s max = elim (Bool-cases (leb (utf16_length s) max)) [
  | inl e ↦ rw e (leb→le _ _ e)
  | inr e ↦ rw e (omega (arith, utf16_length-truncate_from max 0 s (omega arith)))
]

every-truncate :
    (p : ℕ → Bool) (s : String) (max : ℕ)
    → every p s ≡ true
    → every p (truncate_at_code_point_boundary s max) ≡ true
unfolding truncate_at_code_point_boundary
every-truncate p s max h = elim (Bool-cases (leb (utf16_length s) max)) [
  | inl e ↦ rw e h
  | inr e ↦ rw e (every-truncate_from p max 0 s h)
]

-- Whatever the text, the escaped one holds none of the characters `<`, `>`, `"`, `'` and `/`, and has at most 384
-- units.
pub escape_html-IsPlain :
    (s : String)
    → (every is_plain (escape_html s) ≡ true)
      × (utf16_length (escape_html s) ≤ max_escaped_html_length)
unfolding escape_html
escape_html-IsPlain s = (
  every-truncate is_plain _ _
      (plain-escape_chars (truncate_at_code_point_boundary s max_input_length)),
  utf16_length-truncate _ _,
)

units_bounds : (c : Char) → (1 ≤ units c) × (units c ≤ 2)
unfolding units
units_bounds c = elim (Bool-cases (ltb (code c) 65536)) [
  | inl e ↦ rw e (omega arith, omega arith)
  | inr e ↦ rw e (omega arith, omega arith)
]

utf16_length-append :
    (s t : String) → utf16_length (String.◌++◌ s t) ≡ utf16_length s + utf16_length t
unfolding utf16_length
utf16_length-append String.[] t = rw (append.nil t) (omega arith)
utf16_length-append (String.◌∷◌ c s) t =
    rw (append.cons c s t, utf16_length-append s t) (omega arith)

utf16_length-escape_entity : (c : Char) → utf16_length (escape_entity c) ≤ 6
unfolding escape_entity utf16_length units
utf16_length-escape_entity c =
    entity_of (λ s. utf16_length s ≤ 6) (code c == 38) (code c == 60) (code c == 62) (code c == 34)
      (code c == 39) (code c == 47) (String.◌∷◌ c "") (omega arith) (omega arith) (omega arith)
      (omega arith) (omega arith) (omega arith)
      (λ h. let (_, k) = units_bounds c in omega (arith, k))

utf16_length-escape_chars : (s : String) → utf16_length (escape_chars s) ≤ 6 * utf16_length s
unfolding escape_chars utf16_length
utf16_length-escape_chars String.[] = omega arith
utf16_length-escape_chars (String.◌∷◌ c s) =
    let (one, _) = units_bounds c in
    rw (utf16_length-append (escape_entity c) (escape_chars s))
      (omega (arith, one, utf16_length-escape_entity c, utf16_length-escape_chars s))

truncate_short :
    (s : String) (max : ℕ) → utf16_length s ≤ max → truncate_at_code_point_boundary s max ≡ s
unfolding truncate_at_code_point_boundary
truncate_short s max h = elim (Bool-cases (leb (utf16_length s) max)) [
  | inl e ↦ rw e refl
  | inr e ↦ ground (arith, e, h)
]

-- A text of at most 64 units, as every slug is, is escaped whole: neither of the two cuts takes anything away.
pub escape_html-slug :
    (s : String) → utf16_length s ≤ slug_max_length → escape_html s ≡ escape_chars s
unfolding escape_html
escape_html-slug s h = rw (truncate_short s max_input_length (omega (arith, h))) (
    truncate_short (escape_chars s) max_escaped_html_length
      (omega (arith, h, utf16_length-escape_chars s)))
