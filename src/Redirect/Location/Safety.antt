-- ===== src/Redirect/Location/Safety.antt =====
-- No destination can break out of the header that carries it.
use mathlib.Core.Bool.{and-eq-true_iff}
use posta.Shared.{
  ◌⊎◌, inl, inr, ◌≡◌, refl, arith, ℕ, ◌/◌, ◌%◌, ◌<◌, Bool, true, false, ◌||◌, List, [], ◌∷◌, ◌++◌,
  Option, none, some, Bool-cases,
}
use posta.Redirect.Location.{
  CodePoints, is_header_safe_code_point, is_header_safe, is_surrogate, upper_digit, percent_bytes,
  utf8, encode_char, encode_chars, join_parts, encode_destination_for_header,
}

-- A half of a surrogate pair stands alone in the text.
abbrev pub has_half : CodePoints → Bool
has_half [] = false
has_half (n ∷ rest) = is_surrogate n || has_half rest

upper_digit-safe : (n : ℕ) → n < 16 → is_header_safe_code_point (upper_digit n) ≡ true
unfolding upper_digit is_header_safe_code_point
upper_digit-safe n h = ground (arith, h)

percent-safe : is_header_safe_code_point 37 ≡ true
unfolding is_header_safe_code_point
percent-safe = refl

is_header_safe-percent_bytes : (bytes : List ℕ) → is_header_safe (percent_bytes bytes) ≡ true
unfolding is_header_safe percent_bytes
is_header_safe-percent_bytes [] = refl
is_header_safe-percent_bytes (n ∷ bytes) =
    rw
      (
        percent-safe,
        upper_digit-safe (n / 16 % 16) (omega arith),
        upper_digit-safe (n % 16) (omega arith),
        is_header_safe-percent_bytes bytes,
      )
      refl

is_header_safe-append :
    (xs ys : CodePoints)
    → is_header_safe xs ≡ true
    → is_header_safe ys ≡ true
    → is_header_safe (xs ++ ys) ≡ true
unfolding is_header_safe
is_header_safe-append [] ys h k = k
is_header_safe-append (x ∷ xs) ys h k =
    let (e, f) = (and-eq-true_iff (is_header_safe_code_point x) (is_header_safe xs)).0 h in
    rw (e, is_header_safe-append xs ys f k) refl

surrogate-unsafe : (n : ℕ) → is_header_safe_code_point n ≡ true → is_surrogate n ≡ false
unfolding is_header_safe_code_point
surrogate-unsafe n h = ground (arith, h)

has_half-safe : (s : CodePoints) → is_header_safe s ≡ true → has_half s ≡ false
unfolding is_header_safe
has_half-safe [] h = refl
has_half-safe (n ∷ s) h =
    let (e, f) = (and-eq-true_iff (is_header_safe_code_point n) (is_header_safe s)).0 h in
    rw (surrogate-unsafe n e, has_half-safe s f) refl

-- What a text is encoded to has no character that a header may not hold; it is nothing where a half stands alone in
-- the text.
abbrev pub IsSafe : CodePoints → Option CodePoints → Type 0
IsSafe destination none = has_half destination ≡ true
IsSafe destination (some location) =
    (has_half destination ≡ false) × (is_header_safe location ≡ true)

join_parts-IsSafe :
    (n : ℕ) (s part : CodePoints) (rest : Option CodePoints)
    → is_surrogate n ≡ false
    → is_header_safe part ≡ true
    → IsSafe s rest
    → IsSafe (n ∷ s) (join_parts (some part) rest)
join_parts-IsSafe n s part none e p h = rw (e, h) refl
join_parts-IsSafe n s part (some location) e p (f, h) =
    (rw (e, f) refl, is_header_safe-append part location p h)

encode_chars-IsSafe : (s : CodePoints) → IsSafe s (encode_chars s)
unfolding encode_chars encode_char is_header_safe
encode_chars-IsSafe [] = (refl, refl)
encode_chars-IsSafe (n ∷ s) =
    let rest = encode_chars-IsSafe s in
    elim (Bool-cases (is_header_safe_code_point n)) [
      | inl e ↦
          rw e (
            join_parts-IsSafe n s (n ∷ []) (encode_chars s) (surrogate-unsafe n e) (rw e refl) rest)
      | inr e ↦ elim (Bool-cases (is_surrogate n)) [
        | inl h ↦ rw (e, h) (rw h refl)
        | inr h ↦
            rw (e, h)
              (join_parts-IsSafe n s (percent_bytes (utf8 n)) (encode_chars s) h
                (is_header_safe-percent_bytes (utf8 n)) rest)
      ]
    ]

-- The same, and a destination that a header can hold is left as it is.
abbrev pub IsEncoded : CodePoints → Option CodePoints → Type 0
IsEncoded destination encoded =
    IsSafe destination encoded
    × ((is_header_safe destination ≡ false) ⊎ (encoded ≡ some destination))

-- A destination becomes no header value exactly where half a surrogate pair stands alone in it. Any other becomes one
-- of tabs and of the characters U+0020 to U+007E and U+0080 to U+00FF only, so that no line break of a destination
-- reaches the response's headers; and a destination that has no other characters is left as it is.
pub encode_destination_for_header-IsEncoded :
    (destination : CodePoints) → IsEncoded destination (encode_destination_for_header destination)
unfolding encode_destination_for_header
encode_destination_for_header-IsEncoded destination =
    elim (Bool-cases (is_header_safe destination)) [
      | inl e ↦ rw e ((has_half-safe destination e, e), inr refl)
      | inr e ↦ rw e (encode_chars-IsSafe destination, inl refl)
    ]
