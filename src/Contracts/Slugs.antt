-- ===== src/Contracts/Slugs.antt =====
-- packages/contracts/src/links.ts: the shape of a slug.
use Prim.Native.Char.{code}
use Prim.Native.String
use posta.Shared.{ℕ, Bool, false, not, ◌&&◌, ◌||◌, if◌then◌else◌, String, leb, ltb, has}
use posta.Shared.Text.{utf16_length}
use posta.Contracts.Domain.{is_alnum, ends_label}
use posta.Contracts.Reserved.{reserved_paths}

abbrev pub slug_max_length : ℕ
slug_max_length = 64

-- `SLUG_PATTERN.test(text)`: the shape of a label, of at most 64 characters.
abbrev pub slug_pattern : String → Bool
slug_pattern String.[] = false
slug_pattern (String.◌∷◌ c s) =
    is_alnum (code c) && ends_label c s && leb (utf16_length (String.◌∷◌ c s)) 64

unfoldable pub is_valid_slug : String → Bool
is_valid_slug slug =
    if ltb (utf16_length slug) 1 || ltb slug_max_length (utf16_length slug)
    then false
    else if not (slug_pattern slug)
    then false
    else not (has reserved_paths (String.◌++◌ "/" slug))
