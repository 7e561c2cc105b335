-- ===== src/Contracts/Reserved.antt =====
-- packages/contracts/src/reserved.ts: the handles no tenant can claim and the paths that are no slug.
use posta.Shared.{
  Bool, false, ◌||◌, List, [], ◌∷◌, ◌++◌, or_else, if◌then◌else◌, String, str_eq, any, has,
}
use posta.Shared.Text.{to_lower_case, trim, starts_with, strip_suffix}

abbrev pub reserved_handles : List String
reserved_handles =
    "app" ∷ "api" ∷ "www" ∷ "admin" ∷ "static" ∷ "assets" ∷ "cdn" ∷ "mail" ∷ "blog" ∷ "docs"
    ∷ "status" ∷ []

abbrev pub reserved_paths : List String
reserved_paths = "/" ∷ "/favicon.ico" ∷ "/robots.txt" ∷ []

abbrev pub reserved_path_prefixes : List String
reserved_path_prefixes = "/.well-known/" ∷ []

abbrev pub normalize_handle : String → String
normalize_handle handle = to_lower_case (trim handle)

-- `trimmed.length > 1 && trimmed.endsWith('/') ? trimmed.slice(0, -1) : trimmed`
abbrev pub without_final_slash : String → String
without_final_slash trimmed =
    if str_eq trimmed "/" then trimmed else or_else (strip_suffix "/" trimmed) trimmed

-- `normalizePath`, for a path that is matched with the reserved ones.
abbrev pub normalize_path : String → String
normalize_path path =
    let trimmed = to_lower_case (trim path) in
    if str_eq trimmed "" then "/" else without_final_slash trimmed

-- `merged.add(normalized)`
abbrev pub add_handle : List String → String → List String
add_handle merged normalized = if has merged normalized then merged else merged ++ normalized ∷ []

abbrev pub merge_handles : List String → List String → List String
merge_handles merged [] = merged
merge_handles merged (override ∷ overrides) =
    merge_handles
      (if str_eq (normalize_handle override) ""
        then merged
        else add_handle merged (normalize_handle override))
      overrides

unfoldable pub resolve_reserved_handles : List String → List String
resolve_reserved_handles overrides = merge_handles reserved_handles overrides

unfoldable pub is_reserved_handle : (handle : String) (reserved : List String) → Bool
is_reserved_handle handle reserved =
    if str_eq (normalize_handle handle) "" then false else has reserved (normalize_handle handle)

abbrev pub under_prefix : (normalized prefix : String) → Bool
under_prefix normalized prefix =
    str_eq normalized (or_else (strip_suffix "/" prefix) prefix) || starts_with prefix normalized

unfoldable pub is_reserved_path : String → Bool
is_reserved_path path =
    has reserved_paths (normalize_path path)
    || any (under_prefix (normalize_path path)) reserved_path_prefixes
