-- ===== src/Http/Directives.antt =====
-- What `parse_cache_control` (common/http_util.cpp) reads from a value that is written as a list of
-- directives.
use studio_bondage_club.Prelude.{
  Bool, false, not, ◌&&◌, Option, some, List, [], ◌∷◌, ◌++◌, Str, any, map, is_empty, is_space,
  str_eq, is_clear, if◌then◌else◌, to_lower, ◌==◌,
}
use studio_bondage_club.Http

-- A directive as it is written, name and value.
unfoldable pub written : Str × Str → Str
written d = d.0 ++ b'=' ∷ d.1

starts_quoted : Str → Bool
starts_quoted [] = false
starts_quoted (c ∷ s) = c == b'"'

-- A name that is not empty, and a value without a quote in front; no blanks around either, and no equals
-- sign in the name.
unfoldable pub is_plain : Str × Str → Bool
unfolding starts_quoted
is_plain d =
    not (is_empty d.0)
    && is_clear is_space d.0
    && is_clear is_space d.1
    && not (any (λ c. c == b'=') d.0)
    && not (starts_quoted d.1)

-- The value of the last directive with a name, in any case, or else `found`.
unfoldable pub last_value : Str → List (Str × Str) → Option Str → Option Str
last_value name [] found = found
last_value name (d ∷ ds) found =
    last_value name ds (if str_eq (map to_lower d.0) name then some d.1 else found)
