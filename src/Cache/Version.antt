-- ===== src/Cache/Version.antt =====
-- The version that a request's URL carries, and the path that its cache key is made of
-- (cache/version.cpp). The regular expressions of the C++ library are parameters: whether one is
-- well formed, the search for one in a text and the replacement of its matches.
pub mod Query
use studio_bondage_club.Prelude.{
  Bool, true, false, Option, none, some, List, [], ◌∷◌, Str, codes, str_eq, is_empty, drop, cut,
  split, if◌then◌else◌,
}
use studio_bondage_club.Cache.Router.{starts_with, is_re, strip_re}

-- `pair.substr(0, eq)` and `pair.substr(eq + 1)`, where `eq` may be npos.
unfoldable key_of : Str → Str
key_of pair = elim (cut b'=' pair) [ none ↦ pair | some r ↦ r.0 ]

unfoldable value_of : Str → Str
value_of pair = elim (cut b'=' pair) [ none ↦ [] | some r ↦ r.1 ]

unfoldable first_value : Str → List Str → Str
unfolding key_of value_of
first_value name [] = []
first_value name (pair ∷ pairs) =
    let rest = first_value name pairs in if str_eq (key_of pair) name then value_of pair else rest

unfoldable query_param : Str → Str → Str
unfolding first_value
query_param raw_query name = first_value name (split b'&' raw_query)

-- An `Error`, by the function that throws it.
pub data Error : Type 0 where
  version_regexp key_pattern_regexp : Error

pub data Result : Type 0 where
  ok : Str → Result
  throws : Error → Result

-- A match: `m[0]`, and `m[1]` and the further groups.
pub record Match : Type 0 where
  pub whole : Str
  pub groups : List Str

unfoldable group_or_whole : Str → List Str → Str
group_or_whole whole [] = whole
group_or_whole whole (g ∷ gs) = g

module _ (is_regex : Str → Bool) where
  module _ (regex_search : Str → Str → Option Match) where
    unfoldable searched : Str → Str → Str
    unfolding group_or_whole
    searched re url = elim (regex_search re url) [
      | none ↦ []
      | some m ↦ group_or_whole m.whole m.groups
    ]

    -- The target is given by its query and its text.
    unfoldable pub extract_version : Str → Str → Str → Result
    unfolding query_param searched starts_with is_re
    extract_version spec query url =
        if is_empty spec
        then ok []
        else if starts_with (codes "query:") spec
        then ok (query_param query (drop 6 spec))
        else if is_re spec
        then (if is_regex (drop 3 spec)
            then ok (searched (drop 3 spec) url)
            else throws version_regexp)
        else ok []

  unfoldable pub rewrite_key_path : (Str → Str → Str → Str) → Str → Str → Str → Result
  unfolding strip_re
  rewrite_key_path regex_replace real_path key_pattern key_template =
      if is_empty key_pattern
      then ok real_path
      else if is_regex (strip_re key_pattern)
      then ok (regex_replace real_path (strip_re key_pattern) key_template)
      else throws key_pattern_regexp
