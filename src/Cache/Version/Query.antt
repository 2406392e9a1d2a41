-- ===== src/Cache/Version/Query.antt =====
-- The version that stands in the query of a URL (cache/version.cpp).
use studio_bondage_club.Prelude.{
  ◌≡◌, refl, ap, ◌∙◌, Bool, false, Option, List, [], ◌∷◌, ◌++◌, map, Str, codes, str_eq, any, cut,
  split, join_by, split-join_by, cut-clean, ◌==◌, if◌then◌else◌, arith,
}
use studio_bondage_club.Cache.Version
use studio_bondage_club.Cache.Version.{Match, Result, ok, extract_version}

-- A parameter as it is written in a query.
unfoldable pub written : Str × Str → Str
written q = q.0 ++ b'=' ∷ q.1

-- The value of the first parameter with a name, or nothing.
unfoldable pub value_in : Str → List (Str × Str) → Str
value_in name [] = []
value_in name (q ∷ qs) = let rest = value_in name qs in if str_eq q.0 name then q.1 else rest

first_value-written :
    (name : Str) (qs : List (Str × Str))
    → any (λ (q : Str × Str). any (λ c. c == b'=') q.0) qs ≡ false
    → Version.first_value name (map written qs) ≡ value_in name qs
unfolding Version.first_value Version.key_of Version.value_of value_in written
first_value-written name [] h = refl
first_value-written name (q ∷ qs) h =
    ground (arith, cut-clean b'=' q.0 q.1, first_value-written name qs)

split-written :
    (name : Str) (qs : List (Str × Str))
    → any (any (λ c. c == b'&')) (map written qs) ≡ false
    → Version.query_param (join_by b'&' (map written qs)) name
      ≡ Version.first_value name (map written qs)
unfolding Version.query_param Version.first_value Version.key_of Version.value_of split join_by cut
split-written name [] h = ground arith
split-written name (q ∷ qs) h =
    ap (Version.first_value name) (split-join_by b'&' (written q) (map written qs) h)

-- A version that is specified as a parameter of the query is the value of the first parameter with
-- that name, or empty if there is none, for every query that is written from parameters of whose names
-- and values none has an ampersand and of whose names none has an equals sign.
pub extract_version-query :
    (is_regex : Str → Bool) (regex_search : Str → Str → Option Match) (name : Str)
    (qs : List (Str × Str)) (url : Str)
    → any (any (λ c. c == b'&')) (map written qs) ≡ false
    → any (λ (q : Str × Str). any (λ c. c == b'=') q.0) qs ≡ false
    → extract_version is_regex regex_search
        (codes "query:" ++ name)
        (join_by b'&' (map written qs))
        url
      ≡ ok (value_in name qs)
unfolding extract_version
extract_version-query is_regex regex_search name qs url h k =
    ap ok (split-written name qs h ∙ first_value-written name qs k)
