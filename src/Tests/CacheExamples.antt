-- ===== src/Tests/CacheExamples.antt =====
-- The theorems about the cache's router (cache/router.cpp), base64 (common/base64.cpp) and stored
-- passwords (server/gameserver/game/password.cpp), applied at concrete inputs.
use studio_bondage_club.Prelude.{
  ℕ, suc, ◌≡◌, refl, Bool, true, false, some, List, [], ◌∷◌, Str, codes, pos, leb, length, ◌⊎◌, ◌↔◌,
  str_eq, arith, int_max, Option, none, map, join_by, ◌++◌,
}
use studio_bondage_club.Base64.{base64_encode, base64_decode}
use studio_bondage_club.Base64.RoundTrip.{AllBytes, base64_decode-base64_encode}
use studio_bondage_club.Cache.Glob.{glob_match}
use studio_bondage_club.Cache.Glob.Correct.{glob_match-Fits}
use studio_bondage_club.Cache.Glob.Meaning.{Fits, tokens}
use studio_bondage_club.Cache.Router.{CacheRule, CompiledRule, compiled, update, match, real_path}
use studio_bondage_club.Cache.Router.Laws.{
  first_refusal, Leaves, update-cases, IsFirst, IsNone, match-cases,
}
use studio_bondage_club.Cache.Version.{Match, ok, extract_version}
use studio_bondage_club.Cache.Version.Query.{written, value_in, extract_version-query}
use studio_bondage_club.Password.{hash_password, verify_password, rounds_or_default}
use studio_bondage_club.Password.Verify.{IsDerivation, verify_password-hash_password}

abbrev three_bytes : Str
three_bytes = 255 ∷ 0 ∷ 7 ∷ 9 ∷ []

three_bytes-AllBytes : AllBytes three_bytes
three_bytes-AllBytes = (omega arith, (omega arith, (omega arith, (omega arith, tt))))

base64_decode-base64_encode_example : base64_decode (base64_encode three_bytes) ≡ three_bytes
base64_decode-base64_encode_example = base64_decode-base64_encode three_bytes three_bytes-AllBytes

abbrev scripts : Str
scripts = codes "/*.[jt]s"

glob_match-Fits_example :
    (glob_match leb scripts (codes "/game.js") ≡ true)
    ↔ Fits leb (tokens (suc (length scripts)) scripts) (codes "/game.js")
glob_match-Fits_example = glob_match-Fits leb scripts (codes "/game.js")

abbrev is_regex : Str → Bool
is_regex s = true

abbrev found_in : Str → Str → Bool
found_in re path = str_eq re path

abbrev for_scripts : CacheRule
for_scripts = record {
  host = [];
  path_prefix = codes "/R1";
  path_pattern = codes "*.js";
  store = codes "default";
  bypass = false;
  ttl_seconds = some (pos 60);
  key_mode = [];
  cache_control = [];
  force_cache = false;
  cacheable_status_codes = [];
  version = [];
  key_pattern = [];
  key_template = [];
  version_revalidate = false;
}

abbrev compiled_rules : List CompiledRule
compiled_rules = compiled is_regex for_scripts ∷ []

update-cases_example :
    Leaves is_regex
      (for_scripts ∷ [])
      []
      (first_refusal is_regex 0 (for_scripts ∷ []))
      (update is_regex (for_scripts ∷ []) [])
update-cases_example = update-cases is_regex (for_scripts ∷ []) []

match-cases_example :
    IsFirst leb found_in
      (codes "h")
      (real_path (codes "/base") (codes "/base/R1/game.js"))
      compiled_rules
      (match leb found_in compiled_rules (codes "h") (codes "/base/R1/game.js") (codes "/base"))
    ⊎ IsNone leb found_in
        (codes "h")
        (real_path (codes "/base") (codes "/base/R1/game.js"))
        compiled_rules
        (match leb found_in compiled_rules (codes "h") (codes "/base/R1/game.js") (codes "/base"))
match-cases_example =
    match-cases leb found_in (codes "h") compiled_rules (codes "/base/R1/game.js") (codes "/base")

abbrev toy_derive : Str → Str → ℕ → Str
toy_derive password salt n = 7 ∷ []

toy_derive-IsDerivation : IsDerivation toy_derive
toy_derive-IsDerivation = record {
  bytes = λ password salt n. (omega arith, tt);
  some_bytes = λ password salt n. refl;
}

thousand-fits : leb (rounds_or_default (pos 1000)) int_max ≡ true
unfolding rounds_or_default
thousand-fits = refl

verify_password-hash_password_example :
    verify_password toy_derive
      (codes "pw")
      (hash_password toy_derive three_bytes (codes "pw") (pos 1000))
    ≡ true
verify_password-hash_password_example =
    verify_password-hash_password toy_derive three_bytes (codes "pw") (pos 1000)
      toy_derive-IsDerivation three_bytes-AllBytes refl thousand-fits

abbrev never_matches : Str → Str → Option Match
never_matches re url = none

abbrev parameters : List (Str × Str)
parameters = (codes "w", codes "1") ∷ (codes "v", codes "R129=b") ∷ (codes "v", codes "2") ∷ []

extract_version-query_example :
    extract_version is_regex never_matches
      (codes "query:" ++ codes "v")
      (join_by b'&' (map written parameters))
      (codes "https://x/")
    ≡ ok (value_in (codes "v") parameters)
unfolding written
extract_version-query_example =
    extract_version-query is_regex never_matches (codes "v") parameters (codes "https://x/") refl
      refl

value_in_test : value_in (codes "v") parameters ≡ codes "R129=b"
unfolding value_in str_eq
value_in_test = refl
