-- ===== src/Cache/Router.antt =====
-- PolicyRouter (cache/router.cpp and cache/router.hpp): the rules, checked and kept, and the first one
-- that applies to a request. Regular expressions belong to the standard library: whether a text is one,
-- and whether it is found in a path, are parameters.
pub mod Laws
use studio_bondage_club.Prelude.{
  ℕ, suc, Bool, true, false, not, ◌&&◌, ◌||◌, Option, none, some, List, [], ◌∷◌, ◌++◌, Str, codes,
  ℤ, pos, map, length, drop, reverse, if◌then◌else◌, ◌==◌, any, is_empty, str_eq,
}
use studio_bondage_club.Cache.Glob.{glob_match}

pub record CacheRule : Type 0 where
  pub host : Str
  pub path_prefix : Str
  pub path_pattern : Str
  pub store : Str
  pub bypass : Bool
  pub ttl_seconds : Option ℤ
  pub key_mode : Str
  pub cache_control : Str
  pub force_cache : Bool
  pub cacheable_status_codes : List ℤ
  pub version : Str
  pub key_pattern : Str
  pub key_template : Str
  pub version_revalidate : Bool

pub record RouteAction : Type 0 where
  pub bypass : Bool
  pub store_name : Str
  pub ttl : ℤ
  pub key_mode : Str
  pub cache_control : Str
  pub force_cache : Bool
  pub cacheable_status_codes : List ℤ
  pub version : Str
  pub key_pattern : Str
  pub key_template : Str
  pub version_revalidate : Bool

abbrev pub default_action : RouteAction
default_action = record {
  bypass = false;
  store_name = [];
  ttl = pos 0;
  key_mode = [];
  cache_control = [];
  force_cache = false;
  cacheable_status_codes = [];
  version = [];
  key_pattern = [];
  key_template = [];
  version_revalidate = false;
}

pub record CompiledRule : Type 0 where
  pub rule : CacheRule
  pub path_re : Option Str
  pub path_glob : Str

-- `s.rfind(p, 0) == 0`.
unfoldable pub starts_with : Str → Str → Bool
starts_with [] s = true
starts_with (c ∷ p) [] = false
starts_with (c ∷ p) (d ∷ s) = c == d && starts_with p s

abbrev has_slash : Str → Bool
has_slash s = any (λ c. c == b'/') s

-- The part behind the last slash, or the whole path.
unfoldable pub base_name : Str → Str
base_name [] = []
base_name (c ∷ s) =
    let rest = base_name s in if has_slash s then rest else if c == b'/' then s else c ∷ s

-- The rule that is refused, and by which of its texts.
pub data Refusal : Type 0 where
  path_pattern_regexp version_regexp key_pattern_regexp : ℕ → Refusal

pub data Compiled : Type 0 where
  ok : List CompiledRule → Compiled
  error : Refusal → Compiled

unfoldable pub is_re : Str → Bool
unfolding starts_with
is_re s = starts_with (codes "re:") s

unfoldable pub strip_re : Str → Str
unfolding is_re
strip_re s = if is_re s then drop 3 s else s

-- `compile`, for the rules from a position on; `is_regex` is the test by the constructor of std::regex.
module _ (is_regex : Str → Bool) where
  unfoldable pub refusal : ℕ → CacheRule → Option Refusal
  unfolding is_re strip_re
  refusal i r =
      if is_re r.path_pattern && not (is_regex (drop 3 r.path_pattern))
      then some (path_pattern_regexp i)
      else if is_re r.version && not (is_regex (drop 3 r.version))
      then some (version_regexp i)
      else if not (is_empty r.key_pattern) && not (is_regex (strip_re r.key_pattern))
      then some (key_pattern_regexp i)
      else none

  unfoldable pub compiled : CacheRule → CompiledRule
  unfolding is_re
  compiled r = record {
    rule = r;
    path_re = if is_re r.path_pattern then some (drop 3 r.path_pattern) else none;
    path_glob = if is_re r.path_pattern then [] else r.path_pattern;
  }

  push_front : CompiledRule → Compiled → Compiled
  push_front c (ok cs) = ok (c ∷ cs)
  push_front c (error e) = error e

  unfoldable pub compile_from : ℕ → List CacheRule → Compiled
  unfolding refusal push_front
  compile_from i [] = ok []
  compile_from i (r ∷ rs) =
      let rest = compile_from (suc i) rs in
      elim (refusal i r) [ some e ↦ error e | none ↦ push_front (compiled r) rest ]

  unfoldable pub compile : List CacheRule → Compiled
  unfolding compile_from
  compile rs = compile_from 0 rs

  -- The rules that are kept after an update; an error is thrown before they change.
  unfoldable pub update : List CacheRule → List CompiledRule → Option Refusal × List CompiledRule
  update rs old = elim (compile rs) [ ok cs ↦ (none, cs) | error e ↦ (some e, old) ]

unfoldable pub rules : List CompiledRule → List CacheRule
rules cs = map (λ c. c.rule) cs

-- The path of the request below the base's path, with a slash in front.
unfoldable pub real_path : Str → Str → Str
unfolding starts_with
real_path base_path tpath = slashed (
    if not (is_empty base_path) && starts_with base_path tpath
    then drop (length base_path) tpath
    else tpath)
  where
    slashed : Str → Str
    slashed [] = codes "/"
    slashed (c ∷ s) = if c == b'/' then c ∷ s else b'/' ∷ c ∷ s

unfoldable pub action_of : CacheRule → RouteAction
action_of r = record {
  bypass = r.bypass;
  store_name = r.store;
  ttl = elim r.ttl_seconds [ none ↦ pos 0 | some t ↦ t ];
  key_mode = r.key_mode;
  cache_control = r.cache_control;
  force_cache = r.force_cache;
  cacheable_status_codes = r.cacheable_status_codes;
  version = r.version;
  key_pattern = r.key_pattern;
  key_template = r.key_template;
  version_revalidate = r.version_revalidate;
}

-- The order of `char`, and `std::regex_search` for a pattern in a path.
module _ (le : ℕ → ℕ → Bool) (search_in : Str → Str → Bool) where
  re_fits : Option Str → Str → Bool
  re_fits none path = true
  re_fits (some re) path = search_in re path

  unfoldable pub applies : Str → Str → CompiledRule → Bool
  unfolding re_fits starts_with
  applies host path c =
      (is_empty c.rule.host || str_eq host c.rule.host)
      && (is_empty c.rule.path_prefix || starts_with c.rule.path_prefix path)
      && re_fits c.path_re path
      && (is_empty c.path_glob
          || glob_match le c.path_glob path
          || glob_match le c.path_glob (base_name path))

  first_of : Str → Str → List CompiledRule → RouteAction
  first_of host path [] = default_action
  first_of host path (c ∷ cs) =
      let rest = first_of host path cs in if applies host path c then action_of c.rule else rest

  -- `match` for the host and the path of the request and the path of the base.
  unfoldable pub match : List CompiledRule → Str → Str → Str → RouteAction
  unfolding first_of real_path
  match cs host tpath base_path = first_of host (real_path base_path tpath) cs
