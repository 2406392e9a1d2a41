-- ===== src/Http.antt =====
-- The headers of an HTTP message (common/http_util.cpp): a list of entries under canonical keys, and
-- the functions that read tokens and directives from their values.
pub mod Policy
pub mod Laws
pub mod Stripped
pub mod Canonical
pub mod Directives
use studio_bondage_club.Prelude.{
  ℕ, ◌-◌, Bool, true, false, not, ◌&&◌, ◌||◌, Option, none, some, List, [], ◌∷◌, ◌++◌, String, Str,
  codes, ◌==◌, leb, length, any, reject, map, if◌then◌else◌, str_eq, is_empty, is_space, to_lower,
  to_upper, trim_by, split, cut, reverse,
}

abbrev pub HeaderMap : Type 0
HeaderMap = List (Str × Str)

unfoldable pub trim : Str → Str
unfolding trim_by is_space
trim s = trim_by is_space s

-- The loop of `canonical_header_key`, with its flag.
unfoldable pub canonical_from : Bool → Str → Str
canonical_from upper_next [] = []
canonical_from upper_next (c ∷ s) =
    let d = if upper_next then to_upper c else to_lower c in d ∷ canonical_from (d == b'-') s

unfoldable pub canonical_header_key : Str → Str
unfolding canonical_from
canonical_header_key key = canonical_from true key

first_value : Str → HeaderMap → Str
first_value ck [] = []
first_value ck (e ∷ es) = if str_eq e.0 ck then e.1 else first_value ck es

unfoldable pub get : Str → HeaderMap → Str
unfolding first_value
get key h = first_value (canonical_header_key key) h

all_values : Str → HeaderMap → List Str
all_values ck [] = []
all_values ck (e ∷ es) = let rest = all_values ck es in if str_eq e.0 ck then e.1 ∷ rest else rest

unfoldable pub values : Str → HeaderMap → List Str
unfolding all_values
values key h = all_values (canonical_header_key key) h

unfoldable pub has : Str → HeaderMap → Bool
has key h = any (λ e. str_eq e.0 (canonical_header_key key)) h

unfoldable pub remove : Str → HeaderMap → HeaderMap
remove key h = reject (λ e. str_eq e.0 (canonical_header_key key)) h

unfoldable pub add : Str → Str → HeaderMap → HeaderMap
add key value h = h ++ (canonical_header_key key, value) ∷ []

unfoldable pub set : Str → Str → HeaderMap → HeaderMap
set key value h = add key value (remove key h)

unfoldable pub set_if_absent : Str → Str → HeaderMap → HeaderMap
set_if_absent key value h = if has key h then h else add key value h

unfoldable pub iequals : Str → Str → Bool
iequals [] [] = true
iequals (c ∷ s) (d ∷ t) = to_lower c == to_lower d && iequals s t
iequals [] (d ∷ t) = false
iequals (c ∷ s) [] = false

unfoldable pub header_contains_token : Str → Str → Bool
header_contains_token header token = any (λ part. iequals (trim part) token) (split b',' header)

abbrev pub hop : List Str
hop =
    codes "Connection"
    ∷ codes "Proxy-Connection"
    ∷ codes "Keep-Alive"
    ∷ codes "Proxy-Authenticate"
    ∷ codes "Proxy-Authorization"
    ∷ codes "Te"
    ∷ codes "Trailer"
    ∷ codes "Transfer-Encoding"
    ∷ []

unfoldable pub is_hop_by_hop : Str → Bool
is_hop_by_hop key = any (iequals key) hop

-- The tokens that the values of `Connection` list.
unfoldable pub connection_tokens : List Str → List Str
connection_tokens [] = []
connection_tokens (v ∷ vs) = reject is_empty (map trim (split b',' v)) ++ connection_tokens vs

unfoldable pub is_stripped : HeaderMap → Str × Str → Bool
is_stripped h e =
    is_hop_by_hop e.0
    || any (λ t. iequals t e.0) (connection_tokens (values (codes "Connection") h))

unfoldable pub add_all : HeaderMap → HeaderMap → HeaderMap
add_all h [] = h
add_all h (e ∷ es) = add_all (add e.0 e.1 h) es

unfoldable pub strip_hop_by_hop : HeaderMap → HeaderMap
strip_hop_by_hop h = add_all [] (reject (is_stripped h) h)

-- The directives of `Cache-Control`, the last of a name prevailing.
unfoldable pub assign : Str → Str → List (Str × Str) → List (Str × Str)
assign name v [] = (name, v) ∷ []
assign name v (e ∷ es) =
    let rest = assign name v es in if str_eq e.0 name then (name, v) ∷ es else e ∷ rest

unfoldable pub directive : Str → List (Str × Str) → Option Str
directive name [] = none
directive name (e ∷ es) = let rest = directive name es in if str_eq e.0 name then some e.1 else rest

unquote_back : Str → Str → Str
unquote_back s [] = b'"' ∷ s
unquote_back s (d ∷ t) = if d == b'"' then reverse t else b'"' ∷ s

-- Quotes around a value are dropped.
unfoldable pub unquote : Str → Str
unfolding unquote_back
unquote [] = []
unquote (c ∷ s) = if c == b'"' then unquote_back s (reverse s) else c ∷ s

name_value : Str → Option (Str × Str) → Str × Str
name_value part none = (map to_lower part, [])
name_value part (some e) = (map to_lower (trim e.0), unquote (trim e.1))

unfoldable pub add_parts : List Str → List (Str × Str) → List (Str × Str)
unfolding name_value
add_parts [] out = out
add_parts (p ∷ ps) out =
    let part = trim p in
    let d = name_value part (cut b'=' part) in
    add_parts ps (if is_empty part then out else assign d.0 d.1 out)

unfoldable pub parse_values : List Str → List (Str × Str) → List (Str × Str)
parse_values [] out = out
parse_values (v ∷ vs) out = parse_values vs (add_parts (split b',' v) out)

unfoldable pub parse_cache_control : List Str → List (Str × Str)
parse_cache_control vs = parse_values vs []
