-- ===== src/Http/Policy.antt =====
-- What the cache may keep, and for how long (cache/policy.cpp). Times are the nanoseconds of
-- a 64-bit `system_clock`, as in libstdc++, and wrap around; `parse_http_date` is a parameter.
pub mod Freshness
use studio_bondage_club.Prelude.{
  ℕ, suc, ◌+◌, ◌-◌, ◌*◌, ◌^◌, Bool, true, false, not, ◌&&◌, ◌||◌, Option, none, some, List, [], ◌∷◌,
  Str, codes, leb, ℤ, pos, negsuc, wrap_64, ◌+ℤ◌, leb_ℤ, ltb_ℤ, eq_ℤ, any, all, map, if◌then◌else◌,
  str_eq, is_empty, is_digit, to_lower, split,
}
use studio_bondage_club.Http.{HeaderMap, trim, get, values, directive, parse_cache_control}

unfoldable pub has_directive : Str → List (Str × Str) → Bool
has_directive name cc = elim (directive name cc) [ none ↦ false | some v ↦ true ]

abbrev pub cache_control : HeaderMap → List (Str × Str)
cache_control h = parse_cache_control (values (codes "Cache-Control") h)

is_value : Str → Option Str → Bool
is_value v none = false
is_value v (some w) = str_eq w v

unfoldable pub request_forces_revalidation : HeaderMap → Bool
unfolding is_value
request_forces_revalidation req =
    has_directive (codes "no-cache") (cache_control req)
    || is_value (codes "0") (directive (codes "max-age") (cache_control req))
    || str_eq (map to_lower (get (codes "Pragma") req)) (map to_lower (codes "no-cache"))

no_values : List Str → Bool
no_values [] = true
no_values (v ∷ vs) = false

-- A `Vary` names nothing but the encoding.
unfoldable pub vary_allows : Str → Bool
vary_allows value =
    all
      (λ part.
        is_empty (map to_lower (trim part))
        || str_eq (map to_lower (trim part)) (codes "accept-encoding"))
      (split b',' value)

unfoldable pub response_cacheable : Str → HeaderMap → ℤ → HeaderMap → List ℤ → Bool
unfolding no_values
response_cacheable method req status resp cacheable_statuses =
    str_eq method (codes "GET")
    && is_empty (get (codes "Range") req)
    && any (eq_ℤ status) cacheable_statuses
    && is_empty (get (codes "Content-Range") resp)
    && is_empty (get (codes "Content-Encoding") resp)
    && no_values (values (codes "Set-Cookie") resp)
    && not (has_directive (codes "no-store") (cache_control resp))
    && all vary_allows (values (codes "Vary") resp)

nanoseconds : ℤ → ℤ
nanoseconds (pos n) = pos (n * 10 ^ 9)
nanoseconds (negsuc n) = negsuc (suc n * 10 ^ 9 - 1)

-- `t + std::chrono::seconds(s)`: the seconds are converted, and then added.
unfoldable pub plus_seconds : ℤ → ℤ → ℤ
unfolding nanoseconds
plus_seconds t s = wrap_64 (t +ℤ wrap_64 (nanoseconds s))

unfoldable pub expiration : ℤ → ℤ → Option ℤ
unfolding plus_seconds
expiration now ttl = if leb_ℤ ttl (pos 0) then none else some (plus_seconds now ttl)

digits_value : ℕ → Str → ℕ
digits_value acc [] = acc
digits_value acc (c ∷ s) = digits_value (acc * 10 + (c - b'0')) s

-- `std::stoll` throws above 2^63 - 1.
unfoldable pub parse_delta_seconds : Str → Option ℕ
unfolding digits_value
parse_delta_seconds v =
    if is_empty v || not (all is_digit v)
    then none
    else if leb (digits_value 0 v) (2 ^ 63 - 1)
    then some (digits_value 0 v)
    else none

after : ℤ → Option ℕ → ℤ
unfolding plus_seconds
after now none = now
after now (some s) = plus_seconds now (pos s)

module _ (parse_http_date : Str → Option ℤ) where
  expires_or : ℤ → Str → ℤ
  expires_or now expires =
      if is_empty expires then now else elim (parse_http_date expires) [ none ↦ now | some t ↦ t ]

  max_age_or : ℤ → HeaderMap → Option Str → ℤ
  unfolding after expires_or
  max_age_or now resp (some v) = after now (parse_delta_seconds v)
  max_age_or now resp none = expires_or now (get (codes "Expires") resp)

  s_maxage_or : ℤ → HeaderMap → Option Str → ℤ
  unfolding after max_age_or
  s_maxage_or now resp (some v) = after now (parse_delta_seconds v)
  s_maxage_or now resp none = max_age_or now resp (directive (codes "max-age") (cache_control resp))

  unfoldable pub upstream_expiry : ℤ → HeaderMap → ℤ
  unfolding s_maxage_or
  upstream_expiry now resp =
      if has_directive (codes "no-cache") (cache_control resp)
      then now
      else s_maxage_or now resp (directive (codes "s-maxage") (cache_control resp))

unfoldable pub response_private : HeaderMap → Bool
response_private resp = has_directive (codes "private") (cache_control resp)

unfoldable pub stale_if_error_servable : Option ℤ → ℤ → ℤ → Bool
unfolding plus_seconds
stale_if_error_servable expires_at now limit =
    if ltb_ℤ limit (pos 0)
    then true
    else if eq_ℤ limit (pos 0)
    then false
    else elim expires_at [ none ↦ true | some e ↦ leb_ℤ now (plus_seconds e limit) ]
