-- ===== src/Http/Laws.antt =====
-- The headers' laws (common/http_util.cpp): keys without regard to case, `set` and `get`.
use studio_bondage_club.Prelude.{
  ℕ, ◌≡◌, refl, ◌∙◌, Bool, true, false, List, [], ◌∷◌, ◌++◌, Str, arith, ◌==◌, any, reject, str_eq,
  str_eq_iff, str_eq_refl, to_lower, to_upper,
}
use studio_bondage_club.Http
use studio_bondage_club.Http.{
  HeaderMap, canonical_from, canonical_header_key, get, set, add, remove, iequals, is_hop_by_hop,
  is_stripped, add_all, strip_hop_by_hop, hop,
}

to_lower-to_upper : (c : ℕ) → to_lower (to_upper c) ≡ to_lower c
unfolding to_lower to_upper
to_lower-to_upper c = ground arith

to_lower-to_lower : (c : ℕ) → to_lower (to_lower c) ≡ to_lower c
unfolding to_lower
to_lower-to_lower c = ground arith

iequals-canonical_from : (b : Bool) (s t : Str) → iequals (canonical_from b s) t ≡ iequals s t
unfolding canonical_from iequals
iequals-canonical_from b [] [] = refl
iequals-canonical_from b [] (d ∷ t) = refl
iequals-canonical_from b (c ∷ s) [] = refl
iequals-canonical_from true (c ∷ s) (d ∷ t) =
    rw (to_lower-to_upper c, iequals-canonical_from (to_upper c == b'-') s t) refl
iequals-canonical_from false (c ∷ s) (d ∷ t) =
    rw (to_lower-to_lower c, iequals-canonical_from (to_lower c == b'-') s t) refl

pub iequals-canonical : (key t : Str) → iequals (canonical_header_key key) t ≡ iequals key t
unfolding canonical_header_key
iequals-canonical key t = iequals-canonical_from true key t

any-iequals_canonical :
    (key : Str) (hs : List Str) → any (iequals (canonical_header_key key)) hs ≡ any (iequals key) hs
any-iequals_canonical key [] = refl
any-iequals_canonical key (h ∷ hs) = rw (iequals-canonical key h, any-iequals_canonical key hs) refl

pub is_hop_by_hop-canonical :
    (key : Str) → is_hop_by_hop (canonical_header_key key) ≡ is_hop_by_hop key
unfolding is_hop_by_hop
is_hop_by_hop-canonical key = any-iequals_canonical key hop

-- The first value of a key, among entries none of which has it, and then others.
first_value-append_none :
    (ck : Str) (h rest : HeaderMap)
    → any (λ e. str_eq e.0 ck) h ≡ false
    → Http.first_value ck (h ++ rest) ≡ Http.first_value ck rest
unfolding Http.first_value
first_value-append_none ck [] rest n = refl
first_value-append_none ck (e ∷ es) rest n = ground (arith, first_value-append_none ck es rest)

any-reject_self : (p : Str × Str → Bool) (h : HeaderMap) → any p (reject p h) ≡ false
any-reject_self p [] = refl
any-reject_self p (e ∷ es) = ground (arith, any-reject_self p es)

-- After a header is set, under any spelling of its key, it reads as the value, whatever the message
-- had under it.
pub get-set : (key value : Str) (h : HeaderMap) → get key (set key value h) ≡ value
unfolding get set add remove Http.first_value
get-set key value h =
    first_value-append_none (canonical_header_key key) (remove key h) _
      (any-reject_self (λ e. str_eq e.0 (canonical_header_key key)) h)
    ∙ rw (str_eq_refl (canonical_header_key key)) refl

first_value-other :
    (ck dk value : Str) (h : HeaderMap)
    → str_eq dk ck ≡ false
    → Http.first_value ck (reject (λ e. str_eq e.0 dk) h ++ (dk, value) ∷ [])
      ≡ Http.first_value ck h
unfolding Http.first_value
first_value-other ck dk value [] n = ground arith
first_value-other ck dk value (e ∷ es) n = ground (
  arith,
  first_value-other ck dk value es n,
  str_eq_iff e.0 dk,
  str_eq_iff e.0 ck,
  str_eq_iff dk ck,
)

-- Setting a header changes no header whose canonical key is another.
pub get-set_other :
    (key other value : Str) (h : HeaderMap)
    → str_eq (canonical_header_key other) (canonical_header_key key) ≡ false
    → get key (set other value h) ≡ get key h
unfolding get set add remove
get-set_other key other value h n =
    first_value-other (canonical_header_key key) (canonical_header_key other) value h n
