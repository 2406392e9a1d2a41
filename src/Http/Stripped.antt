-- ===== src/Http/Stripped.antt =====
-- What `strip_hop_by_hop` (common/http_util.cpp) takes from a message, and what it leaves.
use studio_bondage_club.Prelude.{
  ◌≡◌, refl, sym, ap, ◌∙◌, Bool, true, false, ◌||◌, List, [], ◌∷◌, ◌++◌, Str, codes, arith, any,
  all, any-append, reject, all-reject, map, split, is_empty, str_eq, str_eq_iff, if◌then◌else◌,
}
use mathlib.Core.List.{append_assoc, append-nil}
use studio_bondage_club.Http
use studio_bondage_club.Http.{
  HeaderMap, canonical_header_key, get, values, add, add_all, iequals, header_contains_token,
  is_hop_by_hop, connection_tokens, is_stripped, strip_hop_by_hop, trim,
}
use studio_bondage_club.Http.Laws.{iequals-canonical, is_hop_by_hop-canonical}

-- The keys of a message are in canonical form, as `add` puts them there.
abbrev pub has_canonical_keys : HeaderMap → Bool
has_canonical_keys h = all (λ e. str_eq (canonical_header_key e.0) e.0) h

-- A value of `Connection` names the key.
abbrev pub is_listed : Str → HeaderMap → Bool
is_listed key h = any (λ v. header_contains_token v key) (values (codes "Connection") h)

iequals_sym : (s t : Str) → iequals s t ≡ iequals t s
unfolding iequals
iequals_sym [] [] = refl
iequals_sym [] (d ∷ t) = refl
iequals_sym (c ∷ s) [] = refl
iequals_sym (c ∷ s) (d ∷ t) = ground (arith, iequals_sym s t)

add_all-append : (h es : HeaderMap) → has_canonical_keys es ≡ true → add_all h es ≡ h ++ es
unfolding add_all add
add_all-append h [] c = sym (append-nil h)
add_all-append h (e ∷ es) c =
    add_all-append (add e.0 e.1 h) es (ground (arith, c))
    ∙ append_assoc h ((canonical_header_key e.0, e.1) ∷ []) es
    ∙ ap (λ k. h ++ (k, e.1) ∷ es)
        ((str_eq_iff (canonical_header_key e.0) e.0).0 (ground (arith, c)))

iequals-empty : (s t : Str) → is_empty s ≡ true → is_empty t ≡ false → iequals s t ≡ false
unfolding iequals
iequals-empty [] [] h n = ground (arith, n)
iequals-empty [] (d ∷ t) h n = refl
iequals-empty (c ∷ s) t h n = ground (arith, h)

any-nonempty_tokens :
    (key : Str) (parts : List Str)
    → is_empty key ≡ false
    → any (λ t. iequals t key) (reject is_empty (map trim parts))
      ≡ any (λ part. iequals (trim part) key) parts
any-nonempty_tokens key [] n = refl
any-nonempty_tokens key (p ∷ ps) n =
    ground (arith, n, any-nonempty_tokens key ps n, iequals-empty (trim p) key)

any-connection_tokens :
    (key : Str) (vs : List Str)
    → is_empty key ≡ false
    → any (λ t. iequals t key) (connection_tokens vs) ≡ any (λ v. header_contains_token v key) vs
unfolding connection_tokens header_contains_token
any-connection_tokens key [] n = refl
any-connection_tokens key (v ∷ vs) n =
    any-append (λ t. iequals t key) (reject is_empty (map trim (split b',' v)))
      (connection_tokens vs)
    ∙ rw (any-nonempty_tokens key (split b',' v) n, any-connection_tokens key vs n) refl

-- The first value of a key, where the test of an entry with that key gives `b`.
first_value-reject :
    (p : Str × Str → Bool) (ck : Str) (b : Bool) (h : HeaderMap)
    → ((e : Str × Str) → str_eq e.0 ck ≡ true → p e ≡ b)
    → Http.first_value ck (reject p h) ≡ (if b then [] else Http.first_value ck h)
unfolding Http.first_value
first_value-reject p ck b [] same = ground arith
first_value-reject p ck b (e ∷ es) same = ground (arith, same e, first_value-reject p ck b es same)

any-iequals_key :
    (key : Str) (ts : List Str)
    → any (λ t. iequals t (canonical_header_key key)) ts ≡ any (λ t. iequals t key) ts
any-iequals_key key [] = refl
any-iequals_key key (t ∷ ts) =
    rw
      (
        iequals_sym t (canonical_header_key key),
        iequals-canonical key t,
        iequals_sym key t,
        any-iequals_key key ts,
      )
      refl

-- What is stripped, for an entry under the canonical form of a key.
is_stripped-key :
    (key : Str) (h : HeaderMap) (e : Str × Str)
    → is_empty key ≡ false
    → str_eq e.0 (canonical_header_key key) ≡ true
    → is_stripped h e ≡ (is_hop_by_hop key || is_listed key h)
unfolding is_stripped
is_stripped-key key h e n same =
    ap (λ k. is_stripped h (k, e.1)) ((str_eq_iff e.0 (canonical_header_key key)).0 same)
    ∙ rw
        (
          is_hop_by_hop-canonical key,
          any-iequals_key key (connection_tokens (values (codes "Connection") h)),
          any-connection_tokens key (values (codes "Connection") h) n,
        )
        refl

-- A header that is looked up, under any spelling of its key, in a message whose keys are in canonical
-- form: after the message is stripped it is absent if it is a hop-by-hop header or a value of
-- `Connection` names it, and otherwise reads as before.
pub get-strip_hop_by_hop :
    (key : Str) (h : HeaderMap)
    → is_empty key ≡ false
    → has_canonical_keys h ≡ true
    → get key (strip_hop_by_hop h)
      ≡ (if is_hop_by_hop key || is_listed key h then [] else get key h)
unfolding get strip_hop_by_hop
get-strip_hop_by_hop key h n c =
    ap (Http.first_value (canonical_header_key key)) (
      add_all-append [] (reject (is_stripped h) h)
        (all-reject (is_stripped h) (λ e. str_eq (canonical_header_key e.0) e.0) h c))
    ∙ first_value-reject (is_stripped h) (canonical_header_key key)
        (is_hop_by_hop key || is_listed key h) h (λ e. is_stripped-key key h e n)
