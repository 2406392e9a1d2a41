-- ===== src/Cache/Glob/Lengths.antt =====
-- The tokens of a glob (cache/router.cpp) use the pattern up.
use studio_bondage_club.Prelude.{
  ℕ, zero, suc, ◌≡◌, refl, ap, ◌≤◌, Bool, true, false, not, ◌&&◌, ◌||◌, Option, none, some, [], ◌∷◌,
  Str, length, ◌==◌, Bool-cases, inl, inr, arith,
}
use studio_bondage_club.Cache.Glob.{unescape, range_end, after_range}
use studio_bondage_club.Cache.Glob.Meaning
use studio_bondage_club.Cache.Glob.Meaning.{
  Items, items, class_of, token, bracketed, after_backslash,
}

unescape-le : (p : ℕ) (pat : Str) → length (unescape p pat).1 ≤ length pat
unfolding unescape
unescape-le p [] = omega arith
unescape-le p (e ∷ es) = ground arith

after_range-le : (h : Option ℕ) (pat : Str) → length (after_range h pat) ≤ length pat
unfolding after_range
after_range-le none pat = omega arith
after_range-le (some h) [] = omega arith
after_range-le (some h) (d ∷ []) = omega arith
after_range-le (some h) (d ∷ e ∷ r) = omega arith

rest_of : Option (Items × Str) → Str
rest_of none = []
rest_of (some (is, rest)) = rest

rest-onto : (i : ℕ × Option ℕ) (r : Option (Items × Str)) → rest_of (Meaning.onto i r) ≡ rest_of r
unfolding rest_of Meaning.onto
rest-onto i none = refl
rest-onto i (some (is, rest)) = refl

items-le : (n : ℕ) (first : Bool) (pat : Str) → length (rest_of (items n first pat)) ≤ length pat
unfolding items rest_of
items-le zero first pat = omega arith
items-le (suc n) first [] = omega arith
items-le (suc n) first (p ∷ pat) =
    let e = unescape p pat in
    let hi = range_end e.1 in
    let rest = after_range hi e.1 in
    let more = items-le n false rest in
    let same = ap length (rest-onto (e.0, hi) (items n false rest)) in
    elim (Bool-cases (p == b']' && not first)) [
      | inl closed ↦ rw closed (omega arith)
      | inr open' ↦ rw open' (omega (arith, more, same, unescape-le p pat, after_range-le hi e.1))
    ]

classed-le :
    (negated : Bool) (pat : Str) (r : Option (Items × Str))
    → length (rest_of r) ≤ length pat
    → length (bracketed pat (Meaning.classed negated r)).1 ≤ length pat
unfolding bracketed rest_of Meaning.classed
classed-le negated pat none h = omega arith
classed-le negated pat (some (is, rest)) h = h

bracketed-le : (pat : Str) → length (bracketed pat (class_of pat)).1 ≤ length pat
unfolding class_of bracketed
bracketed-le [] = omega arith
bracketed-le (p ∷ pat) =
    let short = items-le (suc (length pat)) true pat in
    let full = items-le (suc (length (p ∷ pat))) true (p ∷ pat) in
    elim (Bool-cases (p == b'^' || p == b'!')) [
      | inl negated ↦
          rw negated
            (classed-le true (p ∷ pat) (items (suc (length pat)) true pat) (omega (arith, short)))
      | inr plain ↦
          rw plain (classed-le false (p ∷ pat) (items (suc (length (p ∷ pat))) true (p ∷ pat)) full)
    ]

after_backslash-le : (pat : Str) → length (after_backslash pat).1 ≤ length pat
unfolding after_backslash
after_backslash-le [] = omega arith
after_backslash-le (e ∷ es) = omega arith

pub token-le : (p : ℕ) (pat : Str) → length (token p pat).1 ≤ length pat
unfolding token
token-le p pat = elim (Bool-cases (p == b'*')) [
  | inl a ↦ rw a (omega arith)
  | inr a ↦ elim (Bool-cases (p == b'?')) [
    | inl b ↦ rw (a, b) (omega arith)
    | inr b ↦ elim (Bool-cases (p == b'[')) [
      | inl c ↦ rw (a, b, c) (bracketed-le pat)
      | inr c ↦ elim (Bool-cases (p == b'\\')) [
        | inl d ↦ rw (a, b, c, d) (after_backslash-le pat)
        | inr d ↦ rw (a, b, c, d) (omega arith)
      ]
    ]
  ]
]
