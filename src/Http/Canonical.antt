-- ===== src/Http/Canonical.antt =====
-- The canonical form of a header key (`canonical_header_key`, common/http_util.cpp), word by word.
use studio_bondage_club.Prelude.{
  ℕ, ◌≡◌, refl, ap, ◌∙◌, Bool, true, false, List, [], ◌∷◌, Str, map, arith, ◌==◌, split, join_by,
  onto_first, is_nil, sym, Bool-cases, inl, inr, to_lower, to_upper, if◌then◌else◌,
}
use studio_bondage_club.Http.{canonical_from, canonical_header_key}

-- A word with its first letter in upper case and the others in lower case.
unfoldable pub capitalised : Str → Str
capitalised [] = []
capitalised (c ∷ word) = to_upper c ∷ map to_lower word

-- The words of a key of which the first is already begun, if `fresh` does not hold.
words_from : Bool → List Str → List Str
words_from fresh [] = []
words_from true (p ∷ ps) = capitalised p ∷ map capitalised ps
words_from false (p ∷ ps) = map to_lower p ∷ map capitalised ps

split-nonempty : (sep : ℕ) (s : Str) → is_nil (split sep s) ≡ false
unfolding split
split-nonempty sep [] = refl
split-nonempty sep (c ∷ s) = ground (arith, split-nonempty sep s)

join_by-cons :
    (sep x : ℕ) (w : Str) (ws : List Str) → join_by sep ((x ∷ w) ∷ ws) ≡ x ∷ join_by sep (w ∷ ws)
unfolding join_by
join_by-cons sep x w [] = refl
join_by-cons sep x w (v ∷ ws) = refl

-- A letter in front of the words.
join_by-words_letter :
    (b : Bool) (c : ℕ) (ps : List Str)
    → join_by b'-' (words_from b (onto_first c ps))
      ≡ (if b then to_upper c else to_lower c) ∷ join_by b'-' (words_from false ps)
unfolding words_from capitalised join_by
join_by-words_letter true c [] = refl
join_by-words_letter false c [] = refl
join_by-words_letter true c (p ∷ ps) = join_by-cons b'-' _ _ _
join_by-words_letter false c (p ∷ ps) = join_by-cons b'-' _ _ _

-- A dash in front of the words.
join_by-words_dash :
    (b : Bool) (ps : List Str)
    → is_nil ps ≡ false
    → join_by b'-' (words_from b ([] ∷ ps)) ≡ b'-' ∷ join_by b'-' (words_from true ps)
unfolding words_from capitalised join_by
join_by-words_dash b [] n = absurd (ground (arith, n))
join_by-words_dash true (p ∷ ps) n = refl
join_by-words_dash false (p ∷ ps) n = refl

letter : Bool → ℕ → ℕ
letter b c = if b then to_upper c else to_lower c

letter-dash : (b : Bool) (c : ℕ) → (letter b c == b'-') ≡ (c == b'-')
unfolding letter to_upper to_lower
letter-dash b c = ground arith

letter-of_dash : (b : Bool) (c : ℕ) → c == b'-' ≡ true → letter b c ≡ b'-'
unfolding letter to_upper to_lower
letter-of_dash b c h = ground arith

canonical_from-words :
    (b : Bool) (s : Str) → canonical_from b s ≡ join_by b'-' (words_from b (split b'-' s))
unfolding canonical_from letter split join_by words_from capitalised
canonical_from-words true [] = refl
canonical_from-words false [] = refl
canonical_from-words b (c ∷ s) = elim (Bool-cases (c == b'-')) [
  | inl dash ↦
      rw (letter-dash b c, dash, letter-of_dash b c dash)
        (ap (◌∷◌ b'-') (canonical_from-words true s)
          ∙ sym (join_by-words_dash b (split b'-' s) (split-nonempty b'-' s)))
  | inr other ↦
      rw (letter-dash b c, other)
        (ap (◌∷◌ (letter b c)) (canonical_from-words false s)
          ∙ sym (join_by-words_letter b c (split b'-' s)))
]

words_from-true : (ps : List Str) → words_from true ps ≡ map capitalised ps
unfolding words_from
words_from-true [] = refl
words_from-true (p ∷ ps) = refl

-- The canonical form of a header key has a dash where the key has one, and the words between them
-- capitalised.
pub canonical_header_key-words :
    (key : Str) → canonical_header_key key ≡ join_by b'-' (map capitalised (split b'-' key))
unfolding canonical_header_key
canonical_header_key-words key =
    canonical_from-words true key ∙ ap (join_by b'-') (words_from-true (split b'-' key))
