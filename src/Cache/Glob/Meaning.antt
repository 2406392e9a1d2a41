-- ===== src/Cache/Glob/Meaning.antt =====
-- What a glob of cache/router.cpp means: its tokens, and the texts that they match.
use studio_bondage_club.Prelude.{
  ℕ, zero, suc, ◌≡◌, Bool, true, false, not, ◌&&◌, ◌||◌, Option, none, some, List, [], ◌∷◌, Str,
  length, any, if◌then◌else◌, ◌==◌,
}
use studio_bondage_club.Cache.Glob.{unescape, range_end, after_range, in_item}

abbrev pub Items : Type 0
Items = List (ℕ × Option ℕ)

pub data Token : Type 0 where
  any_run : Token
  any_char : Token
  one_of : Bool → Items → Token
  literal : ℕ → Token

-- The elements of a class up to its closing bracket, and the pattern behind it.
unfoldable pub onto : ℕ × Option ℕ → Option (Items × Str) → Option (Items × Str)
onto i none = none
onto i (some (is, rest)) = some (i ∷ is, rest)

unfoldable pub items : ℕ → Bool → Str → Option (Items × Str)
unfolding onto unescape range_end after_range
items zero first pat = none
items (suc n) first [] = none
items (suc n) first (p ∷ pat) =
    let e = unescape p pat in
    let hi = range_end e.1 in
    let rest = onto (e.0, hi) (items n false (after_range hi e.1)) in
    if p == b']' && not first then some ([], pat) else rest

unfoldable pub classed : Bool → Option (Items × Str) → Option ((Bool × Items) × Str)
classed negated none = none
classed negated (some (is, rest)) = some ((negated, is), rest)

unfoldable pub class_of : Str → Option ((Bool × Items) × Str)
unfolding items classed
class_of [] = none
class_of (p ∷ pat) =
    if p == b'^' || p == b'!'
    then classed true (items (suc (length pat)) true pat)
    else classed false (items (suc (length (p ∷ pat))) true (p ∷ pat))

-- An opening bracket that is not closed stands for itself.
unfoldable pub bracketed : Str → Option ((Bool × Items) × Str) → Token × Str
bracketed pat none = (literal b'[', pat)
bracketed pat (some (set, rest)) = (one_of set.0 set.1, rest)

unfoldable pub after_backslash : Str → Token × Str
after_backslash [] = (literal b'\\', [])
after_backslash (e ∷ es) = (literal e, es)

-- The first token of a pattern, and the rest.
unfoldable pub token : ℕ → Str → Token × Str
unfolding class_of bracketed after_backslash
token p pat =
    if p == b'*'
    then (any_run, pat)
    else if p == b'?'
    then (any_char, pat)
    else if p == b'['
    then bracketed pat (class_of pat)
    else if p == b'\\'
    then after_backslash pat
    else (literal p, pat)

-- All tokens of a pattern; fuel beyond its length is enough.
unfoldable pub tokens : ℕ → Str → List Token
unfolding token
tokens zero pat = []
tokens (suc n) [] = []
tokens (suc n) (p ∷ pat) = (token p pat).0 ∷ tokens n (token p pat).1

module _ (le : ℕ → ℕ → Bool) where
  unfoldable pub accepts : Bool → Items → ℕ → Bool
  unfolding in_item
  accepts negated is c = let m = any (λ i. in_item le c i.0 i.1) is in if negated then not m else m

  -- The tokens match the text: a run is of characters other than the slash, and so is a single
  -- character; a class and a literal may match a slash.
  pub data Fits : List Token → Str → Type 0 where
    nothing : Fits [] []
    run_end : {ps : List Token} {text : Str} → Fits ps text → Fits (any_run ∷ ps) text
    run_on :
        {ps : List Token} {t : ℕ} {ts : Str}
        → (t == b'/') ≡ false
        → Fits (any_run ∷ ps) ts
        → Fits (any_run ∷ ps) (t ∷ ts)
    character :
        {ps : List Token} {t : ℕ} {ts : Str}
        → (t == b'/') ≡ false
        → Fits ps ts
        → Fits (any_char ∷ ps) (t ∷ ts)
    member :
        {ps : List Token} {t : ℕ} {ts : Str} {negated : Bool} {is : Items}
        → accepts negated is t ≡ true
        → Fits ps ts
        → Fits (one_of negated is ∷ ps) (t ∷ ts)
    itself :
        {ps : List Token} {t c : ℕ} {ts : Str}
        → (t == c) ≡ true
        → Fits ps ts
        → Fits (literal c ∷ ps) (t ∷ ts)
