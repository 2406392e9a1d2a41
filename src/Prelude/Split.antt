-- ===== src/Prelude/Split.antt =====
-- A text cut at every occurrence of a separator, as the loops over `find(separator, start)` do, and
-- at its first occurrence.
use Prim.Native.Nat.{ℕ}
use mathlib.Core.Path.{◌≡◌, refl}
use mathlib.Core.Bool.{false}
use mathlib.Core.Option.{Option, none, some}
use mathlib.Core.List.{List, [], ◌∷◌, ◌++◌}
use native.Mathlib.Omega.{arith}
use studio_bondage_club.Prelude.Bytes.{Str}
use studio_bondage_club.Prelude.Lists.{any}
use studio_bondage_club.Prelude.Tests.{◌==◌, if◌then◌else◌}

abbrev pub onto_first : ℕ → List Str → List Str
onto_first c [] = (c ∷ []) ∷ []
onto_first c (p ∷ ps) = (c ∷ p) ∷ ps

unfoldable pub split : ℕ → Str → List Str
split sep [] = [] ∷ []
split sep (c ∷ s) = let rest = split sep s in if c == sep then [] ∷ rest else onto_first c rest

-- The parts before and after the first separator.
unfoldable pub cut : ℕ → Str → Option (Str × Str)
cut sep [] = none
cut sep (c ∷ s) =
    let rest = cut sep s in
    if c == sep then some ([], s) else elim rest [ none ↦ none | some r ↦ some (c ∷ r.0, r.1) ]

-- The parts, with separators between them.
unfoldable pub join_by : ℕ → List Str → Str
join_by sep [] = []
join_by sep (p ∷ []) = p
join_by sep (p ∷ q ∷ ps) = p ++ sep ∷ join_by sep (q ∷ ps)

split-clean_append :
    (sep : ℕ) (p rest : Str)
    → any (λ c. c == sep) p ≡ false
    → split sep (p ++ sep ∷ rest) ≡ p ∷ split sep rest
unfolding split
split-clean_append sep [] rest h = ground arith
split-clean_append sep (c ∷ p) rest h = ground (arith, split-clean_append sep p rest)

split-clean : (sep : ℕ) (p : Str) → any (λ c. c == sep) p ≡ false → split sep p ≡ p ∷ []
unfolding split
split-clean sep [] h = refl
split-clean sep (c ∷ p) h = ground (arith, split-clean sep p)

-- Joined parts without separators are found again.
pub split-join_by :
    (sep : ℕ) (p : Str) (ps : List Str)
    → any (any (λ c. c == sep)) (p ∷ ps) ≡ false
    → split sep (join_by sep (p ∷ ps)) ≡ p ∷ ps
unfolding join_by
split-join_by sep p [] h = split-clean sep p (ground (arith, h))
split-join_by sep p (q ∷ ps) h =
    ground (arith, split-clean_append sep p (join_by sep (q ∷ ps)), split-join_by sep q ps)

-- A text is cut behind a first part without the separator.
pub cut-clean :
    (sep : ℕ) (p rest : Str)
    → any (λ c. c == sep) p ≡ false
    → cut sep (p ++ sep ∷ rest) ≡ some (p, rest)
unfolding cut
cut-clean sep [] rest h = ground arith
cut-clean sep (c ∷ p) rest h = ground (arith, cut-clean sep p rest)
