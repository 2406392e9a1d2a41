-- ===== src/Cache/Glob.antt =====
-- `glob_match` (cache/router.cpp): `*`, `?` and classes, on fuel, which the length of the pattern bounds.
pub mod Meaning
pub mod Lengths
pub mod Correct
use studio_bondage_club.Prelude.{
  ℕ, zero, suc, Bool, true, false, not, ◌&&◌, ◌||◌, Option, none, some, List, [], ◌∷◌, Str, length,
  if◌then◌else◌, ◌==◌, is_nil, is_empty,
}

-- An element of a class, with its backslash taken off, and what follows it.
unfoldable pub unescape : ℕ → Str → ℕ × Str
unescape lo [] = (lo, [])
unescape lo (e ∷ es) = if lo == b'\\' then (e, es) else (lo, e ∷ es)

-- The upper end of a range after its lower end.
unfoldable pub range_end : Str → Option ℕ
range_end [] = none
range_end (d ∷ []) = none
range_end (d ∷ hi ∷ r) = if d == b'-' && not (hi == b']') then some hi else none

unfoldable pub after_range : Option ℕ → Str → Str
after_range none r = r
after_range (some hi) [] = []
after_range (some hi) (d ∷ []) = []
after_range (some hi) (d ∷ h ∷ r) = r

-- `char` is signed on some platforms, so that its order is a parameter.
module _ (le : ℕ → ℕ → Bool) where
  unfoldable pub in_item : ℕ → ℕ → Option ℕ → Bool
  in_item c lo none = c == lo
  in_item c lo (some hi) = le lo c && le c hi

  -- The loop over the elements: whether one of them fits, and the pattern behind the class.
  unfoldable pub class_loop : ℕ → Bool → Bool → ℕ → Str → Option (Bool × Str)
  unfolding unescape range_end after_range in_item
  class_loop zero first matched c pat = none
  class_loop (suc n) first matched c [] = none
  class_loop (suc n) first matched c (p ∷ pat) =
      let e = unescape p pat in
      let hi = range_end e.1 in
      let rest = class_loop n false (matched || in_item c e.0 hi) c (after_range hi e.1) in
      if p == b']' && not first then some (matched, pat) else rest

  abbrev pub is_negation : ℕ → Bool
  is_negation p = p == b'^' || p == b'!'

  negate_if : Bool → Option (Bool × Str) → Option (Bool × Str)
  negate_if negated none = none
  negate_if negated (some (m, rest)) = some ((if negated then not m else m), rest)

  -- The class behind an opening bracket; none if it is not closed.
  unfoldable pub match_class : ℕ → Str → Option (Bool × Str)
  unfolding class_loop negate_if
  match_class c [] = none
  match_class c (p ∷ pat) =
      if is_negation p
      then negate_if true (class_loop (suc (length pat)) true false c pat)
      else negate_if false (class_loop (suc (length (p ∷ pat))) true false c (p ∷ pat))

  -- A star: the rest of the pattern at every position up to the next slash.
  unfoldable pub star : (Str → Bool) → Str → Bool
  star k [] = k []
  star k (t ∷ ts) =
      let more = star k ts in if k (t ∷ ts) then true else if t == b'/' then false else more

  -- One character of the text, if there is one.
  abbrev pub on_char : (ℕ → Str → Bool) → Str → Bool
  on_char k [] = false
  on_char k (t ∷ ts) = k t ts

  bracket : (Str → Str → Bool) → Str → ℕ → Str → Option (Bool × Str) → Bool
  bracket k pat t ts none = if t == b'[' then k pat ts else false
  bracket k pat t ts (some (m, rest)) = if m then k rest ts else false

  escaped : (Str → Str → Bool) → Str → Str → Bool
  escaped k [] text = on_char (λ t ts. if t == b'\\' then k [] ts else false) text
  escaped k (e ∷ es) text = on_char (λ t ts. if t == e then k es ts else false) text

  unfoldable pub glob_here : ℕ → Str → Str → Bool
  unfolding match_class star bracket escaped
  glob_here zero pat text = false
  glob_here (suc n) [] text = is_nil text
  glob_here (suc n) (p ∷ pat) text =
      if p == b'*'
      then star (glob_here n pat) text
      else if p == b'?'
      then on_char (λ t ts. if t == b'/' then false else glob_here n pat ts) text
      else if p == b'['
      then on_char (λ t ts. bracket (glob_here n) pat t ts (match_class t pat)) text
      else if p == b'\\'
      then escaped (glob_here n) pat text
      else on_char (λ t ts. if t == p then glob_here n pat ts else false) text

  unfoldable pub glob_match : Str → Str → Bool
  glob_match pattern text = glob_here (suc (length pattern)) pattern text
