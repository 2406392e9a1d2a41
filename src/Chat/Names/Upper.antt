-- ===== src/Chat/Names/Upper.antt =====
-- `upper_trim` of chatroom_manager.cpp gives a normal form: the key by which room names are compared.
use studio_bondage_club.Prelude.{
  ℕ, ◌≡◌, refl, sym, ap, Bool, true, false, [], ◌∷◌, ◌++◌, Str, map, reverse, arith, to_upper,
  to_upper_idem, skip, trim_by, Bool-cases, inl, inr,
}
use mathlib.Core.List.{reverse-cons, reverse-reverse, reverse-append, map-append}
use studio_bondage_club.Chat.Names.{is_blank, upper_trim}

skip-skip : (p : ℕ → Bool) (s : Str) → skip p (skip p s) ≡ skip p s
unfolding skip
skip-skip p [] = refl
skip-skip p (c ∷ s) = ground (arith, skip-skip p s)

skip-append_kept :
    (p : ℕ → Bool) (s : Str) (x : ℕ) → p x ≡ false → skip p (s ++ x ∷ []) ≡ skip p s ++ x ∷ []
unfolding skip
skip-append_kept p [] x h = ground arith
skip-append_kept p (c ∷ s) x h = ground (arith, skip-append_kept p s x)

skip-kept : (p : ℕ → Bool) (x : ℕ) (s : Str) → p x ≡ false → skip p (x ∷ s) ≡ x ∷ s
unfolding skip
skip-kept p x s h = ground arith

reverse-map : (f : ℕ → ℕ) (s : Str) → reverse (map f s) ≡ map f (reverse s)
reverse-map f [] = refl
reverse-map f (c ∷ s) =
    rw (reverse-cons (f c) (map f s), reverse-cons c s, reverse-map f s)
      (sym (map-append f (reverse s) (c ∷ [])))

-- The second loop of a trim.
abbrev skip_back : (ℕ → Bool) → Str → Str
skip_back p s = reverse (skip p (reverse s))

skip_back-cons :
    (p : ℕ → Bool) (x : ℕ) (s : Str) → p x ≡ false → skip_back p (x ∷ s) ≡ x ∷ skip_back p s
skip_back-cons p x s h =
    rw (reverse-cons x s, skip-append_kept p (reverse s) x h)
      (reverse-append (skip p (reverse s)) (x ∷ []))

skip_back-skip_back : (p : ℕ → Bool) (s : Str) → skip_back p (skip_back p s) ≡ skip_back p s
skip_back-skip_back p s = rw (reverse-reverse, skip-skip p (reverse s))

trim_by-cons :
    (p : ℕ → Bool) (x : ℕ) (s : Str) → p x ≡ false → trim_by p (x ∷ s) ≡ x ∷ skip_back p s
unfolding trim_by
trim_by-cons p x s h = rw (skip-kept p x s h) (skip_back-cons p x s h)

trim_by-cons_skipped :
    (p : ℕ → Bool) (x : ℕ) (s : Str) → p x ≡ true → trim_by p (x ∷ s) ≡ trim_by p s
unfolding trim_by
trim_by-cons_skipped p x s h = rw (h, skip) refl

trim_by-nil : (p : ℕ → Bool) → trim_by p [] ≡ []
unfolding trim_by
trim_by-nil p = refl

trim_by-trim_by : (p : ℕ → Bool) (s : Str) → trim_by p (trim_by p s) ≡ trim_by p s
trim_by-trim_by p [] = ap (trim_by p) (trim_by-nil p)
trim_by-trim_by p (c ∷ s) = elim (Bool-cases (p c)) [
  | inl blank ↦ rw (trim_by-cons_skipped p c s blank) (trim_by-trim_by p s)
  | inr kept ↦
      rw (trim_by-cons p c s kept, trim_by-cons p c (skip_back p s) kept)
        (ap (◌∷◌ c) (skip_back-skip_back p s))
]

module _ (p : ℕ → Bool) (f : ℕ → ℕ) (same : (c : ℕ) → p (f c) ≡ p c) where
  skip-map : (s : Str) → skip p (map f s) ≡ map f (skip p s)
  unfolding skip
  skip-map [] = refl
  skip-map (c ∷ s) = ground (arith, same c, skip-map s)

  trim_by-map : (s : Str) → trim_by p (map f s) ≡ map f (trim_by p s)
  unfolding trim_by
  trim_by-map s =
      rw (skip-map s, reverse-map f (skip p s), skip-map (reverse (skip p s)))
        (reverse-map f (skip p (reverse (skip p s))))

is_blank-to_upper : (c : ℕ) → is_blank (to_upper c) ≡ is_blank c
unfolding is_blank to_upper
is_blank-to_upper c = ground arith

map-to_upper_idem : (s : Str) → map to_upper (map to_upper s) ≡ map to_upper s
map-to_upper_idem [] = refl
map-to_upper_idem (c ∷ s) = cc (to_upper_idem c, map-to_upper_idem s)

-- The key of a room name is its own key.
pub upper_trim-upper_trim : (s : Str) → upper_trim (upper_trim s) ≡ upper_trim s
unfolding upper_trim
upper_trim-upper_trim s =
    rw
      (
        trim_by-map is_blank to_upper is_blank-to_upper (trim_by is_blank s),
        trim_by-trim_by is_blank s,
      )
      (map-to_upper_idem (trim_by is_blank s))
