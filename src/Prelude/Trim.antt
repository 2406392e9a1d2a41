-- ===== src/Prelude/Trim.antt =====
-- What a trim leaves: the text without the characters at both ends that pass the test.
use Prim.Native.Nat.{ℕ}
use mathlib.Core.Path.{◌≡◌, refl, sym, ap, ◌∙◌}
use mathlib.Core.Bool.{Bool, true, false, not, ◌&&◌}
use mathlib.Core.List.{
  [], ◌∷◌, ◌++◌, reverse, reverse-cons, reverse-reverse, reverse-append, append-nil,
}
use native.Mathlib.Omega.{arith}
use studio_bondage_club.Prelude.Bytes.{Str, skip, trim_by}
use studio_bondage_club.Prelude.Lists.{all, all-append}

-- The first character, if there is one, fails the test.
abbrev pub starts_clear : (ℕ → Bool) → Str → Bool
starts_clear p [] = true
starts_clear p (c ∷ s) = not (p c)

-- Neither the first nor the last character passes the test.
abbrev pub is_clear : (ℕ → Bool) → Str → Bool
is_clear p s = starts_clear p s && starts_clear p (reverse s)

module _ (p : ℕ → Bool) where
  skip-all : (l s : Str) → all p l ≡ true → skip p (l ++ s) ≡ skip p s
  unfolding skip
  skip-all [] s h = refl
  skip-all (c ∷ l) s h = ground (arith, skip-all l s)

  skip-only : (s : Str) → all p s ≡ true → skip p s ≡ []
  unfolding skip
  skip-only [] h = refl
  skip-only (c ∷ s) h = ground (arith, skip-only s)

  skip-clear : (s : Str) → starts_clear p s ≡ true → skip p s ≡ s
  unfolding skip
  skip-clear [] h = refl
  skip-clear (c ∷ s) h = ground (arith, h)

  all-reverse : (s : Str) → all p s ≡ true → all p (reverse s) ≡ true
  all-reverse [] h = refl
  all-reverse (c ∷ s) h =
      rw (reverse-cons c s) (ground (arith, all-append p (reverse s) (c ∷ []), all-reverse s))

  -- The second loop of a trim drops what passes the test from the back.
  skip-back :
      (s r : Str)
      → all p r ≡ true
      → starts_clear p (reverse s) ≡ true
      → reverse (skip p (reverse (s ++ r))) ≡ s
  skip-back s r h e =
      rw
        (
          reverse-append s r,
          skip-all (reverse r) (reverse s) (all-reverse r h),
          skip-clear (reverse s) e,
        )
        (reverse-reverse s)

  skip-front :
      (s r : Str)
      → all p r ≡ true
      → starts_clear p s ≡ true
      → reverse (skip p (reverse (skip p (s ++ r)))) ≡ reverse (skip p (reverse (s ++ r)))
  unfolding skip
  skip-front [] r h e = rw (skip-only r h, skip-only (reverse r) (all-reverse r h)) refl
  skip-front (c ∷ s) r h e = ap (λ t. reverse (skip p (reverse t))) (skip-clear (c ∷ (s ++ r)) e)

  pub trim_by-padded :
      (l s r : Str)
      → all p l ≡ true
      → all p r ≡ true
      → is_clear p s ≡ true
      → trim_by p (l ++ (s ++ r)) ≡ s
  unfolding trim_by
  trim_by-padded l s r h k e =
      rw (skip-all l (s ++ r) h)
        (skip-front s r k (ground (arith, e)) ∙ skip-back s r k (ground (arith, e)))

  pub trim_by-clear : (s : Str) → is_clear p s ≡ true → trim_by p s ≡ s
  trim_by-clear s e = ap (trim_by p) (sym (append-nil s)) ∙ trim_by-padded [] s [] refl refl e

  pub starts_clear-append :
      (s t : Str)
      → starts_clear p s ≡ true
      → starts_clear p t ≡ true
      → starts_clear p (s ++ t) ≡ true
  starts_clear-append [] t h e = e
  starts_clear-append (c ∷ s) t h e = h

  -- Two clear texts with a character between them that fails the test.
  pub is_clear-between :
      (s : Str) (c : ℕ) (t : Str)
      → is_clear p s ≡ true
      → p c ≡ false
      → is_clear p t ≡ true
      → is_clear p (s ++ c ∷ t) ≡ true
  is_clear-between s c t h e k =
      rw (starts_clear-append s (c ∷ t) (ground (arith, h)) (ground (arith, e))) (
        ap (starts_clear p) (reverse-append s (c ∷ t))
        ∙ ap (λ u. starts_clear p (u ++ reverse s)) (reverse-cons c t)
        ∙ starts_clear-append (reverse t ++ c ∷ []) (reverse s)
            (starts_clear-append (reverse t) (c ∷ []) (ground (arith, k)) (ground (arith, e)))
            (ground (arith, h)))
