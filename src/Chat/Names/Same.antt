-- ===== src/Chat/Names/Same.antt =====
-- When two room names are the same: `upper_trim` of chatroom_manager.cpp makes the key by which they
-- are compared.
use studio_bondage_club.Prelude.{
  ℕ, ◌≡◌, ◌↔◌, refl, sym, ap, ◌∙◌, true, [], ◌∷◌, ◌++◌, Str, map, all, all-append, arith, is_clear,
  trim_by-padded, to_upper, to_lower,
}
use studio_bondage_club.Chat.Names.{is_blank, upper_trim}

to_lower-to_upper : (c : ℕ) → to_lower (to_upper c) ≡ to_lower c
unfolding to_lower to_upper
to_lower-to_upper c = ground arith

to_upper-to_lower : (c : ℕ) → to_upper (to_lower c) ≡ to_upper c
unfolding to_lower to_upper
to_upper-to_lower c = ground arith

map-absorbs : (f g : ℕ → ℕ) → ((c : ℕ) → f (g c) ≡ f c) → (s : Str) → map f (map g s) ≡ map f s
map-absorbs f g h [] = refl
map-absorbs f g h (c ∷ s) = cc (h c, map-absorbs f g h s)

-- Texts have the same upper-case letters exactly if they have the same lower-case letters.
map-to_upper_iff :
    (s t : Str) → (map to_upper s ≡ map to_upper t) ↔ (map to_lower s ≡ map to_lower t)
map-to_upper_iff s t = (
  λ e.
      sym (map-absorbs to_lower to_upper to_lower-to_upper s)
      ∙ ap (map to_lower) e
      ∙ map-absorbs to_lower to_upper to_lower-to_upper t,
  λ e.
      sym (map-absorbs to_upper to_lower to_upper-to_lower s)
      ∙ ap (map to_upper) e
      ∙ map-absorbs to_upper to_lower to_upper-to_lower t,
)

upper_trim-padded :
    (l s r : Str)
    → all is_blank l ≡ true
    → all is_blank r ≡ true
    → is_clear is_blank s ≡ true
    → upper_trim (l ++ (s ++ r)) ≡ map to_upper s
unfolding upper_trim
upper_trim-padded l s r h k e = ap (map to_upper) (trim_by-padded is_blank l s r h k e)

both :
    (l r : Str) → all is_blank (l ++ r) ≡ true → (all is_blank l ≡ true) × (all is_blank r ≡ true)
both l r h = ground (arith, all-append is_blank l r, h)

-- Two room names have the same key exactly if they agree without regard to case, but for the blanks
-- around them: `s` and `t` neither begin nor end with a blank, and the texts around them are blank.
pub upper_trim-same :
    (l s r k t q : Str)
    → all is_blank (l ++ r) ≡ true
    → all is_blank (k ++ q) ≡ true
    → is_clear is_blank s ≡ true
    → is_clear is_blank t ≡ true
    → (upper_trim (l ++ (s ++ r)) ≡ upper_trim (k ++ (t ++ q))) ↔ (map to_lower s ≡ map to_lower t)
upper_trim-same l s r k t q h i c d =
    rw
      (
        upper_trim-padded l s r (both l r h).0 (both l r h).1 c,
        upper_trim-padded k t q (both k q i).0 (both k q i).1 d,
      )
      (map-to_upper_iff s t)
