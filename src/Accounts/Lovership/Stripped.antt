-- ===== src/Accounts/Lovership/Stripped.antt =====
-- What `update_lovership` (account_manager.cpp) leaves of a list of relations.
use studio_bondage_club.Prelude.{
  ◌≡◌, ◌≢◌, refl, ap, ◌∙◌, Bool, true, false, not, ◌&&◌, Option, none, some, List, [], ◌∷◌, String,
  all, Bool-cases, Option-cases, inl, inr, arith, str_eq, str_eq_refl, codes,
}
use studio_bondage_club.Json.{JsonLib}
use studio_bondage_club.Accounts.Bond.{has_key}
use studio_bondage_club.Accounts.Lovership.{dating, engagement, wedding, stripped}

distinct : (a b : String) → str_eq (codes a) (codes b) ≡ false → a ≢ b
distinct a b h e = ground (arith, h, str_eq_refl (codes a), ap (λ s. str_eq (codes a) (codes s)) e)

module _ (J : JsonLib) where
  -- No offer stands in a relation.
  abbrev pub has_no_offer : J.Json → Bool
  has_no_offer l =
      not (has_key J (dating J) l)
      && not (has_key J (engagement J) l)
      && not (has_key J (wedding J) l)

  absent : (k : String) (l : J.Json) → J.member? k l ≡ none → has_key J k l ≡ false
  unfolding has_key
  absent k l h = rw (has_key, h) refl

  unaffected : (k k' : String) (l : J.Json) → k ≢ k' → has_key J k' (J.erase k l) ≡ has_key J k' l
  unfolding has_key
  unaffected k k' l n = rw (has_key, J.member?-erase_ne k k' l n) refl

  erased-has_no_offer :
      (l : J.Json)
      → has_key J (dating J) l ≡ false
      → has_no_offer (J.erase (wedding J) (J.erase (engagement J) l)) ≡ true
  unfolding str_eq
  erased-has_no_offer l h =
      let once = J.erase (engagement J) l in
      let no_wedding =
        absent (wedding J) (J.erase (wedding J) once) (J.member?-erase_self (wedding J) once) in
      let no_engagement =
        unaffected (wedding J) (engagement J) once (distinct (wedding J) (engagement J) refl)
        ∙ absent (engagement J) once (J.member?-erase_self (engagement J) l) in
      let no_date =
        unaffected (wedding J) (dating J) once (distinct (wedding J) (dating J) refl)
        ∙ unaffected (engagement J) (dating J) l (distinct (engagement J) (dating J) refl)
        ∙ h in
      rw (no_date, no_engagement, no_wedding) refl

  stripped-has_no_offer :
      (lov kept : List J.Json) → stripped J lov ≡ some kept → all has_no_offer kept ≡ true
  unfolding stripped
  stripped-has_no_offer [] kept e = ground (arith, e)
  stripped-has_no_offer (l ∷ ls) kept e = elim (Bool-cases (J.is_object l)) [
    | inr other ↦ absurd (ground (arith, e, other))
    | inl here ↦ elim (Option-cases (stripped J ls)) [
      | inl thrown ↦ absurd (ground (arith, e, here, thrown))
      | inr (ks, settled) ↦ elim (Bool-cases (has_key J (dating J) l)) [
        | inl offered ↦ stripped-has_no_offer ls kept (ground (arith, e, here, settled, offered))
        | inr dated ↦ ground (
          arith,
          e,
          here,
          settled,
          dated,
          erased-has_no_offer l dated,
          stripped-has_no_offer ls ks settled,
        )
      ]
    ]
  ]

  is_some : Option (List J.Json) → Bool
  is_some none = false
  is_some (some ks) = true

  stripped-is_some :
      (lov : List J.Json) → all J.is_object lov ≡ true → is_some (stripped J lov) ≡ true
  unfolding stripped is_some
  stripped-is_some [] h = refl
  stripped-is_some (l ∷ ls) h =
      let more = stripped-is_some ls in
      elim (Option-cases (stripped J ls)) [
        | inl thrown ↦ absurd (ground (arith, h, more, thrown))
        | inr (ks, settled) ↦ elim (Bool-cases (has_key J (dating J) l)) [
          | inl offered ↦ ground (arith, h, settled, offered)
          | inr dated ↦ ground (arith, h, settled, dated)
        ]
      ]

  -- Every list of relations that are objects is settled without a throw, and no offer to date, to become
  -- engaged or to marry is left in it.
  pub stripped-settles :
      (lov : List J.Json)
      → all J.is_object lov ≡ true
      → (kept : List J.Json) × (stripped J lov ≡ some kept) × (all has_no_offer kept ≡ true)
  unfolding is_some
  stripped-settles lov h = elim (Option-cases (stripped J lov)) [
    | inl thrown ↦ absurd (ground (arith, stripped-is_some lov h, thrown))
    | inr (kept, settled) ↦ (kept, settled, stripped-has_no_offer lov kept settled)
  ]
