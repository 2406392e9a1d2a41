-- ===== src/Accounts/Lovership.antt =====
-- `account_lovership` (account_manager.cpp): the lists under `Lovership`, how a relation is broken, and
-- the six steps from an offered date to the wedding. The steps are in Lovership.Propose and
-- Lovership.Accept, the breaking in Lovership.Break, and the whole handler in Lovership.Request.
pub mod Propose
pub mod Keeps
pub mod Stripped
pub mod Accept
pub mod Break
pub mod Request
use studio_bondage_club.Prelude.{
  ℕ, zero, suc, Bool, true, false, not, ◌&&◌, ◌||◌, Option, none, some, List, [], ◌∷◌, ◌++◌, String,
  Str, codes, ℤ, pos, eq_ℤ, map, if◌then◌else◌, M, ◌>>=◌, ◌>>◌, pure, done, lift, get,
}
use studio_bondage_club.Json.{JsonLib, field?}
use studio_bondage_club.Accounts.Bond.{has_key, minus_one, change, reread}
use studio_bondage_club.Chat.State.{Account, Game, emit, persist_member_fields, member_number}
use studio_bondage_club.Chat.Sync.{emits}

abbrev pub set_at {ℓ} : {A : Type ℓ} → ℕ → A → List A → List A
set_at n a [] = []
set_at zero a (x ∷ xs) = a ∷ xs
set_at (suc n) a (x ∷ xs) = x ∷ set_at n a xs

abbrev pub erase_at {ℓ} : {A : Type ℓ} → ℕ → List A → List A
erase_at n [] = []
erase_at zero (x ∷ xs) = xs
erase_at (suc n) (x ∷ xs) = x ∷ erase_at n xs

-- The first position that passes a test, which may throw.
unfoldable pub index_of {ℓ} : {A : Type ℓ} → (A → Option Bool) → List A → Option (Option ℕ)
index_of p [] = some none
index_of p (x ∷ xs) =
    let rest = index_of p xs in
    elim (p x) [
      | none ↦ none
      | some true ↦ some (some 0)
      | some false ↦ elim rest [
        | none ↦ none
        | some none ↦ some none
        | some (some n) ↦ some (some (suc n))
      ]
    ]

module _ (J : JsonLib) where
  open J use {
    Json, null, of_str, of_int, of_arr, of_obj, is_object, int?, num?, arr?, member?, put, erase,
  }

  abbrev pub dating : String
  dating = "BeginDatingOfferedByMemberNumber"

  abbrev pub engagement : String
  engagement = "BeginEngagementOfferedByMemberNumber"

  abbrev pub wedding : String
  wedding = "BeginWeddingOfferedByMemberNumber"

  list_or_nil : Option (List Json) → List Json
  list_or_nil none = []
  list_or_nil (some xs) = xs

  -- The list of an account's relations.
  unfoldable pub lovers : Json → List Json
  unfolding list_or_nil
  lovers fields = list_or_nil (field? J arr? "Lovership" fields)

  unfoldable pub edit : (List Json → List Json) → Json → Json
  edit f fields = put "Lovership" (of_arr (f (lovers fields))) fields

  -- An account without a list gets an empty one.
  unfoldable pub with_list : Json → Json
  with_list fields = elim (field? J arr? "Lovership" fields) [
    | none ↦ put "Lovership" (of_arr []) fields
    | some xs ↦ fields
  ]

  offered_number : Option Json → Option ℤ
  offered_number none = some minus_one
  offered_number (some v) = num? v

  -- The number of a relation: of the partner, or of who offers to date.
  unfoldable pub lover_key : Json → Option ℤ
  unfolding offered_number
  lover_key l = elim (field? J int? "MemberNumber" l) [
    | none ↦ offered_number (member? dating l)
    | some n ↦ some n
  ]

  abbrev key_is : ℤ → Json → Option Bool
  key_is n l = elim (lover_key l) [ none ↦ none | some k ↦ some (eq_ℤ k n) ]

  unfoldable pub lover_index : ℤ → List Json → Option (Option ℕ)
  lover_index n lov = index_of (key_is n) lov

  -- The offers are taken out of every relation, and relations that were only offered are dropped; an
  -- entry that is no object throws.
  unfoldable pub stripped : List Json → Option (List Json)
  stripped [] = some []
  stripped (l ∷ ls) =
      let rest = stripped ls in
      if is_object l
      then elim rest [
        | none ↦ none
        | some ks ↦
            if has_key J dating l then some ks else some (erase wedding (erase engagement l) ∷ ks)
      ]
      else none

  abbrev lovership_json : List Json → Json
  lovership_json lov = of_obj (("Lovership", of_arr lov) ∷ [])

  tell_lovership : Option Str → List Json → M (Game J) (Unit {0})
  tell_lovership none lov = done
  tell_lovership (some i) lov = emits J (emit i "AccountLovership" (lovership_json lov))

  -- `update_lovership`, with the session that is told.
  unfoldable pub update_lovership : List Json → ℤ → Option Str → M (Game J) (List Json)
  unfolding tell_lovership
  update_lovership lov member told = do
    kept ← lift (stripped lov)
    emits J (persist_member_fields member (lovership_json kept))
    tell_lovership told kept
    pure kept

  -- `acc->data["Lovership"] = update_lovership(acc->data["Lovership"], …)`.
  unfoldable pub settle_lovership : Account J → ℤ → M (Game J) (Unit {0})
  settle_lovership acc member = do
    now' ← reread J acc
    kept ← update_lovership (lovers now'.fields) member (if acc.socket then some acc.id else none)
    change J acc (edit (λ old. kept))
