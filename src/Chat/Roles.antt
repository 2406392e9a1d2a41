-- ===== src/Chat/Roles.antt =====
-- The role lists and the item permission of chatroom_manager.cpp (server/gameserver/game). A role
-- list of a room is an array by construction; one of an account is any JSON value.
pub mod Allow
use studio_bondage_club.Prelude.{
  ◌≡◌, Bool, true, false, not, ◌&&◌, ◌||◌, Option, none, some, List, [], ◌∷◌, String, Str, codes, ℤ,
  pos, leb_ℤ, eq_ℤ, ◌+ℤ◌, wrap_64, str_eq, any, if◌then◌else◌,
}
use studio_bondage_club.Json.{JsonLib, value, value_arr, value_int32, field?}
use studio_bondage_club.Chat.State.{Account, RoomData, ChatRoom, member_number}

infixl 5 ◌>>=◌
abbrev ◌>>=◌ {ℓ κ} : {A : Type ℓ} {B : Type κ} → Option A → (A → Option B) → Option B
none >>= k = none
some a >>= k = k a

abbrev pub is_str : Str → Option Str → Bool
is_str s none = false
is_str s (some t) = str_eq t s

abbrev pub is_int : ℤ → Option ℤ → Bool
is_int n none = false
is_int n (some m) = eq_ℤ m n

-- What `get_allow_item` reads of the two accounts.
pub record Relation : Type 0 where
  pub permission : ℤ
  pub itself : Bool
  pub owned_by_source : Bool
  pub blacklisted : Bool
  pub whitelisted : Bool
  pub is_lover : Bool

-- The tests of `get_allow_item`; `stronger` is the dominance test, which is made at permission 2
-- alone, and only if the source is not blacklisted.
unfoldable pub allowed : Relation → Option Bool → Option Bool
allowed r stronger =
    if leb_ℤ r.permission (pos 0) || r.itself || r.owned_by_source
    then some true
    else if eq_ℤ r.permission (pos 1)
    then some (not r.blacklisted)
    else if eq_ℤ r.permission (pos 2)
    then if r.blacklisted
      then some false
      else elim stronger [ none ↦ none | some s ↦ some (s || r.whitelisted || r.is_lover) ]
    else if eq_ℤ r.permission (pos 3)
    then some (r.whitelisted || r.is_lover)
    else if eq_ℤ r.permission (pos 4)
    then some r.is_lover
    else some false

module _ (J : JsonLib) where
  open J use {Json, is_object, str?, int?, num?, arr?}

  -- The loops of `has_str` and `has_member` over the elements.
  unfoldable pub has_str_in : List Json → Str → Bool
  has_str_in arr s = any (λ e. is_str s (str? e)) arr

  unfoldable pub has_member_in : List Json → ℤ → Bool
  has_member_in arr n = any (λ e. is_int n (int? e)) arr

  abbrev elements : Option (List Json) → List Json
  elements none = []
  elements (some xs) = xs

  unfoldable pub has_str : Json → Str → Bool
  unfolding has_str_in
  has_str arr s = has_str_in (elements (arr? arr)) s

  unfoldable pub has_member : Json → ℤ → Bool
  unfolding has_member_in
  has_member arr n = has_member_in (elements (arr? arr)) n

  unfoldable pub account_has_any_role : Account J → ChatRoom J → List Json → Bool
  account_has_any_role acc room roles =
      has_str_in roles (codes "All")
      || has_str_in roles (codes "Admin") && has_member_in room.props.admin (member_number J acc)
      || has_str_in roles (codes "Whitelist")
        && has_member_in room.props.whitelist (member_number J acc)

  unfoldable pub should_send_blacklist : Account J → Option Bool
  should_send_blacklist acc = elim (value_int32 J "ItemPermission" (pos 2) acc.fields) [
    | none ↦ none
    | some p ↦ some (eq_ℤ p (pos 1) || eq_ℤ p (pos 2))
  ]

  -- One entry of `Reputation`: `some (some v)` is the value that the loop returns, `none` a throw.
  dominant_of : Json → Option (Option ℤ)
  dominant_of rep =
      if is_object rep
      then elim (value J str? "Type" [] rep) [
        | none ↦ none
        | some t ↦ some (if str_eq t (codes "Dominant") then field? J num? "Value" rep else none)
      ]
      else some none

  dominant_in : List Json → Option ℤ
  dominant_in [] = some (pos 0)
  dominant_in (rep ∷ reps) = elim (dominant_of rep) [
    | none ↦ none
    | some none ↦ dominant_in reps
    | some (some v) ↦ some v
  ]

  unfoldable pub dominant_value : Account J → Option ℤ
  unfolding dominant_in dominant_of
  dominant_value acc = dominant_in (elements (field? J arr? "Reputation" acc.fields))

  abbrev lover_of : Json → Option ℤ
  lover_of l = field? J int? "MemberNumber" l

  lovers_in : List Json → List ℤ
  lovers_in [] = []
  lovers_in (l ∷ ls) = elim (lover_of l) [ none ↦ lovers_in ls | some n ↦ n ∷ lovers_in ls ]

  unfoldable pub lover_numbers : Account J → List ℤ
  unfolding lovers_in
  lover_numbers acc = lovers_in (elements (field? J arr? "Lovership" acc.fields))

  unfoldable pub dominates : Account J → Account J → Option Bool
  unfolding dominant_value
  dominates source target = do
    s ← dominant_value source
    t ← dominant_value target
    some (leb_ℤ t (wrap_64 (s +ℤ pos 25)))

  abbrev owner_of : Json → Option ℤ
  owner_of owner = if is_object owner then field? J int? "MemberNumber" owner else none

  unfoldable pub relation : Account J → Account J → Option Relation
  relation source target = do
    let sm = member_number J source
    perm ← value_int32 J "ItemPermission" (pos 2) target.fields
    owner ← value J some "Ownership" J.null target.fields
    black ← value_arr J "BlackList" target.fields
    white ← value_arr J "WhiteList" target.fields
    some (record {
      permission = perm;
      itself = eq_ℤ sm (member_number J target);
      owned_by_source = is_int sm (owner_of owner);
      blacklisted = has_member black sm;
      whitelisted = has_member white sm;
      is_lover = any (eq_ℤ sm) (lover_numbers target);
    })

  unfoldable pub get_allow_item : Account J → Account J → Option Bool
  unfolding relation allowed
  get_allow_item source target = do r ← relation source target; allowed r (dominates source target)
