-- ===== src/Accounts/Lovership/Propose.antt =====
-- The sender's offers to the target: steps 1, 3 and 5 of `account_lovership` (account_manager.cpp).
pub mod Keeps
use studio_bondage_club.Prelude.{
  ℕ, Bool, true, false, not, ◌&&◌, Option, none, some, List, [], ◌∷◌, ◌++◌, String, Str, codes, ℤ,
  pos, eq_ℤ, ltb, length, get_elem?, if◌then◌else◌, str_eq, M, ◌>>=◌, ◌>>◌, pure, done, lift, get,
}
use studio_bondage_club.Json.{JsonLib, value_arr}
use studio_bondage_club.Accounts.Bond.{
  ◌&?◌, has_key, value_is, minus_one, delay_over, change, reread, tells, can, server_message,
}
use studio_bondage_club.Accounts.Lovership.{
  set_at, dating, engagement, wedding, lovers, edit, with_list, lover_index,
}
use studio_bondage_club.Chat.Roles.{has_member}
use studio_bondage_club.Chat.State.{Account, ChatRoom, Game, member_number}
use studio_bondage_club.Chat.Sync.{source_dict}

module _ (J : JsonLib) (delay now : ℤ) where
  open J use {Json, of_int, of_obj, put}

  -- An offer is made, or the sender is told that it could be.
  unfoldable pub offer :
      Bool
      → String
      → String
      → (List Json → List Json)
      → ChatRoom J
      → Account J
      → Account J
      → M (Game J) (Unit {0})
  offer propose message possible f room acc target =
      if propose
      then (do
        change J target (edit J f)
        dict ← source_dict J acc
        server_message J room (member_number J acc) message (of_int (member_number J target)) dict)
      else tells J acc "AccountLovership" (can J (member_number J target) possible)

  -- The relation is at a stage, which has lasted for the delay, and the next is not offered yet.
  unfoldable pub may_offer : String → ℕ → Json → Option Bool
  may_offer key stage l =
      some (not (has_key J key l))
      &? value_is J "Stage" minus_one (pos stage) l
      &? some (delay_over J delay now l)

  offer_next :
      Bool
      → String
      → String
      → String
      → ℕ
      → ChatRoom J
      → Account J
      → Account J
      → ℕ
      → Json
      → M (Game J) (Unit {0})
  offer_next propose key message possible stage room acc target i l = do
    ready ← lift (may_offer key stage l)
    if ready
        then offer propose message possible (set_at i (put key (of_int (member_number J acc)) l))
            room acc target
        else done

  -- Steps 3 and 5, for the target's relation with the sender at a position.
  offers_at : Bool → ChatRoom J → Account J → Account J → ℕ → Option Json → M (Game J) (Unit {0})
  unfolding offer_next
  offers_at propose room acc target i none = done
  offers_at propose room acc target i (some l) = do
    offer_next propose (engagement J) "OfferBeginEngagement" "CanOfferBeginEngagement" 0 room acc
        target i l
    offer_next propose (wedding J) "OfferBeginWedding" "CanOfferBeginWedding" 1 room acc target i l

  offers_to :
      Bool → ChatRoom J → Account J → Account J → List Json → Option ℕ → M (Game J) (Unit {0})
  unfolding offers_at
  offers_to propose room acc target lov none =
      if ltb (length lov) 5
      then offer propose "OfferBeginDating" "CanOfferBeginDating"
          (λ old. old ++ of_obj ((dating J, of_int (member_number J acc)) ∷ []) ∷ []) room acc
          target
      else done
  offers_to propose room acc target lov (some i) =
      offers_at propose room acc target i (get_elem? lov i)

  -- The result says whether the request goes on.
  unfoldable pub propose_to : Str → ChatRoom J → Account J → Account J → M (Game J) Bool
  unfolding offers_to
  propose_to action room acc target = do
    black ← lift (value_arr J "BlackList" target.fields)
    if has_member J black (member_number J acc) then pure true else (do
      change J target (with_list J)
      t ← reread J target
      i ← lift (lover_index J (member_number J acc) (lovers J t.fields))
      if eq_ℤ (member_number J acc) (member_number J t)
          then pure false
          else offers_to (str_eq action (codes "Propose")) room acc t (lovers J t.fields) i
            >> pure true)

  propose_if : Str → ChatRoom J → Account J → Option (Account J) → M (Game J) Bool
  propose_if action room acc none = pure true
  propose_if action room acc (some target) = propose_to action room acc target

  abbrev has_room : List Json → Option ℕ → Bool
  has_room lov none = ltb (length lov) 5
  has_room lov (some i) = true

  -- The proposals, if the sender's list has room or holds the target.
  unfoldable pub proposals : ℤ → Str → ChatRoom J → Account J → Option (Account J) → M (Game J) Bool
  unfolding propose_if
  proposals n action room acc target = do
    me ← reread J acc
    i ← lift (lover_index J n (lovers J me.fields))
    if has_room (lovers J me.fields) i then propose_if action room acc target else pure true
