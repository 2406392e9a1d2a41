-- ===== src/Chat/Admin.antt =====
-- `chat_room_admin` of chatroom_manager.cpp (server/gameserver/game). The permutation that
-- `std::shuffle` draws is an argument.
pub mod Keeps
pub mod Guard
use studio_bondage_club.Prelude.{
  ℕ, zero, suc, ◌+◌, ◌-◌, Bool, true, false, not, ◌&&◌, ◌||◌, Option, none, some, List, [], ◌∷◌,
  ◌++◌, String, Str, codes, ℤ, ltb, eq_ℤ, length, any, reject, map, if◌then◌else◌, M, ◌>>=◌, ◌>>◌,
  pure, done, lift, get, modify, str_eq, ◌==◌,
}
use studio_bondage_club.Json.{JsonLib, field?, value}
use studio_bondage_club.Chat.State.{
  Account, RoomData, ChatRoom, Game, emit, member_number, members_of, modify_room,
}
use studio_bondage_club.Chat.Roles.{has_member_in, is_int}
use studio_bondage_club.Chat.Names.{Settings}
use studio_bondage_club.Chat.Leave.{room_remove_locked, when_socket}
use studio_bondage_club.Chat.Characters.{as_member}
use studio_bondage_club.Chat.RoomUpdate.{update_room, with_props}
use studio_bondage_club.Chat.Sync.{
  chat_room_message, sync_room_properties, sync_reorder_players, source_dict, tag_character,
}
use studio_bondage_club.Chat.Moderation.{
  Action, action_of, act_on, act_absent, changing, with_accounts, swap_ids, act_message,
}

module _ (J : JsonLib) where
  open J use {Json, of_int, str?, int?, is_object}

  -- The first member with a number, and its index.
  find_number : ℤ → ℕ → List (Account J) → Option (ℕ × Account J)
  find_number n i [] = none
  find_number n i (a ∷ as') =
      let rest = find_number n (suc i) as' in
      if eq_ℤ (member_number J a) n then some (i, a) else rest

  act :
      (List Str → List Str)
      → Json
      → Account J
      → ChatRoom J
      → ℤ
      → Action
      → Option (ℕ × Account J)
      → M (Game J) (Unit {0})
  act perm json acc room n action none = act_absent J acc room n action
  act perm json acc room n action (some (i, target)) = act_on J perm json acc room n i target action

  -- "Swap" with two different member numbers; both must be in the room.
  swap :
      Account J
      → ChatRoom J
      → Option (ℕ × Account J)
      → Option (ℕ × Account J)
      → M (Game J) (Unit {0})
  swap acc room (some (i, a)) (some (j, b)) =
      changing J (with_accounts J (swap_ids a.id b.id)) room λ room'. do
        sync_reorder_players J room' (member_number J acc)
        dict ← source_dict J acc
        act_message J acc "ServerSwap" room' dict
  swap acc room none b = done
  swap acc room (some a) none = done

  different : Option ℤ → Option ℤ → Option (ℤ × ℤ)
  different (some t) (some d) = if eq_ℤ t d then none else some (t, d)
  different none d = none
  different (some t) none = none

  swap_request : Str → Json → Option (ℤ × ℤ)
  unfolding different
  swap_request action json =
      if str_eq action (codes "Swap")
      then different (field? J int? "TargetMemberNumber" json)
          (field? J int? "DestinationMemberNumber" json)
      else none

  swap_or_act :
      (List Str → List Str)
      → Json
      → Account J
      → ChatRoom J
      → Str
      → ℤ
      → Option (ℤ × ℤ)
      → M (Game J) (Unit {0})
  unfolding swap act find_number
  swap_or_act perm json acc room action n (some (t, d)) = do
    g ← get
    let members = members_of J g.accounts room.accounts
    swap acc room (find_number t 0 members) (find_number d 0 members)
  swap_or_act perm json acc room action n none = do
    g ← get
    act perm json acc room n (action_of action)
        (find_number n 0 (members_of J g.accounts room.accounts))

  -- Only "Swap", "MoveLeft" and "MoveRight" may target the admin.
  unfoldable pub may_target : Account J → Str → ℤ → Bool
  may_target acc action n =
      not (eq_ℤ (member_number J acc) n)
      || str_eq action (codes "Swap")
      || str_eq action (codes "MoveLeft")
      || str_eq action (codes "MoveRight")

  unfoldable pub administer :
      Settings
      → (ℤ → Str)
      → (List Str → List Str)
      → Json
      → ℤ
      → Str
      → Account J
      → ChatRoom J
      → M (Game J) (Unit {0})
  unfolding swap_or_act swap_request
  administer cfg show perm json n action acc room =
      if has_member_in J room.props.admin (member_number J acc) && may_target acc action n
      then if str_eq action (codes "Update")
        then update_room J cfg show json acc room
        else swap_or_act perm json acc room action n (swap_request action json)
      else done

  admin_if :
      Settings
      → (ℤ → Str)
      → (List Str → List Str)
      → Str
      → Json
      → Option ℤ
      → Option Str
      → M (Game J) (Unit {0})
  admin_if cfg show perm socket_id json (some n) (some action) =
      as_member J socket_id (administer cfg show perm json n action)
  admin_if cfg show perm socket_id json none a = done
  admin_if cfg show perm socket_id json (some n) none = done

  unfoldable pub chat_room_admin :
      Settings → (ℤ → Str) → (List Str → List Str) → Str → Json → M (Game J) (Unit {0})
  unfolding admin_if
  chat_room_admin cfg show perm socket_id json =
      if is_object json
      then admin_if cfg show perm socket_id json (field? J int? "MemberNumber" json)
          (field? J str? "Action" json)
      else done
