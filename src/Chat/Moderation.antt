-- ===== src/Chat/Moderation.antt =====
-- The actions of an administrator on a member of the room, and on a number that is not in it: the
-- end of `chat_room_admin` in chatroom_manager.cpp (server/gameserver/game). The permutation that
-- `std::shuffle` draws is an argument.
pub mod Keeps
use studio_bondage_club.Prelude.{
  ℕ, zero, suc, ◌+◌, ◌-◌, Bool, true, false, not, ◌&&◌, ◌||◌, Option, none, some, List, [], ◌∷◌,
  ◌++◌, String, Str, codes, ℤ, ltb, eq_ℤ, length, any, reject, map, if◌then◌else◌, M, ◌>>=◌, ◌>>◌,
  pure, done, lift, get, modify, str_eq, ◌==◌,
}
use studio_bondage_club.Json.{JsonLib, field?, value}
use studio_bondage_club.Chat.State.{
  Account, RoomData, ChatRoom, Game, emit, member_number, members_of, modify_room,
}
use studio_bondage_club.Chat.Roles.{has_member_in, is_int}
use studio_bondage_club.Chat.Names.{Settings}
use studio_bondage_club.Chat.Leave.{room_remove_locked, when_socket}
use studio_bondage_club.Chat.Characters.{as_member}
use studio_bondage_club.Chat.RoomUpdate.{update_room, with_props}
use studio_bondage_club.Chat.Sync.{
  chat_room_message, sync_room_properties, sync_reorder_players, source_dict, tag_character,
}

-- `std::swap(members[i], members[i + 1])`.
unfoldable pub swap_next {ℓ} : {A : Type ℓ} → ℕ → List A → List A
swap_next zero (x ∷ y ∷ xs) = y ∷ x ∷ xs
swap_next (suc i) (x ∷ xs) = x ∷ swap_next i xs
swap_next zero [] = []
swap_next zero (x ∷ []) = x ∷ []
swap_next (suc i) [] = []

-- `std::iter_swap` of the members with two ids.
unfoldable pub swap_ids : Str → Str → List Str → List Str
swap_ids a b [] = []
swap_ids a b (x ∷ xs) = (if str_eq x a then b else if str_eq x b then a else x) ∷ swap_ids a b xs

-- What the request asks for, besides "Update".
pub data Action : Type 0 where
  ban kick move_left move_right shuffle promote demote whitelist unwhitelist unban other : Action

abbrev pub action_of : Str → Action
action_of s =
    if str_eq s (codes "Ban")
    then ban
    else if str_eq s (codes "Kick")
    then kick
    else if str_eq s (codes "MoveLeft")
    then move_left
    else if str_eq s (codes "MoveRight")
    then move_right
    else if str_eq s (codes "Shuffle")
    then shuffle
    else if str_eq s (codes "Promote")
    then promote
    else if str_eq s (codes "Demote")
    then demote
    else if str_eq s (codes "Whitelist")
    then whitelist
    else if str_eq s (codes "Unwhitelist")
    then unwhitelist
    else if str_eq s (codes "Unban")
    then unban
    else other

module _ (J : JsonLib) where
  open J use {Json, null, of_str, of_int, of_arr, str?, int?, bool?, is_object}

  -- `std::remove(list, json(n))`.
  unfoldable pub remove_number : ℤ → List Json → List Json
  remove_number n entries = reject (λ e. J.equal e (of_int n)) entries

  abbrev pub with_ban : (List Json → List Json) → ChatRoom J → ChatRoom J
  with_ban f room = with_props J (λ p. record p { ban = f p.ban }) room

  abbrev pub with_admin : (List Json → List Json) → ChatRoom J → ChatRoom J
  with_admin f room = with_props J (λ p. record p { admin = f p.admin }) room

  abbrev pub with_whitelist : (List Json → List Json) → ChatRoom J → ChatRoom J
  with_whitelist f room = with_props J (λ p. record p { whitelist = f p.whitelist }) room

  abbrev pub with_accounts : (List Str → List Str) → ChatRoom J → ChatRoom J
  with_accounts f room = record room { accounts = f room.accounts }

  abbrev pushed : ℤ → List Json → List Json
  pushed n entries = entries ++ of_int n ∷ []

  -- The room is changed in place, and `k` goes on with it.
  abbrev pub changing :
      (ChatRoom J → ChatRoom J)
      → ChatRoom J
      → (ChatRoom J → M (Game J) (Unit {0}))
      → M (Game J) (Unit {0})
  changing f room k = do modify (modify_room J room.id f); k (f room)

  source_and_target : Account J → Account J → M (Game J) (List Json)
  source_and_target acc target = do
    s ← tag_character J "SourceCharacter" acc
    t ← tag_character J "TargetCharacterName" target
    pure (s ∷ t ∷ [])

  target_and_source : Account J → Account J → M (Game J) Json
  target_and_source acc target = do
    t ← tag_character J "TargetCharacterName" target
    s ← tag_character J "SourceCharacter" acc
    pure (of_arr (t ∷ s ∷ []))

  abbrev pub act_message : Account J → String → ChatRoom J → Json → M (Game J) (Unit {0})
  act_message acc text room dict =
      chat_room_message J room (member_number J acc) (codes text) (codes "Action") null dict

  -- A change of the room's lists, told to its members.
  announce : Account J → Account J → String → ChatRoom J → M (Game J) (Unit {0})
  unfolding target_and_source
  announce acc target text room = do
    dict ← target_and_source acc target
    act_message acc text room dict
    sync_room_properties J room (member_number J acc)

  -- `data.value("Publish", false)` is read after the members were moved.
  moved : Json → Account J → Account J → String → ChatRoom J → M (Game J) (Unit {0})
  unfolding target_and_source
  moved json acc target text room = do
    dict ← target_and_source acc target
    publish ← lift (value J bool? "Publish" false json)
    (if publish then act_message acc text room dict else done)
    sync_reorder_players J room (member_number J acc)

  -- The actions on a member that is in the room, at its index.
  unfoldable pub act_on :
      (List Str → List Str)
      → Json
      → Account J
      → ChatRoom J
      → ℤ
      → ℕ
      → Account J
      → Action
      → M (Game J) (Unit {0})
  unfolding source_and_target announce moved
  act_on perm json acc room n i target ban = changing (with_ban (pushed n)) room λ room'. do
    when_socket J target (emit target.id "ChatRoomSearchResponse" (of_str (codes "RoomBanned")))
    dict ← source_and_target acc target
    room_remove_locked J target (codes "ServerBan") dict
    sync_room_properties J room' (member_number J acc)
  act_on perm json acc room n i target kick = do
    when_socket J target (emit target.id "ChatRoomSearchResponse" (of_str (codes "RoomKicked")))
    dict ← source_and_target acc target
    room_remove_locked J target (codes "ServerKick") dict
  act_on perm json acc room n i target move_left =
      if i == 0
      then done
      else changing (with_accounts (swap_next (i - 1))) room
          (moved json acc target "ServerMoveLeft")
  act_on perm json acc room n i target move_right =
      if ltb (i + 1) (length room.accounts)
      then changing (with_accounts (swap_next i)) room (moved json acc target "ServerMoveRight")
      else done
  act_on perm json acc room n i target shuffle = changing (with_accounts perm) room λ room'. do
    dict ← source_dict J acc
    act_message acc "ServerShuffle" room' dict
    sync_reorder_players J room' (member_number J acc)
  act_on perm json acc room n i target promote =
      if has_member_in J room.props.admin n
      then done
      else changing (with_admin (pushed n)) room (announce acc target "ServerPromoteAdmin")
  act_on perm json acc room n i target demote =
      if has_member_in J room.props.admin n
      then changing (with_admin (remove_number n)) room (announce acc target "ServerDemoteAdmin")
      else done
  act_on perm json acc room n i target whitelist =
      if has_member_in J room.props.whitelist n
      then done
      else changing (with_whitelist (pushed n)) room (announce acc target "ServerRoomWhitelist")
  act_on perm json acc room n i target unwhitelist =
      if has_member_in J room.props.whitelist n
      then changing (with_whitelist (remove_number n)) room
          (announce acc target "ServerRoomUnwhitelist")
      else done
  act_on perm json acc room n i target unban = done
  act_on perm json acc room n i target other = done

  -- The actions on a number that is not in the room.
  unfoldable pub act_absent : Account J → ChatRoom J → ℤ → Action → M (Game J) (Unit {0})
  act_absent acc room n ban =
      if has_member_in J room.props.ban n
      then done
      else changing (with_ban (pushed n)) room
          (λ room'. sync_room_properties J room' (member_number J acc))
  act_absent acc room n unban =
      if has_member_in J room.props.ban n
      then changing (with_ban (remove_number n)) room
          (λ room'. sync_room_properties J room' (member_number J acc))
      else done
  act_absent acc room n whitelist =
      if has_member_in J room.props.whitelist n
      then done
      else changing (with_whitelist (pushed n)) room
          (λ room'. sync_room_properties J room' (member_number J acc))
  act_absent acc room n unwhitelist =
      if has_member_in J room.props.whitelist n
      then changing (with_whitelist (remove_number n)) room
          (λ room'. sync_room_properties J room' (member_number J acc))
      else done
  act_absent acc room n _ = done
