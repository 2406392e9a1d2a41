-- ===== src/Chat/Expressions.antt =====
-- The handlers of chatroom_manager.cpp (server/gameserver/game) that pass a member's expression,
-- map data, pose, arousal and item changes on to its room, `chat_room_allow_item`, and
-- `sync_character`, which the ownership handlers call.
pub mod Keeps
pub mod Shown
use studio_bondage_club.Prelude.{
  ℕ, Bool, true, false, not, ◌&&◌, ◌||◌, Option, none, some, List, [], ◌∷◌, ◌++◌, String, Str,
  codes, ℤ, leb, eq_ℤ, length, any, all, find_if, reverse, if◌then◌else◌, M, ◌>>=◌, ◌>>◌, pure,
  done, lift, get, modify, str_eq, is_empty,
}
use studio_bondage_club.Json.{JsonLib, field?}
use studio_bondage_club.Chat.State.{
  Account, RoomData, ChatRoom, Game, emit, emit_to_room, socket_room, member_number, account_for,
  room_of, members_of, modify_account,
}
use studio_bondage_club.Chat.Roles.{has_member_in, get_allow_item}
use studio_bondage_club.Chat.Sync.{emits, by_number, char_shared_data, copy_all, optional}
use studio_bondage_club.Chat.Characters.{as_member, set_field, or_null}

module _ (J : JsonLib) where
  open J use {
    Json, null, of_str, of_int, of_bool, of_arr, of_obj, str?, int?, arr?, member?, put, is_object,
  }

  abbrev to_others : Account J → ChatRoom J → String → Json → M (Game J) (Unit {0})
  to_others acc room event json =
      emits J (emit_to_room (socket_room J room) event json (some acc.id))

  -- Runs for an account that is logged in, whether or not it is in a room.
  with_account : (Account J → M (Game J) (Unit {0})) → Option (Account J) → M (Game J) (Unit {0})
  with_account k none = done
  with_account k (some acc) = k acc

  abbrev as_account : Str → (Account J → M (Game J) (Unit {0})) → M (Game J) (Unit {0})
  as_account socket_id k = do g ← get; with_account k (account_for J socket_id g)

  in_room_do : (ChatRoom J → M (Game J) (Unit {0})) → Option (ChatRoom J) → M (Game J) (Unit {0})
  in_room_do k none = done
  in_room_do k (some room) = k room

  abbrev where_room : Account J → (ChatRoom J → M (Game J) (Unit {0})) → M (Game J) (Unit {0})
  where_room acc k = do g ← get; in_room_do k (room_of J acc.chat_room g)

  -- `Appearance` is stored if it is an array of five entries or more.
  store_appearance : Str → Json → Option (List Json) → M (Game J) (Unit {0})
  store_appearance i json none = done
  store_appearance i json (some xs) =
      if leb 5 (length xs)
      then modify
          (modify_account J i (set_field J "Appearance" (or_null J (member? "Appearance" json))))
      else done

  unfoldable pub express : Json → Account J → M (Game J) (Unit {0})
  unfolding store_appearance in_room_do
  express json acc = do
    store_appearance acc.id json (field? J arr? "Appearance" json)
    where_room acc (λ room. to_others acc room "ChatRoomSyncExpression" (
        of_obj (
          ("MemberNumber", of_int (member_number J acc))
          ∷ ("Group", or_null J (member? "Group" json))
          ∷ optional J "Name" (member? "Name" json))))

  express_if : Str → Json → Option Str → M (Game J) (Unit {0})
  unfolding with_account
  express_if socket_id json none = done
  express_if socket_id json (some group) =
      if is_empty group then done else as_account socket_id (express json)

  unfoldable pub chat_room_character_expression_update : Str → Json → M (Game J) (Unit {0})
  unfolding express_if
  chat_room_character_expression_update socket_id json =
      express_if socket_id json (if is_object json then field? J str? "Group" json else none)

  unfoldable pub chat_room_character_map_data_update : Str → Json → M (Game J) (Unit {0})
  chat_room_character_map_data_update socket_id json =
      if is_object json
      then as_member J socket_id (λ acc room. do
        modify (modify_account J acc.id (set_field J "MapData" json))
        to_others acc room "ChatRoomSyncMapData"
            (of_obj (("MemberNumber", of_int (member_number J acc)) ∷ ("MapData", json) ∷ [])))
      else done

  keep_strings : List Json → List Json
  keep_strings [] = []
  keep_strings (p ∷ ps) = elim (str? p) [ none ↦ keep_strings ps | some s ↦ p ∷ keep_strings ps ]

  -- A pose is an array, of which the texts are kept, or a text.
  pose_of : Option (List Json) → Option Str → List Json
  unfolding keep_strings
  pose_of (some ps) s = keep_strings ps
  pose_of none (some s) = of_str s ∷ []
  pose_of none none = []

  unfoldable pub chat_room_character_pose_update : Str → Json → M (Game J) (Unit {0})
  unfolding with_account in_room_do pose_of
  chat_room_character_pose_update socket_id json =
      let pose = of_arr (pose_of (field? J arr? "Pose" json) (field? J str? "Pose" json)) in
      if is_object json
      then as_account socket_id (λ acc. do
        modify (modify_account J acc.id (set_field J "ActivePose" pose))
        where_room acc (λ room.
            to_others acc room "ChatRoomSyncPose"
              (of_obj (("MemberNumber", of_int (member_number J acc)) ∷ ("Pose", pose) ∷ []))))
      else done

  abbrev arousal_keys : List String
  arousal_keys = "OrgasmTimer" ∷ "OrgasmCount" ∷ "Progress" ∷ "ProgressTimer" ∷ []

  abbrev object_member : String → Json → Option Json
  object_member key json = elim (member? key json) [
    | none ↦ none
    | some v ↦ if is_object v then some v else none
  ]

  arouse : Json → Account J → Option Json → M (Game J) (Unit {0})
  unfolding in_room_do
  arouse json acc none = done
  arouse json acc (some settings) = do
    modify (
        modify_account J acc.id
          (set_field J "ArousalSettings" (copy_all J settings json arousal_keys)))
    where_room acc (λ room. to_others acc room "ChatRoomSyncArousal" (
        copy_all J (of_obj (("MemberNumber", of_int (member_number J acc)) ∷ [])) json
          arousal_keys))

  unfoldable pub chat_room_character_arousal_update : Str → Json → M (Game J) (Unit {0})
  unfolding with_account arouse
  chat_room_character_arousal_update socket_id json =
      if is_object json
      then as_account socket_id
          (λ acc. arouse json acc (object_member "ArousalSettings" acc.fields))
      else done

  -- The loop over the members: a member with the target's number must allow the change.
  all_allow : Account J → ℤ → List (Account J) → Option Bool
  all_allow acc target [] = some true
  all_allow acc target (a ∷ as') =
      if eq_ℤ (member_number J a) target
      then elim (get_allow_item J acc a) [
        | none ↦ none
        | some false ↦ some false
        | some true ↦ all_allow acc target as'
      ]
      else all_allow acc target as'

  unfoldable pub update_item : Json → ℤ → Account J → ChatRoom J → M (Game J) (Unit {0})
  unfolding all_allow
  update_item json target acc room =
      if has_member_in J room.props.ban (member_number J acc) then done else (do
        g ← get
        ok ← lift (all_allow acc target (members_of J g.accounts room.accounts))
        if ok
            then to_others acc room "ChatRoomSyncItem"
                (of_obj (("Source", of_int (member_number J acc)) ∷ ("Item", json) ∷ []))
            else done)

  item_if : Str → Json → Option ℤ → Option Str → M (Game J) (Unit {0})
  item_if socket_id json (some target) (some group) =
      as_member J socket_id (update_item json target)
  item_if socket_id json none g = done
  item_if socket_id json (some t) none = done

  unfoldable pub chat_room_character_item_update : Str → Json → M (Game J) (Unit {0})
  unfolding item_if
  chat_room_character_item_update socket_id json =
      if is_object json
      then item_if socket_id json (field? J int? "Target" json) (field? J str? "Group" json)
      else done

  tell_allowed : Str → ℤ → Account J → Option (Account J) → M (Game J) (Unit {0})
  tell_allowed socket_id target acc none = done
  tell_allowed socket_id target acc (some a) = do
    ok ← lift (get_allow_item J acc a)
    emits J (
        emit socket_id "ChatRoomAllowItem"
          (of_obj (("MemberNumber", of_int target) ∷ ("AllowItem", of_bool ok) ∷ [])))

  allow_if : Str → Option ℤ → M (Game J) (Unit {0})
  unfolding tell_allowed
  allow_if socket_id none = done
  allow_if socket_id (some target) = as_member J socket_id (λ acc room. do
    g ← get
    tell_allowed socket_id target acc (by_number J target (members_of J g.accounts room.accounts)))

  unfoldable pub chat_room_allow_item : Str → Json → M (Game J) (Unit {0})
  unfolding allow_if
  chat_room_allow_item socket_id json =
      allow_if socket_id (if is_object json then field? J int? "MemberNumber" json else none)

  show_character :
      ChatRoom J
      → ℤ
      → List (Account J)
      → Option (Account J)
      → Option (Account J)
      → M (Game J) (Unit {0})
  show_character room source members (some target) (some from) = do
    c ← char_shared_data J target members
    emits J (
        emit_to_room (socket_room J room) "ChatRoomSyncCharacter"
          (of_obj (("SourceMemberNumber", of_int source) ∷ ("Character", c) ∷ [])) (some from.id))
  show_character room source members none f = done
  show_character room source members (some t) none = done

  -- The loop keeps the last member with each of the two numbers.
  unfoldable pub sync_character : ChatRoom J → ℤ → ℤ → M (Game J) (Unit {0})
  unfolding show_character
  sync_character room source target = do
    g ← get
    let members = members_of J g.accounts room.accounts
    show_character room source members (by_number J target (reverse members))
        (by_number J source (reverse members))
