-- ===== src/Chat/Characters.antt =====
-- The handlers of chatroom_manager.cpp (server/gameserver/game) by which a member talks and shows
-- changes of its character: chat, game, character, expression, map data, pose, arousal, item and
-- allow-item messages, and `sync_character`. The drawn random number is an argument.
pub mod Keeps
pub mod Member
use studio_bondage_club.Prelude.{
  ℕ, Bool, true, false, not, ◌&&◌, ◌||◌, Option, none, some, List, [], ◌∷◌, ◌++◌, String, Str,
  codes, ℤ, leb, eq_ℤ, length, any, find_if, reverse, if◌then◌else◌, M, ◌>>=◌, ◌>>◌, pure, done,
  lift, get, modify, str_eq, is_empty,
}
use studio_bondage_club.Json.{JsonLib, field?}
use studio_bondage_club.Chat.State.{
  Account, RoomData, ChatRoom, Game, emit, emit_to_room, socket_room, member_number, account_for,
  room_of, members_of, modify_account,
}
use studio_bondage_club.Chat.Roles.{has_member_in, get_allow_item}
use studio_bondage_club.Chat.Names.{trim}
use studio_bondage_club.Chat.Sync.{
  emits, by_number, char_shared_data, chat_room_message, copy_all, sync_single,
}

-- The message types that `chat_room_chat` lets through.
abbrev pub kinds : List Str
kinds =
    codes "Chat"
    ∷ codes "Action"
    ∷ codes "Activity"
    ∷ codes "Emote"
    ∷ codes "Whisper"
    ∷ codes "Hidden"
    ∷ codes "Status"
    ∷ []

module _ (J : JsonLib) where
  open J use {
    Json, null, of_str, of_int, of_bool, of_arr, of_obj, str?, int?, arr?, member?, put, is_object,
  }

  in_room_of :
      (Account J → ChatRoom J → M (Game J) (Unit {0}))
      → Account J
      → Option (ChatRoom J)
      → M (Game J) (Unit {0})
  in_room_of k acc none = done
  in_room_of k acc (some room) = k acc room

  in_room_as :
      (Account J → ChatRoom J → M (Game J) (Unit {0})) → Option (Account J) → M (Game J) (Unit {0})
  unfolding in_room_of
  in_room_as k none = done
  in_room_as k (some acc) = do g ← get; in_room_of k acc (room_of J acc.chat_room g)

  -- `if (!acc || !acc->chat_room) return;` and what follows it.
  unfoldable pub as_member :
      Str → (Account J → ChatRoom J → M (Game J) (Unit {0})) → M (Game J) (Unit {0})
  unfolding in_room_as
  as_member socket_id k = do g ← get; in_room_as k (account_for J socket_id g)

  abbrev pub or_null : Option Json → Json
  or_null none = null
  or_null (some v) = v

  -- The content and the type of a valid chat message.
  chat_valid : Option Str → Option Str → Option (Str × Str)
  chat_valid (some content) (some kind) =
      if any (str_eq kind) kinds && leb (length content) 2000 then some (content, kind) else none
  chat_valid none k = none
  chat_valid (some c) none = none

  say : Str → Json → Option (Str × Str) → M (Game J) (Unit {0})
  say socket_id json none = done
  say socket_id json (some (content, kind)) = as_member socket_id λ acc room.
      chat_room_message J room (member_number J acc) (trim content) kind
        (or_null (member? "Target" json)) (or_null (member? "Dictionary" json))

  unfoldable pub chat_room_chat : Str → Json → M (Game J) (Unit {0})
  unfolding say chat_valid
  chat_room_chat socket_id json =
      if is_object json
      then say socket_id json
          (chat_valid (field? J str? "Content" json) (field? J str? "Type" json))
      else done

  unfoldable pub chat_room_game : Json → Str → Json → M (Game J) (Unit {0})
  chat_room_game rng socket_id json =
      if is_object json
      then as_member socket_id (λ acc room. emits J (
          emit_to_room (socket_room J room) "ChatRoomGameResponse"
            (of_obj (("Sender", of_int (member_number J acc)) ∷ ("Data", json) ∷ ("RNG", rng) ∷ []))
            none))
      else done

  abbrev pub set_field : String → Json → Account J → Account J
  set_field key v acc = record acc { fields = put key v acc.fields }

  set_optional : String → Option Json → Account J → Account J
  set_optional key none acc = acc
  set_optional key (some v) acc = set_field key v acc

  -- What `chat_room_character_update` writes into the account.
  unfoldable pub dressed : Json → Option Json → Account J → Account J
  unfolding set_optional
  dressed appearance pose acc =
      set_optional "ActivePose" pose
        (set_field "Appearance" appearance (record acc { delayed_appearance = some appearance }))

  dress_if : Account J → Account J → Json → Option Json → Bool → M (Game J) (Unit {0})
  dress_if acc target appearance pose false = done
  dress_if acc target appearance pose true = do
    modify (modify_account J target.id (dressed appearance pose))
    sync_single J (dressed appearance pose target) (member_number J acc)

  dress : Account J → Json → Option Json → Option (Account J) → M (Game J) (Unit {0})
  unfolding dress_if
  dress acc appearance pose none = done
  dress acc appearance pose (some target) = do
    ok ← lift (get_allow_item J acc target)
    dress_if acc target appearance pose ok

  unfoldable pub update_character :
      Str → Json → Option Json → Account J → ChatRoom J → M (Game J) (Unit {0})
  unfolding dress
  update_character target_id appearance pose acc room =
      if has_member_in J room.props.ban (member_number J acc) then done else (do
        g ← get
        dress acc appearance pose
            (find_if (λ a. str_eq a.id target_id) (members_of J g.accounts room.accounts)))

  update_valid : Str → Json → Option Str → Option (List Json) → M (Game J) (Unit {0})
  update_valid socket_id json (some target_id) (some appearance) =
      if is_empty target_id
      then done
      else as_member socket_id (
          update_character target_id (or_null (member? "Appearance" json))
            (member? "ActivePose" json))
  update_valid socket_id json none a = done
  update_valid socket_id json (some t) none = done

  unfoldable pub chat_room_character_update : Str → Json → M (Game J) (Unit {0})
  unfolding update_valid
  chat_room_character_update socket_id json =
      if is_object json
      then update_valid socket_id json (field? J str? "ID" json) (field? J arr? "Appearance" json)
      else done
