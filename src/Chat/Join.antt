-- ===== src/Chat/Join.antt =====
-- `chat_room_join` of chatroom_manager.cpp (server/gameserver/game).
pub mod Keeps
pub mod Guard
use studio_bondage_club.Prelude.{
  Bool, false, not, Option, none, some, List, [], ◌∷◌, ◌++◌, String, Str, codes, pos, leb_ℤ, length,
  find_if, if◌then◌else◌, M, ◌>>=◌, ◌>>◌, lift, get, modify, str_eq,
}
use studio_bondage_club.Json.{JsonLib, field?}
use studio_bondage_club.Chat.State.{
  Account, ChatRoom, Game, join_socket, socket_room, member_number, environment, account_for,
  modify_account, modify_room, in_room,
}
use studio_bondage_club.Chat.Roles.{has_member_in, account_has_any_role}
use studio_bondage_club.Chat.Sync.{sync_member_join, chat_room_message, source_dict}
use studio_bondage_club.Chat.Names.{upper_trim}
use studio_bondage_club.Chat.Leave.{room_remove_locked, when_socket}
use studio_bondage_club.Chat.Create.{reply}

module _ (J : JsonLib) where
  open J use {Json, null, of_str, str?, is_object}

  abbrev pub with_member : Account J → ChatRoom J → ChatRoom J
  with_member acc room = record room { accounts = room.accounts ++ acc.id ∷ [] }

  is_room : Str → Option Str → Bool
  is_room rid none = false
  is_room rid (some r) = str_eq r rid

  -- The tests that the room of the wanted name makes; `none` lets the account in, `some` is the
  -- refusal that it is sent.
  unfoldable pub refusal : Account J → ChatRoom J → Option String
  unfolding is_room
  refusal acc room =
      if leb_ℤ room.props.limit (pos (length room.accounts))
      then some "RoomFull"
      else if has_member_in J room.props.ban (member_number J acc)
      then some "RoomBanned"
      else if not (account_has_any_role J acc room room.props.access)
      then some "RoomLocked"
      else if is_room room.id acc.chat_room
      then some "AlreadyInRoom"
      else none

  -- The account moves from its room, if any, into the new one.
  unfoldable pub enter : Str → Account J → ChatRoom J → M (Game J) (Unit {0})
  enter socket_id acc room = do
    room_remove_locked J acc (codes "ServerLeave") []
    modify (modify_account J acc.id (in_room J (some room.id)))
    modify (modify_room J room.id (with_member acc))
    when_socket J acc (join_socket acc.id (socket_room J room))
    reply J socket_id "ChatRoomSearchResponse" "JoinedRoom"
    sync_member_join J (with_member acc room) (record acc { chat_room = some room.id })
    dict ← source_dict J acc
    chat_room_message J (with_member acc room) (member_number J acc) (codes "ServerEnter")
        (codes "Action") null dict

  decide : Str → Account J → ChatRoom J → Option String → M (Game J) (Unit {0})
  decide socket_id acc room none = enter socket_id acc room
  decide socket_id acc room (some why) = reply J socket_id "ChatRoomSearchResponse" why

  -- The loop over the rooms: the first of the wanted name decides.
  find_named : Str → List (ChatRoom J) → Option (ChatRoom J)
  find_named want rooms = find_if (λ r. str_eq (upper_trim r.props.name) want) rooms

  join_found : Str → Account J → Option (ChatRoom J) → M (Game J) (Unit {0})
  unfolding decide
  join_found socket_id acc none = reply J socket_id "ChatRoomSearchResponse" "CannotFindRoom"
  join_found socket_id acc (some room) = do
    environ ← lift (environment J acc)
    if str_eq environ room.props.environment
        then decide socket_id acc room (refusal acc room)
        else reply J socket_id "ChatRoomSearchResponse" "CannotFindRoom"

  join_for : Str → Str → Option (Account J) → M (Game J) (Unit {0})
  unfolding join_found find_named
  join_for socket_id name none = reply J socket_id "ChatRoomSearchResponse" "AccountError"
  join_for socket_id name (some acc) = do
    g ← get
    join_found socket_id acc (find_named (upper_trim name) g.rooms)

  -- A request without a name, or with an empty one, is invalid.
  named : Option Str → Option Str
  named none = none
  named (some []) = none
  named (some (c ∷ s)) = some (c ∷ s)

  join_if_valid : Str → Option Str → M (Game J) (Unit {0})
  unfolding join_for
  join_if_valid socket_id none = reply J socket_id "ChatRoomSearchResponse" "InvalidRoomData"
  join_if_valid socket_id (some name) = do
    g ← get
    join_for socket_id name (account_for J socket_id g)

  unfoldable pub chat_room_join : Str → Json → M (Game J) (Unit {0})
  unfolding join_if_valid named
  chat_room_join socket_id json =
      join_if_valid socket_id (if is_object json then named (field? J str? "Name" json) else none)
