-- ===== src/Chat/Leave.antt =====
-- How an account leaves a room: `room_remove_locked`, `remove_from_room` and `chat_room_leave` of
-- chatroom_manager.cpp (server/gameserver/game).
pub mod Keeps
use studio_bondage_club.Prelude.{
  Bool, true, false, Option, none, some, List, [], ◌∷◌, Str, codes, reject, if◌then◌else◌, is_nil,
  M, ◌>>=◌, ◌>>◌, pure, done, lift, get, modify, str_eq,
}
use studio_bondage_club.Json.{JsonLib}
use studio_bondage_club.Chat.State.{
  Account, ChatRoom, Game, Effect, leave_socket, socket_room, member_number, account_for, room_of,
  modify_account, modify_room, in_room,
}
use studio_bondage_club.Chat.Sync.{emits, sync_member_leave, chat_room_message, source_dict}

module _ (J : JsonLib) where
  open J use {Json, null, of_str, of_int, of_arr, str?, int?, bool?, arr?, member?, is_object}

  -- A room object whose members are all gone is taken out of `GameState::rooms`.
  abbrev pub drop_room : Str → Game J → Game J
  drop_room rid g = record g { rooms = reject (λ r. str_eq r.id rid) g.rooms }

  -- `if (!dictionary.is_array() || dictionary.empty())`.
  dictionary_or : List Json → Account J → M (Game J) Json
  dictionary_or [] acc = source_dict J acc
  dictionary_or (d ∷ ds) acc = pure (of_arr (d ∷ ds))

  unfoldable pub announce_leave : ChatRoom J → Account J → Str → List Json → M (Game J) (Unit {0})
  unfolding dictionary_or
  announce_leave room acc reason dictionary = do
    dict ← dictionary_or dictionary acc
    chat_room_message J room (member_number J acc) reason (codes "Action") null dict
    sync_member_leave J room (member_number J acc)
    modify (modify_account J acc.id (in_room J none))

  unfoldable pub without : Account J → ChatRoom J → ChatRoom J
  without acc room = record room { accounts = reject (str_eq acc.id) room.accounts }

  abbrev pub when_socket : Account J → Effect J → M (Game J) (Unit {0})
  when_socket acc e = if acc.socket then emits J e else done

  -- The room without the account: it is closed if nobody is left, else the others are told.
  unfoldable pub settle : Account J → Str → List Json → ChatRoom J → M (Game J) (Unit {0})
  settle acc reason dictionary room =
      if is_nil (without acc room).accounts
      then (do modify (modify_account J acc.id (in_room J none)); modify (drop_room room.id))
      else announce_leave (without acc room) acc reason dictionary

  unfoldable pub vacate : Account J → Str → List Json → ChatRoom J → M (Game J) (Unit {0})
  vacate acc reason dictionary room = do
    modify (modify_room J room.id (without acc))
    settle acc reason dictionary room

  -- `room_remove_locked` once the room of the account is at hand.
  unfoldable pub remove_from : Account J → Str → List Json → ChatRoom J → M (Game J) (Unit {0})
  remove_from acc reason dictionary room = do
    when_socket acc (leave_socket acc.id (socket_room J room))
    vacate acc reason dictionary room

  -- A pointer to a room that is not there would be dangling; it is read as an exception.
  remove_found : Account J → Str → List Json → Option (ChatRoom J) → M (Game J) (Unit {0})
  remove_found acc reason dictionary none = lift none
  remove_found acc reason dictionary (some room) = remove_from acc reason dictionary room

  remove_pointer : Account J → Str → List Json → Option Str → M (Game J) (Unit {0})
  unfolding remove_found
  remove_pointer acc reason dictionary none = done
  remove_pointer acc reason dictionary (some rid) = do
    g ← get
    remove_found acc reason dictionary (room_of J (some rid) g)

  unfoldable pub room_remove_locked : Account J → Str → List Json → M (Game J) (Unit {0})
  unfolding remove_pointer remove_found
  room_remove_locked acc reason dictionary = remove_pointer acc reason dictionary acc.chat_room

  unfoldable pub removed : Str → Option (Account J) → M (Game J) (Unit {0})
  removed reason none = done
  removed reason (some acc) = room_remove_locked acc reason []

  -- `remove_from_room`: the account's connection is gone.
  unfoldable pub remove_from_room : Account J → M (Game J) (Unit {0})
  remove_from_room acc = room_remove_locked acc (codes "ServerDisconnect") []

  unfoldable pub chat_room_leave : Str → M (Game J) (Unit {0})
  chat_room_leave socket_id = do g ← get; removed (codes "ServerLeave") (account_for J socket_id g)
