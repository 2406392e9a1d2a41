-- ===== src/Chat/RoomUpdate.antt =====
-- The "Update" action of `chat_room_admin` (chatroom_manager.cpp, server/gameserver/game). The
-- decimal text of a number is an argument.
pub mod Keeps
use studio_bondage_club.Prelude.{
  ℕ, Bool, true, false, not, ◌&&◌, ◌||◌, Option, none, some, List, [], ◌∷◌, ◌++◌, String, Str,
  codes, ℤ, pos, leb, ltb_ℤ, length, any, if◌then◌else◌, M, ◌>>=◌, ◌>>◌, pure, done, lift, get,
  modify, str_eq, is_empty,
}
use studio_bondage_club.Json.{JsonLib, field?}
use studio_bondage_club.Chat.State.{
  Account, RoomData, ChatRoom, Game, emit, member_number, modify_room,
}
use studio_bondage_club.Chat.Roles.{has_str_in}
use studio_bondage_club.Chat.Names.{Settings, trim, upper_trim, name_matches, room_limit}
use studio_bondage_club.Chat.Create.{reply, or_else}
use studio_bondage_club.Chat.Sync.{
  chat_room_message, sync_room_properties, tag_character, role_list_restrictive,
}

module _ (J : JsonLib) where
  open J use {Json, null, of_str, of_arr, of_obj, str?, int?, bool?, arr?, member?, is_object}

  abbrev pub with_props : (RoomData J → RoomData J) → ChatRoom J → ChatRoom J
  with_props f room = record room { props = f room.props }

  -- The visibility and the privacy that an update sets; `none` leaves them.
  unfoldable pub new_privacy : Option (List Json) → Option Bool → Option (List Json × Bool)
  new_privacy (some v) p = some (v, not (has_str_in J v (codes "All")))
  new_privacy none (some true) = some (of_str (codes "Admin") ∷ [], true)
  new_privacy none (some false) = some (of_str (codes "All") ∷ [], false)
  new_privacy none none = none

  unfoldable pub new_lock : Option (List Json) → Option Bool → Option (List Json × Bool)
  new_lock (some a) l = some (a, not (has_str_in J a (codes "All")))
  new_lock none (some true) = some (of_str (codes "Admin") ∷ of_str (codes "Whitelist") ∷ [], true)
  new_lock none (some false) = some (of_str (codes "All") ∷ [], false)
  new_lock none none = none

  keep_or : Option Json → Option Json → Option Json
  keep_or old none = old
  keep_or old (some v) = some v

  -- `Game` is kept if it is a text of at most 100 bytes.
  short_text : Option Str → Str
  short_text none = []
  short_text (some s) = if leb (length s) 100 then s else []

  pub record UpdateRequest : Type 0 where
    pub name : Str
    pub description : Str
    pub background : Str
    pub admin : List Json
    pub ban : List Json

  checked : Settings → Str → Str → Str → List Json → List Json → Option UpdateRequest
  checked cfg name description background admin ban =
      if not (name_matches name)
        || ltb_ℤ cfg.description_max_len (pos (length description))
        || not (leb (length background) 100)
      then none
      else some (record {
        name = name;
        description = description;
        background = background;
        admin = admin;
        ban = ban;
      })

  -- The validation of the room object; `none` is the answer "InvalidRoomData".
  unfoldable pub update_request : Settings → Json → Option UpdateRequest
  unfolding checked
  update_request cfg r = elim (field? J str? "Name" r) [
    | none ↦ none
    | some name ↦ elim (field? J str? "Description" r) [
      | none ↦ none
      | some description ↦ elim (field? J str? "Background" r) [
        | none ↦ none
        | some background ↦ elim (field? J arr? "Admin" r) [
          | none ↦ none
          | some admin ↦ elim (field? J arr? "Ban" r) [
            | none ↦ none
            | some ban ↦ checked cfg (trim name) description background admin ban
          ]
        ]
      ]
    ]
  ]

  -- The assignments to `room.data`.
  unfoldable pub updated : Settings → Json → UpdateRequest → RoomData J → RoomData J
  unfolding keep_or short_text
  updated cfg r u old = record old {
    name = u.name;
    language = keep_or old.language (member? "Language" r);
    background = u.background;
    custom = keep_or old.custom (member? "Custom" r);
    description = u.description;
    block_category = or_else [] (field? J arr? "BlockCategory" r);
    ban = u.ban;
    whitelist = or_else old.whitelist (field? J arr? "Whitelist" r);
    admin = u.admin;
    game = short_text (field? J str? "Game" r);
    limit = room_limit cfg (field? J int? "Limit" r);
    visibility = visible.0;
    priv = visible.1;
    access = lock.0;
    locked = lock.1;
    map_data = keep_or old.map_data (member? "MapData" r);
  }
    where
      visible : List Json × Bool
      visible =
          or_else (old.visibility, old.priv)
            (new_privacy (field? J arr? "Visibility" r) (field? J bool? "Private" r))

      lock : List Json × Bool
      lock =
          or_else (old.access, old.locked)
            (new_lock (field? J arr? "Access" r) (field? J bool? "Locked" r))

  -- Another room has the new name, as the loop tests it.
  unfoldable pub clashes : ChatRoom J → Str → List (ChatRoom J) → Bool
  clashes room name rooms =
      any
        (λ other.
          not (str_eq (upper_trim room.props.name) name)
          && not (str_eq other.id room.id)
          && str_eq (upper_trim other.props.name) (upper_trim name))
        rooms

  abbrev look_up : String → String → Json
  look_up tag text =
      of_obj (("Tag", of_str (codes tag)) ∷ ("TextToLookUp", of_str (codes text)) ∷ [])

  abbrev tell : String → Str → Json
  tell tag text = of_obj (("Tag", of_str (codes tag)) ∷ ("Text", of_str text) ∷ [])

  unfoldable pub announce_update : (ℤ → Str) → Account J → ChatRoom J → M (Game J) (Unit {0})
  announce_update show acc room = do
    reply J acc.id "ChatRoomUpdateResponse" "Updated"
    source ← tag_character J "SourceCharacter" acc
    chat_room_message J room (member_number J acc) (codes "ServerUpdateRoom") (codes "Action") null
        (of_arr (
          source
          ∷ tell "ChatRoomName" room.props.name
          ∷ tell "ChatRoomLimit" (show room.props.limit)
          ∷ look_up "ChatRoomPrivacy"
              (if role_list_restrictive J room.props.visibility then "Private" else "Public")
          ∷ look_up "ChatRoomLocked"
              (if role_list_restrictive J room.props.access then "Locked" else "Unlocked")
          ∷ []))
    sync_room_properties J room (member_number J acc)

  update_if :
      Settings
      → (ℤ → Str)
      → Json
      → Account J
      → ChatRoom J
      → Option UpdateRequest
      → M (Game J) (Unit {0})
  update_if cfg show r acc room none = reply J acc.id "ChatRoomUpdateResponse" "InvalidRoomData"
  update_if cfg show r acc room (some u) = do
    g ← get
    if clashes room u.name g.rooms
        then reply J acc.id "ChatRoomUpdateResponse" "RoomAlreadyExist"
        else (do
          modify (modify_room J room.id (with_props (updated cfg r u)))
          announce_update show acc (with_props (updated cfg r u) room))

  update_with : Settings → (ℤ → Str) → Account J → ChatRoom J → Option Json → M (Game J) (Unit {0})
  unfolding update_if
  update_with cfg show acc room none = reply J acc.id "ChatRoomUpdateResponse" "InvalidRoomData"
  update_with cfg show acc room (some r) =
      update_if cfg show r acc room (if is_object r then update_request cfg r else none)

  unfoldable pub update_room :
      Settings → (ℤ → Str) → Json → Account J → ChatRoom J → M (Game J) (Unit {0})
  unfolding update_with
  update_room cfg show json acc room = update_with cfg show acc room (member? "Room" json)
