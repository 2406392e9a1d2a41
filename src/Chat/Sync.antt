-- ===== src/Chat/Sync.antt =====
-- The messages and broadcasts of ChatRoomManager (chatroom_manager.cpp, server/gameserver/game).
-- A function that reads account fields with `value` may throw, which is `none`.
pub mod Frame
use studio_bondage_club.Prelude.{
  Bool, true, false, ◌&&◌, Option, none, some, List, [], ◌∷◌, ◌++◌, String, Str, codes, ℤ, eq_ℤ,
  map, find_if, if◌then◌else◌, M, ◌>>=◌, ◌>>◌, pure, done, lift, get, modify, str_eq,
}
use studio_bondage_club.Json.{JsonLib, value_arr}
use studio_bondage_club.Chat.State.{
  Account, RoomData, ChatRoom, Game, Effect, emit, emit_to_room, socket_room, member_number,
  account_name, members_of, room_of, send,
}
use studio_bondage_club.Chat.Roles.{has_member, has_str_in, should_send_blacklist}

module _ (J : JsonLib) where
  open J use {Json, null, of_str, of_int, of_bool, of_arr, of_obj, is_null, int?, member?, put}

  abbrev pub emits : Effect J → M (Game J) (Unit {0})
  emits e = modify (send J e)

  abbrev copied : String → Option Json → Json → Json
  copied key none dst = dst
  copied key (some v) dst = put key v dst

  unfoldable pub copy_if_present : Json → Json → String → Json
  copy_if_present dst src key = copied key (member? key src) dst

  unfoldable pub copy_all : Json → Json → List String → Json
  copy_all dst src [] = dst
  copy_all dst src (k ∷ ks) = copy_all (copy_if_present dst src k) src ks

  abbrev pub shared_keys : List String
  shared_keys =
      "ID" ∷ "Name" ∷ "AssetFamily" ∷ "Title" ∷ "Nickname" ∷ "Appearance" ∷ "ActivePose"
      ∷ "Reputation" ∷ "Creation" ∷ "Lovership" ∷ "Description" ∷ "Owner" ∷ "MemberNumber"
      ∷ "LabelColor" ∷ "ItemPermission" ∷ "InventoryData" ∷ "Ownership" ∷ "BlockItems"
      ∷ "LimitedItems" ∷ "FavoriteItems" ∷ "ArousalSettings" ∷ "OnlineSharedSettings" ∷ "Game"
      ∷ "MapData" ∷ "Crafting" ∷ "Difficulty" ∷ []

  -- The member numbers, among those in the room, that a list of the account holds.
  unfoldable pub listed_members : Json → List (Account J) → List Json
  listed_members listing [] = []
  listed_members listing (b ∷ bs) =
      let rest = listed_members listing bs in
      if has_member J listing (member_number J b) then of_int (member_number J b) ∷ rest else rest

  -- `char_shared_data`, given the accounts in the room.
  unfoldable pub char_shared_data : Account J → List (Account J) → M (Game J) Json
  char_shared_data acc members = do
    send_black ← lift (should_send_blacklist J acc)
    white ← lift (value_arr J "WhiteList" acc.fields)
    black ← lift (value_arr J "BlackList" acc.fields)
    let c = copy_all (of_obj []) acc.fields shared_keys
    pure (
        put "BlackList" (of_arr (if send_black then listed_members black members else []))
          (put "WhiteList" (of_arr (listed_members white members)) c))

  abbrev pub optional : String → Option Json → List (String × Json)
  optional key none = []
  optional key (some v) = (key, v) ∷ []

  unfoldable pub room_properties : ChatRoom J → ℤ → Json
  room_properties room source = of_obj (
      ("Name", of_str p.name)
      ∷ (optional "Language" p.language
          ++ (("Description", of_str p.description)
              ∷ ("Admin", of_arr p.admin)
              ∷ ("Whitelist", of_arr p.whitelist)
              ∷ ("Ban", of_arr p.ban)
              ∷ ("Background", of_str p.background)
              ∷ (optional "Custom" p.custom
                  ++ (("Limit", of_int p.limit)
                      ∷ ("Game", of_str p.game)
                      ∷ ("Visibility", of_arr p.visibility)
                      ∷ ("Access", of_arr p.access)
                      ∷ ("Private", of_bool p.priv)
                      ∷ ("Locked", of_bool p.locked)
                      ∷ (optional "MapData" p.map_data
                          ++ (("BlockCategory", of_arr p.block_category)
                              ∷ ("Space", of_str p.space)
                              ∷ ("SourceMemberNumber", of_int source)
                              ∷ [])))))))
    where
      p : RoomData J
      p = room.props

  all_shared : List (Account J) → List (Account J) → M (Game J) (List Json)
  all_shared members [] = pure []
  all_shared members (a ∷ as') = do
    c ← char_shared_data a members
    cs ← all_shared members as'
    pure (c ∷ cs)

  unfoldable pub room_data : ChatRoom J → ℤ → M (Game J) Json
  unfolding all_shared room_properties
  room_data room source = do
    g ← get
    chars ←
        all_shared (members_of J g.accounts room.accounts) (members_of J g.accounts room.accounts)
    pure (put "Character" (of_arr chars) (room_properties room source))

  unfoldable pub sync : ChatRoom J → ℤ → M (Game J) (Unit {0})
  sync room source = do
    r ← room_data room source
    emits (emit_to_room (socket_room J room) "ChatRoomSync" r none)

  -- The first account of a list with a member number.
  unfoldable pub by_number : ℤ → List (Account J) → Option (Account J)
  by_number n members = find_if (λ a. eq_ℤ (member_number J a) n) members

  sync_to : ChatRoom J → ℤ → Option (Account J) → M (Game J) (Unit {0})
  sync_to room source none = done
  sync_to room source (some a) =
      if a.socket then (do r ← room_data room source; emits (emit a.id "ChatRoomSync" r)) else done

  unfoldable pub sync_to_member : ChatRoom J → ℤ → ℤ → M (Game J) (Unit {0})
  unfolding sync_to by_number
  sync_to_member room source target = do
    g ← get
    sync_to room source (by_number target (members_of J g.accounts room.accounts))

  -- The members that list the number, for the two loops of `sync_member_join`.
  whitelisted_by : ℤ → List (Account J) → M (Game J) (List Json)
  whitelisted_by cm [] = pure []
  whitelisted_by cm (b ∷ bs) = do
    white ← lift (value_arr J "WhiteList" b.fields)
    rest ← whitelisted_by cm bs
    pure (if has_member J white cm then of_int (member_number J b) ∷ rest else rest)

  blacklisted_by : ℤ → List (Account J) → M (Game J) (List Json)
  blacklisted_by cm [] = pure []
  blacklisted_by cm (b ∷ bs) = do
    send_black ← lift (should_send_blacklist J b)
    black ← lift (value_arr J "BlackList" b.fields)
    rest ← blacklisted_by cm bs
    pure (if send_black && has_member J black cm then of_int (member_number J b) ∷ rest else rest)

  unfoldable pub sync_member_join : ChatRoom J → Account J → M (Game J) (Unit {0})
  unfolding whitelisted_by blacklisted_by
  sync_member_join room character = do
    g ← get
    let cm = member_number J character
    let members = members_of J g.accounts room.accounts
    c ← char_shared_data character members
    white_by ← whitelisted_by cm members
    black_by ← blacklisted_by cm members
    emits (
        emit_to_room (socket_room J room) "ChatRoomSyncMemberJoin"
          (of_obj (
            ("SourceMemberNumber", of_int cm)
            ∷ ("Character", c)
            ∷ ("WhiteListedBy", of_arr white_by)
            ∷ ("BlackListedBy", of_arr black_by)
            ∷ []))
          (some character.id))
    sync_to_member room cm cm

  unfoldable pub sync_member_leave : ChatRoom J → ℤ → M (Game J) (Unit {0})
  sync_member_leave room source = emits (
      emit_to_room (socket_room J room) "ChatRoomSyncMemberLeave"
        (of_obj (("SourceMemberNumber", of_int source) ∷ [])) none)

  sync_single_in : Account J → ℤ → Option (ChatRoom J) → M (Game J) (Unit {0})
  sync_single_in acc source none = done
  sync_single_in acc source (some room) = do
    g ← get
    c ← char_shared_data acc (members_of J g.accounts room.accounts)
    emits (
        emit_to_room (socket_room J room) "ChatRoomSyncSingle"
          (of_obj (("SourceMemberNumber", of_int source) ∷ ("Character", c) ∷ [])) none)

  unfoldable pub sync_single : Account J → ℤ → M (Game J) (Unit {0})
  unfolding sync_single_in
  sync_single acc source = do g ← get; sync_single_in acc source (room_of J acc.chat_room g)

  unfoldable pub message_json : ℤ → Str → Str → Json → Json
  message_json sender content type' dictionary = of_obj (
      ("Sender", of_int sender)
      ∷ ("Content", of_str content)
      ∷ ("Type", of_str type')
      ∷ ("Dictionary", dictionary)
      ∷ [])

  message_to : Json → Option (Account J) → M (Game J) (Unit {0})
  message_to msg none = done
  message_to msg (some a) = if a.socket then emits (emit a.id "ChatRoomMessage" msg) else done

  message_to_number : ChatRoom J → Json → Option ℤ → M (Game J) (Unit {0})
  message_to_number room msg none = done
  message_to_number room msg (some tm) = do
    g ← get
    message_to msg (by_number tm (members_of J g.accounts room.accounts))

  unfoldable pub chat_room_message :
      ChatRoom J → ℤ → Str → Str → Json → Json → M (Game J) (Unit {0})
  unfolding message_to message_to_number message_json
  chat_room_message room sender content type' target dictionary =
      let msg = message_json sender content type' dictionary in
      if is_null target
      then emits (emit_to_room (socket_room J room) "ChatRoomMessage" msg none)
      else message_to_number room msg (int? target)

  unfoldable pub sync_room_properties : ChatRoom J → ℤ → M (Game J) (Unit {0})
  sync_room_properties room source = emits (
      emit_to_room (socket_room J room) "ChatRoomSyncRoomProperties" (room_properties room source)
        none)

  unfoldable pub sync_reorder_players : ChatRoom J → ℤ → M (Game J) (Unit {0})
  sync_reorder_players room source = do
    g ← get
    emits (
        emit_to_room (socket_room J room) "ChatRoomSyncReorderPlayers"
          (of_obj (
            (
              "PlayerOrder",
              of_arr
                  (map (λ a. of_int (member_number J a)) (members_of J g.accounts room.accounts)),
            )
            ∷ []))
          none)

  -- One entry of a message's dictionary, about a character.
  unfoldable pub tag_character : String → Account J → M (Game J) Json
  tag_character tag acc = do
    name ← lift (account_name J acc)
    pure (
        of_obj (
          ("Tag", of_str (codes tag))
          ∷ ("Text", of_str name)
          ∷ ("MemberNumber", of_int (member_number J acc))
          ∷ []))

  unfoldable pub source_dict : Account J → M (Game J) Json
  unfolding tag_character
  source_dict acc = do d ← tag_character "SourceCharacter" acc; pure (of_arr (d ∷ []))

  unfoldable pub role_list_restrictive : List Json → Bool
  role_list_restrictive roles = if has_str_in J roles (codes "All") then false else true
