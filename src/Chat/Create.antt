-- ===== src/Chat/Create.antt =====
-- `chat_room_create` of chatroom_manager.cpp (server/gameserver/game). The session id that names the
-- new room and the reading of the clock are arguments.
pub mod Keeps
use studio_bondage_club.Prelude.{
  Bool, true, false, not, ◌||◌, Option, none, some, List, [], ◌∷◌, ◌++◌, String, Str, codes, ℤ, pos,
  ltb_ℤ, leb, length, any, if◌then◌else◌, M, ◌>>=◌, ◌>>◌, lift, get, modify, str_eq,
}
use studio_bondage_club.Json.{JsonLib, field?}
use studio_bondage_club.Chat.State.{
  Account, RoomData, ChatRoom, Game, emit, join_socket, socket_room, member_number, account_name,
  environment, account_for, modify_account, in_room,
}
use studio_bondage_club.Chat.Roles.{has_str_in}
use studio_bondage_club.Chat.Sync.{emits, sync}
use studio_bondage_club.Chat.Names.{Settings, trim, upper_trim, name_matches, room_limit}
use studio_bondage_club.Chat.Leave.{room_remove_locked, when_socket}

abbrev pub or_else {ℓ} : {A : Type ℓ} → A → Option A → A
or_else d none = d
or_else d (some a) = a

module _ (J : JsonLib) where
  open J use {Json, null, of_str, of_int, of_arr, str?, int?, bool?, arr?, member?, is_object}

  -- `Visibility` and `Private`, of which a request holds exactly one.
  unfoldable pub privacy : Option (List Json) → Option Bool → Option (List Json × Bool)
  privacy (some v) none = some (v, not (has_str_in J v (codes "All")))
  privacy none (some true) = some (of_str (codes "Admin") ∷ [], true)
  privacy none (some false) = some (of_str (codes "All") ∷ [], false)
  privacy none none = none
  privacy (some v) (some p) = none

  -- `Access` and `Locked`, of which a request holds at most one.
  unfoldable pub lock_state : Option (List Json) → Option Bool → Option (List Json × Bool)
  lock_state (some a) none = some (a, not (has_str_in J a (codes "All")))
  lock_state none (some true) =
      some (of_str (codes "Admin") ∷ of_str (codes "Whitelist") ∷ [], true)
  lock_state none (some false) = some (of_str (codes "All") ∷ [], false)
  lock_state none none = some (of_str (codes "All") ∷ [], false)
  lock_state (some a) (some l) = none

  pub record RoomRequest : Type 0 where
    pub name : Str
    pub description : Str
    pub background : Str
    pub visible : List Json × Bool
    pub lock : List Json × Bool

  abbrev checked :
      Settings → Str → Str → Str → List Json × Bool → List Json × Bool → Option RoomRequest
  checked cfg name description background visible lock =
      if not (name_matches name)
        || ltb_ℤ cfg.description_max_len (pos (length description))
        || not (leb (length background) 100)
      then none
      else some (record {
        name = name;
        description = description;
        background = background;
        visible = visible;
        lock = lock;
      })

  -- The validation that `chat_room_create` makes before it takes the lock; `none` is `invalid()`.
  unfoldable pub create_request : Settings → Json → Option RoomRequest
  create_request cfg json = elim (field? J str? "Name" json) [
    | none ↦ none
    | some name ↦ elim (field? J str? "Description" json) [
      | none ↦ none
      | some description ↦ elim (field? J str? "Background" json) [
        | none ↦ none
        | some background ↦
            elim (privacy (field? J arr? "Visibility" json) (field? J bool? "Private" json)) [
              | none ↦ none
              | some visible ↦
                  elim (lock_state (field? J arr? "Access" json) (field? J bool? "Locked" json)) [
                    | none ↦ none
                    | some lock ↦ checked cfg (trim name) description background visible lock
                  ]
            ]
      ]
    ]
  ]

  unfoldable pub name_taken : Str → List (ChatRoom J) → Bool
  name_taken name rooms = any (λ r. str_eq (upper_trim r.props.name) (upper_trim name)) rooms

  abbrev pub reply : Str → String → String → M (Game J) (Unit {0})
  reply socket_id event text = emits J (emit socket_id event (of_str (codes text)))

  -- The properties of a new room.
  unfoldable pub new_room_data :
      Settings → Json → RoomRequest → Account J → Str → Str → ℤ → RoomData J
  new_room_data cfg json r acc environ creator now = record {
    name = r.name;
    language = member? "Language" json;
    description = r.description;
    background = r.background;
    custom = member? "Custom" json;
    limit = room_limit cfg (field? J int? "Limit" json);
    visibility = r.visible.0;
    access = r.lock.0;
    priv = r.visible.1;
    locked = r.lock.1;
    map_data = member? "MapData" json;
    environment = environ;
    space = or_else [] (field? J str? "Space" json);
    game = or_else [] (field? J str? "Game" json);
    creator = creator;
    creator_member_number = member_number J acc;
    creation = now;
    ban = or_else [] (field? J arr? "Ban" json);
    block_category = or_else [] (field? J arr? "BlockCategory" json);
    whitelist = or_else [] (field? J arr? "Whitelist" json);
    admin = or_else (of_int (member_number J acc) ∷ []) (field? J arr? "Admin" json);
  }

  abbrev add_room : ChatRoom J → Game J → Game J
  add_room room g = record g { rooms = g.rooms ++ room ∷ [] }

  -- The rest of `chat_room_create` once the name is known to be free.
  unfoldable pub open_room :
      Settings → Json → RoomRequest → Account J → Str → ℤ → M (Game J) (Unit {0})
  open_room cfg json r acc sid now = do
    room_remove_locked J acc (codes "ServerLeave") []
    environ ← lift (environment J acc)
    creator ← lift (account_name J acc)
    let room : ChatRoom J = record {
      id = sid;
      props = new_room_data cfg json r acc environ creator now;
      accounts = acc.id ∷ [];
    }
    modify (add_room room)
    modify (modify_account J acc.id (in_room J (some sid)))
    when_socket J acc (join_socket acc.id (socket_room J room))
    reply acc.id "ChatRoomCreateResponse" "ChatRoomCreated"
    sync J room (member_number J acc)

  create_for :
      Settings → Json → RoomRequest → Str → ℤ → Str → Option (Account J) → M (Game J) (Unit {0})
  create_for cfg json r sid now socket_id none =
      reply socket_id "ChatRoomCreateResponse" "AccountError"
  create_for cfg json r sid now socket_id (some acc) = do
    g ← get
    if name_taken r.name g.rooms
        then reply socket_id "ChatRoomCreateResponse" "RoomAlreadyExist"
        else open_room cfg json r acc sid now

  create_if_valid : Settings → Json → Str → ℤ → Str → Option RoomRequest → M (Game J) (Unit {0})
  create_if_valid cfg json sid now socket_id none =
      reply socket_id "ChatRoomCreateResponse" "InvalidRoomData"
  create_if_valid cfg json sid now socket_id (some r) = do
    g ← get
    create_for cfg json r sid now socket_id (account_for J socket_id g)

  unfoldable pub chat_room_create : Settings → Str → ℤ → Str → Json → M (Game J) (Unit {0})
  unfolding create_if_valid create_for
  chat_room_create cfg sid now socket_id json =
      create_if_valid cfg json sid now socket_id
        (if is_object json then create_request cfg json else none)
