-- ===== src/Chat/State.antt =====
-- OnlineAccount (account.hpp), ChatRoom (chatroom.hpp) and GameState (game_state.hpp) of
-- src/server/gameserver/game, and the monad of a handler that holds `GameState::mu`. An account
-- object is named by its `id`, which is the session id that `by_socket` maps to it; a room object by
-- its `id`. The properties of a room are built by `chat_room_create` alone, with the types below.
use studio_bondage_club.Prelude.{
  Bool, Option, none, some, List, [], ◌∷◌, ◌++◌, String, Str, codes, ℤ, pos, str_eq, find_if,
  if◌then◌else◌, map, any,
}
use studio_bondage_club.Json.{JsonLib, value, field?}

module _ (J : JsonLib) where
  open J use {Json, str?, int?}

  pub record Account : Type 0 where
    pub id : Str
    -- whether `socket` is set
    pub socket : Bool
    pub fields : Json
    pub delayed_appearance : Option Json
    pub delayed_skill : Option Json
    pub delayed_game : Option Json
    pub chat_room : Option Str

  pub record RoomData : Type 0 where
    pub name : Str
    pub language : Option Json
    pub description : Str
    pub background : Str
    pub custom : Option Json
    pub limit : ℤ
    pub visibility : List Json
    pub access : List Json
    pub priv : Bool
    pub locked : Bool
    pub map_data : Option Json
    pub environment : Str
    pub space : Str
    pub game : Str
    pub creator : Str
    pub creator_member_number : ℤ
    pub creation : ℤ
    pub ban : List Json
    pub block_category : List Json
    pub whitelist : List Json
    pub admin : List Json

  pub record ChatRoom : Type 0 where
    pub id : Str
    pub props : RoomData
    -- the ids of the accounts, in the order that the clients render
    pub accounts : List Str

  -- What a handler sends or posts, in order; the transport and the database are other components.
  pub data Effect : Type 0 where
    emit : Str → String → Json → Effect
    emit_to_room : Str → String → Json → Option Str → Effect
    join_socket : Str → Str → Effect
    leave_socket : Str → Str → Effect
    disconnect_socket : Str → Effect
    -- writes to the database, by the account's name and by its number
    persist_fields : Str → Json → Effect
    persist_member_fields : ℤ → Json → Effect

  pub record Game : Type 0 where
    pub accounts : List Account
    pub by_socket : List Str
    pub by_member : List (ℤ × Str)
    pub rooms : List ChatRoom
    pub effects : List Effect

  unfoldable pub socket_room : ChatRoom → Str
  socket_room room = codes "chatroom-" ++ room.id

  -- `member_number()`: 0 unless the field is an integer.
  abbrev int_or_zero : Option ℤ → ℤ
  int_or_zero none = pos 0
  int_or_zero (some n) = n

  unfoldable pub member_number : Account → ℤ
  unfolding field?
  member_number acc = int_or_zero (field? J int? "MemberNumber" acc.fields)

  unfoldable pub environment : Account → Option Str
  unfolding value
  environment acc = value J str? "Environment" [] acc.fields

  -- `acc.data.value("Name", std::string{})`.
  unfoldable pub account_name : Account → Option Str
  unfolding value
  account_name acc = value J str? "Name" [] acc.fields

  -- `account_for`: the account that is logged in on the socket.
  unfoldable pub account_for : Str → Game → Option Account
  account_for socket_id g =
      if any (str_eq socket_id) g.by_socket
      then find_if (λ a. str_eq a.id socket_id) g.accounts
      else none

  -- The room that a `chat_room` pointer names.
  unfoldable pub room_of : Option Str → Game → Option ChatRoom
  room_of none g = none
  room_of (some rid) g = find_if (λ r. str_eq r.id rid) g.rooms

  -- The object behind an entry of a member list.
  unfoldable pub members_of : List Account → List Str → List Account
  members_of accounts [] = []
  members_of accounts (i ∷ ids) = elim (find_if (λ a. str_eq a.id i) accounts) [
    | none ↦ members_of accounts ids
    | some a ↦ a ∷ members_of accounts ids
  ]

  -- Writes through a pointer to an account or a room.
  unfoldable pub modify_account : Str → (Account → Account) → Game → Game
  modify_account i f g = record g {
    accounts = map (λ a. if str_eq a.id i then f a else a) g.accounts;
  }

  unfoldable pub modify_room : Str → (ChatRoom → ChatRoom) → Game → Game
  modify_room i f g = record g { rooms = map (λ r. if str_eq r.id i then f r else r) g.rooms }

  abbrev pub in_room : Option Str → Account → Account
  in_room r acc = record acc { chat_room = r }

  unfoldable pub send : Effect → Game → Game
  send e g = record g { effects = g.effects ++ e ∷ [] }
