-- ===== src/Chat/Search.antt =====
-- `chat_room_search` of chatroom_manager.cpp (server/gameserver/game).
pub mod Keeps
pub mod Collect
use studio_bondage_club.Prelude.{
  ℕ, suc, Bool, true, false, not, ◌&&◌, ◌||◌, Option, none, some, List, [], ◌∷◌, ◌++◌, String, Str,
  codes, ℤ, pos, leb_ℤ, leb, map, length, any, reverse, if◌then◌else◌, M, ◌>>=◌, ◌>>◌, pure, done,
  lift, get, str_eq, is_empty, to_upper, ◌==◌,
}
use studio_bondage_club.Json.{JsonLib, field?, value}
use studio_bondage_club.Chat.State.{
  Account, RoomData, ChatRoom, Game, emit, member_number, environment, account_for,
}
use studio_bondage_club.Chat.Roles.{has_member_in, account_has_any_role}
use studio_bondage_club.Chat.Sync.{emits, optional}
use studio_bondage_club.Chat.Names.{Settings, trim, upper_trim}

-- `text.find(word) != npos`.
starts_with : Str → Str → Bool
starts_with [] text = true
starts_with (c ∷ word) [] = false
starts_with (c ∷ word) (d ∷ text) = c == d && starts_with word text

unfoldable pub occurs_in : Str → Str → Bool
unfolding starts_with
occurs_in word [] = is_empty word
occurs_in word (c ∷ text) = starts_with word (c ∷ text) || occurs_in word text

no_spaces : List Str → Bool
no_spaces [] = true
no_spaces (s ∷ ss) = false

-- The parameters of a search, read from the request.
pub record Query : Type 0 where
  pub text : Str
  pub spaces : List Str
  pub game : Str
  pub full_rooms : Bool
  pub show_locked : Bool
  pub search_descs : Bool

module _ (J : JsonLib) where
  open J use {Json, of_str, of_int, of_bool, of_arr, of_obj, is_object, str?, bool?, arr?, member?}

  -- The tests of one round of the loop.
  unfoldable pub matches_text : Query → ChatRoom J → Bool
  matches_text q room =
      is_empty q.text
      || occurs_in q.text (upper_trim room.props.name)
      || q.search_descs && occurs_in q.text (map to_upper room.props.description)

  unfoldable pub is_listed : Account J → Str → Query → ChatRoom J → Bool
  unfolding no_spaces
  is_listed acc environ q room =
      str_eq environ room.props.environment
      && (is_empty q.game || str_eq room.props.game q.game)
      && (not (leb_ℤ room.props.limit (pos (length room.accounts))) || q.full_rooms)
      && (no_spaces q.spaces || any (str_eq room.props.space) q.spaces)
      && not (has_member_in J room.props.ban (member_number J acc))
      && matches_text q room
      && (str_eq (upper_trim room.props.name) q.text
          || account_has_any_role J acc room room.props.visibility)
      && (q.show_locked || account_has_any_role J acc room room.props.access)

  -- The loop, which stops once the answer has as many rooms as the settings allow.
  unfoldable pub collect : (ChatRoom J → Bool) → ℤ → ℕ → List (ChatRoom J) → List (ChatRoom J)
  collect listed limit n [] = []
  collect listed limit n (room ∷ rooms) =
      let rest = collect listed limit (if listed room then suc n else n) rooms in
      if listed room then room ∷ (if leb_ℤ limit (pos (suc n)) then [] else rest) else rest

  unfoldable pub result_row : Account J → ChatRoom J → Json
  result_row acc room = of_obj (
      ("Name", of_str p.name)
      ∷ (optional J "Language" p.language
          ++ (("Creator", of_str p.creator)
              ∷ ("CreatorMemberNumber", of_int p.creator_member_number)
              ∷ ("Creation", of_int p.creation)
              ∷ ("Description", of_str p.description)
              ∷ ("BlockCategory", of_arr p.block_category)
              ∷ ("Game", of_str p.game)
              ∷ ("Space", of_str p.space)
              ∷ ("Visibility", of_arr p.visibility)
              ∷ ("Access", of_arr p.access)
              ∷ ("Private", of_bool p.priv)
              ∷ ("Locked", of_bool p.locked)
              ∷ ("MemberCount", of_int (pos (length room.accounts)))
              ∷ ("MemberLimit", of_int p.limit)
              ∷ ("Friends", of_arr [])
              ∷ ("CanJoin", of_bool (account_has_any_role J acc room p.access))
              ∷ [])))
    where
      p : RoomData J
      p = room.props

  strings_of : List Json → List Str
  strings_of [] = []
  strings_of (s ∷ ss) = elim (str? s) [ none ↦ strings_of ss | some t ↦ t ∷ strings_of ss ]

  -- `Space` is a text or a list of texts.
  spaces_of : Option Str → Option (List Json) → List Str
  unfolding strings_of
  spaces_of (some s) _ = s ∷ []
  spaces_of none (some ss) = strings_of ss
  spaces_of none none = []

  abbrev or_empty : Option Str → Str
  or_empty none = []
  or_empty (some s) = s

  read_query : Str → Json → M (Game J) Query
  unfolding spaces_of
  read_query text json = do
    full ← lift (value J bool? "FullRooms" false json)
    locked ← lift (value J bool? "ShowLocked" false json)
    descs ← lift (value J bool? "SearchDescs" false json)
    pure (record {
      text = map to_upper (trim text);
      spaces = spaces_of (field? J str? "Space" json) (field? J arr? "Space" json);
      game = or_empty (field? J str? "Game" json);
      full_rooms = full;
      show_locked = locked;
      search_descs = descs;
    })

  answer : Settings → Str → Account J → Query → List (ChatRoom J) → M (Game J) (Unit {0})
  answer cfg socket_id acc q [] = emits J (emit socket_id "ChatRoomSearchResult" (of_arr []))
  answer cfg socket_id acc q (r ∷ rs) = do
    environ ← lift (environment J acc)
    emits J (
        emit socket_id "ChatRoomSearchResult" (
          of_arr (
            map (result_row acc)
              (collect (is_listed acc environ q) cfg.search_max_results 0 (r ∷ rs)))))

  search_for : Settings → Str → Str → Json → Option (Account J) → M (Game J) (Unit {0})
  unfolding answer read_query
  search_for cfg socket_id text json none = done
  search_for cfg socket_id text json (some acc) = do
    q ← read_query text json
    g ← get
    answer cfg socket_id acc q (reverse g.rooms)

  search_if_valid : Settings → Str → Json → Option Str → M (Game J) (Unit {0})
  unfolding search_for
  search_if_valid cfg socket_id json none = done
  search_if_valid cfg socket_id json (some text) =
      if leb (length text) 20
      then (do g ← get; search_for cfg socket_id text json (account_for J socket_id g))
      else done

  unfoldable pub chat_room_search : Settings → Str → Json → M (Game J) (Unit {0})
  unfolding search_if_valid
  chat_room_search cfg socket_id json =
      search_if_valid cfg socket_id json
        (if is_object json then field? J str? "Query" json else none)
