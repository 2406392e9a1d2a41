-- ===== src/Chat/Search/Keeps.antt =====
-- `chat_room_search` (chatroom_manager.cpp) changes neither accounts nor rooms.
use studio_bondage_club.Prelude.{
  Option, none, some, List, [], ◌∷◌, Str, false, Keeps, Keeps-done, Keeps-pure, Keeps-lift->>=,
}
use studio_bondage_club.Json.{JsonLib, value}
use studio_bondage_club.Chat.Names.{Settings}
use studio_bondage_club.Chat.Search
use studio_bondage_club.Chat.Search.{Query}
use studio_bondage_club.Chat.State.{Account, ChatRoom, environment}
use studio_bondage_club.Chat.Sync.Frame.{Of, message_rules}

module _ (J : JsonLib) (Q : List (Account J) → List Str → List (ChatRoom J) → Type 0) where
  Keeps-read_query : (text : Str) (json : J.Json) → Keeps (Of J Q) (Search.read_query J text json)
  unfolding Search.read_query
  Keeps-read_query text json = Keeps-lift->>= (Of J Q) (value J J.bool? "FullRooms" false json) λ f.
      Keeps-lift->>= (Of J Q) (value J J.bool? "ShowLocked" false json) λ l.
        Keeps-lift->>= (Of J Q) (value J J.bool? "SearchDescs" false json)
          λ d. Keeps-pure (Of J Q) _

  Keeps-answer :
      (cfg : Settings) (socket_id : Str) (acc : Account J) (q : Query) (rooms : List (ChatRoom J))
      → Keeps (Of J Q) (Search.answer J cfg socket_id acc q rooms)
  unfolding Search.answer
  Keeps-answer cfg socket_id acc q [] = search message_rules
  Keeps-answer cfg socket_id acc q (r ∷ rs) =
      Keeps-lift->>= (Of J Q) (environment J acc) λ e. search message_rules

  Keeps-search_for :
      (cfg : Settings) (socket_id text : Str) (json : J.Json) (o : Option (Account J))
      → Keeps (Of J Q) (Search.search_for J cfg socket_id text json o)
  unfolding Search.search_for
  Keeps-search_for cfg socket_id text json none = Keeps-done (Of J Q)
  Keeps-search_for cfg socket_id text json (some acc) =
      search (message_rules, Keeps-read_query, Keeps-answer)

  Keeps-search_if_valid :
      (cfg : Settings) (socket_id : Str) (json : J.Json) (o : Option Str)
      → Keeps (Of J Q) (Search.search_if_valid J cfg socket_id json o)
  unfolding Search.search_if_valid
  Keeps-search_if_valid cfg socket_id json none = Keeps-done (Of J Q)
  Keeps-search_if_valid cfg socket_id json (some text) = search (message_rules, Keeps-search_for)

  -- A search keeps every property of the accounts, the sockets and the rooms.
  pub Keeps-chat_room_search :
      (cfg : Settings) (socket_id : Str) (json : J.Json)
      → Keeps (Of J Q) (Search.chat_room_search J cfg socket_id json)
  unfolding Search.chat_room_search
  Keeps-chat_room_search cfg socket_id json = search Keeps-search_if_valid
