-- ===== src/Chat/Requests.antt =====
-- The requests of a client about chat rooms, as `register_handlers` binds them to the handlers of
-- chatroom_manager.cpp (server/gameserver/game), and the states of the game that they lead to.
pub mod Keeps
use studio_bondage_club.Prelude.{◌≡◌, Bool, true, false, List, Str, ℤ, any, map, str_eq, M}
use studio_bondage_club.Json.{JsonLib}
use studio_bondage_club.Chat.Admin.{chat_room_admin}
use studio_bondage_club.Chat.Characters.{chat_room_chat, chat_room_character_update, chat_room_game}
use studio_bondage_club.Chat.Create.{chat_room_create}
use studio_bondage_club.Chat.Expressions.{
  chat_room_allow_item, chat_room_character_arousal_update, chat_room_character_expression_update,
  chat_room_character_item_update, chat_room_character_map_data_update,
  chat_room_character_pose_update,
}
use studio_bondage_club.Chat.Join.{chat_room_join}
use studio_bondage_club.Chat.Leave.{chat_room_leave}
use studio_bondage_club.Chat.Names.{Settings}
use studio_bondage_club.Chat.Search.{chat_room_search}
use studio_bondage_club.Chat.State.{Game, ChatRoom}
use studio_bondage_club.Chat.Valid.{room_id}

module _ (J : JsonLib) where
  -- The requests. What is drawn at random or read from the clock comes with the request that uses it:
  -- the new room's id and the time, and the random number of a game message.
  pub data Request : Type 0 where
    leave : Request
    search_rooms join chat character expression map_data pose arousal item admin allow_item :
        J.Json → Request
    create : Str → ℤ → J.Json → Request
    game : J.Json → J.Json → Request

  module _ (cfg : Settings) (show : ℤ → Str) (perm : List Str → List Str) where
    unfoldable pub handle : Str → Request → M (Game J) (Unit {0})
    handle s leave = chat_room_leave J s
    handle s (search_rooms json) = chat_room_search J cfg s json
    handle s (create id now json) = chat_room_create J cfg id now s json
    handle s (join json) = chat_room_join J s json
    handle s (chat json) = chat_room_chat J s json
    handle s (game rng json) = chat_room_game J rng s json
    handle s (character json) = chat_room_character_update J s json
    handle s (expression json) = chat_room_character_expression_update J s json
    handle s (map_data json) = chat_room_character_map_data_update J s json
    handle s (pose json) = chat_room_character_pose_update J s json
    handle s (arousal json) = chat_room_character_arousal_update J s json
    handle s (item json) = chat_room_character_item_update J s json
    handle s (admin json) = chat_room_admin J cfg show perm s json
    handle s (allow_item json) = chat_room_allow_item J s json

    -- The id drawn for a new room is not in use.
    unfoldable pub IsFresh : Request → Game J → Type 0
    IsFresh (create id now json) g = any (str_eq id) (map (room_id J) g.rooms) ≡ false
    IsFresh leave g = Unit {0}
    IsFresh (search_rooms json) g = Unit {0}
    IsFresh (join json) g = Unit {0}
    IsFresh (chat json) g = Unit {0}
    IsFresh (game rng json) g = Unit {0}
    IsFresh (character json) g = Unit {0}
    IsFresh (expression json) g = Unit {0}
    IsFresh (map_data json) g = Unit {0}
    IsFresh (pose json) g = Unit {0}
    IsFresh (arousal json) g = Unit {0}
    IsFresh (item json) g = Unit {0}
    IsFresh (admin json) g = Unit {0}
    IsFresh (allow_item json) g = Unit {0}
