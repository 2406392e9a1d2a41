-- ===== src/Chat/Requests/Keeps.antt =====
-- Every sequence of chat room requests keeps the rooms valid.
use studio_bondage_club.Prelude.{◌≡◌, List, Str, ℤ, length}
use studio_bondage_club.Json.{JsonLib}
use studio_bondage_club.Chat.Admin.Keeps.{Keeps-chat_room_admin}
use studio_bondage_club.Chat.Characters.Keeps.{
  Keeps-chat_room_chat, Keeps-chat_room_game, Keeps-chat_room_character_update,
}
use studio_bondage_club.Chat.Create.Keeps.{chat_room_create-IsValid}
use studio_bondage_club.Chat.Expressions.Keeps.{
  Keeps-expression_update, Keeps-map_data_update, Keeps-pose_update, Keeps-arousal_update,
  Keeps-item_update, Keeps-allow_item,
}
use studio_bondage_club.Chat.Join.Keeps.{Keeps-chat_room_join, Keeps-chat_room_leave}
use studio_bondage_club.Chat.Names.{Settings}
use studio_bondage_club.Chat.Requests
use studio_bondage_club.Chat.Requests.{
  Request, leave, search_rooms, join, chat, character, expression, map_data, pose, arousal, item,
  admin, allow_item, create, game,
}
use studio_bondage_club.Chat.Search.Keeps.{Keeps-chat_room_search}
use studio_bondage_club.Chat.State.{Game}
use studio_bondage_club.Chat.Valid.{IsValid}

module _ (J : JsonLib) (cfg : Settings) (show : ℤ → Str) (perm : List Str → List Str)
    (h : (xs : List Str) → length (perm xs) ≡ length xs) where
  -- Every chat room request, on every branch of its handler and also when the handler throws, leaves
  -- valid rooms, if the rooms were valid before it, the id drawn for a new room is not in use and a
  -- shuffle keeps the number of members.
  pub handle-IsValid :
      (s : Str) (r : Request J) (g : Game J)
      → Requests.IsFresh J cfg show perm r g
      → IsValid J g.rooms
      → IsValid J (Requests.handle J cfg show perm s r g).1.rooms
  unfolding Requests.handle Requests.IsFresh
  handle-IsValid s (create id now json) g fresh v =
      chat_room_create-IsValid J cfg json id now s g v fresh
  handle-IsValid s leave g fresh v = (Keeps-chat_room_leave J s).keeps g v
  handle-IsValid s (search_rooms json) g fresh v =
      (Keeps-chat_room_search J (λ a s r. IsValid J r) cfg s json).keeps g v
  handle-IsValid s (join json) g fresh v = (Keeps-chat_room_join J s json).keeps g v
  handle-IsValid s (chat json) g fresh v = (Keeps-chat_room_chat J s json).keeps g v
  handle-IsValid s (game rng json) g fresh v = (Keeps-chat_room_game J rng s json).keeps g v
  handle-IsValid s (character json) g fresh v =
      (Keeps-chat_room_character_update J s json).keeps g v
  handle-IsValid s (expression json) g fresh v = (Keeps-expression_update J s json).keeps g v
  handle-IsValid s (map_data json) g fresh v = (Keeps-map_data_update J s json).keeps g v
  handle-IsValid s (pose json) g fresh v = (Keeps-pose_update J s json).keeps g v
  handle-IsValid s (arousal json) g fresh v = (Keeps-arousal_update J s json).keeps g v
  handle-IsValid s (item json) g fresh v = (Keeps-item_update J s json).keeps g v
  handle-IsValid s (admin json) g fresh v =
      (Keeps-chat_room_admin J perm h cfg show s json).keeps g v
  handle-IsValid s (allow_item json) g fresh v = (Keeps-allow_item J s json).keeps g v
