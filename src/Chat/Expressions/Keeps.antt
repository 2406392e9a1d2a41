-- ===== src/Chat/Expressions/Keeps.antt =====
-- The handlers that pass a member's changes on (chatroom_manager.cpp) keep the rooms valid.
use studio_bondage_club.Prelude.{
  Option, none, some, List, Str, ℤ, M, Keeps, Keeps-done, Keeps-if, Keeps-lift,
}
use studio_bondage_club.Json.{JsonLib}
use studio_bondage_club.Chat.State.{Account, ChatRoom, Game}
use studio_bondage_club.Chat.Characters.Keeps.{Keeps-as_member}
use studio_bondage_club.Chat.Expressions
use studio_bondage_club.Chat.Join.Keeps.{Valid}
use studio_bondage_club.Chat.Leave.Keeps.{Keeps-modify_account}
use studio_bondage_club.Chat.Sync.Frame.{message_rules}

module _ (J : JsonLib) where
  Keeps-with_account :
      (k : Account J → M (Game J) (Unit {0})) (o : Option (Account J))
      → ((acc : Account J) → Keeps (Valid J) (k acc))
      → Keeps (Valid J) (Expressions.with_account J k o)
  unfolding Expressions.with_account
  Keeps-with_account k none h = Keeps-done (Valid J)
  Keeps-with_account k (some acc) h = h acc

  Keeps-in_room_do :
      (k : ChatRoom J → M (Game J) (Unit {0})) (o : Option (ChatRoom J))
      → ((room : ChatRoom J) → Keeps (Valid J) (k room))
      → Keeps (Valid J) (Expressions.in_room_do J k o)
  unfolding Expressions.in_room_do
  Keeps-in_room_do k none h = Keeps-done (Valid J)
  Keeps-in_room_do k (some room) h = h room

  ruleset member_rules =
      (Keeps-with_account, Keeps-in_room_do, Keeps-as_member, Keeps-modify_account)

  Keeps-store_appearance :
      (i : Str) (json : J.Json) (o : Option (List J.Json))
      → Keeps (Valid J) (Expressions.store_appearance J i json o)
  unfolding Expressions.store_appearance
  Keeps-store_appearance i json none = Keeps-done (Valid J)
  Keeps-store_appearance i json (some xs) = search (Keeps-if, Keeps-done, Keeps-modify_account)

  Keeps-express :
      (json : J.Json) (acc : Account J) → Keeps (Valid J) (Expressions.express J json acc)
  unfolding Expressions.express
  Keeps-express json acc = search (message_rules, member_rules, Keeps-store_appearance) depth 9

  Keeps-express_if :
      (socket_id : Str) (json : J.Json) (o : Option Str)
      → Keeps (Valid J) (Expressions.express_if J socket_id json o)
  unfolding Expressions.express_if
  Keeps-express_if socket_id json none = Keeps-done (Valid J)
  Keeps-express_if socket_id json (some group) =
      search (message_rules, member_rules, Keeps-express) depth 9

  pub Keeps-expression_update :
      (socket_id : Str) (json : J.Json)
      → Keeps (Valid J) (Expressions.chat_room_character_expression_update J socket_id json)
  unfolding Expressions.chat_room_character_expression_update
  Keeps-expression_update socket_id json = Keeps-express_if socket_id json _

  pub Keeps-map_data_update :
      (socket_id : Str) (json : J.Json)
      → Keeps (Valid J) (Expressions.chat_room_character_map_data_update J socket_id json)
  unfolding Expressions.chat_room_character_map_data_update
  Keeps-map_data_update socket_id json = search (message_rules, member_rules) depth 9

  pub Keeps-pose_update :
      (socket_id : Str) (json : J.Json)
      → Keeps (Valid J) (Expressions.chat_room_character_pose_update J socket_id json)
  unfolding Expressions.chat_room_character_pose_update
  Keeps-pose_update socket_id json = search (message_rules, member_rules) depth 9

  Keeps-arouse :
      (json : J.Json) (acc : Account J) (o : Option J.Json)
      → Keeps (Valid J) (Expressions.arouse J json acc o)
  unfolding Expressions.arouse
  Keeps-arouse json acc none = Keeps-done (Valid J)
  Keeps-arouse json acc (some settings) = search (message_rules, member_rules) depth 9

  pub Keeps-arousal_update :
      (socket_id : Str) (json : J.Json)
      → Keeps (Valid J) (Expressions.chat_room_character_arousal_update J socket_id json)
  unfolding Expressions.chat_room_character_arousal_update
  Keeps-arousal_update socket_id json = search (message_rules, member_rules, Keeps-arouse) depth 9

  Keeps-update_item :
      (json : J.Json) (target : ℤ) (acc : Account J) (room : ChatRoom J)
      → Keeps (Valid J) (Expressions.update_item J json target acc room)
  unfolding Expressions.update_item
  Keeps-update_item json target acc room = search (message_rules, Keeps-lift) depth 9

  Keeps-item_if :
      (socket_id : Str) (json : J.Json) (t : Option ℤ) (o : Option Str)
      → Keeps (Valid J) (Expressions.item_if J socket_id json t o)
  unfolding Expressions.item_if
  Keeps-item_if socket_id json (some t) (some o) = search (member_rules, Keeps-update_item)
  Keeps-item_if socket_id json none o = Keeps-done (Valid J)
  Keeps-item_if socket_id json (some t) none = Keeps-done (Valid J)

  pub Keeps-item_update :
      (socket_id : Str) (json : J.Json)
      → Keeps (Valid J) (Expressions.chat_room_character_item_update J socket_id json)
  unfolding Expressions.chat_room_character_item_update
  Keeps-item_update socket_id json = search (Keeps-if, Keeps-done, Keeps-item_if)

  Keeps-tell_allowed :
      (socket_id : Str) (t : ℤ) (acc : Account J) (o : Option (Account J))
      → Keeps (Valid J) (Expressions.tell_allowed J socket_id t acc o)
  unfolding Expressions.tell_allowed
  Keeps-tell_allowed socket_id t acc none = Keeps-done (Valid J)
  Keeps-tell_allowed socket_id t acc (some a) = search (message_rules, Keeps-lift)

  Keeps-allow_if :
      (socket_id : Str) (o : Option ℤ) → Keeps (Valid J) (Expressions.allow_if J socket_id o)
  unfolding Expressions.allow_if
  Keeps-allow_if socket_id none = Keeps-done (Valid J)
  Keeps-allow_if socket_id (some t) =
      search (member_rules, message_rules, Keeps-tell_allowed) depth 9

  pub Keeps-allow_item :
      (socket_id : Str) (json : J.Json)
      → Keeps (Valid J) (Expressions.chat_room_allow_item J socket_id json)
  unfolding Expressions.chat_room_allow_item
  Keeps-allow_item socket_id json = Keeps-allow_if socket_id _
