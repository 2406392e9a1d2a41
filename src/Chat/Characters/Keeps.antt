-- ===== src/Chat/Characters/Keeps.antt =====
-- The handlers of a member's chat, game and clothes (chatroom_manager.cpp) keep the rooms valid.
use studio_bondage_club.Prelude.{
  ◌≡◌, Bool, true, false, Option, none, some, List, Str, find_if, sym, str_eq, M, Keeps, Keeps-get,
  Keeps-done, Keeps-if, Keeps->>=, Keeps-lift, inl, inr, Option-cases,
}
use mathlib.Core.Path.{subst}
use studio_bondage_club.Json.{JsonLib}
use studio_bondage_club.Chat.State.{Account, ChatRoom, Game, room_of, account_for}
use studio_bondage_club.Chat.Characters
use studio_bondage_club.Chat.Join.Keeps.{Valid}
use studio_bondage_club.Chat.Leave.Keeps.{found_id, Keeps-modify_account}
use studio_bondage_club.Chat.Roles.{get_allow_item}
use studio_bondage_club.Chat.Sync.Frame.{message_rules}
use studio_bondage_club.Chat.Valid.{IsValid}

module _ (J : JsonLib) where
  -- A member's room is the one that its id finds.
  room_of-found :
      (o : Option Str) (g : Game J) (room : ChatRoom J)
      → room_of J o g ≡ some room
      → find_if (λ r. str_eq r.id room.id) g.rooms ≡ some room
  unfolding room_of
  room_of-found none g room e = cc
  room_of-found (some i) g room e =
      subst (λ j. find_if (λ r. str_eq r.id j) g.rooms ≡ some room)
        (sym (found_id J i room g.rooms e)) e

  -- What runs for a member in its room.
  pub as_member-IsValid :
      (socket_id : Str) (k : Account J → ChatRoom J → Game J → Option (Unit {0}) × Game J)
      (g : Game J)
      → ((acc : Account J) (room : ChatRoom J)
          → find_if (λ r. str_eq r.id room.id) g.rooms ≡ some room
          → IsValid J (k acc room g).1.rooms)
      → IsValid J g.rooms
      → IsValid J (Characters.as_member J socket_id k g).1.rooms
  unfolding Characters.as_member Characters.in_room_as Characters.in_room_of
  as_member-IsValid socket_id k g h v = elim (Option-cases (account_for J socket_id g)) [
    | inl e ↦ rw e v
    | inr (acc, e) ↦ rw e (elim (Option-cases (room_of J acc.chat_room g)) [
      | inl e' ↦ rw e' v
      | inr (room, e') ↦ rw e' (h acc room (room_of-found acc.chat_room g room e'))
    ])
  ]

  pub Keeps-as_member :
      (socket_id : Str) (k : Account J → ChatRoom J → M (Game J) (Unit {0}))
      → ((acc : Account J) (room : ChatRoom J) → Keeps (Valid J) (k acc room))
      → Keeps (Valid J) (Characters.as_member J socket_id k)
  Keeps-as_member socket_id k h = record {
    keeps = λ g v. as_member-IsValid socket_id k g (λ acc room e. (h acc room).keeps g v) v;
  }

  Keeps-say :
      (socket_id : Str) (json : J.Json) (o : Option (Str × Str))
      → Keeps (Valid J) (Characters.say J socket_id json o)
  unfolding Characters.say
  Keeps-say socket_id json none = Keeps-done (Valid J)
  Keeps-say socket_id json (some (content, kind)) = search (Keeps-as_member, message_rules)

  pub Keeps-chat_room_chat :
      (socket_id : Str) (json : J.Json)
      → Keeps (Valid J) (Characters.chat_room_chat J socket_id json)
  unfolding Characters.chat_room_chat
  Keeps-chat_room_chat socket_id json = search (Keeps-if, Keeps-say, Keeps-done)

  pub Keeps-chat_room_game :
      (rng : J.Json) (socket_id : Str) (json : J.Json)
      → Keeps (Valid J) (Characters.chat_room_game J rng socket_id json)
  unfolding Characters.chat_room_game
  Keeps-chat_room_game rng socket_id json = search (Keeps-as_member, message_rules)

  Keeps-dress_if :
      (acc target : Account J) (appearance : J.Json) (pose : Option J.Json) (b : Bool)
      → Keeps (Valid J) (Characters.dress_if J acc target appearance pose b)
  unfolding Characters.dress_if
  Keeps-dress_if acc target appearance pose false = Keeps-done (Valid J)
  Keeps-dress_if acc target appearance pose true = search (Keeps-modify_account, message_rules)

  Keeps-dress :
      (acc : Account J) (appearance : J.Json) (pose : Option J.Json) (o : Option (Account J))
      → Keeps (Valid J) (Characters.dress J acc appearance pose o)
  unfolding Characters.dress
  Keeps-dress acc appearance pose none = Keeps-done (Valid J)
  Keeps-dress acc appearance pose (some target) =
      Keeps->>= (Valid J) (Keeps-lift (Valid J) (get_allow_item J acc target))
        λ b. Keeps-dress_if acc target appearance pose b

  Keeps-update_character :
      (target_id : Str) (appearance : J.Json) (pose : Option J.Json) (acc : Account J)
      (room : ChatRoom J)
      → Keeps (Valid J) (Characters.update_character J target_id appearance pose acc room)
  unfolding Characters.update_character
  Keeps-update_character target_id appearance pose acc room =
      search (Keeps-dress, Keeps-if, Keeps-get, Keeps-done, Keeps->>=)

  Keeps-update_valid :
      (socket_id : Str) (json : J.Json) (t : Option Str) (a : Option (List J.Json))
      → Keeps (Valid J) (Characters.update_valid J socket_id json t a)
  unfolding Characters.update_valid
  Keeps-update_valid socket_id json (some t) (some a) =
      search (Keeps-if, Keeps-done, Keeps-as_member, Keeps-update_character)
  Keeps-update_valid socket_id json none a = Keeps-done (Valid J)
  Keeps-update_valid socket_id json (some t) none = Keeps-done (Valid J)

  pub Keeps-chat_room_character_update :
      (socket_id : Str) (json : J.Json)
      → Keeps (Valid J) (Characters.chat_room_character_update J socket_id json)
  unfolding Characters.chat_room_character_update
  Keeps-chat_room_character_update socket_id json =
      search (Keeps-if, Keeps-update_valid, Keeps-done)
