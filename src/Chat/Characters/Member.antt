-- ===== src/Chat/Characters/Member.antt =====
-- What runs only for a member of a room (`if (!acc || !acc->chat_room) return;` in
-- chatroom_manager.cpp).
use studio_bondage_club.Prelude.{◌≡◌, refl, ◌⊎◌, inl, inr, some, Str, M, Option-cases}
use studio_bondage_club.Json.{JsonLib}
use studio_bondage_club.Chat.Characters
use studio_bondage_club.Chat.State.{Account, ChatRoom, Game, account_for, room_of}

module _ (J : JsonLib) where
  -- The account that is logged in on the socket, and its room.
  pub record Member (socket_id : Str) (g : Game J) : Type 0 where
    pub acc : Account J
    pub room : ChatRoom J
    pub logged_in : account_for J socket_id g ≡ some acc
    pub in_room : room_of J acc.chat_room g ≡ some room

  pub as_member-cases :
      (socket_id : Str) (k : Account J → ChatRoom J → M (Game J) (Unit {0})) (g : Game J)
      → ((Characters.as_member J socket_id k g).1 ≡ g)
        ⊎ (m : Member socket_id g) × (Characters.as_member J socket_id k g ≡ k m.acc m.room g)
  unfolding Characters.as_member Characters.in_room_as Characters.in_room_of
  as_member-cases socket_id k g = elim (Option-cases (account_for J socket_id g)) [
    | inl e ↦ inl (rw e refl)
    | inr (acc, e) ↦ elim (Option-cases (room_of J acc.chat_room g)) [
      | inl e' ↦ inl (rw (e, e') refl)
      | inr (room, e') ↦
          inr (record { acc = acc; room = room; logged_in = e; in_room = e' }, rw (e, e') refl)
    ]
  ]
