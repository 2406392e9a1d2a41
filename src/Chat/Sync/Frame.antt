-- ===== src/Chat/Sync/Frame.antt =====
-- The broadcasts of chatroom_manager.cpp send messages and change neither accounts nor rooms.
use studio_bondage_club.Prelude.{
  Option, none, some, List, [], ◌∷◌, String, Str, ℤ, Keeps, Keeps-lift->>=, Keeps-get, Keeps-done,
  Keeps-if, Keeps->>, Keeps->>=, Keeps-pure, Keeps-lift, Keeps-modify,
}
use studio_bondage_club.Json.{JsonLib, value_arr}
use studio_bondage_club.Chat.State.{Account, ChatRoom, Game, Effect, send}
use studio_bondage_club.Chat.Roles.{should_send_blacklist}
use studio_bondage_club.Chat.Sync

module _ (J : JsonLib) (Q : List (Account J) → List Str → List (ChatRoom J) → Type 0) where
  -- A property of the accounts, the sockets and the rooms.
  abbrev pub Of : Game J → Type 0
  Of g = Q g.accounts g.by_socket g.rooms

  pub Keeps-emits : (e : Effect J) → Keeps Of (Sync.emits J e)
  unfolding send
  Keeps-emits e = Keeps-modify Of (send J e) (λ s h. h)

  pub Keeps-char_shared_data :
      (acc : Account J) (ms : List (Account J)) → Keeps Of (Sync.char_shared_data J acc ms)
  unfolding Sync.char_shared_data
  Keeps-char_shared_data acc ms = search (Keeps->>=, Keeps-lift, Keeps-pure)

  Keeps-all_shared : (ms as' : List (Account J)) → Keeps Of (Sync.all_shared J ms as')
  unfolding Sync.all_shared
  Keeps-all_shared ms [] = Keeps-pure Of []
  Keeps-all_shared ms (a ∷ as') =
      Keeps->>= Of (Keeps-char_shared_data a ms)
        λ c. Keeps->>= Of (Keeps-all_shared ms as') λ cs. Keeps-pure Of (c ∷ cs)

  Keeps-room_data : (room : ChatRoom J) (n : ℤ) → Keeps Of (Sync.room_data J room n)
  unfolding Sync.room_data
  Keeps-room_data room n = search (Keeps->>=, Keeps-get, Keeps-pure, Keeps-all_shared)

  pub Keeps-sync : (room : ChatRoom J) (n : ℤ) → Keeps Of (Sync.sync J room n)
  unfolding Sync.sync
  Keeps-sync room n = search (Keeps->>=, Keeps-room_data, Keeps-emits)

  Keeps-sync_to :
      (room : ChatRoom J) (n : ℤ) (a : Option (Account J)) → Keeps Of (Sync.sync_to J room n a)
  unfolding Sync.sync_to
  Keeps-sync_to room n none = Keeps-done Of
  Keeps-sync_to room n (some a) =
      search (Keeps-if, Keeps->>=, Keeps-room_data, Keeps-emits, Keeps-done)

  Keeps-sync_to_member : (room : ChatRoom J) (n m : ℤ) → Keeps Of (Sync.sync_to_member J room n m)
  unfolding Sync.sync_to_member
  Keeps-sync_to_member room n m = search (Keeps->>=, Keeps-get, Keeps-sync_to)

  Keeps-whitelisted_by : (n : ℤ) (bs : List (Account J)) → Keeps Of (Sync.whitelisted_by J n bs)
  unfolding Sync.whitelisted_by
  Keeps-whitelisted_by n [] = Keeps-pure Of []
  Keeps-whitelisted_by n (b ∷ bs) =
      Keeps-lift->>= Of (value_arr J "WhiteList" b.fields)
        λ w. Keeps->>= Of (Keeps-whitelisted_by n bs) λ r. Keeps-pure Of _

  Keeps-blacklisted_by : (n : ℤ) (bs : List (Account J)) → Keeps Of (Sync.blacklisted_by J n bs)
  unfolding Sync.blacklisted_by
  Keeps-blacklisted_by n [] = Keeps-pure Of []
  Keeps-blacklisted_by n (b ∷ bs) = Keeps-lift->>= Of (should_send_blacklist J b) λ s.
      Keeps-lift->>= Of (value_arr J "BlackList" b.fields)
        λ w. Keeps->>= Of (Keeps-blacklisted_by n bs) λ r. Keeps-pure Of _

  pub Keeps-sync_member_join :
      (room : ChatRoom J) (acc : Account J) → Keeps Of (Sync.sync_member_join J room acc)
  unfolding Sync.sync_member_join
  Keeps-sync_member_join room acc =
      search
        (
          Keeps->>=, Keeps->>, Keeps-get, Keeps-char_shared_data, Keeps-whitelisted_by,
          Keeps-blacklisted_by, Keeps-emits, Keeps-sync_to_member,
        )
        depth 9

  pub Keeps-sync_member_leave :
      (room : ChatRoom J) (n : ℤ) → Keeps Of (Sync.sync_member_leave J room n)
  unfolding Sync.sync_member_leave
  Keeps-sync_member_leave room n = Keeps-emits _

  Keeps-sync_single_in :
      (acc : Account J) (n : ℤ) (room : Option (ChatRoom J))
      → Keeps Of (Sync.sync_single_in J acc n room)
  unfolding Sync.sync_single_in
  Keeps-sync_single_in acc n none = Keeps-done Of
  Keeps-sync_single_in acc n (some room) =
      search (Keeps->>=, Keeps-get, Keeps-char_shared_data, Keeps-emits)

  pub Keeps-sync_single : (acc : Account J) (n : ℤ) → Keeps Of (Sync.sync_single J acc n)
  unfolding Sync.sync_single
  Keeps-sync_single acc n = search (Keeps->>=, Keeps-get, Keeps-sync_single_in)

  Keeps-message_to : (msg : J.Json) (a : Option (Account J)) → Keeps Of (Sync.message_to J msg a)
  unfolding Sync.message_to
  Keeps-message_to msg none = Keeps-done Of
  Keeps-message_to msg (some a) = search (Keeps-if, Keeps-emits, Keeps-done)

  Keeps-message_to_number :
      (room : ChatRoom J) (msg : J.Json) (n : Option ℤ)
      → Keeps Of (Sync.message_to_number J room msg n)
  unfolding Sync.message_to_number
  Keeps-message_to_number room msg none = Keeps-done Of
  Keeps-message_to_number room msg (some n) = search (Keeps->>=, Keeps-get, Keeps-message_to)

  pub Keeps-chat_room_message :
      (room : ChatRoom J) (n : ℤ) (content kind : Str) (target dictionary : J.Json)
      → Keeps Of (Sync.chat_room_message J room n content kind target dictionary)
  unfolding Sync.chat_room_message
  Keeps-chat_room_message room n content kind target dictionary =
      Keeps-if Of _ (Keeps-emits _) (Keeps-message_to_number room _ _)

  pub Keeps-sync_room_properties :
      (room : ChatRoom J) (n : ℤ) → Keeps Of (Sync.sync_room_properties J room n)
  unfolding Sync.sync_room_properties
  Keeps-sync_room_properties room n = Keeps-emits _

  pub Keeps-sync_reorder_players :
      (room : ChatRoom J) (n : ℤ) → Keeps Of (Sync.sync_reorder_players J room n)
  unfolding Sync.sync_reorder_players
  Keeps-sync_reorder_players room n = search (Keeps->>=, Keeps-get, Keeps-emits)

  pub Keeps-tag_character :
      (tag : String) (acc : Account J) → Keeps Of (Sync.tag_character J tag acc)
  unfolding Sync.tag_character
  Keeps-tag_character tag acc = search (Keeps->>=, Keeps-lift, Keeps-pure)

  pub Keeps-source_dict : (acc : Account J) → Keeps Of (Sync.source_dict J acc)
  unfolding Sync.source_dict
  Keeps-source_dict acc = search (Keeps->>=, Keeps-tag_character, Keeps-pure)

-- For `search`: every handler that only sends.
pub ruleset message_rules = (
  Keeps->>=, Keeps->>, Keeps-if, Keeps-done, Keeps-get, Keeps-pure, Keeps-emits, Keeps-sync,
  Keeps-sync_member_join, Keeps-sync_member_leave, Keeps-sync_single, Keeps-chat_room_message,
  Keeps-sync_room_properties, Keeps-sync_reorder_players, Keeps-tag_character, Keeps-source_dict,
)
