-- ===== src/Chat/Join/Keeps.antt =====
-- `chat_room_join` and `chat_room_leave` (chatroom_manager.cpp) keep the rooms valid.
use studio_bondage_club.Prelude.{
  ◌≡◌, refl, false, Option, none, some, List, [], ◌∷◌, ◌++◌, String, Str, arith, is_nil, Keeps,
  Keeps->>=, Keeps-if, Keeps-done, Keeps-lift->>=, Keeps-get, Keeps-modify, modify,
}
use studio_bondage_club.Json.{JsonLib}
use studio_bondage_club.Chat.State.{Account, ChatRoom, Game, Effect, modify_room, environment}
use studio_bondage_club.Chat.Join
use studio_bondage_club.Chat.Leave
use studio_bondage_club.Chat.Leave.Keeps.{OnRooms, Keeps-room_remove_locked, Keeps-modify_account}
use studio_bondage_club.Chat.Sync.Frame
use studio_bondage_club.Chat.Sync.Frame.{message_rules}
use studio_bondage_club.Chat.Valid.{IsValid, IsMild, is_sound, replaced-IsValid}
use studio_bondage_club.Chat.Valid.Leaving.{Survives-IsValid}

module _ (J : JsonLib) where
  abbrev pub Valid : Game J → Type 0
  Valid = OnRooms J (IsValid J)

  -- A mild change of a room in place.
  pub Keeps-modify_room :
      (i : Str) (f : ChatRoom J → ChatRoom J)
      → IsMild J f
      → Keeps Valid (modify (modify_room J i f))
  unfolding modify_room
  Keeps-modify_room i f m =
      Keeps-modify Valid (modify_room J i f) (λ g v. replaced-IsValid J i f g.rooms m v)

  append_one-is_nil : (xs : List Str) (x : Str) → is_nil (xs ++ x ∷ []) ≡ false
  append_one-is_nil [] x = refl
  append_one-is_nil (y ∷ xs) x = refl

  with_member-IsMild : (acc : Account J) → IsMild J (Join.with_member J acc)
  unfolding is_sound
  with_member-IsMild acc = record {
    id_kept = λ r. refl;
    name_kept = λ r. refl;
    sound_kept = λ r h. ground (arith, append_one-is_nil r.accounts acc.id);
  }

  pub Keeps-leaving :
      (acc : Account J) (reason : Str) (dict : List J.Json)
      → Keeps Valid (Leave.room_remove_locked J acc reason dict)
  Keeps-leaving acc reason dict =
      Keeps-room_remove_locked J (IsValid J) (Survives-IsValid J) acc reason dict

  pub Keeps-reply : (i : Str) (event text : String) → Keeps Valid (Join.reply J i event text)
  Keeps-reply i event text = Frame.Keeps-emits J _ _

  pub Keeps-when_socket : (acc : Account J) (e : Effect J) → Keeps Valid (Join.when_socket J acc e)
  Keeps-when_socket acc e = Keeps-if Valid acc.socket (Frame.Keeps-emits J _ e) (Keeps-done Valid)

  Keeps-enter :
      (i : Str) (acc : Account J) (room : ChatRoom J) → Keeps Valid (Join.enter J i acc room)
  unfolding Join.enter
  Keeps-enter i acc room =
      search
        (
          message_rules, Keeps-leaving, Keeps-modify_account, Keeps-modify_room, with_member-IsMild,
          Keeps-when_socket, Keeps-reply,
        )
        depth 12

  Keeps-decide :
      (i : Str) (acc : Account J) (room : ChatRoom J) (o : Option String)
      → Keeps Valid (Join.decide J i acc room o)
  unfolding Join.decide
  Keeps-decide i acc room none = Keeps-enter i acc room
  Keeps-decide i acc room (some why) = search Keeps-reply

  Keeps-join_found :
      (i : Str) (acc : Account J) (o : Option (ChatRoom J))
      → Keeps Valid (Join.join_found J i acc o)
  unfolding Join.join_found
  Keeps-join_found i acc none = search Keeps-reply
  Keeps-join_found i acc (some room) =
      Keeps-lift->>= Valid (environment J acc) λ e. search (Keeps-if, Keeps-decide, Keeps-reply)

  Keeps-join_for : (i name : Str) (o : Option (Account J)) → Keeps Valid (Join.join_for J i name o)
  unfolding Join.join_for
  Keeps-join_for i name none = search Keeps-reply
  Keeps-join_for i name (some acc) = Keeps->>= Valid (Keeps-get Valid) λ g. Keeps-join_found i acc _

  Keeps-join_if_valid : (i : Str) (o : Option Str) → Keeps Valid (Join.join_if_valid J i o)
  unfolding Join.join_if_valid
  Keeps-join_if_valid i none = search Keeps-reply
  Keeps-join_if_valid i (some name) = Keeps->>= Valid (Keeps-get Valid) λ g. Keeps-join_for i name _

  pub Keeps-chat_room_join : (i : Str) (json : J.Json) → Keeps Valid (Join.chat_room_join J i json)
  unfolding Join.chat_room_join
  Keeps-chat_room_join i json = Keeps-join_if_valid i _

  Keeps-removed : (reason : Str) (o : Option (Account J)) → Keeps Valid (Leave.removed J reason o)
  unfolding Leave.removed
  Keeps-removed reason none = Keeps-done Valid
  Keeps-removed reason (some acc) = Keeps-leaving acc _ _

  pub Keeps-chat_room_leave : (i : Str) → Keeps Valid (Leave.chat_room_leave J i)
  unfolding Leave.chat_room_leave
  Keeps-chat_room_leave i = Keeps->>= Valid (Keeps-get Valid) λ g. Keeps-removed _ _
