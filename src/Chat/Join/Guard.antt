-- ===== src/Chat/Join/Guard.antt =====
-- Who may enter a room through `chat_room_join` (chatroom_manager.cpp).
use studio_bondage_club.Prelude.{
  ◌≡◌, refl, ap, ◌∙◌, ◌⊎◌, inl, inr, Bool, true, false, Option, none, some, [], ◌∷◌, String, Str,
  pos, arith, leb_ℤ, length, find_if, str_eq, str_eq_iff, if◌then◌else◌, Bool-cases, Option-cases,
}
use studio_bondage_club.Json.{JsonLib, field?}
use studio_bondage_club.Chat.Join
use studio_bondage_club.Chat.Join.{refusal, chat_room_join}
use studio_bondage_club.Chat.Names.{upper_trim}
use studio_bondage_club.Chat.Roles.{has_member_in, account_has_any_role}
use studio_bondage_club.Chat.State.{
  Account, ChatRoom, Game, account_for, environment, member_number, send,
}

module _ (J : JsonLib) where
  -- No account and no room is changed.
  pub record IsUnchanged (g h : Game J) : Type 0 where
    pub accounts_kept : h.accounts ≡ g.accounts
    pub rooms_kept : h.rooms ≡ g.rooms

  -- The account on the socket may enter a room of the wanted name.
  pub record Admits (socket_id : Str) (json : J.Json) (g : Game J) : Type 0 where
    pub acc : Account J
    pub room : ChatRoom J
    pub name : Str
    pub wanted : field? J J.str? "Name" json ≡ some name
    pub logged_in : account_for J socket_id g ≡ some acc
    pub found :
        find_if (λ r. str_eq (upper_trim r.props.name) (upper_trim name)) g.rooms ≡ some room
    pub same_environment : environment J acc ≡ some room.props.environment
    pub not_full : leb_ℤ room.props.limit (pos (length room.accounts)) ≡ false
    pub not_banned : has_member_in J room.props.ban (member_number J acc) ≡ false
    pub has_role : account_has_any_role J acc room room.props.access ≡ true

  record Open (acc : Account J) (room : ChatRoom J) : Type 0 where
    pub not_full : leb_ℤ room.props.limit (pos (length room.accounts)) ≡ false
    pub not_banned : has_member_in J room.props.ban (member_number J acc) ≡ false
    pub has_role : account_has_any_role J acc room room.props.access ≡ true

  refusal-none : (acc : Account J) (room : ChatRoom J) → refusal J acc room ≡ none → Open acc room
  unfolding refusal
  refusal-none acc room e = record {
    not_full = ground arith;
    not_banned = ground arith;
    has_role = ground arith;
  }

  reply-IsUnchanged :
      (i : Str) (event text : String) (g : Game J) → IsUnchanged g (Join.reply J i event text g).1
  unfolding send
  reply-IsUnchanged i event text g = record { accounts_kept = refl; rooms_kept = refl }

  decide-cases :
      (i : Str) (acc : Account J) (room : ChatRoom J) (o : Option String) (g : Game J)
      → refusal J acc room ≡ o
      → IsUnchanged g (Join.decide J i acc room o g).1 ⊎ Open acc room
  unfolding Join.decide
  decide-cases i acc room none g e = inr (refusal-none acc room e)
  decide-cases i acc room (some why) g e = inl (reply-IsUnchanged i "ChatRoomSearchResponse" why g)

  join_found-cases :
      (i : Str) (acc : Account J) (o : Option (ChatRoom J)) (g : Game J)
      → IsUnchanged g (Join.join_found J i acc o g).1
        ⊎ (room : ChatRoom J) × (o ≡ some room)
          × (environment J acc ≡ some room.props.environment)
          × Open acc room
  unfolding Join.join_found
  join_found-cases i acc none g =
      inl (reply-IsUnchanged i "ChatRoomSearchResponse" "CannotFindRoom" g)
  join_found-cases i acc (some room) g = elim (Option-cases (environment J acc)) [
    | inl e ↦ inl (rw e (record { accounts_kept = refl; rooms_kept = refl }))
    | inr (environ, e) ↦ elim (Bool-cases (str_eq environ room.props.environment)) [
      | inl same ↦ elim (decide-cases i acc room (refusal J acc room) g refl) [
        | inl kept ↦ inl (rw (e, same) kept)
        | inr o ↦
            inr (room, refl, e ∙ ap some ((str_eq_iff environ room.props.environment).0 same), o)
      ]
      | inr other ↦
          inl (rw (e, other) (reply-IsUnchanged i "ChatRoomSearchResponse" "CannotFindRoom" g))
    ]
  ]

  join_for-cases :
      (i name : Str) (json : J.Json) (o : Option (Account J)) (g : Game J)
      → field? J J.str? "Name" json ≡ some name
      → account_for J i g ≡ o
      → IsUnchanged g (Join.join_for J i name o g).1 ⊎ Admits i json g
  unfolding Join.join_for Join.find_named
  join_for-cases i name json none g w e =
      inl (reply-IsUnchanged i "ChatRoomSearchResponse" "AccountError" g)
  join_for-cases i name json (some acc) g w e =
      elim (join_found-cases i acc (Join.find_named J (upper_trim name) g.rooms) g) [
        | inl kept ↦ inl kept
        | inr (room, f, same, o) ↦ inr (record {
          acc = acc;
          room = room;
          name = name;
          wanted = w;
          logged_in = e;
          found = f;
          same_environment = same;
          not_full = o.not_full;
          not_banned = o.not_banned;
          has_role = o.has_role;
        })
      ]

  join_if_valid-cases :
      (i : Str) (json : J.Json) (o : Option Str) (g : Game J)
      → ((name : Str) → o ≡ some name → field? J J.str? "Name" json ≡ some name)
      → IsUnchanged g (Join.join_if_valid J i o g).1 ⊎ Admits i json g
  unfolding Join.join_if_valid
  join_if_valid-cases i json none g w =
      inl (reply-IsUnchanged i "ChatRoomSearchResponse" "InvalidRoomData" g)
  join_if_valid-cases i json (some name) g w =
      join_for-cases i name json (account_for J i g) g (w name refl) refl

  named-some : (o : Option Str) (name : Str) → Join.named J o ≡ some name → o ≡ some name
  unfolding Join.named
  named-some none name e = e
  named-some (some []) name e = cc
  named-some (some (c ∷ s)) name e = e

  wanted_if : Bool → J.Json → Option Str
  wanted_if b json = if b then Join.named J (field? J J.str? "Name" json) else none

  wanted_if-some :
      (b : Bool) (json : J.Json) (name : Str)
      → wanted_if b json ≡ some name
      → field? J J.str? "Name" json ≡ some name
  unfolding wanted_if
  wanted_if-some true json name e = named-some _ name e
  wanted_if-some false json name e = cc

  -- A request to join a room changes no account and no room, unless the account on the socket is logged
  -- in and the first room of the wanted name is in the account's environment, is not full, has not
  -- banned the account, and gives it one of the roles for access.
  pub chat_room_join-cases :
      (socket_id : Str) (json : J.Json) (g : Game J)
      → IsUnchanged g (chat_room_join J socket_id json g).1 ⊎ Admits socket_id json g
  unfolding chat_room_join wanted_if
  chat_room_join-cases socket_id json g =
      join_if_valid-cases socket_id json (wanted_if (J.is_object json) json) g
        (wanted_if-some (J.is_object json) json)
