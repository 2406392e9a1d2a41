-- ===== src/Chat/Create/Keeps.antt =====
-- `chat_room_create` (chatroom_manager.cpp) keeps the rooms valid.
use studio_bondage_club.Prelude.{
  ◌≡◌, refl, Bool, true, false, not, Option, none, some, List, [], ◌∷◌, Str, ℤ, any, map, codes,
  str_eq, arith, Keeps, Keeps->>, Keeps-if, Keeps-done, Keeps-lift, Ensures, Ensures->>=,
  Ensures->>, Ensures-modify->>, Option-cases, Bool-cases, str_eq_sym, ◌||◌, ap, sym, ◌∙◌, modify,
  ◌>>◌, if◌then◌else◌, inl, inr,
}
use studio_bondage_club.Json.{JsonLib, field?}
use studio_bondage_club.Chat.State.{
  Account, ChatRoom, Game, account_for, environment, account_name, modify_account, in_room,
  join_socket, socket_room, member_number, send,
}
use studio_bondage_club.Chat.Leave.{when_socket}
use studio_bondage_club.Chat.Sync.{sync}
use studio_bondage_club.Chat.Names.{Settings, upper_trim}
use studio_bondage_club.Chat.Roles.{has_str_in}
use studio_bondage_club.Chat.Create
use studio_bondage_club.Chat.Create.{RoomRequest}
use studio_bondage_club.Chat.Leave.Keeps.{OnRooms, Keeps-room_remove_locked, Keeps-modify_account}
use studio_bondage_club.Chat.Sync.Frame
use studio_bondage_club.Chat.Valid.{IsValid, room_id, room_key, is_sound, same, append-IsValid}
use studio_bondage_club.Chat.Valid.Leaving.{IsOpenFor, Survives-IsOpenFor}

module _ (J : JsonLib) where
  -- A list of roles and the flag that is derived from it.
  abbrev pub Agree : List J.Json × Bool → Type 0
  Agree x = same x.1 (not (has_str_in J x.0 (codes "All"))) ≡ true

  one_role : (role other : Str) → has_str_in J (J.of_str role ∷ []) other ≡ str_eq role other
  unfolding has_str_in
  one_role role other = ground (arith, J.str?-of_str role)

  two_roles :
      (a b other : Str)
      → str_eq a other ≡ false
      → str_eq b other ≡ false
      → has_str_in J (J.of_str a ∷ J.of_str b ∷ []) other ≡ false
  unfolding has_str_in
  two_roles a b other h k = ground (arith, J.str?-of_str a, J.str?-of_str b)

  pub privacy-Agree :
      (v : Option (List J.Json)) (p : Option Bool) {x : List J.Json × Bool}
      → Create.privacy J v p ≡ some x
      → Agree x
  unfolding Create.privacy str_eq
  privacy-Agree (some v) none e = ground arith
  privacy-Agree none (some true) e = ground (arith, one_role (codes "Admin") (codes "All"))
  privacy-Agree none (some false) e = ground (arith, one_role (codes "All") (codes "All"))
  privacy-Agree none none e = cc
  privacy-Agree (some v) (some p) e = cc

  pub lock_state-Agree :
      (a : Option (List J.Json)) (l : Option Bool) {x : List J.Json × Bool}
      → Create.lock_state J a l ≡ some x
      → Agree x
  unfolding Create.lock_state str_eq
  lock_state-Agree (some a) none e = ground arith
  lock_state-Agree none (some true) e =
      ground (arith, two_roles (codes "Admin") (codes "Whitelist") (codes "All") refl refl)
  lock_state-Agree none (some false) e = ground (arith, one_role (codes "All") (codes "All"))
  lock_state-Agree none none e = ground (arith, one_role (codes "All") (codes "All"))
  lock_state-Agree (some a) (some l) e = cc

  create_request-Agree :
      (cfg : Settings) (json : J.Json) {r : RoomRequest J}
      → Create.create_request J cfg json ≡ some r
      → Agree r.visible × Agree r.lock
  unfolding Create.create_request
  create_request-Agree cfg json e =
      elim (Option-cases
        (Create.privacy J (field? J J.arr? "Visibility" json) (field? J J.bool? "Private" json))) [
          | inl bad ↦ ground arith
          | inr (x, visible) ↦
              elim (Option-cases (
                Create.lock_state J (field? J J.arr? "Access" json)
                  (field? J J.bool? "Locked" json))) [
                    | inl bad ↦ ground arith
                    | inr (y, lock) ↦
                        ground (arith, privacy-Agree _ _ visible, lock_state-Agree _ _ lock)
                  ]
        ]

  -- The room that a valid request opens is sound.
  new_room-is_sound :
      (cfg : Settings) (json : J.Json) (r : RoomRequest J) (acc : Account J)
      (environ creator i : Str) (now : ℤ)
      → Agree r.visible
      → Agree r.lock
      → is_sound J (record {
        id = i;
        props = Create.new_room_data J cfg json r acc environ creator now;
        accounts = acc.id ∷ [];
      })
        ≡ true
  unfolding is_sound Create.new_room_data
  new_room-is_sound cfg json r acc environ creator i now v l = ground (arith, v, l)

  module _ (cfg : Settings) (json : J.Json) (r : RoomRequest J) (i : Str) (now : ℤ)
      (agree : Agree r.visible × Agree r.lock) where
    abbrev Open : Game J → Type 0
    Open = OnRooms J (IsOpenFor J i (upper_trim r.name))

    abbrev Valid : Game J → Type 0
    Valid = OnRooms J (IsValid J)

    add_room-IsValid :
        (acc : Account J) (environ creator : Str) (g : Game J)
        → Open g
        → Valid (
            Create.add_room J
              (record {
                id = i;
                props = Create.new_room_data J cfg json r acc environ creator now;
                accounts = acc.id ∷ [];
              })
              g)
    unfolding Create.new_room_data
    add_room-IsValid acc environ creator g o =
        append-IsValid J g.rooms _ o.valid o.new_id o.new_name
          (new_room-is_sound cfg json r acc environ creator i now agree.0 agree.1)

    -- The rest sends messages.
    welcome :
        (acc : Account J) (room : ChatRoom J)
        → Keeps Valid (
            modify (modify_account J acc.id (in_room J (some i)))
            >> (when_socket J acc (join_socket acc.id (socket_room J room))
                >> (Create.reply J acc.id "ChatRoomCreateResponse" "ChatRoomCreated"
                    >> sync J room (member_number J acc))))
    welcome acc room =
        Keeps->> Valid (Keeps-modify_account J (IsValid J) acc.id (in_room J (some i))) (
          Keeps->> Valid (Keeps-if Valid acc.socket (Frame.Keeps-emits J _ _) (Keeps-done Valid))
            (Keeps->> Valid (Frame.Keeps-emits J _ _) (Frame.Keeps-sync J _ room _)))

    open_room-IsValid :
        (acc : Account J) → Ensures Open Valid (Create.open_room J cfg json r acc i now)
    unfolding Create.open_room
    open_room-IsValid acc =
        Ensures->> Open Valid (λ g o. o.valid)
          (Keeps-room_remove_locked J (IsOpenFor J i (upper_trim r.name))
            (Survives-IsOpenFor J i (upper_trim r.name)) acc _ _)
          (Ensures->>= Open Valid (λ g o. o.valid) (Keeps-lift Open (environment J acc))
            λ environ.
              Ensures->>= Open Valid (λ g o. o.valid) (Keeps-lift Open (account_name J acc))
                λ creator.
                  Ensures-modify->> Open Valid (add_room-IsValid acc environ creator)
                    (welcome acc _))

  name_taken-eq_any :
      (name : Str) (rooms : List (ChatRoom J))
      → Create.name_taken J name rooms ≡ any (str_eq (upper_trim name)) (map (room_key J) rooms)
  unfolding Create.name_taken
  name_taken-eq_any name [] = refl
  name_taken-eq_any name (r ∷ rooms) = rw (str_eq_sym (upper_trim r.props.name) (upper_trim name)) (
      ap (◌||◌ (str_eq (upper_trim name) (upper_trim r.props.name))) (name_taken-eq_any name rooms))

  module _ (cfg : Settings) (json : J.Json) (i : Str) (now : ℤ) (socket_id : Str) (g : Game J)
      (v : IsValid J g.rooms) (new_id : any (str_eq i) (map (room_id J) g.rooms) ≡ false) where
    create_for-IsValid :
        (r : RoomRequest J) (o : Option (Account J))
        → Agree r.visible × Agree r.lock
        → IsValid J (Create.create_for J cfg json r i now socket_id o g).1.rooms
    unfolding Create.create_for send
    create_for-IsValid r none a = v
    create_for-IsValid r (some acc) a = elim (Bool-cases (Create.name_taken J r.name g.rooms)) [
      | inl taken ↦ rw taken v
      | inr free ↦ rw free (
          (open_room-IsValid cfg json r i now a acc).ensures g (record {
            valid = v;
            new_id = new_id;
            new_name = sym (name_taken-eq_any r.name g.rooms) ∙ free;
          }))
    ]

    create_if_valid-IsValid :
        (o : Option (RoomRequest J))
        → ((r : RoomRequest J) → o ≡ some r → Agree r.visible × Agree r.lock)
        → IsValid J (Create.create_if_valid J cfg json i now socket_id o g).1.rooms
    unfolding Create.create_if_valid send
    create_if_valid-IsValid none a = v
    create_if_valid-IsValid (some r) a = create_for-IsValid r (account_for J socket_id g) (a r refl)

    validated : Bool → Option (RoomRequest J)
    validated b = if b then Create.create_request J cfg json else none

    validated-Agree :
        (b : Bool) (r : RoomRequest J) → validated b ≡ some r → Agree r.visible × Agree r.lock
    unfolding validated
    validated-Agree true r e = create_request-Agree cfg json e
    validated-Agree false r e = cc

    -- `chat_room_create` keeps the rooms valid, on every branch, if the session id drawn for the new
    -- room is new.
    pub chat_room_create-IsValid :
        IsValid J (Create.chat_room_create J cfg i now socket_id json g).1.rooms
    unfolding Create.chat_room_create validated
    chat_room_create-IsValid =
        create_if_valid-IsValid (validated (J.is_object json)) (validated-Agree (J.is_object json))
