-- ===== src/Chat/Leave/Keeps.antt =====
-- What `room_remove_locked` (chatroom_manager.cpp) keeps of the list of rooms.
use studio_bondage_club.Prelude.{
  ◌≡◌, refl, Bool, true, false, inl, inr, Option, none, some, List, [], ◌∷◌, Str, reject, find_if,
  str_eq, str_eq_iff, arith, Keeps, ◌>>◌, done, if◌then◌else◌, Keeps->>=, Keeps->>, Keeps-pure,
  Keeps-modify, Bool-cases, is_nil, modify,
}
use studio_bondage_club.Json.{JsonLib}
use studio_bondage_club.Chat.State.{
  Account, ChatRoom, Game, modify_account, modify_room, room_of, send, Effect,
}
use studio_bondage_club.Chat.Valid.{replaced}
use studio_bondage_club.Chat.Leave
use studio_bondage_club.Chat.Sync.{emits}
use studio_bondage_club.Chat.Sync.Frame
use studio_bondage_club.Chat.Sync.Frame.{Of}

pub found_id :
    (J : JsonLib) (i : Str) (room : ChatRoom J) (rooms : List (ChatRoom J))
    → find_if (λ r. str_eq r.id i) rooms ≡ some room
    → room.id ≡ i
found_id J i room [] e = cc
found_id J i room (r ∷ rooms) e = ground (arith, str_eq_iff r.id i, found_id J i room rooms)

-- A property of the rooms that survives a member's leaving, and the end of a room.
pub record Survives (J : JsonLib) (Q : List (ChatRoom J) → Type 0) : Type 0 where
  pub leaving :
      (acc : Account J) (i : Str) (room : ChatRoom J) (rooms : List (ChatRoom J))
      → find_if (λ r. str_eq r.id i) rooms ≡ some room
      → is_nil (Leave.without J acc room).accounts ≡ false
      → Q rooms
      → Q (replaced J room.id (Leave.without J acc) rooms)
  pub closing :
      (acc : Account J) (i : Str) (rooms : List (ChatRoom J))
      → Q rooms
      → Q (reject (λ r. str_eq r.id i) (replaced J i (Leave.without J acc) rooms))

module _ (J : JsonLib) (Q : List (ChatRoom J) → Type 0) where
  abbrev pub OnRooms : Game J → Type 0
  OnRooms = Of J (λ _ _ rooms. Q rooms)

  pub Keeps-modify_account :
      (i : Str) (f : Account J → Account J) → Keeps OnRooms (modify (modify_account J i f))
  unfolding modify_account
  Keeps-modify_account i f = Keeps-modify OnRooms (modify_account J i f) (λ s h. h)

  Keeps-dictionary_or :
      (dict : List J.Json) (acc : Account J) → Keeps OnRooms (Leave.dictionary_or J dict acc)
  unfolding Leave.dictionary_or
  Keeps-dictionary_or [] acc = Frame.Keeps-source_dict J _ acc
  Keeps-dictionary_or (d ∷ ds) acc = Keeps-pure OnRooms _

  Keeps-announce_leave :
      (room : ChatRoom J) (acc : Account J) (reason : Str) (dict : List J.Json)
      → Keeps OnRooms (Leave.announce_leave J room acc reason dict)
  unfolding Leave.announce_leave
  Keeps-announce_leave room acc reason dict = search (
    Keeps->>=, Keeps->>, Keeps-dictionary_or, Frame.Keeps-chat_room_message,
    Frame.Keeps-sync_member_leave, Keeps-modify_account,
  )

  module _ (s : Survives J Q) (acc : Account J) (reason : Str) (dict : List J.Json) where
    settle-rooms :
        (room : ChatRoom J) (g : Game J)
        → (is_nil (Leave.without J acc room).accounts ≡ false → Q g.rooms)
        → Q (reject (λ r. str_eq r.id room.id) g.rooms)
        → Q (Leave.settle J acc reason dict room g).1.rooms
    unfolding Leave.settle modify_account
    settle-rooms room g stays closes =
        elim (Bool-cases (is_nil (Leave.without J acc room).accounts)) [
          | inl empty ↦ rw empty closes
          | inr kept ↦ rw kept (
              (Keeps-announce_leave (Leave.without J acc room) acc reason dict).keeps g
                (stays kept))
        ]

    vacate-rooms :
        (i : Str) (room : ChatRoom J) (g : Game J)
        → find_if (λ r. str_eq r.id i) g.rooms ≡ some room
        → Q g.rooms
        → Q (Leave.vacate J acc reason dict room g).1.rooms
    unfolding Leave.vacate modify_room
    vacate-rooms i room g e q =
        settle-rooms room (modify_room J room.id (Leave.without J acc) g)
          (λ kept. s.leaving acc i room g.rooms e kept q) (s.closing acc room.id g.rooms q)

    -- The account may have a socket to tell, or none.
    told-rooms :
        (b : Bool) (x : Effect J) (i : Str) (room : ChatRoom J) (g : Game J)
        → find_if (λ r. str_eq r.id i) g.rooms ≡ some room
        → Q g.rooms
        → Q (((if b then emits J x else done) >> Leave.vacate J acc reason dict room) g).1.rooms
    unfolding send
    told-rooms true x i room g e q = vacate-rooms i room (send J x g) e q
    told-rooms false x i room g e q = vacate-rooms i room g e q

    remove_from-rooms :
        (i : Str) (room : ChatRoom J) (g : Game J)
        → find_if (λ r. str_eq r.id i) g.rooms ≡ some room
        → Q g.rooms
        → Q (Leave.remove_from J acc reason dict room g).1.rooms
    unfolding Leave.remove_from
    remove_from-rooms i room g e q = told-rooms acc.socket _ i room g e q

    remove_found-rooms :
        (i : Str) (o : Option (ChatRoom J)) (g : Game J)
        → find_if (λ r. str_eq r.id i) g.rooms ≡ o
        → Q g.rooms
        → Q (Leave.remove_found J acc reason dict o g).1.rooms
    unfolding Leave.remove_found
    remove_found-rooms i none g e q = q
    remove_found-rooms i (some room) g e q = remove_from-rooms i room g e q

    remove_pointer-rooms :
        (p : Option Str) (g : Game J)
        → Q g.rooms
        → Q (Leave.remove_pointer J acc reason dict p g).1.rooms
    unfolding Leave.remove_pointer room_of
    remove_pointer-rooms none g q = q
    remove_pointer-rooms (some i) g q = remove_found-rooms i (room_of J (some i) g) g refl q

    -- Whoever leaves, such a property holds of the rooms afterwards.
    pub Keeps-room_remove_locked : Keeps OnRooms (Leave.room_remove_locked J acc reason dict)
    unfolding Leave.room_remove_locked
    Keeps-room_remove_locked = record { keeps = λ g q. remove_pointer-rooms acc.chat_room g q }
