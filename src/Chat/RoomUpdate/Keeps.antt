-- ===== src/Chat/RoomUpdate/Keeps.antt =====
-- The "Update" action of `chat_room_admin` (chatroom_manager.cpp) keeps the rooms valid.
use studio_bondage_club.Prelude.{
  ◌≡◌, refl, sym, ◌∙◌, ap, Bool, true, false, not, ◌&&◌, Option, none, some, List, [], ◌∷◌, Str, ℤ,
  arith, any, map, codes, str_eq, str_eq_iff, str_eq_sym, Keeps, Bool-cases, inl, inr, find_if,
}
use mathlib.Core.Path.{subst}
use studio_bondage_club.Json.{JsonLib, field?}
use studio_bondage_club.Chat.State.{Account, ChatRoom, Game, modify_room, send}
use studio_bondage_club.Chat.Names.{Settings, upper_trim}
use studio_bondage_club.Chat.Names.Upper.{upper_trim-upper_trim}
use studio_bondage_club.Chat.Create.{or_else, privacy, lock_state}
use studio_bondage_club.Chat.Create.Keeps.{Agree, privacy-Agree, lock_state-Agree}
use studio_bondage_club.Chat.RoomUpdate
use studio_bondage_club.Chat.RoomUpdate.{UpdateRequest}
use studio_bondage_club.Chat.Join.Keeps.{Valid, Keeps-reply}
use studio_bondage_club.Chat.Sync.Frame.{message_rules}
use studio_bondage_club.Chat.Valid.{
  IsValid, Distinct, untouched, room_id, room_key, is_sound, replaced, map-map_if, all-map_if,
}

module _ (J : JsonLib) where
  new_privacy-Agree :
      (v : Option (List J.Json)) (p : Option Bool) (old : List J.Json × Bool)
      → Agree J old
      → Agree J (or_else old (RoomUpdate.new_privacy J v p))
  unfolding RoomUpdate.new_privacy privacy
  new_privacy-Agree (some v) p old h = ground arith
  new_privacy-Agree none (some true) old h =
      privacy-Agree J none (some true) {x = (J.of_str (codes "Admin") ∷ [], true)} refl
  new_privacy-Agree none (some false) old h =
      privacy-Agree J none (some false) {x = (J.of_str (codes "All") ∷ [], false)} refl
  new_privacy-Agree none none old h = h

  new_lock-Agree :
      (a : Option (List J.Json)) (l : Option Bool) (old : List J.Json × Bool)
      → Agree J old
      → Agree J (or_else old (RoomUpdate.new_lock J a l))
  unfolding RoomUpdate.new_lock lock_state
  new_lock-Agree (some a) l old h = ground arith
  new_lock-Agree none (some true) old h =
      lock_state-Agree J none (some true)
        {x = (J.of_str (codes "Admin") ∷ J.of_str (codes "Whitelist") ∷ [], true)} refl
  new_lock-Agree none (some false) old h =
      lock_state-Agree J none (some false) {x = (J.of_str (codes "All") ∷ [], false)} refl
  new_lock-Agree none none old h = h

  -- The update leaves a room sound.
  updated-is_sound :
      (cfg : Settings) (json : J.Json) (u : UpdateRequest J) (r : ChatRoom J)
      → is_sound J r ≡ true
      → is_sound J (RoomUpdate.with_props J (RoomUpdate.updated J cfg json u) r) ≡ true
  unfolding is_sound RoomUpdate.updated
  updated-is_sound cfg json u r h = ground (
    arith,
    new_privacy-Agree (field? J J.arr? "Visibility" json) (field? J J.bool? "Private" json)
        (r.props.visibility, r.props.priv),
    new_lock-Agree (field? J J.arr? "Access" json) (field? J J.bool? "Locked" json)
        (r.props.access, r.props.locked),
  )

  module _ (i k : Str) where
    -- Another room has the key.
    abbrev other_has : List (ChatRoom J) → Bool
    other_has rooms = any (λ o. not (str_eq o.id i) && str_eq (room_key J o) k) rooms

    no_key :
        (rooms : List (ChatRoom J))
        → any (str_eq i) (map (room_id J) rooms) ≡ false
        → other_has rooms ≡ false
        → any (str_eq k) (map (room_key J) rooms) ≡ false
    no_key [] h c = refl
    no_key (r ∷ rooms) h c =
        ground (arith, str_eq_sym i r.id, str_eq_sym k (room_key J r), no_key rooms)

    tail_false :
        (r : ChatRoom J) (rooms : List (ChatRoom J))
        → other_has (r ∷ rooms) ≡ false
        → other_has rooms ≡ false
    tail_false r rooms c = ground arith

    module _ (f : ChatRoom J → ChatRoom J) where
      keys_avoid :
          (x : Str) (rooms : List (ChatRoom J))
          → ((r : ChatRoom J) → room_key J (f r) ≡ k)
          → str_eq x k ≡ false
          → any (str_eq x) (map (room_key J) rooms) ≡ false
          → any (str_eq x) (map (room_key J) (replaced J i f rooms)) ≡ false
      keys_avoid x [] h n a = refl
      keys_avoid x (r ∷ rooms) h n a = ground (arith, h r, keys_avoid x rooms h)

      -- A new key that no other room has keeps the keys distinct.
      Distinct-replaced :
          (rooms : List (ChatRoom J))
          → ((r : ChatRoom J) → room_key J (f r) ≡ k)
          → Distinct (map (room_id J) rooms)
          → Distinct (map (room_key J) rooms)
          → other_has rooms ≡ false
          → Distinct (map (room_key J) (replaced J i f rooms))
      Distinct-replaced [] h d e c = tt
      Distinct-replaced (r ∷ rooms) h d e c = elim (Bool-cases (str_eq r.id i)) [
        | inl here ↦
            let gone =
              subst (λ j. any (str_eq j) (map (room_id J) rooms) ≡ false)
                ((str_eq_iff r.id i).0 here) d.0 in
            rw (here, untouched J i f rooms gone, h r)
              (no_key rooms gone (tail_false r rooms c), e.1)
        | inr there ↦ rw there (
          keys_avoid (room_key J r) rooms h (ground arith) e.0,
          Distinct-replaced rooms h d.1 e.1 (tail_false r rooms c),
        )
      ]

      -- The found room alone gets the change, so a key that it keeps is kept everywhere.
      map-replaced_found :
          (rooms : List (ChatRoom J)) (room : ChatRoom J)
          → Distinct (map (room_id J) rooms)
          → find_if (λ r. str_eq r.id i) rooms ≡ some room
          → room_key J (f room) ≡ room_key J room
          → map (room_key J) (replaced J i f rooms) ≡ map (room_key J) rooms
      map-replaced_found [] room d e h = refl
      map-replaced_found (r ∷ rooms) room d e h = elim (Bool-cases (str_eq r.id i)) [
        | inl here ↦
            let gone =
              subst (λ j. any (str_eq j) (map (room_id J) rooms) ≡ false)
                ((str_eq_iff r.id i).0 here) d.0 in
            ground (arith, untouched J i f rooms gone)
        | inr there ↦ ground (arith, map-replaced_found rooms room)
      ]

  clashes-other_has :
      (room : ChatRoom J) (name : Str) (rooms : List (ChatRoom J))
      → str_eq (room_key J room) name ≡ false
      → RoomUpdate.clashes J room name rooms ≡ other_has room.id (upper_trim name) rooms
  unfolding RoomUpdate.clashes
  clashes-other_has room name rooms h = rw h

  -- The update of the room that an administrator is in keeps the rooms valid.
  pub updated-IsValid :
      (cfg : Settings) (json : J.Json) (u : UpdateRequest J) (room : ChatRoom J)
      (rooms : List (ChatRoom J))
      → find_if (λ r. str_eq r.id room.id) rooms ≡ some room
      → RoomUpdate.clashes J room u.name rooms ≡ false
      → IsValid J rooms
      → IsValid J
          (replaced J room.id (RoomUpdate.with_props J (RoomUpdate.updated J cfg json u)) rooms)
  unfolding RoomUpdate.updated
  updated-IsValid cfg json u room rooms e c v = record {
    ids = rw (map-map_if (room_id J) (λ r. str_eq r.id room.id) change rooms (λ r. refl)) v.ids;
    names = elim (Bool-cases (str_eq (room_key J room) u.name)) [
      | inl old ↦
          rw
            (map-replaced_found room.id (upper_trim u.name) change rooms room v.ids e
              (same_key old))
            v.names
      | inr new ↦
          Distinct-replaced room.id (upper_trim u.name) change rooms new_key v.ids v.names
            (sym (clashes-other_has room u.name rooms new) ∙ c)
    ];
    sound =
        all-map_if (is_sound J) (λ r. str_eq r.id room.id) change rooms
          (updated-is_sound cfg json u) v.sound;
  }
    where
      change : ChatRoom J → ChatRoom J
      change = RoomUpdate.with_props J (RoomUpdate.updated J cfg json u)

      new_key : (r : ChatRoom J) → room_key J (change r) ≡ upper_trim u.name
      new_key r = refl

      same_key : str_eq (room_key J room) u.name ≡ true → room_key J (change room) ≡ room_key J room
      same_key old =
          ap upper_trim (sym ((str_eq_iff _ _).0 old)) ∙ upper_trim-upper_trim room.props.name

  Keeps-announce_update :
      (show : ℤ → Str) (acc : Account J) (room : ChatRoom J)
      → Keeps (Valid J) (RoomUpdate.announce_update J show acc room)
  unfolding RoomUpdate.announce_update
  Keeps-announce_update show acc room = search (message_rules, Keeps-reply)

  update_if-IsValid :
      (cfg : Settings) (show : ℤ → Str) (json : J.Json) (acc : Account J) (room : ChatRoom J)
      (o : Option (UpdateRequest J)) (g : Game J)
      → find_if (λ r. str_eq r.id room.id) g.rooms ≡ some room
      → IsValid J g.rooms
      → IsValid J (RoomUpdate.update_if J cfg show json acc room o g).1.rooms
  unfolding RoomUpdate.update_if send modify_room
  update_if-IsValid cfg show json acc room none g e v = v
  update_if-IsValid cfg show json acc room (some u) g e v =
      elim (Bool-cases (RoomUpdate.clashes J room u.name g.rooms)) [
        | inl taken ↦ rw taken v
        | inr free ↦ rw free (
            (Keeps-announce_update show acc _).keeps _
              (updated-IsValid cfg json u room g.rooms e free v))
      ]

  update_with-IsValid :
      (cfg : Settings) (show : ℤ → Str) (acc : Account J) (room : ChatRoom J) (o : Option J.Json)
      (g : Game J)
      → find_if (λ r. str_eq r.id room.id) g.rooms ≡ some room
      → IsValid J g.rooms
      → IsValid J (RoomUpdate.update_with J cfg show acc room o g).1.rooms
  unfolding RoomUpdate.update_with send
  update_with-IsValid cfg show acc room none g e v = v
  update_with-IsValid cfg show acc room (some r) g e v =
      update_if-IsValid cfg show r acc room _ g e v

  pub update_room-IsValid :
      (cfg : Settings) (show : ℤ → Str) (json : J.Json) (acc : Account J) (room : ChatRoom J)
      (g : Game J)
      → find_if (λ r. str_eq r.id room.id) g.rooms ≡ some room
      → IsValid J g.rooms
      → IsValid J (RoomUpdate.update_room J cfg show json acc room g).1.rooms
  unfolding RoomUpdate.update_room
  update_room-IsValid cfg show json acc room g e v =
      update_with-IsValid cfg show acc room (J.member? "Room" json) g e v
