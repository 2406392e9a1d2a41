-- ===== src/Chat/Valid/Leaving.antt =====
-- The invariant of the rooms survives `room_remove_locked` (chatroom_manager.cpp).
use studio_bondage_club.Prelude.{
  ◌≡◌, refl, sym, true, false, List, Str, any, map, str_eq, arith, is_nil, reject, find_if, some,
}
use mathlib.Core.Path.{subst}
use studio_bondage_club.Json.{JsonLib}
use studio_bondage_club.Chat.State.{Account, ChatRoom}
use studio_bondage_club.Chat.Leave.{without}
use studio_bondage_club.Chat.Leave.Keeps.{Survives, found_id}
use studio_bondage_club.Chat.Valid.{
  IsValid, replaced, room_id, room_key, is_sound, map-map_if, all-replaced_found, all-found,
  reject-replaced, reject-IsValid, any-reject-map,
}

module _ (J : JsonLib) where
  without-is_sound :
      (acc : Account J) (room : ChatRoom J)
      → is_nil (without J acc room).accounts ≡ false
      → is_sound J room ≡ true
      → is_sound J (without J acc room) ≡ true
  unfolding is_sound without
  without-is_sound acc room kept s = ground arith

  -- Nothing new comes among the ids or the names when an account leaves.
  keys_without :
      (key : ChatRoom J → Str) (acc : Account J) (i : Str) (rooms : List (ChatRoom J))
      → ((r : ChatRoom J) → key (without J acc r) ≡ key r)
      → map key (replaced J i (without J acc) rooms) ≡ map key rooms
  keys_without key acc i rooms h = map-map_if key (λ r. str_eq r.id i) (without J acc) rooms h

  id_without : (acc : Account J) (r : ChatRoom J) → room_id J (without J acc r) ≡ room_id J r
  unfolding without
  id_without acc r = refl

  key_without : (acc : Account J) (r : ChatRoom J) → room_key J (without J acc r) ≡ room_key J r
  unfolding without
  key_without acc r = refl

  -- The invariant, with an id and a name that no room has.
  pub record IsOpenFor (i name : Str) (rooms : List (ChatRoom J)) : Type 0 where
    pub valid : IsValid J rooms
    pub new_id : any (str_eq i) (map (room_id J) rooms) ≡ false
    pub new_name : any (str_eq name) (map (room_key J) rooms) ≡ false

  leaving-IsValid :
      (acc : Account J) (i : Str) (room : ChatRoom J) (rooms : List (ChatRoom J))
      → find_if (λ r. str_eq r.id i) rooms ≡ some room
      → is_nil (without J acc room).accounts ≡ false
      → IsValid J rooms
      → IsValid J (replaced J i (without J acc) rooms)
  leaving-IsValid acc i room rooms e kept v = record {
    ids = rw (keys_without (room_id J) acc i rooms (id_without acc)) v.ids;
    names = rw (keys_without (room_key J) acc i rooms (key_without acc)) v.names;
    sound = all-replaced_found J (is_sound J) (without J acc) i rooms room v.ids e v.sound (
        without-is_sound acc room kept
          (all-found J (is_sound J) (λ r. str_eq r.id i) rooms room e v.sound));
  }

  closing-IsValid :
      (acc : Account J) (i : Str) (rooms : List (ChatRoom J))
      → IsValid J rooms
      → IsValid J (reject (λ r. str_eq r.id i) (replaced J i (without J acc) rooms))
  closing-IsValid acc i rooms v =
      rw (reject-replaced J i (without J acc) rooms (id_without acc))
        (reject-IsValid J (λ r. str_eq r.id i) rooms v)

  pub Survives-IsValid : Survives J (IsValid J)
  Survives-IsValid = record {
    leaving = λ acc i room rooms e kept v.
        leaving-IsValid acc room.id room rooms
          (subst (λ j. find_if (λ r. str_eq r.id j) rooms ≡ some room)
            (sym (found_id J i room rooms e)) e)
          kept v;
    closing = λ acc i rooms v. closing-IsValid acc i rooms v;
  }

  pub Survives-IsOpenFor : (i name : Str) → Survives J (IsOpenFor i name)
  Survives-IsOpenFor i name = record {
    leaving = λ acc j room rooms e kept o. record {
      valid = Survives-IsValid.leaving acc j room rooms e kept o.valid;
      new_id = rw (keys_without (room_id J) acc room.id rooms (id_without acc)) o.new_id;
      new_name = rw (keys_without (room_key J) acc room.id rooms (key_without acc)) o.new_name;
    };
    closing = λ acc j rooms o. record {
      valid = closing-IsValid acc j rooms o.valid;
      new_id =
          rw (reject-replaced J j (without J acc) rooms (id_without acc))
            (any-reject-map (room_id J) (λ r. str_eq r.id j) (str_eq i) rooms o.new_id);
      new_name =
          rw (reject-replaced J j (without J acc) rooms (id_without acc))
            (any-reject-map (room_key J) (λ r. str_eq r.id j) (str_eq name) rooms o.new_name);
    };
  }
