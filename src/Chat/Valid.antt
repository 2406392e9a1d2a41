-- ===== src/Chat/Valid.antt =====
-- The invariant of `GameState::rooms` (game_state.hpp) as ChatRoomManager (chatroom_manager.cpp,
-- server/gameserver/game) keeps it, and what keeps it in a list of rooms.
pub mod Leaving
use studio_bondage_club.Prelude.{
  ◌≡◌, refl, ◌↔◌, Bool, true, false, not, ◌||◌, ◌&&◌, Option, none, some, List, [], ◌∷◌, ◌++◌, Str,
  map, any, any-append, all, all-append, reject, find_if, if◌then◌else◌, str_eq, str_eq_iff,
  str_eq_sym, arith, Bool-cases, inl, inr, codes, all-reject, is_nil,
}
use mathlib.Core.Path.{subst}
use studio_bondage_club.Json.{JsonLib}
use studio_bondage_club.Chat.State.{ChatRoom, RoomData}
use studio_bondage_club.Chat.Names.{upper_trim}
use studio_bondage_club.Chat.Roles.{has_str_in}

abbrev pub same : Bool → Bool → Bool
same true b = b
same false b = not b

-- No text stands twice.
abbrev pub Distinct : List Str → Type 0
Distinct [] = Unit
Distinct (x ∷ xs) = (any (str_eq x) xs ≡ false) × Distinct xs

pub Distinct-append :
    (xs : List Str) (x : Str) → Distinct xs → any (str_eq x) xs ≡ false → Distinct (xs ++ x ∷ [])
Distinct-append [] x d h = (refl, tt)
Distinct-append (y ∷ xs) x d h =
    ground (arith, any-append (str_eq y) xs (x ∷ []), str_eq_sym x y, Distinct-append xs x)

module _ {A : Type 0} (key : A → Str) where
  pub any-reject-map :
      (p : A → Bool) (q : Str → Bool) (xs : List A)
      → any q (map key xs) ≡ false
      → any q (map key (reject p xs)) ≡ false
  any-reject-map p q [] h = refl
  any-reject-map p q (x ∷ xs) h = ground (arith, any-reject-map p q xs)

  -- To take entries out keeps the keys distinct.
  pub Distinct-reject :
      (p : A → Bool) (xs : List A) → Distinct (map key xs) → Distinct (map key (reject p xs))
  Distinct-reject p [] d = tt
  Distinct-reject p (x ∷ xs) d =
      ground (arith, Distinct-reject p xs, any-reject-map p (str_eq (key x)) xs)

  pub map-map_if :
      (p : A → Bool) (f : A → A) (xs : List A)
      → ((x : A) → key (f x) ≡ key x)
      → map key (map (λ x. if p x then f x else x) xs) ≡ map key xs
  map-map_if p f [] h = refl
  map-map_if p f (x ∷ xs) h = ground (arith, h x, map-map_if p f xs h)

pub map-append_one :
    {A : Type 0} (key : A → Str) (xs : List A) (x : A)
    → map key (xs ++ x ∷ []) ≡ map key xs ++ key x ∷ []
map-append_one key [] x = refl
map-append_one key (y ∷ xs) x = rw (map-append_one key xs x)

-- `p` holds of every element after `f` was applied to some.
pub all-map_if :
    {A : Type 0} (p q : A → Bool) (f : A → A) (xs : List A)
    → ((x : A) → p x ≡ true → p (f x) ≡ true)
    → all p xs ≡ true
    → all p (map (λ x. if q x then f x else x) xs) ≡ true
all-map_if p q f [] h a = refl
all-map_if p q f (x ∷ xs) h a = ground (arith, h x, all-map_if p q f xs h)

module _ (J : JsonLib) where
  -- A room has a member, and `Private` and `Locked` say whether "All" is among the roles.
  unfoldable pub is_sound : ChatRoom J → Bool
  is_sound room =
      not (is_nil room.accounts)
      && same room.props.priv (not (has_str_in J room.props.visibility (codes "All")))
      && same room.props.locked (not (has_str_in J room.props.access (codes "All")))

  abbrev pub room_id : ChatRoom J → Str
  room_id room = room.id

  abbrev pub room_key : ChatRoom J → Str
  room_key room = upper_trim room.props.name

  -- The ids are distinct, the names are distinct up to case and blanks, and every room is sound.
  pub record IsValid (rooms : List (ChatRoom J)) : Type 0 where
    pub ids : Distinct (map room_id rooms)
    pub names : Distinct (map room_key rooms)
    pub sound : all is_sound rooms ≡ true

  -- A change that keeps the id and the name, and keeps soundness.
  pub record IsMild (f : ChatRoom J → ChatRoom J) : Type 0 where
    pub id_kept : (r : ChatRoom J) → (f r).id ≡ r.id
    pub name_kept : (r : ChatRoom J) → (f r).props.name ≡ r.props.name
    pub sound_kept : (r : ChatRoom J) → is_sound r ≡ true → is_sound (f r) ≡ true

  abbrev pub replaced : Str → (ChatRoom J → ChatRoom J) → List (ChatRoom J) → List (ChatRoom J)
  replaced i f rooms = map (λ r. if str_eq r.id i then f r else r) rooms

  pub replaced-IsValid :
      (i : Str) (f : ChatRoom J → ChatRoom J) (rooms : List (ChatRoom J))
      → IsMild f
      → IsValid rooms
      → IsValid (replaced i f rooms)
  replaced-IsValid i f rooms m v = record {
    ids = rw (map-map_if room_id (λ r. str_eq r.id i) f rooms m.id_kept) v.ids;
    names = rw (map-map_if room_key (λ r. str_eq r.id i) f rooms (λ r. rw (m.name_kept r))) v.names;
    sound = all-map_if is_sound (λ r. str_eq r.id i) f rooms m.sound_kept v.sound;
  }

  pub reject-IsValid :
      (p : ChatRoom J → Bool) (rooms : List (ChatRoom J)) → IsValid rooms → IsValid (reject p rooms)
  reject-IsValid p rooms v = record {
    ids = Distinct-reject room_id p rooms v.ids;
    names = Distinct-reject room_key p rooms v.names;
    sound = all-reject p is_sound rooms v.sound;
  }

  -- A room with a new id and a new name can be added.
  pub append-IsValid :
      (rooms : List (ChatRoom J)) (room : ChatRoom J)
      → IsValid rooms
      → any (str_eq room.id) (map room_id rooms) ≡ false
      → any (str_eq (room_key room)) (map room_key rooms) ≡ false
      → is_sound room ≡ true
      → IsValid (rooms ++ room ∷ [])
  append-IsValid rooms room v i n s = record {
    ids = rw (map-append_one room_id rooms room) (Distinct-append _ _ v.ids i);
    names = rw (map-append_one room_key rooms room) (Distinct-append _ _ v.names n);
    sound = ground (arith, all-append is_sound rooms (room ∷ []), v.sound);
  }

  pub untouched :
      (i : Str) (f : ChatRoom J → ChatRoom J) (rooms : List (ChatRoom J))
      → any (str_eq i) (map room_id rooms) ≡ false
      → replaced i f rooms ≡ rooms
  untouched i f [] h = refl
  untouched i f (r ∷ rooms) h = ground (arith, str_eq_sym i r.id, untouched i f rooms)

  -- With distinct ids the room that is found is the only one that a change touches.
  pub all-replaced_found :
      (p : ChatRoom J → Bool) (f : ChatRoom J → ChatRoom J) (i : Str) (rooms : List (ChatRoom J))
      (room : ChatRoom J)
      → Distinct (map room_id rooms)
      → find_if (λ r. str_eq r.id i) rooms ≡ some room
      → all p rooms ≡ true
      → p (f room) ≡ true
      → all p (replaced i f rooms) ≡ true
  all-replaced_found p f i [] room d e a h = refl
  all-replaced_found p f i (r ∷ rooms) room d e a h = elim (Bool-cases (str_eq r.id i)) [
    | inl here ↦
        let rest = untouched i f rooms (
          subst (λ j. any (str_eq j) (map room_id rooms) ≡ false) ((str_eq_iff r.id i).0 here)
            d.0) in
        ground (arith, rest)
    | inr there ↦ ground (arith, all-replaced_found p f i rooms room)
  ]

  pub all-found :
      (p q : ChatRoom J → Bool) (rooms : List (ChatRoom J)) (room : ChatRoom J)
      → find_if q rooms ≡ some room
      → all p rooms ≡ true
      → p room ≡ true
  all-found p q [] room e a = cc
  all-found p q (r ∷ rooms) room e a = elim (Bool-cases (q r)) [
    | inl here ↦ ground (arith)
    | inr there ↦ ground (arith, all-found p q rooms room)
  ]

  -- Changing the rooms that are then taken out changes nothing.
  pub reject-replaced :
      (i : Str) (f : ChatRoom J → ChatRoom J) (rooms : List (ChatRoom J))
      → ((r : ChatRoom J) → (f r).id ≡ r.id)
      → reject (λ r. str_eq r.id i) (replaced i f rooms) ≡ reject (λ r. str_eq r.id i) rooms
  reject-replaced i f [] h = refl
  reject-replaced i f (r ∷ rooms) h = ground (arith, h r, reject-replaced i f rooms h)
