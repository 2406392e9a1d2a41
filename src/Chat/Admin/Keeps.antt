-- ===== src/Chat/Admin/Keeps.antt =====
-- `chat_room_admin` (chatroom_manager.cpp) keeps the rooms valid.
use studio_bondage_club.Prelude.{
  ℕ, ◌≡◌, Option, none, some, List, Str, ℤ, length, find_if, str_eq, Keeps, Keeps-get, Keeps-done,
  Keeps-if, Keeps->>=, arith,
}
use studio_bondage_club.Json.{JsonLib}
use studio_bondage_club.Chat.State.{Account, ChatRoom, Game}
use studio_bondage_club.Chat.Admin
use studio_bondage_club.Chat.Characters.Keeps.{as_member-IsValid}
use studio_bondage_club.Chat.Join.Keeps.{Valid}
use studio_bondage_club.Chat.Moderation.{Action, with_accounts, swap_ids}
use studio_bondage_club.Chat.Moderation.Keeps.{
  swap_ids-is_nil, with_accounts-IsMild, Keeps-changing, Keeps-act_on, Keeps-act_absent,
}
use studio_bondage_club.Chat.Names.{Settings}
use studio_bondage_club.Chat.RoomUpdate.Keeps.{update_room-IsValid}
use studio_bondage_club.Chat.Sync.Frame.{message_rules}
use studio_bondage_club.Chat.Valid.{IsMild, IsValid}

module _ (J : JsonLib) where
  swapped-IsMild : (a b : Str) → IsMild J (with_accounts J (swap_ids a b))
  swapped-IsMild a b = with_accounts-IsMild J (swap_ids a b) (swap_ids-is_nil a b)

  Keeps-swap :
      (acc : Account J) (room : ChatRoom J) (a b : Option (ℕ × Account J))
      → Keeps (Valid J) (Admin.swap J acc room a b)
  unfolding Admin.swap
  Keeps-swap acc room (some (i, a)) (some (j, b)) =
      search (message_rules, Keeps-changing, swapped-IsMild) depth 9
  Keeps-swap acc room none b = Keeps-done (Valid J)
  Keeps-swap acc room (some a) none = Keeps-done (Valid J)

  module _ (perm : List Str → List Str) (h : (xs : List Str) → length (perm xs) ≡ length xs) where
    Keeps-act :
        (json : J.Json) (acc : Account J) (room : ChatRoom J) (n : ℤ) (action : Action)
        (o : Option (ℕ × Account J))
        → Keeps (Valid J) (Admin.act J perm json acc room n action o)
    unfolding Admin.act
    Keeps-act json acc room n action none = Keeps-act_absent J acc room n action
    Keeps-act json acc room n action (some (i, target)) =
        Keeps-act_on J perm h json acc room n i target action

    Keeps-swap_or_act :
        (json : J.Json) (acc : Account J) (room : ChatRoom J) (action : Str) (n : ℤ)
        (o : Option (ℤ × ℤ))
        → Keeps (Valid J) (Admin.swap_or_act J perm json acc room action n o)
    unfolding Admin.swap_or_act
    Keeps-swap_or_act json acc room action n (some (t, d)) =
        Keeps->>= (Valid J) (Keeps-get (Valid J)) λ g. Keeps-swap acc room _ _
    Keeps-swap_or_act json acc room action n none =
        Keeps->>= (Valid J) (Keeps-get (Valid J)) λ g. Keeps-act json acc room n _ _

    administer-IsValid :
        (cfg : Settings) (show : ℤ → Str) (json : J.Json) (n : ℤ) (action : Str) (acc : Account J)
        (room : ChatRoom J) (g : Game J)
        → find_if (λ r. str_eq r.id room.id) g.rooms ≡ some room
        → IsValid J g.rooms
        → IsValid J (Admin.administer J cfg show perm json n action acc room g).1.rooms
    unfolding Admin.administer
    administer-IsValid cfg show json n action acc room g e v = ground (
      arith,
      update_room-IsValid J cfg show json acc room g e v,
      (Keeps-swap_or_act json acc room action n (Admin.swap_request J action json)).keeps g v,
      v,
    )

    admin_if-IsValid :
        (cfg : Settings) (show : ℤ → Str) (socket_id : Str) (json : J.Json) (n : Option ℤ)
        (action : Option Str)
        → Keeps (Valid J) (Admin.admin_if J cfg show perm socket_id json n action)
    unfolding Admin.admin_if
    admin_if-IsValid cfg show socket_id json (some n) (some action) = record {
      keeps = λ g v.
          as_member-IsValid J socket_id (Admin.administer J cfg show perm json n action) g
            (λ acc room e. administer-IsValid cfg show json n action acc room g e v) v;
    }
    admin_if-IsValid cfg show socket_id json none a = Keeps-done (Valid J)
    admin_if-IsValid cfg show socket_id json (some n) none = Keeps-done (Valid J)

    pub Keeps-chat_room_admin :
        (cfg : Settings) (show : ℤ → Str) (socket_id : Str) (json : J.Json)
        → Keeps (Valid J) (Admin.chat_room_admin J cfg show perm socket_id json)
    unfolding Admin.chat_room_admin
    Keeps-chat_room_admin cfg show socket_id json = search (Keeps-if, admin_if-IsValid, Keeps-done)
