-- ===== src/Chat/Admin/Guard.antt =====
-- Whose requests `chat_room_admin` (chatroom_manager.cpp) carries out.
use studio_bondage_club.Prelude.{
  ℤ, ◌≡◌, refl, ap, ◌∙◌, ◌⊎◌, inl, inr, ◌&&◌, Bool, true, false, Option, none, some, List, Str,
  Bool-cases,
}
use studio_bondage_club.Json.{JsonLib}
use studio_bondage_club.Chat.Admin
use studio_bondage_club.Chat.Admin.{chat_room_admin, administer, may_target}
use studio_bondage_club.Chat.Characters.Member.{Member, as_member-cases}
use studio_bondage_club.Chat.Names.{Settings}
use studio_bondage_club.Chat.Roles.{has_member_in}
use studio_bondage_club.Chat.State.{Account, ChatRoom, Game, member_number}

module _ (J : JsonLib) (cfg : Settings) (show : ℤ → Str) (perm : List Str → List Str) where
  -- The account on the socket is in a room whose administrators have its number.
  pub record Administers (socket_id : Str) (g : Game J) : Type 0 where
    pub member : Member J socket_id g
    pub listed : has_member_in J member.room.props.admin (member_number J member.acc) ≡ true

  and_left : (a b : Bool) → (a && b) ≡ true → a ≡ true
  and_left true b h = refl
  and_left false b h = h

  administer-cases :
      (json : J.Json) (n : ℤ) (action : Str) (acc : Account J) (room : ChatRoom J) (g : Game J)
      → ((administer J cfg show perm json n action acc room g).1 ≡ g)
        ⊎ (has_member_in J room.props.admin (member_number J acc) ≡ true)
  unfolding administer
  administer-cases json n action acc room g =
      elim (Bool-cases
        (has_member_in J room.props.admin (member_number J acc) && may_target J acc action n)) [
          | inl both ↦ inr (and_left _ _ both)
          | inr neither ↦ inl (rw neither refl)
        ]

  admin_if-cases :
      (socket_id : Str) (json : J.Json) (n : Option ℤ) (action : Option Str) (g : Game J)
      → ((Admin.admin_if J cfg show perm socket_id json n action g).1 ≡ g) ⊎ Administers socket_id g
  unfolding Admin.admin_if
  admin_if-cases socket_id json none a g = inl refl
  admin_if-cases socket_id json (some n) none g = inl refl
  admin_if-cases socket_id json (some n) (some action) g =
      elim (as_member-cases J socket_id (administer J cfg show perm json n action) g) [
        | inl kept ↦ inl kept
        | inr (m, e) ↦ elim (administer-cases json n action m.acc m.room g) [
          | inl kept ↦ inl (ap (λ r. r.1) e ∙ kept)
          | inr listed ↦ inr (record { member = m; listed = listed })
        ]
      ]

  -- A request to administer a room changes nothing and sends nothing, unless the account on the socket
  -- is logged in and in a room whose administrators have its number.
  pub chat_room_admin-cases :
      (socket_id : Str) (json : J.Json) (g : Game J)
      → ((chat_room_admin J cfg show perm socket_id json g).1 ≡ g) ⊎ Administers socket_id g
  unfolding chat_room_admin
  chat_room_admin-cases socket_id json g = elim (Bool-cases (J.is_object json)) [
    | inl object ↦ rw object (admin_if-cases socket_id json _ _ g)
    | inr other ↦ inl (rw other refl)
  ]
