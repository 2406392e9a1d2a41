-- ===== src/Accounts/Ownership/Release.antt =====
-- The release of a submissive who is not in the room (`account_ownership`, account_manager.cpp): the
-- coroutine's step after the database has answered.
pub mod Keeps
use studio_bondage_club.Prelude.{
  Bool, true, false, Option, none, some, List, [], ◌∷◌, Str, ℤ, find_if, if◌then◌else◌, str_eq, M,
  ◌>>=◌, ◌>>◌, pure, done, lift, get,
}
use studio_bondage_club.Json.{JsonLib, object_field}
use studio_bondage_club.Accounts.Bond.{
  value_is, minus_one, change, tells_if_connected, server_message, show_self,
}
use studio_bondage_club.Accounts.Ownership.{released, released_fields, cleared}
use studio_bondage_club.Accounts.Registry.{get_by_member}
use studio_bondage_club.Chat.State.{
  Account, ChatRoom, Game, persist_member_fields, member_number, room_of,
}
use studio_bondage_club.Chat.Sync.{emits}

-- What the coroutine captures: the sender, its number, its room, and the number to release.
pub record Job : Type 0 where
  pub sender : Str
  pub my : ℤ
  pub room_id : Str
  pub target_member : ℤ

module _ (J : JsonLib) where
  open J use {Json, null, of_int, of_obj}

  -- The stored account is owned by the sender.
  unfoldable pub is_mine : ℤ → Option Json → Option Bool
  is_mine my none = some false
  is_mine my (some a) = elim (object_field J "Ownership" a) [
    | none ↦ some false
    | some o ↦ value_is J "MemberNumber" minus_one my o
  ]

  in_own_room : Account J → Option (ChatRoom J) → M (Game J) (Unit {0})
  in_own_room target none = lift none
  in_own_room target (some room) = do
    show_self J room target
    server_message J room (member_number J target) "ReleaseByOwner"
        (of_int (member_number J target)) null

  tell_room : Account J → Option Str → M (Game J) (Unit {0})
  unfolding in_own_room
  tell_room target none = done
  tell_room target (some rid) = do g ← get; in_own_room target (room_of J (some rid) g)

  -- The submissive is online, in another room or in none.
  release_online : Option (Account J) → M (Game J) (Unit {0})
  unfolding tell_room
  release_online none = done
  release_online (some target) = do
    change J target (released J)
    tells_if_connected J target "AccountOwnership" (cleared J)
    tell_room target target.chat_room

  release_for : Job → Option Json → ChatRoom J → M (Game J) (Unit {0})
  unfolding release_online
  release_for job result room = do
    mine ← lift (is_mine job.my result)
    if mine
        then (do
          emits J (persist_member_fields job.target_member (of_obj (released_fields J)))
          server_message J room job.my "ReleaseSuccess" (of_int job.my) null
          g ← get
          release_online (get_by_member J job.target_member g))
        else server_message J room job.my "ReleaseFail" (of_int job.my) null

  release_in : Job → Option Json → Option (ChatRoom J) → M (Game J) (Unit {0})
  unfolding release_for
  release_in job result none = lift none
  release_in job result (some room) = release_for job result room

  abbrev is_in : Str → Option (Account J) → Bool
  is_in rid none = false
  is_in rid (some acc) = elim acc.chat_room [ none ↦ false | some r ↦ str_eq r rid ]

  -- The sender must still be in its room.
  unfoldable pub release_answered : Job → Option Json → M (Game J) (Unit {0})
  unfolding release_in
  release_answered job result = do
    g ← get
    if is_in job.room_id (find_if (λ a. str_eq a.id job.sender) g.accounts)
        then release_in job result (room_of J (some job.room_id) g)
        else done
