-- ===== src/Accounts/Ownership/Request.antt =====
-- The whole of `account_ownership` (account_manager.cpp), up to the question to the database about an
-- absent submissive.
pub mod Keeps
pub mod Bystander
use studio_bondage_club.Prelude.{
  ℕ, Bool, true, false, ◌&&◌, Option, none, some, Str, codes, ℤ, pos, negsuc, if◌then◌else◌, str_eq,
  M, ◌>>=◌, ◌>>◌, pure, done, lift, get,
}
use studio_bondage_club.Json.{JsonLib, field?}
use studio_bondage_club.Accounts.Bond.{◌&?◌, value_is, minus_one, reread}
use studio_bondage_club.Accounts.Ownership.{
  ownership, on_ownership, may_break, break_ownership, update_notes, release_target, propose_steps,
  accept_steps,
}
use studio_bondage_club.Accounts.Ownership.Release.{Job}
use studio_bondage_club.Chat.State.{
  Account, ChatRoom, Game, member_number, account_for, room_of, members_of,
}
use studio_bondage_club.Chat.Sync.{by_number}

-- The setting `relationship_delay_ms`, the clock, and the setting `ownership_notes_max_len`.
module _ (J : JsonLib) (delay now : ℤ) (limit : ℕ) where
  open J use {Json, null, is_object, str?, int?}

  abbrev or_null : Option Json → Json
  or_null none = null
  or_null (some o) = o

  notes_allowed : ℤ → Account J → Option Bool
  notes_allowed my target =
      on_ownership J
        (λ o. value_is J "Stage" minus_one (pos 1) o &? value_is J "MemberNumber" minus_one my o)
        target

  owned_by : ℤ → ℤ → Account J → Option Bool
  owned_by d n acc = on_ownership J (λ o. value_is J "MemberNumber" d n o) acc

  -- The offers, unless the sender belongs to the target, and then the acceptance, on the accounts as
  -- the offers have left them.
  propose_and_accept : Str → ChatRoom J → Account J → Account J → M (Game J) (Unit {0})
  propose_and_accept action room acc target = do
    mine ← lift (owned_by (negsuc 1) (member_number J target) acc)
    if mine then done else propose_steps J delay now action room acc target
    me ← reread J acc
    t ← reread J target
    accept_steps J now action room me t

  with_target : Json → Str → ChatRoom J → Account J → Account J → M (Game J) (Unit {0})
  unfolding notes_allowed owned_by propose_and_accept
  with_target json action room acc target = do
    notes ←
        lift
          (some (str_eq action (codes "UpdateNotes")) &? notes_allowed (member_number J acc) target)
    if notes then update_notes J limit json room target (or_null (ownership J target)) else (do
      release ← lift (
          some (str_eq action (codes "Release")) &? owned_by minus_one (member_number J acc) target)
      if release
          then release_target J room acc target (or_null (ownership J target))
          else propose_and_accept action room acc target)

  without_target : Str → ChatRoom J → Account J → ℤ → M (Game J) (Option Job)
  without_target action room acc n =
      if str_eq action (codes "Release")
      then pure (
          some (record {
            sender = acc.id;
            my = member_number J acc;
            room_id = room.id;
            target_member = n;
          }))
      else pure none

  on_target : Json → Str → ChatRoom J → Account J → ℤ → Option (Account J) → M (Game J) (Option Job)
  unfolding with_target without_target
  on_target json action room acc n none = without_target action room acc n
  on_target json action room acc n (some target) =
      with_target json action room acc target >> pure none

  in_room_with : Json → Str → Account J → ℤ → Option (ChatRoom J) → M (Game J) (Option Job)
  unfolding on_target
  in_room_with json action acc n none = lift none
  in_room_with json action acc n (some room) = do
    g ← get
    on_target json action room acc n (by_number J n (members_of J g.accounts room.accounts))

  in_pointer : Json → Str → Account J → ℤ → Option Str → M (Game J) (Option Job)
  unfolding in_room_with
  in_pointer json action acc n none = pure none
  in_pointer json action acc n (some rid) = do
    g ← get
    in_room_with json action acc n (room_of J (some rid) g)

  asked : Json → Str → ℤ → Option (Account J) → M (Game J) (Option Job)
  unfolding in_pointer
  asked json action n none = pure none
  asked json action n (some acc) =
      if may_break J delay now acc && str_eq action (codes "Break")
      then break_ownership J acc >> pure none
      else in_pointer json action acc n acc.chat_room

  action_of : Option Str → Str
  action_of none = codes ""
  action_of (some s) = s

  asked_if : Str → Json → Option ℤ → M (Game J) (Option Job)
  unfolding asked action_of
  asked_if i json none = pure none
  asked_if i json (some n) = do
    g ← get
    asked json (action_of (field? J str? "Action" json)) n (account_for J i g)

  -- The result is the release that waits for the database, if the request leads to one.
  unfoldable pub account_ownership : Str → Json → M (Game J) (Option Job)
  unfolding asked_if
  account_ownership i json =
      asked_if i json (if is_object json then field? J int? "MemberNumber" json else none)
