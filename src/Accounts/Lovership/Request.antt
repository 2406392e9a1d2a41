-- ===== src/Accounts/Lovership/Request.antt =====
-- The whole of `account_lovership` (account_manager.cpp), up to the question to the database about the
-- partner of a relation that is broken.
pub mod Keeps
pub mod Bystander
use studio_bondage_club.Prelude.{
  ℕ, Bool, true, false, Option, none, some, List, [], ◌∷◌, Str, codes, ℤ, if◌then◌else◌, str_eq, M,
  ◌>>=◌, ◌>>◌, pure, done, lift, get,
}
use studio_bondage_club.Json.{JsonLib, field?}
use studio_bondage_club.Accounts.Bond.{change, reread}
use studio_bondage_club.Accounts.Lovership.{with_list}
use studio_bondage_club.Accounts.Lovership.Accept.{acceptance}
use studio_bondage_club.Accounts.Lovership.Break.{
  BreakJob, Ending, waits, over, goes_on, break_lovership,
}
use studio_bondage_club.Accounts.Lovership.Propose.{proposals}
use studio_bondage_club.Chat.State.{
  Account, ChatRoom, Game, member_number, account_for, room_of, members_of,
}
use studio_bondage_club.Chat.Sync.{by_number}

-- The setting `relationship_delay_ms` and the clock.
module _ (J : JsonLib) (delay now : ℤ) where
  open J use {Json, is_object, str?, int?}

  abbrev pub Partner : Type 0
  Partner = Option (Account J)

  steps_with : Str → ℤ → ChatRoom J → Account J → Partner → M (Game J) (Unit {0})
  steps_with action n room acc target = do
    more ← proposals J delay now n action room acc target
    if more then acceptance J now n action room acc target else done

  steps_in : Str → ℤ → Account J → Option (ChatRoom J) → M (Game J) (Unit {0})
  unfolding steps_with
  steps_in action n acc none = lift none
  steps_in action n acc (some room) = do
    g ← get
    steps_with action n room acc (by_number J n (members_of J g.accounts room.accounts))

  steps_at : Str → ℤ → Account J → Option Str → M (Game J) (Unit {0})
  unfolding steps_in
  steps_at action n acc none = done
  steps_at action n acc (some rid) = do g ← get; steps_in action n acc (room_of J (some rid) g)

  after_break : Str → ℤ → Account J → Ending J → M (Game J) (Option BreakJob)
  unfolding steps_at
  after_break action n acc (waits job) = pure (some job)
  after_break action n acc over = pure none
  after_break action n acc goes_on = steps_at action n acc acc.chat_room >> pure none

  asked : Str → ℤ → Option Str → Partner → M (Game J) (Option BreakJob)
  unfolding after_break
  asked action n name none = pure none
  asked action n name (some acc) = do
    change J acc (with_list J)
    me ← reread J acc
    ending ←
        if str_eq action (codes "Break")
        then break_lovership J delay now me (member_number J me) n name
        else pure goes_on
    after_break action n me ending

  action_of : Option Str → Str
  action_of none = codes ""
  action_of (some s) = s

  asked_if : Str → Json → Option ℤ → M (Game J) (Option BreakJob)
  unfolding asked action_of
  asked_if i json none = pure none
  asked_if i json (some n) = do
    g ← get
    asked (action_of (field? J str? "Action" json)) n (field? J str? "Name" json)
        (account_for J i g)

  -- The result is the relation whose end waits for the database, if the request leads to one.
  unfoldable pub account_lovership : Str → Json → M (Game J) (Option BreakJob)
  unfolding asked_if
  account_lovership i json =
      asked_if i json (if is_object json then field? J int? "MemberNumber" json else none)
