-- ===== src/Accounts/Ownership/Keeps.antt =====
-- What the steps of `account_ownership` (account_manager.cpp) keep, that write to the fields of the
-- sender and of the target.
use studio_bondage_club.Prelude.{
  ℕ, Bool, Option, none, some, List, Str, String, ℤ, Keeps, Keeps-done, Keeps-if, Keeps-get,
  Keeps-pure, Keeps->>=, Keeps->>, Keeps-lift, Keeps-lift->>=,
}
use studio_bondage_club.Json.{JsonLib}
use studio_bondage_club.Accounts.Bond.Frame.{Allows, Keeps-change, Keeps-reread, Keeps-both_dict}
use studio_bondage_club.Chat.Expressions.Shown.{Keeps-sync_character}
use studio_bondage_club.Accounts.Ownership
use studio_bondage_club.Chat.State.{Account, ChatRoom}
use studio_bondage_club.Chat.Sync.Frame.{Of, message_rules}

pub ruleset bond_rules =
    (message_rules, Keeps-lift, Keeps-change, Keeps-sync_character, Keeps-both_dict)

module _ (J : JsonLib) (Q : List (Account J) → List Str → List (ChatRoom J) → Type 0)
    (Touch : Str → Type 0) (w : Allows J Q Touch) where
  pub Keeps-break_ownership :
      (acc : Account J) → Touch acc.id → Keeps (Of J Q) (Ownership.break_ownership J acc)
  unfolding Ownership.break_ownership
  Keeps-break_ownership acc t = search (bond_rules, w, t) depth 12

  pub Keeps-update_notes :
      (limit : ℕ) (json : J.Json) (room : ChatRoom J) (target : Account J) (o : J.Json)
      → Touch target.id
      → Keeps (Of J Q) (Ownership.update_notes J limit json room target o)
  unfolding Ownership.update_notes
  Keeps-update_notes limit json room target o t = search (bond_rules, w, t) depth 12

  pub Keeps-release_target :
      (room : ChatRoom J) (acc target : Account J) (o : J.Json)
      → Touch target.id
      → Keeps (Of J Q) (Ownership.release_target J room acc target o)
  unfolding Ownership.release_target
  Keeps-release_target room acc target o t = search (bond_rules, w, t) depth 12

  Keeps-offer_trial :
      (b : Bool) (room : ChatRoom J) (acc target : Account J)
      → Touch target.id
      → Keeps (Of J Q) (Ownership.offer_trial J b room acc target)
  unfolding Ownership.offer_trial
  Keeps-offer_trial b room acc target t = search (bond_rules, w, t) depth 12

  Keeps-offer_end :
      (b : Bool) (room : ChatRoom J) (acc target : Account J)
      → Touch target.id
      → Keeps (Of J Q) (Ownership.offer_end J b room acc target)
  unfolding Ownership.offer_end
  Keeps-offer_end b room acc target t = search (bond_rules, w, t) depth 12

  pub Keeps-propose_steps :
      (delay now : ℤ) (action : Str) (room : ChatRoom J) (acc target : Account J)
      → Touch target.id
      → Keeps (Of J Q) (Ownership.propose_steps J delay now action room acc target)
  unfolding Ownership.propose_steps
  Keeps-propose_steps delay now action room acc target t =
      search (bond_rules, Keeps-reread, Keeps-offer_trial, Keeps-offer_end, w, t) depth 14

  Keeps-become_owned :
      (now : ℤ) (stage : ℕ) (message : String) (room : ChatRoom J) (acc target : Account J)
      (owner name : Str)
      → Touch acc.id
      → Keeps (Of J Q) (Ownership.become_owned J now stage message room acc target owner name)
  unfolding Ownership.become_owned
  Keeps-become_owned now stage message room acc target owner name t =
      search (bond_rules, w, t) depth 12

  Keeps-accept_trial :
      (now : ℤ) (b : Bool) (room : ChatRoom J) (acc target : Account J)
      → Touch acc.id
      → Keeps (Of J Q) (Ownership.accept_trial J now b room acc target)
  unfolding Ownership.accept_trial
  Keeps-accept_trial now b room acc target t =
      search (bond_rules, Keeps-become_owned, w, t) depth 12

  Keeps-accept_collar :
      (now : ℤ) (b : Bool) (room : ChatRoom J) (acc target : Account J)
      → Touch acc.id
      → Keeps (Of J Q) (Ownership.accept_collar J now b room acc target)
  unfolding Ownership.accept_collar
  Keeps-accept_collar now b room acc target t =
      search (bond_rules, Keeps-become_owned, w, t) depth 12

  pub Keeps-accept_steps :
      (now : ℤ) (action : Str) (room : ChatRoom J) (acc target : Account J)
      → Touch acc.id
      → Keeps (Of J Q) (Ownership.accept_steps J now action room acc target)
  unfolding Ownership.accept_steps
  Keeps-accept_steps now action room acc target t =
      search (bond_rules, Keeps-reread, Keeps-accept_trial, Keeps-accept_collar, w, t) depth 14
