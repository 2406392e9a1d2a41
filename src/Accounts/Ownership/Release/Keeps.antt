-- ===== src/Accounts/Ownership/Release/Keeps.antt =====
-- The release of an absent submissive (account_manager.cpp) keeps what survives writes to the fields of
-- accounts.
use studio_bondage_club.Prelude.{Option, none, some, List, Str, Keeps, Keeps-done, Keeps-lift}
use studio_bondage_club.Json.{JsonLib}
use studio_bondage_club.Accounts.Bond.Frame.{Allows}
use studio_bondage_club.Accounts.Ownership.Keeps.{bond_rules}
use studio_bondage_club.Accounts.Ownership.Release
use studio_bondage_club.Accounts.Ownership.Release.{Job}
use studio_bondage_club.Chat.State.{Account, ChatRoom}
use studio_bondage_club.Chat.Sync.Frame.{Of}

abbrev pub Anyone : Str → Type 0
Anyone i = Unit {0}

module _ (J : JsonLib) (Q : List (Account J) → List Str → List (ChatRoom J) → Type 0)
    (w : Allows J Q Anyone) where
  Keeps-in_own_room :
      (t : Account J) (o : Option (ChatRoom J)) → Keeps (Of J Q) (Release.in_own_room J t o)
  unfolding Release.in_own_room
  Keeps-in_own_room t none = Keeps-lift (Of J Q) none
  Keeps-in_own_room t (some room) = search bond_rules

  Keeps-tell_room : (t : Account J) (p : Option Str) → Keeps (Of J Q) (Release.tell_room J t p)
  unfolding Release.tell_room
  Keeps-tell_room t none = Keeps-done (Of J Q)
  Keeps-tell_room t (some rid) = search (bond_rules, Keeps-in_own_room)

  Keeps-release_online : (o : Option (Account J)) → Keeps (Of J Q) (Release.release_online J o)
  unfolding Release.release_online
  Keeps-release_online none = Keeps-done (Of J Q)
  Keeps-release_online (some t) = search (bond_rules, Keeps-tell_room, w) depth 12

  Keeps-release_for :
      (job : Job) (result : Option J.Json) (room : ChatRoom J)
      → Keeps (Of J Q) (Release.release_for J job result room)
  unfolding Release.release_for
  Keeps-release_for job result room = search (bond_rules, Keeps-release_online) depth 12

  Keeps-release_in :
      (job : Job) (result : Option J.Json) (o : Option (ChatRoom J))
      → Keeps (Of J Q) (Release.release_in J job result o)
  unfolding Release.release_in
  Keeps-release_in job result none = Keeps-lift (Of J Q) none
  Keeps-release_in job result (some room) = Keeps-release_for job result room

  pub Keeps-release_answered :
      (job : Job) (result : Option J.Json) → Keeps (Of J Q) (Release.release_answered J job result)
  unfolding Release.release_answered
  Keeps-release_answered job result = search (bond_rules, Keeps-release_in) depth 12
