-- ===== src/Accounts/Update/Email.antt =====
-- The change of an e-mail address (account_manager.cpp) changes neither accounts, sessions nor rooms.
use studio_bondage_club.Prelude.{Bool, Option, none, some, List, Str, Keeps, Keeps-lift}
use studio_bondage_club.Json.{JsonLib}
use studio_bondage_club.Chat.State.{Account, ChatRoom}
use studio_bondage_club.Chat.Sync.Frame.{Of, message_rules}
use studio_bondage_club.Accounts.Update

module _ (J : JsonLib) (Q : List (Account J) → List Str → List (ChatRoom J) → Type 0) where
  ruleset email_rules = (message_rules, Keeps-lift)

  email_account :
      (i old new : Str) (o : Option (Account J))
      → Keeps (Of J Q) (Update.email_account J i old new o)
  unfolding Update.email_account
  email_account i old new none = search email_rules
  email_account i old new (some acc) = search email_rules

  Keeps-email_asked :
      (ok : Str → Bool) (i : Str) (old new : Option Str)
      → Keeps (Of J Q) (Update.email_asked J ok i old new)
  unfolding Update.email_asked
  Keeps-email_asked ok i (some old) (some new) = search (email_rules, email_account) depth 9
  Keeps-email_asked ok i none new = search email_rules
  Keeps-email_asked ok i (some old) none = search email_rules

  pub Keeps-account_update_email :
      (ok : Str → Bool) (i : Str) (json : J.Json)
      → Keeps (Of J Q) (Update.account_update_email J ok i json)
  unfolding Update.account_update_email
  Keeps-account_update_email ok i json = search (email_rules, Keeps-email_asked) depth 9

  pub Keeps-email_answered :
      (i : Str) (job : Str × Str × Str) (o : Option J.Json)
      → Keeps (Of J Q) (Update.email_answered J i job o)
  unfolding Update.email_answered
  Keeps-email_answered i (upper, old, new) o = search email_rules depth 12
