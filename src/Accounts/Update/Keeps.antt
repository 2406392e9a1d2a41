-- ===== src/Accounts/Update/Keeps.antt =====
-- The changes of an account's own data (account_manager.cpp) keep the rooms valid.
use studio_bondage_club.Prelude.{Option, none, some, Str, ℤ, Keeps, Keeps-done}
use studio_bondage_club.Json.{JsonLib}
use studio_bondage_club.Chat.Join.Keeps.{Valid}
use studio_bondage_club.Chat.State.{Account}
use studio_bondage_club.Accounts.Update
use studio_bondage_club.Accounts.Registry.Keeps.{account_rules}

module _ (J : JsonLib) where
  Keeps-persist_rest :
      (upper : Str) (fields : J.Json) → Keeps (Valid J) (Update.persist_rest J upper fields)
  unfolding Update.persist_rest
  Keeps-persist_rest upper fields = search account_rules

  Keeps-settle_update :
      (i upper : Str) (fields : J.Json) → Keeps (Valid J) (Update.settle_update J i upper fields)
  unfolding Update.settle_update
  Keeps-settle_update i upper fields = search (account_rules, Keeps-persist_rest) depth 14

  Keeps-update_of :
      (json : J.Json) (o : Option (Account J)) → Keeps (Valid J) (Update.update_of J json o)
  unfolding Update.update_of
  Keeps-update_of json none = Keeps-done (Valid J)
  Keeps-update_of json (some acc) = search (account_rules, Keeps-settle_update) depth 9

  pub Keeps-account_update :
      (i : Str) (json : J.Json) → Keeps (Valid J) (Update.account_update J i json)
  unfolding Update.account_update
  Keeps-account_update i json = search (account_rules, Keeps-update_of) depth 9

  Keeps-last_change : (now : ℤ) (acc : Account J) → Keeps (Valid J) (Update.last_change J now acc)
  unfolding Update.last_change
  Keeps-last_change now acc = search account_rules

  Keeps-difficulty_of :
      (delay now level : ℤ) (o : Option (Account J))
      → Keeps (Valid J) (Update.difficulty_of J delay now level o)
  unfolding Update.difficulty_of
  Keeps-difficulty_of delay now level none = Keeps-done (Valid J)
  Keeps-difficulty_of delay now level (some acc) =
      search (account_rules, Keeps-last_change) depth 12

  Keeps-difficulty_if :
      (delay now : ℤ) (i : Str) (o : Option ℤ)
      → Keeps (Valid J) (Update.difficulty_if J delay now i o)
  unfolding Update.difficulty_if
  Keeps-difficulty_if delay now i none = Keeps-done (Valid J)
  Keeps-difficulty_if delay now i (some level) = search (account_rules, Keeps-difficulty_of) depth 9

  pub Keeps-account_difficulty :
      (delay now : ℤ) (i : Str) (json : J.Json)
      → Keeps (Valid J) (Update.account_difficulty J delay now i json)
  unfolding Update.account_difficulty
  Keeps-account_difficulty delay now i json = Keeps-difficulty_if delay now i (J.int? json)
