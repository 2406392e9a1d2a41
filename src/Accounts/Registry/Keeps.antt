-- ===== src/Accounts/Registry/Keeps.antt =====
-- How accounts come and go (account_manager.cpp) keeps the rooms valid.
use studio_bondage_club.Prelude.{
  ℕ, ◌≡◌, Bool, true, false, Option, none, some, List, [], ◌∷◌, ◌++◌, String, Str, ℤ, find_if,
  str_eq, M, ◌>>=◌, ◌>>◌, pure, done, lift, get, modify, Keeps, Keeps-done, Keeps-if, Keeps-get,
  Keeps-pure, Keeps->>=, Keeps->>, Keeps-lift, Keeps-lift->>=, Keeps-modify, if◌then◌else◌,
}
use studio_bondage_club.Json.{JsonLib}
use studio_bondage_club.Chat.Join.Keeps.{Valid, Keeps-leaving}
use studio_bondage_club.Chat.Leave.Keeps.{Keeps-modify_account}
use studio_bondage_club.Chat.State.{Account}
use studio_bondage_club.Chat.Sync.Frame.{message_rules, Keeps-emits}
use studio_bondage_club.Chat.Valid.{IsValid}
use studio_bondage_club.Accounts.Registry
use studio_bondage_club.Chat.Leave.{remove_from_room}

pub ruleset account_rules = (message_rules, Keeps-lift, Keeps-modify_account)

module _ (J : JsonLib) where
  pub Keeps-register :
      (acc : Account J) (n : ℤ) → Keeps (Valid J) (modify (Registry.register J acc n))
  unfolding Registry.register
  Keeps-register acc n = Keeps-modify (Valid J) (Registry.register J acc n) (λ g v. v)

  Keeps-unregister : (i : Str) (n : ℤ) → Keeps (Valid J) (modify (Registry.unregister J i n))
  unfolding Registry.unregister
  Keeps-unregister i n = Keeps-modify (Valid J) (Registry.unregister J i n) (λ g v. v)

  Keeps-remove_from_room : (acc : Account J) → Keeps (Valid J) (remove_from_room J acc)
  unfolding remove_from_room
  Keeps-remove_from_room acc = Keeps-leaving J acc _ _

  Keeps-persist_all :
      (upper : Str) (es : List (String × J.Json))
      → Keeps (Valid J) (Registry.persist_all J upper es)
  unfolding Registry.persist_all
  Keeps-persist_all upper [] = Keeps-done (Valid J)
  Keeps-persist_all upper (e ∷ es) = search message_rules

  Keeps-remove_found :
      (i : Str) (o : Option (Account J)) → Keeps (Valid J) (Registry.remove_found J i o)
  unfolding Registry.remove_found
  Keeps-remove_found i none = Keeps-done (Valid J)
  Keeps-remove_found i (some acc) =
      search (account_rules, Keeps-remove_from_room, Keeps-unregister, Keeps-persist_all) depth 9

  pub Keeps-remove_account : (i : Str) → Keeps (Valid J) (Registry.remove_account J i)
  unfolding Registry.remove_account
  Keeps-remove_account i = search (account_rules, Keeps-remove_found) depth 9

  Keeps-named_work :
      (es : List (String × J.Json)) (acc : Account J)
      → Keeps (Valid J) (Registry.named_work J es acc)
  unfolding Registry.named_work
  Keeps-named_work [] acc = Keeps-pure (Valid J) []
  Keeps-named_work (e ∷ es) acc = search account_rules

  Keeps-take_pending : (o : Option (Account J)) → Keeps (Valid J) (Registry.take_pending J o)
  unfolding Registry.take_pending
  Keeps-take_pending none = Keeps-pure (Valid J) []
  Keeps-take_pending (some acc) = search (account_rules, Keeps-named_work)

  Keeps-collect_work : (ids : List Str) → Keeps (Valid J) (Registry.collect_work J ids)
  unfolding Registry.collect_work
  Keeps-collect_work [] = Keeps-pure (Valid J) []
  Keeps-collect_work (i ∷ ids) = Keeps->>= (Valid J) (Keeps-get (Valid J)) λ g.
      Keeps->>= (Valid J) (Keeps-take_pending _)
        λ w. Keeps->>= (Valid J) (Keeps-collect_work ids) λ ws. Keeps-pure (Valid J) (w ++ ws)

  Keeps-post_all : (ws : List (Str × J.Json)) → Keeps (Valid J) (Registry.post_all J ws)
  unfolding Registry.post_all
  Keeps-post_all [] = Keeps-done (Valid J)
  Keeps-post_all (w ∷ ws) =
      Keeps->> (Valid J) (Keeps-emits J (λ as' ss rs. IsValid J rs) _) (Keeps-post_all ws)

  pub Keeps-flush_delayed_updates : Keeps (Valid J) (Registry.flush_delayed_updates J)
  unfolding Registry.flush_delayed_updates
  Keeps-flush_delayed_updates = search (account_rules, Keeps-collect_work, Keeps-post_all)
