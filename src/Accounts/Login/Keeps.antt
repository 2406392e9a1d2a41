-- ===== src/Accounts/Login/Keeps.antt =====
-- Logins and creations (account_manager.cpp) keep the rooms valid.
use studio_bondage_club.Prelude.{
  Bool, true, false, Option, none, some, List, [], ◌∷◌, Str, ℤ, str_eq, Keeps, Keeps-done, Keeps-if,
  Keeps-pure, Keeps-lift->>=,
}
use studio_bondage_club.Json.{JsonLib}
use studio_bondage_club.Chat.Join.Keeps.{Valid}
use studio_bondage_club.Chat.State.{Account}
use studio_bondage_club.Accounts.Login
use studio_bondage_club.Accounts.Registry.{upper_name}
use studio_bondage_club.Accounts.Registry.Keeps.{
  account_rules, Keeps-register, Keeps-remove_account,
}

module _ (J : JsonLib) where
  Keeps-send_server_info : (i : Str) (now : ℤ) → Keeps (Valid J) (Login.send_server_info J i now)
  unfolding Login.send_server_info
  Keeps-send_server_info i now = search account_rules

  Keeps-duplicate_in :
      (upper : Str) (as' : List (Account J)) → Keeps (Valid J) (Login.duplicate_in J upper as')
  unfolding Login.duplicate_in
  Keeps-duplicate_in upper [] = Keeps-pure (Valid J) none
  Keeps-duplicate_in upper (a ∷ as') = Keeps-lift->>= (Valid J) (upper_name J a) λ n.
      Keeps-if (Valid J) (str_eq n upper) (Keeps-pure (Valid J) (some a))
        (Keeps-duplicate_in upper as')

  Keeps-drop_duplicate : (o : Option (Account J)) → Keeps (Valid J) (Login.drop_duplicate J o)
  unfolding Login.drop_duplicate
  Keeps-drop_duplicate none = Keeps-done (Valid J)
  Keeps-drop_duplicate (some dup) = search (account_rules, Keeps-remove_account) depth 9

  pub Keeps-login_answered :
      (i upper : Str) (connected : Bool) (found : Option J.Json) (ok : Bool)
      → Keeps (Valid J) (Login.login_answered J i upper connected found ok)
  unfolding Login.login_answered
  Keeps-login_answered i upper false found ok = Keeps-pure (Valid J) false
  Keeps-login_answered i upper true none ok = search account_rules
  Keeps-login_answered i upper true (some a) false = search account_rules
  Keeps-login_answered i upper true (some a) true =
      search (account_rules, Keeps-duplicate_in, Keeps-drop_duplicate) depth 9

  pub Keeps-login_commit :
      (i : Str) (now : ℤ) (a : J.Json) → Keeps (Valid J) (Login.login_commit J i now a)
  unfolding Login.login_commit
  Keeps-login_commit i now a =
      search (account_rules, Keeps-register, Keeps-send_server_info) depth 9

  pub Keeps-create_commit :
      (i : Str) (member now : ℤ) (a : J.Json)
      → Keeps (Valid J) (Login.create_commit J i member now a)
  unfolding Login.create_commit
  Keeps-create_commit i member now a =
      search (account_rules, Keeps-register, Keeps-send_server_info) depth 9
