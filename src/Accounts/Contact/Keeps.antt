-- ===== src/Accounts/Contact/Keeps.antt =====
-- `account_query`, `account_beep` and the change of an address (account_manager.cpp) send messages, and
-- change neither accounts, sessions nor rooms.
use studio_bondage_club.Prelude.{
  Bool, true, false, Option, none, some, List, [], ◌∷◌, ◌++◌, String, Str, ℤ, Keeps, Keeps-done,
  Keeps-pure, Keeps->>=, Keeps-lift,
}
use studio_bondage_club.Json.{JsonLib}
use studio_bondage_club.Chat.State.{Account, ChatRoom}
use studio_bondage_club.Chat.Sync.Frame.{Of, message_rules}
use studio_bondage_club.Accounts.Contact

ruleset query_rules = (message_rules, Keeps-lift)

module _ (J : JsonLib) (Q : List (Account J) → List Str → List (ChatRoom J) → Type 0) where
  Keeps-friend_info : (t : String) (a : Account J) → Keeps (Of J Q) (Contact.friend_info J t a)
  unfolding Contact.friend_info
  Keeps-friend_info t a = search query_rules

  Keeps-kin_entry :
      (my : ℤ) (env : Str) (a : Account J) → Keeps (Of J Q) (Contact.kin_entry J my env a)
  unfolding Contact.kin_entry
  Keeps-kin_entry my env a = search (query_rules, Keeps-friend_info) depth 14

  Keeps-kin_of :
      (my : ℤ) (env : Str) (as' : List (Account J)) → Keeps (Of J Q) (Contact.kin_of J my env as')
  unfolding Contact.kin_of
  Keeps-kin_of my env [] = Keeps-pure (Of J Q) []
  Keeps-kin_of my env (a ∷ as') =
      Keeps->>= (Of J Q) (Keeps-kin_entry my env a)
        λ e. Keeps->>= (Of J Q) (Keeps-kin_of my env as') λ es. Keeps-pure (Of J Q) (e ++ es)

  Keeps-friend_entry :
      (my : ℤ) (env : Str) (o : Option (Account J))
      → Keeps (Of J Q) (Contact.friend_entry J my env o)
  unfolding Contact.friend_entry
  Keeps-friend_entry my env none = Keeps-pure (Of J Q) []
  Keeps-friend_entry my env (some a) = search (query_rules, Keeps-friend_info) depth 14

  Keeps-friend_of :
      (my : ℤ) (env : Str) (ns : List ℤ) (as' : List (Account J)) (o : Option ℤ)
      → Keeps (Of J Q) (Contact.friend_of J my env ns as' o)
  unfolding Contact.friend_of
  Keeps-friend_of my env ns as' none = Keeps-pure (Of J Q) []
  Keeps-friend_of my env ns as' (some n) = search (query_rules, Keeps-friend_entry)

  Keeps-friends_of :
      (my : ℤ) (env : Str) (ns : List ℤ) (as' : List (Account J)) (fs : List J.Json)
      → Keeps (Of J Q) (Contact.friends_of J my env ns as' fs)
  unfolding Contact.friends_of
  Keeps-friends_of my env ns as' [] = Keeps-pure (Of J Q) []
  Keeps-friends_of my env ns as' (f ∷ fs) =
      Keeps->>= (Of J Q) (Keeps-friend_of my env ns as' (J.int? f)) λ e.
        Keeps->>= (Of J Q) (Keeps-friends_of my env ns as' fs) λ es. Keeps-pure (Of J Q) (e ++ es)

  Keeps-online_friends :
      (i : Str) (o : Option (Account J)) → Keeps (Of J Q) (Contact.online_friends J i o)
  unfolding Contact.online_friends
  Keeps-online_friends i none = Keeps-done (Of J Q)
  Keeps-online_friends i (some a) = search (query_rules, Keeps-kin_of, Keeps-friends_of) depth 14

  Keeps-email_status_asked :
      (o : Option (Account J)) → Keeps (Of J Q) (Contact.email_status_asked J o)
  unfolding Contact.email_status_asked
  Keeps-email_status_asked none = Keeps-pure (Of J Q) none
  Keeps-email_status_asked (some a) = search query_rules

  pub Keeps-email_status_answered :
      (i : Str) (o : Option J.Json) → Keeps (Of J Q) (Contact.email_status_answered J i o)
  unfolding Contact.email_status_answered
  Keeps-email_status_answered i none = search query_rules
  Keeps-email_status_answered i (some a) = search query_rules

  Keeps-query_of : (i query : Str) → Keeps (Of J Q) (Contact.query_of J i query)
  unfolding Contact.query_of
  Keeps-query_of i query =
      search (query_rules, Keeps-online_friends, Keeps-email_status_asked) depth 14

  Keeps-query_if : (i : Str) (o : Option Str) → Keeps (Of J Q) (Contact.query_if J i o)
  unfolding Contact.query_if
  Keeps-query_if i none = Keeps-pure (Of J Q) none
  Keeps-query_if i (some query) = Keeps-query_of i query

  -- A query changes nothing and only sends.
  pub Keeps-account_query :
      (i : Str) (json : J.Json) → Keeps (Of J Q) (Contact.account_query J i json)
  unfolding Contact.account_query
  Keeps-account_query i json = Keeps-query_if i _

  Keeps-place_in : (o : Option (ChatRoom J)) → Keeps (Of J Q) (Contact.place_in J o)
  unfolding Contact.place_in
  Keeps-place_in none = Keeps-lift (Of J Q) none
  Keeps-place_in (some room) = Keeps-pure (Of J Q) _

  Keeps-place_of : (b : Bool) (p : Option Str) → Keeps (Of J Q) (Contact.place_of J b p)
  unfolding Contact.place_of
  Keeps-place_of b none = Keeps-pure (Of J Q) _
  Keeps-place_of true (some rid) = Keeps-pure (Of J Q) _
  Keeps-place_of false (some rid) = search (query_rules, Keeps-place_in)

  Keeps-beep_to :
      (json : J.Json) (b : Bool) (kind : Str) (me other : Account J)
      → Keeps (Of J Q) (Contact.beep_to J json b kind me other)
  unfolding Contact.beep_to
  Keeps-beep_to json b kind me other = search (query_rules, Keeps-place_of) depth 16

  Keeps-beep_found :
      (json : J.Json) (b : Bool) (kind : Str) (me other : Option (Account J))
      → Keeps (Of J Q) (Contact.beep_found J json b kind me other)
  unfolding Contact.beep_found
  Keeps-beep_found json b kind (some me) (some other) = Keeps-beep_to json b kind me other
  Keeps-beep_found json b kind none other = Keeps-done (Of J Q)
  Keeps-beep_found json b kind (some me) none = Keeps-done (Of J Q)

  Keeps-beep_if :
      (i : Str) (json : J.Json) (o : Option ℤ) → Keeps (Of J Q) (Contact.beep_if J i json o)
  unfolding Contact.beep_if
  Keeps-beep_if i json none = Keeps-done (Of J Q)
  Keeps-beep_if i json (some n) = search (query_rules, Keeps-beep_found)

  pub Keeps-account_beep :
      (i : Str) (json : J.Json) → Keeps (Of J Q) (Contact.account_beep J i json)
  unfolding Contact.account_beep
  Keeps-account_beep i json = Keeps-beep_if i json _
