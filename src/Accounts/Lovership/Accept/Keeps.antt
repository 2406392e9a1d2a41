-- ===== src/Accounts/Lovership/Accept/Keeps.antt =====
-- What the acceptance in `account_lovership` (account_manager.cpp) keeps.
use studio_bondage_club.Prelude.{
  ℕ, ◌≡◌, refl, Bool, Option, none, some, List, Str, String, ℤ, Keeps, Keeps-done, Keeps-if,
  Keeps-lift->>=,
}
use studio_bondage_club.Json.{JsonLib}
use studio_bondage_club.Accounts.Bond.Frame.{Allows, Keeps-reread}
use studio_bondage_club.Accounts.Ownership.Keeps.{bond_rules}
use studio_bondage_club.Chat.State.{Account, ChatRoom}
use studio_bondage_club.Chat.Sync.Frame.{Of}
use studio_bondage_club.Accounts.Lovership.{lovers, lover_index}
use studio_bondage_club.Accounts.Lovership.Accept
use studio_bondage_club.Accounts.Lovership.Keeps.{Keeps-settle_lovership}

module _ (J : JsonLib) (Q : List (Account J) → List Str → List (ChatRoom J) → Type 0)
    (Touch : Str → Type 0) (w : Allows J Q Touch) where
  module _ (now : ℤ) where
    Keeps-begin :
        (stage : ℕ) (message : String) (add : Bool) (room : ChatRoom J) (acc target : Account J)
        (i : ℕ) (j : Option ℕ) (my_name t_name : Str)
        → Touch acc.id
        → Touch target.id
        → Keeps (Of J Q) (Accept.begin J now stage message add room acc target i j my_name t_name)
    unfolding Accept.begin
    Keeps-begin stage message add room acc target i j my_name t_name a t =
        search (bond_rules, Keeps-settle_lovership, w, a, t) depth 16

    Keeps-later_steps :
        (b : Bool) (room : ChatRoom J) (acc target : Account J) (i : ℕ) (j : Option ℕ) (l : J.Json)
        (my_name t_name : Str)
        → Touch acc.id
        → Touch target.id
        → Keeps (Of J Q) (Accept.later_steps J now b room acc target i j l my_name t_name)
    unfolding Accept.later_steps
    Keeps-later_steps b room acc target i j l my_name t_name a t =
        search (bond_rules, Keeps-begin, a, t) depth 16

    Keeps-steps_at :
        (b : Bool) (room : ChatRoom J) (acc target : Account J) (lov : List J.Json) (i : ℕ)
        (j : Option ℕ) (o : Option J.Json)
        → Touch acc.id
        → Touch target.id
        → Keeps (Of J Q) (Accept.steps_at J now b room acc target lov i j o)
    unfolding Accept.steps_at
    Keeps-steps_at b room acc target lov i j none a t = Keeps-done (Of J Q)
    Keeps-steps_at b room acc target lov i j (some l) a t =
        search (bond_rules, Keeps-begin, Keeps-later_steps, a, t) depth 16

    Keeps-accept_from :
        (action : Str) (room : ChatRoom J) (acc target : Account J) (i : ℕ)
        → Touch acc.id
        → Touch target.id
        → Keeps (Of J Q) (Accept.accept_from J now action room acc target i)
    unfolding Accept.accept_from
    Keeps-accept_from action room acc target i a t =
        search (bond_rules, Keeps-reread, Keeps-steps_at, w, a, t) depth 16

    Keeps-accept_if :
        (action : Str) (room : ChatRoom J) (acc : Account J) (o : Option (Account J)) (i : ℕ)
        → Touch acc.id
        → ((t : Account J) → o ≡ some t → Touch t.id)
        → Keeps (Of J Q) (Accept.accept_if J now action room acc o i)
    unfolding Accept.accept_if
    Keeps-accept_if action room acc none i a t = Keeps-done (Of J Q)
    Keeps-accept_if action room acc (some target) i a t =
        Keeps-accept_from action room acc target i a (t target refl)

    Keeps-accept_at :
        (action : Str) (room : ChatRoom J) (acc : Account J) (o : Option (Account J))
        (lov : List J.Json) (i : Option ℕ)
        → Touch acc.id
        → ((t : Account J) → o ≡ some t → Touch t.id)
        → Keeps (Of J Q) (Accept.accept_at J now action room acc o lov i)
    unfolding Accept.accept_at
    Keeps-accept_at action room acc o lov none a t = Keeps-done (Of J Q)
    Keeps-accept_at action room acc o lov (some i) a t =
        Keeps-if (Of J Q) _ (Keeps-accept_if action room acc o i a t) (Keeps-done (Of J Q))

    pub Keeps-acceptance :
        (n : ℤ) (action : Str) (room : ChatRoom J) (acc : Account J) (o : Option (Account J))
        → Touch acc.id
        → ((t : Account J) → o ≡ some t → Touch t.id)
        → Keeps (Of J Q) (Accept.acceptance J now n action room acc o)
    unfolding Accept.acceptance
    Keeps-acceptance n action room acc o a t = Keeps-reread J Q Touch w acc a λ me m.
        Keeps-lift->>= (Of J Q) (lover_index J n (lovers J me.fields))
          λ i. Keeps-accept_at action room acc o (lovers J me.fields) i a t
