-- ===== src/Accounts/Bond/Frame.antt =====
-- What a handler of account_manager.cpp keeps that writes to the fields of some accounts only. `Touch`
-- says of which, by their ids, and the property `Q` survives such writes.
use studio_bondage_club.Prelude.{
  ◌≡◌, Option, none, some, List, Str, ℤ, find_if, find_if-passes, str_eq, str_eq_iff, M, ◌>>=◌, sym,
  refl, Keeps, Keeps-modify, resume,
}
use mathlib.Core.Path.{subst}
use studio_bondage_club.Json.{JsonLib}
use studio_bondage_club.Accounts.Bond
use studio_bondage_club.Chat.State.{members_of, Account, ChatRoom, Game, modify_account}
use studio_bondage_club.Chat.Sync.{by_number}
use studio_bondage_club.Chat.Sync.Frame.{Of, message_rules}

module _ (J : JsonLib) (Q : List (Account J) → List Str → List (ChatRoom J) → Type 0) where
  pub Keeps-both_dict : (a t : Account J) → Keeps (Of J Q) (Bond.both_dict J a t)
  unfolding Bond.both_dict
  Keeps-both_dict a t = search message_rules depth 9

  pub record Allows (Touch : Str → Type 0) : Type 0 where
    pub kept :
        (i : Str) (f : J.Json → J.Json) (g : Game J)
        → Touch i
        → Of J Q g
        → Of J Q (modify_account J i (λ a. record a { fields = f a.fields }) g)

  -- Writing to a member with the number is allowed.
  pub record Names (Touch : Str → Type 0) (n : ℤ) : Type 0 where
    pub named :
        (g : Game J) (ids : List Str) (t : Account J)
        → Of J Q g
        → by_number J n (members_of J g.accounts ids) ≡ some t
        → Touch t.id

  module _ (Touch : Str → Type 0) (w : Allows Touch) where
    pub Keeps-change :
        (acc : Account J) (f : J.Json → J.Json)
        → Touch acc.id
        → Keeps (Of J Q) (Bond.change J acc f)
    unfolding Bond.change
    Keeps-change acc f t = Keeps-modify (Of J Q) _ (λ g q. w.kept acc.id f g t q)

    found-kept :
        {A : Type 0} (i : Str) (k : Account J → M (Game J) A) (g : Game J) (o : Option (Account J))
        → find_if (λ a. str_eq a.id i) g.accounts ≡ o
        → Touch i
        → ((a : Account J) → Touch a.id → Keeps (Of J Q) (k a))
        → Of J Q g
        → Of J Q (resume k (o, g)).1
    found-kept i k g none e t h q = q
    found-kept i k g (some a) e t h q =
        (h a (subst Touch (sym ((str_eq_iff a.id i).0 (find_if-passes _ g.accounts a e))) t)).keeps
          g q

    -- The account that is read again has the same id.
    pub Keeps-reread :
        {A : Type 0} (acc : Account J) {k : Account J → M (Game J) A}
        → Touch acc.id
        → ((a : Account J) → Touch a.id → Keeps (Of J Q) (k a))
        → Keeps (Of J Q) (Bond.reread J acc >>= k)
    unfolding Bond.reread
    Keeps-reread acc {k} t h = record { keeps = λ g q. found-kept acc.id k g _ refl t h q }
