-- ===== src/Accounts/Lovership/Keeps.antt =====
-- What the ends of `account_lovership`'s steps (account_manager.cpp) keep.
use studio_bondage_club.Prelude.{Option, none, some, List, Str, ℤ, Keeps, Keeps-done, Keeps->>=}
use studio_bondage_club.Json.{JsonLib}
use studio_bondage_club.Accounts.Bond.Frame.{Allows, Keeps-change, Keeps-reread}
use studio_bondage_club.Accounts.Ownership.Keeps.{bond_rules}
use studio_bondage_club.Chat.State.{Account, ChatRoom}
use studio_bondage_club.Chat.Sync.Frame.{Of, Keeps-emits}
use studio_bondage_club.Accounts.Lovership

module _ (J : JsonLib) (Q : List (Account J) → List Str → List (ChatRoom J) → Type 0)
    (Touch : Str → Type 0) (w : Allows J Q Touch) where
  Keeps-tell_lovership :
      (told : Option Str) (lov : List J.Json) → Keeps (Of J Q) (Lovership.tell_lovership J told lov)
  unfolding Lovership.tell_lovership
  Keeps-tell_lovership none lov = Keeps-done (Of J Q)
  Keeps-tell_lovership (some i) lov = Keeps-emits J Q _

  pub Keeps-update_lovership :
      (lov : List J.Json) (n : ℤ) (told : Option Str)
      → Keeps (Of J Q) (Lovership.update_lovership J lov n told)
  unfolding Lovership.update_lovership
  Keeps-update_lovership lov n told = search (bond_rules, Keeps-tell_lovership) depth 12

  pub Keeps-settle_lovership :
      (acc : Account J) (n : ℤ) → Touch acc.id → Keeps (Of J Q) (Lovership.settle_lovership J acc n)
  unfolding Lovership.settle_lovership
  Keeps-settle_lovership acc n t = Keeps-reread J Q Touch w acc t λ a ta.
      Keeps->>= (Of J Q) (Keeps-update_lovership _ n _) λ kept. Keeps-change J Q Touch w acc _ t
