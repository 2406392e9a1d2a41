-- ===== src/Accounts/Lovership/Break/Keeps.antt =====
-- What the end of a relation (`account_lovership`, account_manager.cpp) keeps.
use studio_bondage_club.Prelude.{
  ℕ, Option, none, some, List, Str, ℤ, Keeps, Keeps-done, Keeps-if, Keeps-pure, Keeps-lift,
}
use studio_bondage_club.Json.{JsonLib}
use studio_bondage_club.Accounts.Bond.Frame.{Allows, Keeps-reread}
use studio_bondage_club.Accounts.Ownership.Keeps.{bond_rules}
use studio_bondage_club.Chat.State.{Account, ChatRoom}
use studio_bondage_club.Chat.Sync.Frame.{Of}
use studio_bondage_club.Accounts.Lovership.Break
use studio_bondage_club.Accounts.Lovership.Break.{BreakJob, Ending}
use studio_bondage_club.Accounts.Lovership.Keeps.{Keeps-settle_lovership, Keeps-update_lovership}
use studio_bondage_club.Accounts.Ownership.Release.Keeps.{Anyone}

module _ (J : JsonLib) (Q : List (Account J) → List Str → List (ChatRoom J) → Type 0)
    (Touch : Str → Type 0) (w : Allows J Q Touch) where
  Keeps-break_npc :
      (acc : Account J) (my : ℤ) (i : Option ℕ)
      → Touch acc.id
      → Keeps (Of J Q) (Break.break_npc J acc my i)
  unfolding Break.break_npc
  Keeps-break_npc acc my i t = search (bond_rules, Keeps-settle_lovership, w, t) depth 12

  Keeps-break_at :
      (delay now : ℤ) (acc : Account J) (my n : ℤ) (name : Option Str) (i : Option ℕ)
      (o : Option (ℤ × ℤ))
      → Touch acc.id
      → Keeps (Of J Q) (Break.break_at J delay now acc my n name i o)
  unfolding Break.break_at
  Keeps-break_at delay now acc my n name i (some (stage, begin)) t =
      Keeps-if (Of J Q) _ (Keeps-pure (Of J Q) _) (Keeps-pure (Of J Q) _)
  Keeps-break_at delay now acc my n none i none t = Keeps-pure (Of J Q) _
  Keeps-break_at delay now acc my n (some name) i none t =
      Keeps-if (Of J Q) _ (Keeps-break_npc acc my i t) (Keeps-pure (Of J Q) _)

  pub Keeps-break_lovership :
      (delay now : ℤ) (acc : Account J) (my n : ℤ) (name : Option Str)
      → Touch acc.id
      → Keeps (Of J Q) (Break.break_lovership J delay now acc my n name)
  unfolding Break.break_lovership
  Keeps-break_lovership delay now acc my n name t = search (bond_rules, Keeps-break_at, t) depth 9

-- The step after the database's answer, where every account may be written to.
module _ (J : JsonLib) (Q : List (Account J) → List Str → List (ChatRoom J) → Type 0)
    (w : Allows J Q Anyone) where
  Keeps-in_room : (a : Account J) (o : Option (ChatRoom J)) → Keeps (Of J Q) (Break.in_room J a o)
  unfolding Break.in_room
  Keeps-in_room a none = Keeps-lift (Of J Q) none
  Keeps-in_room a (some room) = search bond_rules

  Keeps-shown : (a : Account J) (p : Option Str) → Keeps (Of J Q) (Break.shown J a p)
  unfolding Break.shown
  Keeps-shown a none = Keeps-done (Of J Q)
  Keeps-shown a (some rid) = search (bond_rules, Keeps-in_room)

  Keeps-partner_loses :
      (p : List J.Json) (o : Option (Account J)) → Keeps (Of J Q) (Break.partner_loses J p o)
  unfolding Break.partner_loses
  Keeps-partner_loses p none = Keeps-done (Of J Q)
  Keeps-partner_loses p (some a) = search (bond_rules, Keeps-shown, w) depth 12

  Keeps-partner_at :
      (n : ℤ) (p : List J.Json) (o : Option ℕ) → Keeps (Of J Q) (Break.partner_at J n p o)
  unfolding Break.partner_at
  Keeps-partner_at n p none = Keeps-done (Of J Q)
  Keeps-partner_at n p (some i) =
      search (bond_rules, Keeps-partner_loses, Keeps-update_lovership, w) depth 12

  Keeps-partner_stored :
      (job : BreakJob) (o : Option (List J.Json)) → Keeps (Of J Q) (Break.partner_stored J job o)
  unfolding Break.partner_stored
  Keeps-partner_stored job none = Keeps-done (Of J Q)
  Keeps-partner_stored job (some p) = search (bond_rules, Keeps-partner_at) depth 9

  Keeps-sender_loses :
      (job : BreakJob) (o : Option (Account J)) → Keeps (Of J Q) (Break.sender_loses J job o)
  unfolding Break.sender_loses
  Keeps-sender_loses job none = Keeps-done (Of J Q)
  Keeps-sender_loses job (some a) =
      search (bond_rules, Keeps-reread, Keeps-settle_lovership, w) depth 16

  pub Keeps-break_answered :
      (job : BreakJob) (result : Option J.Json) → Keeps (Of J Q) (Break.break_answered J job result)
  unfolding Break.break_answered
  Keeps-break_answered job result =
      search (bond_rules, Keeps-partner_stored, Keeps-sender_loses) depth 12
