-- ===== src/Accounts/Lovership/Request/Keeps.antt =====
-- What the whole of `account_lovership` (account_manager.cpp) keeps: it writes to the fields of the
-- sender and of the members that have the number in the request.
use studio_bondage_club.Prelude.{
  ◌≡◌, refl, sym, Option, none, some, List, Str, ℤ, Keeps, Keeps-done, Keeps-if, Keeps-pure,
  Keeps->>=, Keeps->>, Bool-cases, inl, inr,
}
use studio_bondage_club.Json.{JsonLib, field?}
use studio_bondage_club.Accounts.Bond.Frame.{Allows, Keeps-reread}
use studio_bondage_club.Accounts.Ownership.Keeps.{bond_rules}
use studio_bondage_club.Chat.State.{Account, ChatRoom, Game}
use studio_bondage_club.Chat.Sync.Frame.{Of}
use mathlib.Core.Path.{subst}
use studio_bondage_club.Accounts.Lovership.Accept.Keeps.{Keeps-acceptance}
use studio_bondage_club.Accounts.Lovership.Break.{Ending, waits, over, goes_on}
use studio_bondage_club.Accounts.Lovership.Break.Keeps.{Keeps-break_lovership}
use studio_bondage_club.Accounts.Lovership.Propose.Keeps.{Keeps-proposals}
use studio_bondage_club.Accounts.Lovership.Request
use studio_bondage_club.Accounts.Bond.Frame.{Names}
use studio_bondage_club.Accounts.Registry.Found.{account_for-id}
use studio_bondage_club.Chat.State.{account_for, members_of}
use studio_bondage_club.Chat.Sync.{by_number}

module _ (J : JsonLib) (delay now : ℤ)
    (Q : List (Account J) → List Str → List (ChatRoom J) → Type 0) (Touch : Str → Type 0)
    (w : Allows J Q Touch) where
  Keeps-steps_with :
      (action : Str) (n : ℤ) (room : ChatRoom J) (acc : Account J) (o : Option (Account J))
      → Touch acc.id
      → ((t : Account J) → o ≡ some t → Touch t.id)
      → Keeps (Of J Q) (Request.steps_with J delay now action n room acc o)
  unfolding Request.steps_with
  Keeps-steps_with action n room acc o a t =
      Keeps->>= (Of J Q) (Keeps-proposals J Q Touch w delay now n action room acc o a t) λ more.
        Keeps-if (Of J Q) more (Keeps-acceptance J Q Touch w now n action room acc o a t)
          (Keeps-done (Of J Q))

  module _ (action : Str) (n : ℤ) (m : Names J Q Touch n) where
    steps_in-kept :
        (acc : Account J) (g : Game J) (o : Option (ChatRoom J))
        → Touch acc.id
        → Of J Q g
        → Of J Q (Request.steps_in J delay now action n acc o g).1
    unfolding Request.steps_in
    steps_in-kept acc g none a q = q
    steps_in-kept acc g (some room) a q =
        (Keeps-steps_with action n room acc (by_number J n (members_of J g.accounts room.accounts))
            a (λ t e. m.named g room.accounts t q e)).keeps
          g q

    steps_at-kept :
        (acc : Account J) (g : Game J) (p : Option Str)
        → Touch acc.id
        → Of J Q g
        → Of J Q (Request.steps_at J delay now action n acc p g).1
    unfolding Request.steps_at
    steps_at-kept acc g none a q = q
    steps_at-kept acc g (some rid) a q = steps_in-kept acc g _ a q

    Keeps-steps_at :
        (acc : Account J)
        → Touch acc.id
        → Keeps (Of J Q) (Request.steps_at J delay now action n acc acc.chat_room)
    Keeps-steps_at acc a = record { keeps = λ g q. steps_at-kept acc g acc.chat_room a q }

    Keeps-after_break :
        (acc : Account J) (e : Ending J)
        → Touch acc.id
        → Keeps (Of J Q) (Request.after_break J delay now action n acc e)
    unfolding Request.after_break
    Keeps-after_break acc (waits job) a = Keeps-pure (Of J Q) (some job)
    Keeps-after_break acc over a = Keeps-pure (Of J Q) none
    Keeps-after_break acc goes_on a =
        Keeps->> (Of J Q) (Keeps-steps_at acc a) (Keeps-pure (Of J Q) none)

    Keeps-asked :
        (name : Option Str) (acc : Account J)
        → Touch acc.id
        → Keeps (Of J Q) (Request.asked J delay now action n name (some acc))
    unfolding Request.asked
    Keeps-asked name acc a =
        search (bond_rules, Keeps-reread, Keeps-break_lovership, Keeps-after_break, w, a) depth 16

  asked-kept :
      (action : Str) (n : ℤ) (m : Names J Q Touch n) (name : Option Str) (i : Str) (g : Game J)
      (o : Option (Account J))
      → account_for J i g ≡ o
      → Touch i
      → Of J Q g
      → Of J Q (Request.asked J delay now action n name o g).1
  unfolding Request.asked
  asked-kept action n m name i g none e t q = q
  asked-kept action n m name i g (some acc) e t q =
      (Keeps-asked action n m name acc (subst Touch (sym (account_for-id J i g acc e)) t)).keeps g q

  asked_if-kept :
      (i : Str) (json : J.Json) (o : Option ℤ) (g : Game J)
      → Touch i
      → ((n : ℤ) → o ≡ some n → Names J Q Touch n)
      → Of J Q g
      → Of J Q (Request.asked_if J delay now i json o g).1
  unfolding Request.asked_if
  asked_if-kept i json none g t m q = q
  asked_if-kept i json (some n) g t m q = asked-kept _ n (m n refl) _ i g _ refl t q

  -- Whatever holds of accounts, sessions and rooms, and survives writes to the fields of the sender and
  -- of the members with the number in the request, survives the request.
  pub Keeps-account_lovership :
      (i : Str) (json : J.Json)
      → Touch i
      → ((n : ℤ) → field? J J.int? "MemberNumber" json ≡ some n → Names J Q Touch n)
      → Keeps (Of J Q) (Request.account_lovership J delay now i json)
  unfolding Request.account_lovership
  Keeps-account_lovership i json t m = record {
    keeps = λ g q. elim (Bool-cases (J.is_object json)) [
      | inl here ↦ rw here (asked_if-kept i json _ g t m q)
      | inr gone ↦ rw gone q
    ];
  }
