-- ===== src/Accounts/Lovership/Propose/Keeps.antt =====
-- What the offers of `account_lovership` (account_manager.cpp) keep.
use studio_bondage_club.Prelude.{
  ℕ, ◌≡◌, refl, Bool, true, Option, none, some, List, Str, String, ℤ, Keeps, Keeps-done, Keeps-if,
  Keeps-pure, Keeps-lift->>=,
}
use studio_bondage_club.Json.{JsonLib}
use studio_bondage_club.Accounts.Bond.Frame.{Allows, Keeps-reread}
use studio_bondage_club.Accounts.Ownership.Keeps.{bond_rules}
use studio_bondage_club.Chat.State.{Account, ChatRoom}
use studio_bondage_club.Chat.Sync.Frame.{Of}
use studio_bondage_club.Accounts.Lovership.{lovers, lover_index}
use studio_bondage_club.Accounts.Lovership.Propose

module _ (J : JsonLib) (Q : List (Account J) → List Str → List (ChatRoom J) → Type 0)
    (Touch : Str → Type 0) (w : Allows J Q Touch) where
  module _ (delay now : ℤ) where
    Keeps-offer :
        (b : Bool) (message possible : String) (f : List J.Json → List J.Json) (room : ChatRoom J)
        (acc target : Account J)
        → Touch target.id
        → Keeps (Of J Q) (Propose.offer J delay now b message possible f room acc target)
    unfolding Propose.offer
    Keeps-offer b message possible f room acc target t = search (bond_rules, w, t) depth 12

    Keeps-offer_next :
        (b : Bool) (key message possible : String) (stage : ℕ) (room : ChatRoom J)
        (acc target : Account J) (i : ℕ) (l : J.Json)
        → Touch target.id
        → Keeps
            (Of J Q)
            (Propose.offer_next J delay now b key message possible stage room acc target i l)
    unfolding Propose.offer_next
    Keeps-offer_next b key message possible stage room acc target i l t =
        search (bond_rules, Keeps-offer, t) depth 12

    Keeps-offers_at :
        (b : Bool) (room : ChatRoom J) (acc target : Account J) (i : ℕ) (o : Option J.Json)
        → Touch target.id
        → Keeps (Of J Q) (Propose.offers_at J delay now b room acc target i o)
    unfolding Propose.offers_at
    Keeps-offers_at b room acc target i none t = Keeps-done (Of J Q)
    Keeps-offers_at b room acc target i (some l) t =
        search (bond_rules, Keeps-offer_next, t) depth 12

    Keeps-offers_to :
        (b : Bool) (room : ChatRoom J) (acc target : Account J) (lov : List J.Json) (o : Option ℕ)
        → Touch target.id
        → Keeps (Of J Q) (Propose.offers_to J delay now b room acc target lov o)
    unfolding Propose.offers_to
    Keeps-offers_to b room acc target lov none t = search (bond_rules, Keeps-offer, t) depth 12
    Keeps-offers_to b room acc target lov (some i) t =
        search (bond_rules, Keeps-offers_at, t) depth 12

    Keeps-propose_to :
        (action : Str) (room : ChatRoom J) (acc target : Account J)
        → Touch target.id
        → Keeps (Of J Q) (Propose.propose_to J delay now action room acc target)
    unfolding Propose.propose_to
    Keeps-propose_to action room acc target t =
        search (bond_rules, Keeps-reread, Keeps-offers_to, w, t) depth 16

    Keeps-propose_if :
        (action : Str) (room : ChatRoom J) (acc : Account J) (o : Option (Account J))
        → ((t : Account J) → o ≡ some t → Touch t.id)
        → Keeps (Of J Q) (Propose.propose_if J delay now action room acc o)
    unfolding Propose.propose_if
    Keeps-propose_if action room acc none t = Keeps-pure (Of J Q) true
    Keeps-propose_if action room acc (some target) t =
        Keeps-propose_to action room acc target (t target refl)

    pub Keeps-proposals :
        (n : ℤ) (action : Str) (room : ChatRoom J) (acc : Account J) (o : Option (Account J))
        → Touch acc.id
        → ((t : Account J) → o ≡ some t → Touch t.id)
        → Keeps (Of J Q) (Propose.proposals J delay now n action room acc o)
    unfolding Propose.proposals
    Keeps-proposals n action room acc o a t = Keeps-reread J Q Touch w acc a λ me m.
        Keeps-lift->>= (Of J Q) (lover_index J n (lovers J me.fields)) λ i.
          Keeps-if (Of J Q) (Propose.has_room J delay now (lovers J me.fields) i)
            (Keeps-propose_if action room acc o t) (Keeps-pure (Of J Q) true)
