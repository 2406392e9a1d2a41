-- ===== src/Accounts/Ownership/Request/Keeps.antt =====
-- What the whole of `account_ownership` (account_manager.cpp) keeps: it writes to the fields of the
-- sender and of the members that have the number in the request.
use studio_bondage_club.Prelude.{
  ℕ, ◌≡◌, refl, sym, Option, none, some, List, Str, ℤ, str_eq, Bool-cases, inl, inr, Keeps,
  Keeps-if, Keeps-pure, Keeps->>,
}
use mathlib.Core.Path.{subst}
use studio_bondage_club.Json.{JsonLib, field?}
use studio_bondage_club.Accounts.Bond.Frame.{Allows, Names, Keeps-reread}
use studio_bondage_club.Accounts.Registry.Found.{account_for-id}
use studio_bondage_club.Accounts.Ownership.Keeps.{
  bond_rules, Keeps-break_ownership, Keeps-update_notes, Keeps-release_target, Keeps-propose_steps,
  Keeps-accept_steps,
}
use studio_bondage_club.Accounts.Ownership.Request
use studio_bondage_club.Chat.State.{Account, ChatRoom, Game, account_for, members_of}
use studio_bondage_club.Chat.Sync.{by_number}
use studio_bondage_club.Chat.Sync.Frame.{Of}

module _ (J : JsonLib) (delay now : ℤ) (limit : ℕ)
    (Q : List (Account J) → List Str → List (ChatRoom J) → Type 0) (Touch : Str → Type 0)
    (w : Allows J Q Touch) where
  Keeps-propose_and_accept :
      (action : Str) (room : ChatRoom J) (acc target : Account J)
      → Touch acc.id
      → Touch target.id
      → Keeps (Of J Q) (Request.propose_and_accept J delay now limit action room acc target)
  unfolding Request.propose_and_accept
  Keeps-propose_and_accept action room acc target a t =
      search (bond_rules, Keeps-reread, Keeps-propose_steps, Keeps-accept_steps, w, a, t) depth 14

  Keeps-with_target :
      (json : J.Json) (action : Str) (room : ChatRoom J) (acc target : Account J)
      → Touch acc.id
      → Touch target.id
      → Keeps (Of J Q) (Request.with_target J delay now limit json action room acc target)
  unfolding Request.with_target
  Keeps-with_target json action room acc target a t =
      search
        (bond_rules, Keeps-update_notes, Keeps-release_target, Keeps-propose_and_accept, w, a, t)
        depth 14

  module _ (json : J.Json) (action : Str) (n : ℤ) (m : Names J Q Touch n) where
    on_target-kept :
        (room : ChatRoom J) (acc : Account J) (ids : List Str) (g : Game J) (o : Option (Account J))
        → by_number J n (members_of J g.accounts ids) ≡ o
        → Touch acc.id
        → Of J Q g
        → Of J Q (Request.on_target J delay now limit json action room acc n o g).1
    unfolding Request.on_target Request.without_target
    on_target-kept room acc ids g none e a q =
        (Keeps-if (Of J Q) (str_eq action _) (Keeps-pure (Of J Q) _) (Keeps-pure (Of J Q) _)).keeps
          g q
    on_target-kept room acc ids g (some t) e a q =
        (Keeps->> (Of J Q) (Keeps-with_target json action room acc t a (m.named g ids t q e))
            (Keeps-pure (Of J Q) none)).keeps
          g q

    in_room-kept :
        (acc : Account J) (g : Game J) (o : Option (ChatRoom J))
        → Touch acc.id
        → Of J Q g
        → Of J Q (Request.in_room_with J delay now limit json action acc n o g).1
    unfolding Request.in_room_with
    in_room-kept acc g none a q = q
    in_room-kept acc g (some room) a q = on_target-kept room acc room.accounts g _ refl a q

    in_pointer-kept :
        (acc : Account J) (g : Game J) (p : Option Str)
        → Touch acc.id
        → Of J Q g
        → Of J Q (Request.in_pointer J delay now limit json action acc n p g).1
    unfolding Request.in_pointer
    in_pointer-kept acc g none a q = q
    in_pointer-kept acc g (some rid) a q = in_room-kept acc g _ a q

    Keeps-in_pointer :
        (acc : Account J)
        → Touch acc.id
        → Keeps (Of J Q) (Request.in_pointer J delay now limit json action acc n acc.chat_room)
    Keeps-in_pointer acc a = record { keeps = λ g q. in_pointer-kept acc g acc.chat_room a q }

    Keeps-asked :
        (acc : Account J)
        → Touch acc.id
        → Keeps (Of J Q) (Request.asked J delay now limit json action n (some acc))
    unfolding Request.asked
    Keeps-asked acc a = search (bond_rules, Keeps-break_ownership, Keeps-in_pointer, w, a) depth 12

  asked-kept :
      (json : J.Json) (action : Str) (n : ℤ) (m : Names J Q Touch n) (i : Str) (g : Game J)
      (o : Option (Account J))
      → account_for J i g ≡ o
      → Touch i
      → Of J Q g
      → Of J Q (Request.asked J delay now limit json action n o g).1
  unfolding Request.asked
  asked-kept json action n m i g none e t q = q
  asked-kept json action n m i g (some acc) e t q =
      (Keeps-asked json action n m acc (subst Touch (sym (account_for-id J i g acc e)) t)).keeps g q

  asked_if-kept :
      (i : Str) (json : J.Json) (o : Option ℤ) (g : Game J)
      → Touch i
      → ((n : ℤ) → o ≡ some n → Names J Q Touch n)
      → Of J Q g
      → Of J Q (Request.asked_if J delay now limit i json o g).1
  unfolding Request.asked_if
  asked_if-kept i json none g t m q = q
  asked_if-kept i json (some n) g t m q = asked-kept json _ n (m n refl) i g _ refl t q

  -- Whatever holds of accounts, sessions and rooms, and survives writes to the fields of the sender and
  -- of the members with the number in the request, survives the request.
  pub Keeps-account_ownership :
      (i : Str) (json : J.Json)
      → Touch i
      → ((n : ℤ) → field? J J.int? "MemberNumber" json ≡ some n → Names J Q Touch n)
      → Keeps (Of J Q) (Request.account_ownership J delay now limit i json)
  unfolding Request.account_ownership
  Keeps-account_ownership i json t m = record {
    keeps = λ g q. elim (Bool-cases (J.is_object json)) [
      | inl here ↦ rw here (asked_if-kept i json _ g t m q)
      | inr gone ↦ rw gone q
    ];
  }
