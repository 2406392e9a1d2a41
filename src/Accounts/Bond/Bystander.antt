-- ===== src/Accounts/Bond/Bystander.antt =====
-- An account that a handler of account_manager.cpp does not write to.
use studio_bondage_club.Prelude.{
  ◌≡◌, refl, sym, Bool, false, Option, none, some, ap, List, [], ◌∷◌, Str, ℤ, map, find_if, eq_ℤ,
  if◌then◌else◌, str_eq, str_eq_iff, Bool-cases, inl, inr, arith, ◌∙◌,
}
use mathlib.Core.Path.{subst}
use studio_bondage_club.Json.{JsonLib}
use studio_bondage_club.Accounts.Bond.Frame.{Allows}
use studio_bondage_club.Accounts.Registry.Found.{members_of-found, by_number-passes}
use studio_bondage_club.Chat.State.{
  Account, ChatRoom, Game, modify_account, members_of, member_number,
}
use studio_bondage_club.Chat.Sync.{by_number}
use studio_bondage_club.Chat.Sync.Frame.{Of}

module _ (J : JsonLib) where
  abbrev pub touched : Str → (Account J → Account J) → List (Account J) → List (Account J)
  touched i f accounts = map (λ a. if str_eq a.id i then f a else a) accounts

  pub find_if-touched :
      (i j : Str) (f : Account J → Account J) (accounts : List (Account J))
      → str_eq i j ≡ false
      → ((a : Account J) → (f a).id ≡ a.id)
      → find_if (λ a. str_eq a.id j) (touched i f accounts) ≡ find_if (λ a. str_eq a.id j) accounts
  find_if-touched i j f [] n h = refl
  find_if-touched i j f (a ∷ accounts) n h = elim (Bool-cases (str_eq a.id i)) [
    | inl here ↦
        let other = subst (λ k. str_eq k j ≡ false) (sym ((str_eq_iff a.id i).0 here)) n in
        ground (arith, here, h a, other, find_if-touched i j f accounts n h)
    | inr there ↦ ground (arith, there, find_if-touched i j f accounts n h)
  ]

  module _ (a : Account J) (sockets : List Str) (rooms : List (ChatRoom J)) where
    -- The account is as it is, and so are the sessions and the rooms.
    abbrev pub Same : List (Account J) → List Str → List (ChatRoom J) → Type 0
    Same as' ss rs = (find_if (λ b. str_eq b.id a.id) as' ≡ some a) × (ss ≡ sockets) × (rs ≡ rooms)

    abbrev pub Other : Str → Type 0
    Other i = str_eq i a.id ≡ false

    pub Same-Allows : Allows J Same Other
    unfolding modify_account
    Same-Allows = record {
      kept = λ i f g n q. (
        find_if-touched i a.id (λ b. record b { fields = f b.fields }) g.accounts n (λ b. refl)
            ∙ q.0,
        q.1,
        q.2,
      );
    }

    is_number : ℤ → Option (Account J) → Bool
    is_number n none = false
    is_number n (some b) = eq_ℤ (member_number J b) n

    -- A member with a number that is not this account's is another account.
    pub by_number-Other :
        (n : ℤ) (g : Game J) (ids : List Str) (t : Account J)
        → eq_ℤ (member_number J a) n ≡ false
        → Of J Same g
        → by_number J n (members_of J g.accounts ids) ≡ some t
        → Other t.id
    unfolding by_number is_number
    by_number-Other n g ids t h q e = elim (Bool-cases (str_eq t.id a.id)) [
      | inr other ↦ other
      | inl same ↦
          let found = members_of-found J (λ b. eq_ℤ (member_number J b) n) g.accounts ids t e in
          let here =
            subst (λ k. find_if (λ b. str_eq b.id k) g.accounts ≡ some t)
              ((str_eq_iff t.id a.id).0 same) found in
          let numbers = ap (is_number n) (sym here ∙ q.0) in
          ground (arith, numbers, by_number-passes J n (members_of J g.accounts ids) t e, h)
    ]
