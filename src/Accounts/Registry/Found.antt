-- ===== src/Accounts/Registry/Found.antt =====
-- What the look-ups of account_manager.cpp and chatroom_manager.cpp find.
use studio_bondage_club.Prelude.{
  ◌≡◌, Bool, true, some, List, [], ◌∷◌, Str, ℤ, any, eq_ℤ, str_eq, str_eq_iff, find_if,
  find_if-passes, Bool-cases, Option-cases, inl, inr, arith, sym,
}
use mathlib.Core.Path.{subst}
use studio_bondage_club.Json.{JsonLib}
use studio_bondage_club.Chat.State.{Account, Game, account_for, members_of, member_number}
use studio_bondage_club.Chat.Sync.{by_number}

module _ (J : JsonLib) where
  pub account_for-id :
      (i : Str) (g : Game J) (acc : Account J) → account_for J i g ≡ some acc → acc.id ≡ i
  unfolding account_for
  account_for-id i g acc e = elim (Bool-cases (any (str_eq i) g.by_socket)) [
    | inl here ↦
        (str_eq_iff acc.id i).0
          (find_if-passes (λ a. str_eq a.id i) g.accounts acc (ground (arith, e, here)))
    | inr gone ↦ ground (arith, e, gone)
  ]

  found_again :
      (i : Str) (accounts : List (Account J)) (a : Account J)
      → find_if (λ x. str_eq x.id i) accounts ≡ some a
      → find_if (λ x. str_eq x.id a.id) accounts ≡ some a
  found_again i accounts a e =
      subst (λ j. find_if (λ x. str_eq x.id j) accounts ≡ some a)
        (sym ((str_eq_iff a.id i).0 (find_if-passes (λ x. str_eq x.id i) accounts a e))) e

  -- A member of a room that is found is the account with its id.
  pub members_of-found :
      (p : Account J → Bool) (accounts : List (Account J)) (ids : List Str) (t : Account J)
      → find_if p (members_of J accounts ids) ≡ some t
      → find_if (λ a. str_eq a.id t.id) accounts ≡ some t
  unfolding members_of
  members_of-found p accounts [] t e = cc
  members_of-found p accounts (i ∷ ids) t e =
      let again = found_again i accounts in
      elim (Option-cases (find_if (λ a. str_eq a.id i) accounts)) [
        | inl none' ↦ members_of-found p accounts ids t (ground (arith, e, none'))
        | inr (a, h) ↦ ground (arith, e, h, again a h, members_of-found p accounts ids t)
      ]

  pub by_number-passes :
      (n : ℤ) (members : List (Account J)) (t : Account J)
      → by_number J n members ≡ some t
      → eq_ℤ (member_number J t) n ≡ true
  unfolding by_number
  by_number-passes n members t e = find_if-passes (λ a. eq_ℤ (member_number J a) n) members t e
