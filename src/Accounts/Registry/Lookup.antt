-- ===== src/Accounts/Registry/Lookup.antt =====
-- The look-ups after an account came online or went (account_manager.cpp).
use studio_bondage_club.Prelude.{
  ◌≡◌, refl, Bool, true, false, some, List, [], ◌∷◌, ◌++◌, Str, ℤ, eq_ℤ, eq_ℤ_iff, any, any-append,
  reject, find_if, str_eq, str_eq_refl, str_eq_sym, str_eq_iff, sym, ◌∙◌, arith, Bool-cases, inl,
  inr,
}
use mathlib.Core.Path.{subst}
use studio_bondage_club.Json.{JsonLib}
use studio_bondage_club.Accounts.Registry
use studio_bondage_club.Accounts.Registry.{register, unregister, get_by_member}
use studio_bondage_club.Chat.State.{Account, Game, account_for}

module _ {A : Type 0} where
  -- What is found behind entries that were taken out.
  find_if-reject_append :
      (p q : A → Bool) (xs : List A) (x : A)
      → ((y : A) → p y ≡ q y)
      → q x ≡ true
      → find_if q (reject p xs ++ x ∷ []) ≡ some x
  find_if-reject_append p q [] x same h = rw h refl
  find_if-reject_append p q (y ∷ xs) x same h =
      ground (arith, same y, find_if-reject_append p q xs x same h)

  -- An entry that is not taken out is found as before, unless the new one is meant.
  find_if-reject_other :
      (p q : A → Bool) (xs : List A) (x : A)
      → ((y : A) → p y ≡ true → q y ≡ false)
      → q x ≡ false
      → find_if q (reject p xs ++ x ∷ []) ≡ find_if q xs
  find_if-reject_other p q [] x other h = rw h refl
  find_if-reject_other p q (y ∷ xs) x other h = elim (Bool-cases (p y)) [
    | inl out ↦ ground (arith, out, other y out, find_if-reject_other p q xs x other h)
    | inr kept ↦ ground (arith, kept, find_if-reject_other p q xs x other h)
  ]

eq_ℤ_refl : (n : ℤ) → eq_ℤ n n ≡ true
eq_ℤ_refl n = (eq_ℤ_iff n n).1 refl

module _ (J : JsonLib) where
  online_after : (i : Str) (ids : List Str) → any (str_eq i) (Registry.insert_id J i ids) ≡ true
  online_after i ids = elim (Bool-cases (any (str_eq i) ids)) [
    | inl here ↦ rw (here, here) refl
    | inr gone ↦ ground (arith, gone, any-append (str_eq i) ids (i ∷ []), str_eq_refl i)
  ]

  online_other :
      (i j : Str) (ids : List Str)
      → str_eq j i ≡ false
      → any (str_eq j) (Registry.insert_id J i ids) ≡ any (str_eq j) ids
  online_other i j ids n = elim (Bool-cases (any (str_eq i) ids)) [
    | inl here ↦ rw here refl
    | inr gone ↦ ground (arith, gone, n, any-append (str_eq j) ids (i ∷ []))
  ]

  other_id : (i j k : Str) → str_eq j i ≡ false → str_eq k i ≡ true → str_eq k j ≡ false
  other_id i j k n h =
      subst (λ x. str_eq x j ≡ false) (sym ((str_eq_iff k i).0 h)) (str_eq_sym i j ∙ n)

  account_other :
      (acc : Account J) (j : Str) (accounts : List (Account J))
      → str_eq j acc.id ≡ false
      → find_if (λ a. str_eq a.id j) (reject (λ a. str_eq a.id acc.id) accounts ++ acc ∷ [])
        ≡ find_if (λ a. str_eq a.id j) accounts
  account_other acc j accounts h =
      find_if-reject_other (λ a. str_eq a.id acc.id) (λ a. str_eq a.id j) accounts acc
        (λ y e. other_id acc.id j y.id h e) (other_id acc.id j acc.id h (str_eq_refl acc.id))

  -- Whoever comes online is found by its session and by its number, and every other session has the
  -- account that it had.
  pub register-lookups :
      (acc : Account J) (n : ℤ) (g : Game J)
      → (account_for J acc.id (register J acc n g) ≡ some acc)
        × (get_by_member J n (register J acc n g) ≡ some acc)
        × ((j : Str)
            → str_eq j acc.id ≡ false
            → account_for J j (register J acc n g) ≡ account_for J j g)
  unfolding account_for register get_by_member Registry.object_named
  register-lookups acc n g =
      let here =
        find_if-reject_append (λ a. str_eq a.id acc.id) (λ a. str_eq a.id acc.id) g.accounts acc
          (λ y. refl) (str_eq_refl acc.id) in
      let number =
        find_if-reject_append (λ e. eq_ℤ e.0 n) (λ e. eq_ℤ e.0 n) g.by_member (n, acc.id)
          (λ y. refl) (eq_ℤ_refl n) in
      (
        rw (online_after acc.id g.by_socket) here,
        rw number here,
        λ j h. rw (online_other acc.id j g.by_socket h, account_other acc j g.accounts h) refl,
      )
