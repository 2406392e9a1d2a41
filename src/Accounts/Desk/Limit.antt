-- ===== src/Accounts/Desk/Limit.antt =====
-- The limit on the accounts made from one address (`account_create`, account_manager.cpp).
use studio_bondage_club.Prelude.{
  ℕ, suc, ◌+◌, ◌≤◌, ◌≡◌, refl, Bool, true, false, Option, none, some, List, [], ◌∷◌, ◌++◌, Str, ℤ,
  pos, length, if◌then◌else◌, str_eq, str_eq_iff, leb_ℤ, arith, ap, modify, ◌>>◌, Bool-cases, inl,
  inr, pure, Keeps, Keeps-if, Keeps-pure, Keeps->>=,
}
use mathlib.Core.Path.{subst}
use studio_bondage_club.Json.{JsonLib}
use studio_bondage_club.Accounts.Desk
use studio_bondage_club.Accounts.Desk.{Desk, Settings, from_address, since, over_limit, hour_ms}

module _ (J : JsonLib) where
  from_address-append :
      (a b : Str) (t : ℤ) (es : List (Str × ℤ))
      → length (from_address J a (es ++ (b, t) ∷ []))
        ≡ length (from_address J a es) + (if str_eq b a then 1 else 0)
  unfolding from_address
  from_address-append a b t [] = ground arith
  from_address-append a b t (e ∷ es) = ground (arith, from_address-append a b t es)

  -- No address has more than `n` creations.
  abbrev pub Bounded : ℕ → Desk J → Type 0
  Bounded n d = (a : Str) → length (from_address J a d.creations) ≤ n

  below_limit :
      (cfg : Settings) (n : ℕ) (now : ℤ) (address : Str) (es : List (Str × ℤ))
      → cfg.create_per_day ≡ pos n
      → over_limit J cfg now address es ≡ false
      → suc (length (from_address J address es)) ≤ n
  unfolding over_limit
  below_limit cfg n now address es e free =
      let day = ap (λ z. leb_ℤ z (pos (length (from_address J address es)))) e in
      ground (arith, day, free)

  admitted-Bounded :
      (cfg : Settings) (n : ℕ) (now : ℤ) (address : Str) (d : Desk J)
      → cfg.create_per_day ≡ pos n
      → over_limit J cfg now address d.creations ≡ false
      → Bounded n d
      → Bounded n (Desk.note_creation J address now d)
  admitted-Bounded cfg n now address d e free b a = elim (Bool-cases (str_eq address a)) [
    | inl same ↦
        let fits =
          subst (λ c. suc (length (from_address J c d.creations)) ≤ n)
            ((str_eq_iff address a).0 same) (below_limit cfg n now address d.creations e free) in
        ground (arith, from_address-append a address now d.creations, same, fits)
    | inr other ↦ ground (arith, from_address-append a address now d.creations, other, b a)
  ]

  admit-kept :
      (cfg : Settings) (n : ℕ) (now : ℤ) (i address : Str) (d : Desk J) (over : Bool)
      → over_limit J cfg now address d.creations ≡ over
      → cfg.create_per_day ≡ pos n
      → Bounded n d
      → Bounded n
          ((if over
              then Desk.answers J i "CreationResponse" "New accounts per day exceeded" >> pure false
              else modify (Desk.note_creation J address now) >> pure true)
            d).1
  admit-kept cfg n now i address d true o e b = b
  admit-kept cfg n now i address d false o e b = admitted-Bounded cfg n now address d e o b

  admit_creation-Bounded :
      (cfg : Settings) (n : ℕ) (now : ℤ) (i address : Str)
      → cfg.create_per_day ≡ pos n
      → Keeps (Bounded n) (Desk.admit_creation J cfg now i address)
  unfolding Desk.admit_creation
  admit_creation-Bounded cfg n now i [] e = Keeps-pure (Bounded n) true
  admit_creation-Bounded cfg n now i (c ∷ address) e = record {
    keeps = λ d b. admit-kept cfg n now i (c ∷ address) d _ refl e b;
  }

  Keeps-create_wanted :
      (ok : Str → Bool) (cfg : Settings) (n : ℕ) (now : ℤ) (i address : Str)
      (w : Option (Desk.Wanted J))
      → cfg.create_per_day ≡ pos n
      → Keeps (Bounded n) (Desk.create_wanted J ok cfg now i address w)
  unfolding Desk.create_wanted
  Keeps-create_wanted ok cfg n now i address none e = record { keeps = λ d b. b }
  Keeps-create_wanted ok cfg n now i address (some w) e =
      Keeps-if (Bounded n) (Desk.is_acceptable J ok cfg.name_max_len w)
        (Keeps->>= (Bounded n) (admit_creation-Bounded cfg n now i address e)
          λ b. Keeps-pure (Bounded n) _)
        (Keeps-pure (Bounded n) none)

  -- If no address has more than `create_per_day` creations on record, then no address has more after a
  -- request to create an account, however much time has passed: the limit that is named per day holds
  -- for good, since old creations are not forgotten.
  pub account_create-Bounded :
      (ok : Str → Bool) (cfg : Settings) (n : ℕ) (now : ℤ) (i address : Str) (json : J.Json)
      → cfg.create_per_day ≡ pos n
      → Keeps (Bounded n) (Desk.account_create J ok cfg now i address json)
  unfolding Desk.account_create
  account_create-Bounded ok cfg n now i address json e =
      Keeps-create_wanted ok cfg n now i address (Desk.wanted J json) e
