-- ===== src/Accounts/Desk/Reset.antt =====
-- Who can reset a password (`password_reset_process`, account_manager.cpp).
use studio_bondage_club.Prelude.{
  ◌≡◌, refl, Bool, true, false, ◌&&◌, Option, none, some, List, Str, map, to_upper, if◌then◌else◌,
  Bool-cases, inl, inr, pure, ◌>>=◌, get, Keeps, Keeps-if, Keeps->>=, Keeps-get, Keeps-pure,
}
use studio_bondage_club.Json.{JsonLib}
use studio_bondage_club.Accounts.Desk
use studio_bondage_club.Accounts.Desk.{Desk, Settings, matches, is_alnum, code_matches, set_code}

module _ (J : JsonLib) where
  -- What a request that is granted holds: a name and the number that is on record for it, and a
  -- password; the name and the password have letters and digits only.
  pub record Granted (cfg : Settings) (resets : List (Str × Str)) (out : Str × Str) : Type 0 where
    pub name : Str
    pub number : Str
    pub password : Str
    pub known : code_matches J name number resets ≡ true
    pub well_formed :
        (matches is_alnum cfg.name_max_len name && matches is_alnum cfg.name_max_len password)
        ≡ true
    pub upper : out ≡ (map to_upper name, map to_upper password)

  -- The outcome of a request: refused, or granted.
  pub data Outcome (cfg : Settings) (resets : List (Str × Str))
      : Option (Option (Str × Str)) → Type 0 where
    refused : Outcome cfg resets (some none)
    granted : {out : Str × Str} → Granted cfg resets out → Outcome cfg resets (some (some out))

  decided :
      (cfg : Settings) (i name number password : Str) (d : Desk J) (known : Bool)
      → code_matches J name number d.resets ≡ known
      → (matches is_alnum cfg.name_max_len name && matches is_alnum cfg.name_max_len password)
        ≡ true
      → Outcome cfg d.resets
          ((if known
              then pure (some (map to_upper name, map to_upper password))
              else Desk.invalid_reset J i)
            d).0
  decided cfg i name number password d true k w = granted (record {
    name = name;
    number = number;
    password = password;
    known = k;
    well_formed = w;
    upper = refl;
  })
  decided cfg i name number password d false k w = refused

  formed :
      (cfg : Settings) (i name number password : Str) (d : Desk J) (ok : Bool)
      → (matches is_alnum cfg.name_max_len name && matches is_alnum cfg.name_max_len password) ≡ ok
      → Outcome cfg d.resets
          ((if ok
              then (get >>= λ e.
                  (if code_matches J name number e.resets
                    then pure (some (map to_upper name, map to_upper password))
                    else Desk.invalid_reset J i))
              else Desk.invalid_reset J i)
            d).0
  formed cfg i name number password d true w = decided cfg i name number password d _ refl w
  formed cfg i name number password d false w = refused

  process-Outcome :
      (cfg : Settings) (i : Str) (name number password : Option Str) (d : Desk J)
      → Outcome cfg d.resets (Desk.reset_process J cfg i name number password d).0
  unfolding Desk.reset_process
  process-Outcome cfg i (some name) (some number) (some password) d =
      formed cfg i name number password d _ refl
  process-Outcome cfg i none n p d = refused
  process-Outcome cfg i (some name) none p d = refused
  process-Outcome cfg i (some name) (some n) none d = refused

  invalid-resets :
      (i : Str) (rs : List (Str × Str)) → Keeps (λ d. d.resets ≡ rs) (Desk.invalid_reset J i)
  invalid-resets i rs = record { keeps = λ d e. e }

  process-resets :
      (cfg : Settings) (i : Str) (rs : List (Str × Str)) (name number password : Option Str)
      → Keeps (λ d. d.resets ≡ rs) (Desk.reset_process J cfg i name number password)
  unfolding Desk.reset_process
  process-resets cfg i rs (some name) (some number) (some password) =
      search (Keeps-if, Keeps->>=, Keeps-get, Keeps-pure, invalid-resets) depth 9
  process-resets cfg i rs none n p = invalid-resets i rs
  process-resets cfg i rs (some name) none p = invalid-resets i rs
  process-resets cfg i rs (some name) (some n) none = invalid-resets i rs

  -- Every request to set a new password is either refused, or it holds an account's name with the
  -- number that is on record for that name, and the account and the password that go on are those of
  -- the request in upper case. Either way the numbers on record stay as they are, so that a number can
  -- be used again.
  pub password_reset_process-cases :
      (cfg : Settings) (i : Str) (json : J.Json) (d : Desk J)
      → Outcome cfg d.resets (Desk.password_reset_process J cfg i json d).0
        × ((Desk.password_reset_process J cfg i json d).1.resets ≡ d.resets)
  unfolding Desk.password_reset_process
  password_reset_process-cases cfg i json d = elim (Bool-cases (J.is_object json)) [
    | inl here ↦
        rw here (process-Outcome cfg i _ _ _ d, (process-resets cfg i d.resets _ _ _).keeps d refl)
    | inr gone ↦ rw gone (refused, refl)
  ]
