-- ===== src/Accounts/Desk.antt =====
-- What AccountManager (account_manager.cpp) does before a login: `account_create`, the login queue
-- (`enqueue_login`, `run_login_queue`), `password_reset` and `password_reset_process`. Its state is
-- `account_creation_ip_`, `login_queue_`, `login_running_`, `password_resets_` and
-- `next_password_reset_`, and the messages and mails that it has sent, in order.
pub mod Runner
pub mod Limit
pub mod Reset
use studio_bondage_club.Prelude.{
  ℕ, Bool, true, false, not, ◌&&◌, ◌||◌, Option, none, some, List, [], ◌∷◌, ◌++◌, String, Str,
  codes, ℤ, pos, ◌-ℤ◌, ◌+ℤ◌, leb_ℤ, ltb_ℤ, leb, ltb, length, all, reject, find_if, map, to_upper,
  if◌then◌else◌, str_eq, is_empty, is_nil, M, ◌>>=◌, ◌>>◌, pure, done, lift, get, modify,
}
use studio_bondage_club.Json.{JsonLib, value, field?}

-- The settings that these handlers read (settings.hpp).
pub record Settings : Type 0 where
  pub name_max_len : ℕ
  pub create_per_day : ℤ
  pub create_per_hour : ℤ
  pub queue_threshold : ℤ
  pub reset_throttle_ms : ℤ

-- A client that waits for its login: its session, the account's name and the password.
pub record Waiting : Type 0 where
  pub socket_id : Str
  pub upper_name : Str
  pub password : Str

-- A request to create an account that has passed the tests.
pub record NewAccount : Type 0 where
  pub name : Str
  pub upper_name : Str
  pub upper_password : Str
  pub email : Str

unfoldable pub is_letter : ℕ → Bool
is_letter c = leb b'a' c && leb c b'z' || leb b'A' c && leb c b'Z'

unfoldable pub is_alnum : ℕ → Bool
unfolding is_letter
is_alnum c = is_letter c || leb b'0' c && leb c b'9'

-- The patterns ^[…]{1,n}$.
unfoldable pub matches : (ℕ → Bool) → ℕ → Str → Bool
matches p n s = leb 1 (length s) && leb (length s) n && all p s

unfoldable pub is_name : ℕ → Bool
is_name c = is_letter c || leb 32 c && leb c 32

module _ (J : JsonLib) where
  open J use {Json, of_str, of_int, of_obj, is_object, str?}

  pub data Sent : Type 0 where
    reply : Str → String → Json → Sent
    mail : Str → Str → Sent

  pub record Desk : Type 0 where
    pub creations : List (Str × ℤ)
    pub queue : List Waiting
    pub running : Bool
    pub resets : List (Str × Str)
    pub next_reset : ℤ
    pub sent : List Sent

  abbrev pub sends : Sent → M Desk (Unit {0})
  sends s = modify (λ d. record d { sent = d.sent ++ s ∷ [] })

  abbrev pub answers : Str → String → String → M Desk (Unit {0})
  answers i event text = sends (reply i event (of_str (codes text)))

  -- The creations from an address, and those among them since a time.
  unfoldable pub from_address : Str → List (Str × ℤ) → List ℤ
  from_address address [] = []
  from_address address (e ∷ es) =
      let rest = from_address address es in if str_eq e.0 address then e.1 ∷ rest else rest

  unfoldable pub since : ℤ → List ℤ → List ℤ
  since t times = reject (λ u. not (leb_ℤ t u)) times

  abbrev pub hour_ms : ℤ
  hour_ms = pos 3600000

  unfoldable pub over_limit : Settings → ℤ → Str → List (Str × ℤ) → Bool
  unfolding from_address since
  over_limit cfg now address es =
      leb_ℤ cfg.create_per_day (pos (length (from_address address es)))
      || leb_ℤ cfg.create_per_hour (pos (length (since (now -ℤ hour_ms) (from_address address es))))

  abbrev pub note_creation : Str → ℤ → Desk → Desk
  note_creation address now d = record d { creations = d.creations ++ (address, now) ∷ [] }

  -- The limit on the creations from one address; an unknown address is not limited.
  unfoldable pub admit_creation : Settings → ℤ → Str → Str → M Desk Bool
  admit_creation cfg now i address = if is_empty address then pure true else (do
    d ← get
    if over_limit cfg now address d.creations
        then answers i "CreationResponse" "New accounts per day exceeded" >> pure false
        else modify (note_creation address now) >> pure true)

  pub record Wanted : Type 0 where
    pub name : Str
    pub account_name : Str
    pub password : Str
    pub email : Str

  wanted_of : Option Str → Option Str → Option Str → Option Str → Option Wanted
  wanted_of (some n) (some a) (some p) (some e) =
      some (record { name = n; account_name = a; password = p; email = e })
  wanted_of none a p e = none
  wanted_of (some n) none p e = none
  wanted_of (some n) (some a) none e = none
  wanted_of (some n) (some a) (some p) none = none

  -- Four texts, or nothing.
  unfoldable pub wanted : Json → Option Wanted
  unfolding wanted_of
  wanted json =
      if is_object json
      then wanted_of (field? J str? "Name" json) (field? J str? "AccountName" json)
          (field? J str? "Password" json) (field? J str? "Email" json)
      else none

  unfoldable pub is_acceptable : (Str → Bool) → ℕ → Wanted → Bool
  is_acceptable email_ok n w =
      matches is_name n w.name
      && matches is_alnum n w.account_name
      && matches is_alnum n w.password
      && email_ok w.email

  unfoldable pub new_account_of : Wanted → NewAccount
  new_account_of w = record {
    name = w.name;
    upper_name = map to_upper w.account_name;
    upper_password = map to_upper w.password;
    email = w.email;
  }

  create_wanted :
      (Str → Bool) → Settings → ℤ → Str → Str → Option Wanted → M Desk (Option NewAccount)
  create_wanted email_ok cfg now i address none =
      answers i "CreationResponse" "Invalid account information" >> pure none
  create_wanted email_ok cfg now i address (some w) =
      if is_acceptable email_ok cfg.name_max_len w
      then (do
        ok ← admit_creation cfg now i address
        pure (if ok then some (new_account_of w) else none))
      else pure none

  -- `account_create` up to its question whether the account exists. `email_ok` is the test of an
  -- address by the code's regular expression and length.
  unfoldable pub account_create :
      (Str → Bool) → Settings → ℤ → Str → Str → Json → M Desk (Option NewAccount)
  unfolding create_wanted
  account_create email_ok cfg now i address json =
      create_wanted email_ok cfg now i address (wanted json)

  -- The answer: whether the creation goes on, with `new_account` and `create_commit` of Accounts.Login.
  unfoldable pub create_answered : Str → Bool → M Desk Bool
  create_answered i true = answers i "CreationResponse" "Account already exists" >> pure false
  create_answered i false = pure true

  waiting_of : Str → Option Str → Option Str → Option Waiting
  waiting_of i (some n) (some p) =
      some (record { socket_id = i; upper_name = map to_upper n; password = p })
  waiting_of i none p = none
  waiting_of i (some n) none = none

  unfoldable pub join_queue : Waiting → Desk → Desk
  join_queue w d = record d { queue = d.queue ++ w ∷ []; running = true }

  enqueue : Settings → Str → Option Waiting → M Desk Bool
  enqueue cfg i none = answers i "LoginResponse" "InvalidNamePassword" >> pure false
  enqueue cfg i (some w) = do
    before ← get
    modify (join_queue w)
    d ← get
    if ltb_ℤ cfg.queue_threshold (pos (length d.queue))
        then sends (reply i "LoginQueue" (of_int (pos (length d.queue))))
        else done
    pure (not before.running)

  -- The result says whether `run_login_queue` is to be started.
  unfoldable pub enqueue_login : Settings → Str → Json → M Desk Bool
  unfolding waiting_of enqueue
  enqueue_login cfg i json = enqueue cfg i (
      if is_object json
      then waiting_of i (field? J str? "AccountName" json) (field? J str? "Password" json)
      else none)

  -- The head of a round of `run_login_queue`: the next client, or the end of the loop.
  unfoldable pub next_login : Desk → Option Waiting × Desk
  next_login d = elim d.queue [
    | [] ↦ (none, record d { running = false })
    | ◌∷◌ w ws ↦ (some w, record d { queue = ws })
  ]

  -- The end of a round, after the login: whether the loop goes on.
  unfoldable pub more_logins : Desk → Bool × Desk
  more_logins d = if is_nil d.queue then (false, record d { running = false }) else (true, d)

  -- The head of `password_reset`: whether the accounts with the address are to be looked up.
  unfoldable pub password_reset : (Str → Bool) → Settings → ℤ → Str → Str → M Desk Bool
  password_reset email_ok cfg now i email =
      if is_empty email || not (email_ok email) then pure false else (do
        d ← get
        if ltb_ℤ now d.next_reset
            then answers i "PasswordResetResponse" "RetryLater" >> pure false
            else (do
              modify (λ d. record d { next_reset = now +ℤ cfg.reset_throttle_ms })
              pure true))

  -- `password_resets_[name] = code`.
  unfoldable pub set_code : Str → Str → List (Str × Str) → List (Str × Str)
  set_code name code es = reject (λ e. str_eq e.0 name) es ++ (name, code) ∷ []

  abbrev reset_line : Str → Str → Str
  reset_line name code =
      codes "Account Name: "
      ++ (name ++ (10 ∷ (codes "Reset Number: " ++ (code ++ (10 ∷ 10 ∷ [])))))

  -- Every account of the address gets a code, drawn at random; the text of the mail grows.
  draw_codes : List (Json × Str) → M Desk Str
  draw_codes [] = pure []
  draw_codes (e ∷ es) = do
    name ← lift (value J str? "AccountName" [] e.0)
    modify (λ d. record d { resets = set_code name e.1 d.resets })
    rest ← draw_codes es
    pure (reset_line name e.1 ++ rest)

  reset_intro : Str
  reset_intro =
      codes "To reset your account password, enter your account name and the reset number."
      ++ 10 ∷ 10 ∷ []

  -- The accounts, each with the code drawn for it.
  unfoldable pub reset_answered : Str → Str → List (Json × Str) → M Desk (Unit {0})
  unfolding draw_codes reset_intro
  reset_answered i email [] = answers i "PasswordResetResponse" "NoAccountOnEmail"
  reset_answered i email (e ∷ es) = do
    lines ← draw_codes (e ∷ es)
    sends (mail email (reset_intro ++ lines))
    answers i "PasswordResetResponse" "EmailSent"

  abbrev pub invalid_reset : Str → M Desk (Option (Str × Str))
  invalid_reset i = answers i "PasswordResetResponse" "InvalidPasswordResetInfo" >> pure none

  unfoldable pub code_matches : Str → Str → List (Str × Str) → Bool
  code_matches name number es = elim (find_if (λ e. str_eq e.0 name) es) [
    | none ↦ false
    | some e ↦ str_eq e.1 number
  ]

  reset_process :
      Settings → Str → Option Str → Option Str → Option Str → M Desk (Option (Str × Str))
  reset_process cfg i (some name) (some number) (some password) =
      if matches is_alnum cfg.name_max_len name && matches is_alnum cfg.name_max_len password
      then (do
        d ← get
        if code_matches name number d.resets
            then pure (some (map to_upper name, map to_upper password))
            else invalid_reset i)
      else invalid_reset i
  reset_process cfg i none n p = invalid_reset i
  reset_process cfg i (some name) none p = invalid_reset i
  reset_process cfg i (some name) (some n) none = invalid_reset i

  -- `password_reset_process` up to its writing of the hash: the account's name and the password to be
  -- hashed, if the request is good.
  unfoldable pub password_reset_process : Settings → Str → Json → M Desk (Option (Str × Str))
  unfolding reset_process
  password_reset_process cfg i json =
      if is_object json
      then reset_process cfg i (field? J str? "AccountName" json) (field? J str? "ResetNumber" json)
          (field? J str? "NewPassword" json)
      else invalid_reset i

  -- The hash is written.
  unfoldable pub reset_done : Str → M Desk (Unit {0})
  reset_done i = answers i "PasswordResetResponse" "PasswordResetSuccessful"
