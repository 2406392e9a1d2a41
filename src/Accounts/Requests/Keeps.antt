-- ===== src/Accounts/Requests/Keeps.antt =====
-- Every sequence of events keeps the chat rooms valid.
use studio_bondage_club.Prelude.{◌≡◌, Bool, List, Str, ℕ, ℤ, length}
use studio_bondage_club.Json.{JsonLib}
use studio_bondage_club.Accounts.Bond.Frame.{Allows}
use studio_bondage_club.Accounts.Contact.Keeps.{
  Keeps-account_query, Keeps-account_beep, Keeps-email_status_answered,
}
use studio_bondage_club.Accounts.Login.Keeps.{
  Keeps-login_answered, Keeps-login_commit, Keeps-create_commit,
}
use studio_bondage_club.Accounts.Lovership.Break.Keeps.{Keeps-break_answered}
use studio_bondage_club.Accounts.Lovership.Request.Keeps.{Keeps-account_lovership}
use studio_bondage_club.Accounts.Ownership.Release.Keeps.{Keeps-release_answered, Anyone}
use studio_bondage_club.Accounts.Ownership.Request.Keeps.{Keeps-account_ownership}
use studio_bondage_club.Accounts.Registry.Keeps.{Keeps-remove_account, Keeps-flush_delayed_updates}
use studio_bondage_club.Accounts.Requests
use studio_bondage_club.Accounts.Requests.{
  AccountRequest, update, query, beep, update_email, ownership, lovership, difficulty, disconnect,
  Answer, login, logged_in, created, email_status, email, release, broken, flush, Runs, start, chat,
  account, answer,
}
use studio_bondage_club.Accounts.Update.Email.{Keeps-account_update_email, Keeps-email_answered}
use studio_bondage_club.Accounts.Update.Keeps.{Keeps-account_update, Keeps-account_difficulty}
use studio_bondage_club.Chat.Names.{Settings}
use studio_bondage_club.Chat.Requests.Keeps.{handle-IsValid}
use studio_bondage_club.Chat.State.{Account, ChatRoom, Game, modify_account}
use studio_bondage_club.Chat.Valid.{IsValid}

module _ (J : JsonLib) where
  abbrev ValidRooms : List (Account J) → List Str → List (ChatRoom J) → Type 0
  ValidRooms as' ss rooms = IsValid J rooms

  ValidRooms-Allows : Allows J ValidRooms Anyone
  unfolding modify_account
  ValidRooms-Allows = record { kept = λ i f g t q. q }

  on_request-IsValid :
      (delay : ℤ) (limit : ℕ) (ok : Str → Bool) (s : Str) (r : AccountRequest J) (g : Game J)
      → IsValid J g.rooms
      → IsValid J (Requests.on_request J delay limit ok s r g).rooms
  unfolding Requests.on_request
  on_request-IsValid delay limit ok s (update json) g v = (Keeps-account_update J s json).keeps g v
  on_request-IsValid delay limit ok s (query json) g v =
      (Keeps-account_query J ValidRooms s json).keeps g v
  on_request-IsValid delay limit ok s (beep json) g v =
      (Keeps-account_beep J ValidRooms s json).keeps g v
  on_request-IsValid delay limit ok s (update_email json) g v =
      (Keeps-account_update_email J ValidRooms ok s json).keeps g v
  on_request-IsValid delay limit ok s (ownership now json) g v =
      (Keeps-account_ownership J delay now limit ValidRooms Anyone ValidRooms-Allows s json tt
          (λ n e. record { named = λ g ids t q found. tt })).keeps
        g v
  on_request-IsValid delay limit ok s (lovership now json) g v =
      (Keeps-account_lovership J delay now ValidRooms Anyone ValidRooms-Allows s json tt
          (λ n e. record { named = λ h ids t q found. tt })).keeps
        g v
  on_request-IsValid delay limit ok s (difficulty now json) g v =
      (Keeps-account_difficulty J delay now s json).keeps g v
  on_request-IsValid delay limit ok s disconnect g v = (Keeps-remove_account J s).keeps g v

  on_answer-IsValid :
      (a : Answer J) (g : Game J) → IsValid J g.rooms → IsValid J (Requests.on_answer J a g).rooms
  unfolding Requests.on_answer
  on_answer-IsValid (login i upper c found ok) g v =
      (Keeps-login_answered J i upper c found ok).keeps g v
  on_answer-IsValid (logged_in i now a) g v = (Keeps-login_commit J i now a).keeps g v
  on_answer-IsValid (created i n now a) g v = (Keeps-create_commit J i n now a).keeps g v
  on_answer-IsValid (email_status i found) g v =
      (Keeps-email_status_answered J ValidRooms i found).keeps g v
  on_answer-IsValid (email i job found) g v =
      (Keeps-email_answered J ValidRooms i job found).keeps g v
  on_answer-IsValid (release job found) g v =
      (Keeps-release_answered J ValidRooms ValidRooms-Allows job found).keeps g v
  on_answer-IsValid (broken job found) g v =
      (Keeps-break_answered J ValidRooms ValidRooms-Allows job found).keeps g v
  on_answer-IsValid flush g v = (Keeps-flush_delayed_updates J).keeps g v

  module _ (cfg : Settings) (show : ℤ → Str) (perm : List Str → List Str) (delay : ℤ) (limit : ℕ)
      (ok : Str → Bool) (h : (xs : List Str) → length (perm xs) ≡ length xs) where
    -- From a game with valid rooms, every sequence of chat room requests, account requests, answers of the database and flushes, whether or not a handler throws, leads to a game
    -- with valid rooms: distinct ids, names distinct up to case and blanks, no empty room, and privacy
    -- and lock flags that agree with the roles. The id drawn for each new room must not be in use when
    -- it is drawn, and a shuffle must keep the number of members.
    pub Runs-IsValid :
        (g k : Game J)
        → Runs J cfg show perm delay limit ok g k
        → IsValid J g.rooms
        → IsValid J k.rooms
    Runs-IsValid g _ start v = v
    Runs-IsValid g _ (chat {m} before s r fresh) v =
        handle-IsValid J cfg show perm h s r m fresh (Runs-IsValid g m before v)
    Runs-IsValid g _ (account {m} before s r) v =
        on_request-IsValid delay limit ok s r m (Runs-IsValid g m before v)
    Runs-IsValid g _ (answer {m} before a) v = on_answer-IsValid a m (Runs-IsValid g m before v)
