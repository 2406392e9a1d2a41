-- ===== src/Accounts/Requests.antt =====
-- The events of a game server: the requests that `on_login` binds (account_manager.cpp), those about
-- chat rooms that `register_handlers` binds (chatroom_manager.cpp), the steps after the database's
-- answers, and the timer; and the games that sequences of events lead to.
pub mod Keeps
use studio_bondage_club.Prelude.{
  Bool, true, false, Option, none, some, List, Str, ℕ, ℤ, ◌>>◌, M, done,
}
use studio_bondage_club.Json.{JsonLib}
use studio_bondage_club.Accounts.Contact.{account_query, account_beep, email_status_answered}
use studio_bondage_club.Accounts.Login.{login_answered, login_commit, create_commit}
use studio_bondage_club.Accounts.Lovership.Break.{BreakJob, break_answered}
use studio_bondage_club.Accounts.Lovership.Request.{account_lovership}
use studio_bondage_club.Accounts.Ownership.Release.{Job, release_answered}
use studio_bondage_club.Accounts.Ownership.Request.{account_ownership}
use studio_bondage_club.Accounts.Registry.{remove_account, flush_delayed_updates}
use studio_bondage_club.Accounts.Update.{
  account_update, account_difficulty, account_update_email, email_answered,
}
use studio_bondage_club.Chat.Names.{Settings}
use studio_bondage_club.Chat.Requests.{Request, handle, IsFresh}
use studio_bondage_club.Chat.State.{Game}

module _ (J : JsonLib) where
  open J use {Json}

  -- A client's request, with the time where it reads the clock.
  pub data AccountRequest : Type 0 where
    update query beep update_email : Json → AccountRequest
    ownership lovership difficulty : ℤ → Json → AccountRequest
    disconnect : AccountRequest

  -- The rest of a coroutine after the database has answered, and the timer.
  pub data Answer : Type 0 where
    login : Str → Str → Bool → Option Json → Bool → Answer
    logged_in : Str → ℤ → Json → Answer
    created : Str → ℤ → ℤ → Json → Answer
    email_status : Str → Option Json → Answer
    email : Str → Str × Str × Str → Option Json → Answer
    release : Job → Option Json → Answer
    broken : BreakJob → Option Json → Answer
    flush : Answer

  -- The settings `relationship_delay_ms` and `ownership_notes_max_len`, and the test of an address.
  module _ (delay : ℤ) (limit : ℕ) (email_ok : Str → Bool) where
    -- `on_login`, and the last lines of the answers' coroutines: what the game is afterwards.
    unfoldable pub on_request : Str → AccountRequest → Game J → Game J
    on_request s (update json) g = (account_update J s json g).1
    on_request s (query json) g = (account_query J s json g).1
    on_request s (beep json) g = (account_beep J s json g).1
    on_request s (update_email json) g = (account_update_email J email_ok s json g).1
    on_request s (ownership now json) g = (account_ownership J delay now limit s json g).1
    on_request s (lovership now json) g = (account_lovership J delay now s json g).1
    on_request s (difficulty now json) g = (account_difficulty J delay now s json g).1
    on_request s disconnect g = (remove_account J s g).1

  unfoldable pub on_answer : Answer → Game J → Game J
  on_answer (login i upper connected found ok) g = (login_answered J i upper connected found ok g).1
  on_answer (logged_in i now a) g = (login_commit J i now a g).1
  on_answer (created i member now a) g = (create_commit J i member now a g).1
  on_answer (email_status i found) g = (email_status_answered J i found g).1
  on_answer (email i job found) g = (email_answered J i job found g).1
  on_answer (release job found) g = (release_answered J job found g).1
  on_answer (broken job found) g = (break_answered J job found g).1
  on_answer flush g = (flush_delayed_updates J g).1

  module _ (cfg : Settings) (show : ℤ → Str) (perm : List Str → List Str) (delay : ℤ) (limit : ℕ)
      (email_ok : Str → Bool) where
    -- The games that a sequence of events leads to, whether or not a handler throws.
    pub data Runs (g : Game J) : Game J → Type 0 where
      start : Runs g g
      chat :
          {m : Game J}
          → Runs g m
          → (s : Str) → (r : Request J) → IsFresh J cfg show perm r m
          → Runs g (handle J cfg show perm s r m).1
      account :
          {m : Game J}
          → Runs g m
          → (s : Str) → (r : AccountRequest) → Runs g (on_request delay limit email_ok s r m)
      answer : {m : Game J} → Runs g m → (a : Answer) → Runs g (on_answer a m)
