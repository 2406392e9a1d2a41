-- ===== src/Accounts/Login/Process.antt =====
-- `account_login_process` and `run_login_queue` (account_manager.cpp) in one go: a login from its first
-- question to the database to the end, and the loop over the clients that wait. What the database
-- answers, and whether a client is still there, comes from a parameter. Desk.Runner has the same
-- coroutines in every interleaving with what else happens.
pub mod Order
use studio_bondage_club.Prelude.{
  ℕ, zero, suc, Bool, true, false, Option, none, some, List, [], ◌∷◌, Str, ℤ, map, to_upper,
  if◌then◌else◌, M, ◌>>=◌, ◌>>◌, pure, done, lift,
}
use studio_bondage_club.Json.{JsonLib, value, field?}
use studio_bondage_club.Password.{verify_password}
use studio_bondage_club.Accounts.Desk.{Desk, Waiting, next_login, more_logins}
use studio_bondage_club.Accounts.Login.{login_answered, numbered, prepared, login_commit}
use studio_bondage_club.Chat.State.{Game}

module _ (J : JsonLib) where
  open J use {Json, str?, int?}

  -- The world of one login: whether the client is there when its turn comes and when the database has
  -- answered, the stored account, the next member number, the time, and the answer to the update; the
  -- database may throw in each of its three calls.
  pub record World : Type 0 where
    pub waits : Bool
    pub stays : Bool
    pub stored : Option (Option Json)
    pub next_number : Option ℤ
    pub now : ℤ
    pub updated : Option (Unit {0})

  module _ (derive : Str → Str → ℕ → Str) where
    -- The password's test, in the same call as the database's; a stored password that is no text throws.
    verified : Str → Option Json → Option Bool
    verified password none = some false
    verified password (some a) = elim (value J str? "Password" [] a) [
      | none ↦ none
      | some h ↦ some (verify_password derive (map to_upper password) h)
    ]

    number_for : World → Json → Option Json
    number_for v a = elim (field? J int? "MemberNumber" a) [
      | some n ↦ some a
      | none ↦ elim v.next_number [ none ↦ none | some n ↦ some (numbered J n a) ]
    ]

    go_online : World → Str → Option Json → M (Game J) (Unit {0})
    unfolding number_for
    go_online v i none = done
    go_online v i (some a) = do
      b ← lift (number_for v a)
      lift v.updated >> login_commit J i v.now (prepared J i v.now b)

    unfoldable pub account_login_process : World → Waiting → M (Game J) (Unit {0})
    unfolding verified go_online
    account_login_process v w = do
      found ← lift v.stored
      ok ← lift (verified w.password found)
      goes_on ← login_answered J w.socket_id w.upper_name v.stays found ok
      if goes_on then go_online v w.socket_id found else done

    -- Clients that have gone while they waited are skipped.
    unfoldable pub turn : World → Waiting → M (Game J) (Unit {0})
    unfolding account_login_process
    turn v w = if v.waits then account_login_process v w else done

  -- The state of the loop: whose turn it has been, and whether a login has thrown.
  pub record Run : Type 0 where
    pub turns : List Waiting
    pub threw : Bool
    pub desk : Desk J
    pub game : Game J

  module _ (login : Waiting → M (Game J) (Unit {0})) where
    abbrev Loop : Type 0
    Loop = Desk J → Game J → Run

    abbrev after_turn : Waiting → Run → Run
    after_turn w r = record r { turns = w ∷ r.turns }

    go_on : Loop → Bool × Desk J → Game J → Run
    go_on loop (false, d) g = record { turns = []; threw = false; desk = d; game = g }
    go_on loop (true, d) g = loop d g

    -- The rest of a round, unless the login has thrown, which ends the coroutine.
    unless_thrown : Loop → Desk J → Option (Unit {0}) × Game J → Run
    unfolding go_on
    unless_thrown loop d (none, g) = record { turns = []; threw = true; desk = d; game = g }
    unless_thrown loop d (some _, g) = go_on loop (more_logins J d) g

    serve : Loop → Option Waiting × Desk J → Game J → Run
    unfolding unless_thrown
    serve loop (none, d) g = record { turns = []; threw = false; desk = d; game = g }
    serve loop (some w, d) g = after_turn w (unless_thrown loop d (login w g))

    -- On fuel; a client more than there are is enough.
    unfoldable pub run_login_queue : ℕ → Desk J → Game J → Run
    unfolding serve
    run_login_queue zero d g = record { turns = []; threw = false; desk = d; game = g }
    run_login_queue (suc n) d g = serve (run_login_queue n) (next_login J d) g
