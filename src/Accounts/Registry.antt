-- ===== src/Accounts/Registry.antt =====
-- The accounts that are online: `by_socket` and `by_member`, and how accounts come and go
-- (`account_login_process`, `remove_account`, `flush_delayed_updates` of account_manager.cpp).
pub mod Lookup
pub mod Found
pub mod Keeps
use studio_bondage_club.Prelude.{
  ℕ, Bool, true, false, not, ◌&&◌, ◌||◌, Option, none, some, List, [], ◌∷◌, ◌++◌, String, Str,
  codes, ℤ, eq_ℤ, any, reject, find_if, map, if◌then◌else◌, str_eq, M, ◌>>=◌, ◌>>◌, pure, done,
  lift, get, modify,
}
use studio_bondage_club.Json.{JsonLib, value, field?}
use studio_bondage_club.Chat.Leave.{remove_from_room}
use studio_bondage_club.Chat.State.{
  Account, Game, emit, disconnect_socket, persist_fields, member_number, account_for,
  modify_account,
}
use studio_bondage_club.Chat.Sync.{emits}

module _ (J : JsonLib) where
  open J use {
    Json, null, of_str, of_int, of_arr, of_obj, is_object, is_null, int?, str?, num?, arr?, member?,
    put, erase,
  }

  -- `acc.account_name()`.
  unfoldable pub upper_name : Account J → Option Str
  upper_name acc = value J str? "AccountName" [] acc.fields

  object_named : Option (ℤ × Str) → Game J → Option (Account J)
  object_named none g = none
  object_named (some e) g = find_if (λ a. str_eq a.id e.1) g.accounts

  -- `gs_.by_member.find(n)`, and the object that it maps to.
  unfoldable pub get_by_member : ℤ → Game J → Option (Account J)
  unfolding object_named
  get_by_member n g = object_named (find_if (λ e. eq_ℤ e.0 n) g.by_member) g

  abbrev insert_id : Str → List Str → List Str
  insert_id i ids = if any (str_eq i) ids then ids else ids ++ i ∷ []

  abbrev pub assign_member : ℤ → Str → List (ℤ × Str) → List (ℤ × Str)
  assign_member n i es = reject (λ e. eq_ℤ e.0 n) es ++ (n, i) ∷ []

  -- `gs_.by_socket[acc->id] = acc; gs_.by_member[member] = acc;` A session has one account
  -- object here; the code would keep, under its number, the older object of a session that logs in twice.
  unfoldable pub register : Account J → ℤ → Game J → Game J
  register acc n g = record g {
    accounts = reject (λ a. str_eq a.id acc.id) g.accounts ++ acc ∷ [];
    by_socket = insert_id acc.id g.by_socket;
    by_member = assign_member n acc.id g.by_member;
  }

  unfoldable pub unregister : Str → ℤ → Game J → Game J
  unregister socket_id n g = record g {
    by_socket = reject (str_eq socket_id) g.by_socket;
    by_member = reject (λ e. eq_ℤ e.0 n) g.by_member;
  }

  abbrev pending : String → Option Json → List (String × Json)
  pending key none = []
  pending key (some v) = (key, v) ∷ []

  -- The delayed writes of an account, and their posting if there are any.
  unfoldable pub delayed : Account J → List (String × Json)
  delayed acc =
      pending "Appearance" acc.delayed_appearance
      ++ (pending "Skill" acc.delayed_skill ++ pending "Game" acc.delayed_game)

  persist_all : Str → List (String × Json) → M (Game J) (Unit {0})
  persist_all upper [] = done
  persist_all upper (e ∷ es) = emits J (persist_fields upper (of_obj (e ∷ es)))

  remove_found : Str → Option (Account J) → M (Game J) (Unit {0})
  unfolding persist_all
  remove_found socket_id none = done
  remove_found socket_id (some acc) = do
    remove_from_room J acc
    modify (unregister socket_id (member_number J acc))
    upper ← lift (upper_name acc)
    persist_all upper (delayed acc)

  unfoldable pub remove_account : Str → M (Game J) (Unit {0})
  unfolding remove_found
  remove_account socket_id = do g ← get; remove_found socket_id (account_for J socket_id g)

  abbrev pub flushed : Account J → Account J
  flushed acc = record acc { delayed_appearance = none; delayed_skill = none; delayed_game = none }

  named_work : List (String × Json) → Account J → M (Game J) (List (Str × Json))
  named_work [] acc = pure []
  named_work (e ∷ es) acc = do upper ← lift (upper_name acc); pure ((upper, of_obj (e ∷ es)) ∷ [])

  -- The pending writes of one account are taken out of it.
  take_pending : Option (Account J) → M (Game J) (List (Str × Json))
  unfolding named_work
  take_pending none = pure []
  take_pending (some acc) = do
    modify (modify_account J acc.id flushed)
    named_work (delayed acc) acc

  -- The work that is posted after the lock is given back.
  collect_work : List Str → M (Game J) (List (Str × Json))
  unfolding take_pending
  collect_work [] = pure []
  collect_work (i ∷ ids) = do
    g ← get
    w ← take_pending (find_if (λ a. str_eq a.id i) g.accounts)
    ws ← collect_work ids
    pure (w ++ ws)

  post_all : List (Str × Json) → M (Game J) (Unit {0})
  post_all [] = done
  post_all (w ∷ ws) = do emits J (persist_fields w.0 w.1); post_all ws

  -- The accounts in the order of `by_socket`.
  unfoldable pub flush_delayed_updates : M (Game J) (Unit {0})
  unfolding collect_work post_all
  flush_delayed_updates = do g ← get; ws ← collect_work g.by_socket; post_all ws
